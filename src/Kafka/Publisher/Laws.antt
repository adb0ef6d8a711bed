-- ===== src/Kafka/Publisher/Laws.antt =====
-- What reaches the writer, and when.
use mathlib.Core.List.{append_assoc, append-nil}
use platform_kit.Common.{
  ℕ, Bool, true, false, not, Option, none, some, List, [], ◌∷◌, ◌++◌, ◌≡◌, ◌≢◌, refl, ap, sym,
  subst, some-inj, if-both, ◌∙◌, ◌⊎◌, inl, inr, Str, Bool-cases, if◌then◌else◌,
}
use platform_kit.Common.Json.{Fields}
use platform_kit.Kafka.Event.{validate_event_type, topic_from_event_type}
use platform_kit.Kafka.Envelope.{EventData, Event, Codec, Built, built, not_built}
use platform_kit.Kafka.Registry.{
  Registry, PayloadError, lookup_event, validate_event_payload, validate_event_entry, unregistered,
}
use platform_kit.Kafka.Publisher.{
  PublisherConfig, Message, PublishError, write_failed, batch_rejected, State, Prepared, ready,
  stopped, encode, prepare, prepare_checked, check_payload, rejected, invalid_type, send_one,
  publish, batch_next, batch_from, publish_batch,
}

module _ (codec : Codec) (ids : ℕ → Str) (now : ℕ) (r : Registry)
    (generic : EventData → Option Fields) (write : List Message → Bool) (c : PublisherConfig) where
  -- The message of an event: its topic, its key, and that the event's type is valid.
  pub record Carries (e : Event) (m : Message) : Type 0 where
    pub topic : m.topic ≡ topic_from_event_type c.topic_prefix e.type
    pub key : m.key ≡ e.payload.resource_id
    pub valid : validate_event_type e.type ≡ true

  abbrev pub CarriesAll : List Event → List Message → Type 0
  CarriesAll [] [] = Unit {0}
  CarriesAll [] (m ∷ ms) = ⊥
  CarriesAll (e ∷ es) [] = ⊥
  CarriesAll (e ∷ es) (m ∷ ms) = Carries e m × CarriesAll es ms

  abbrev Outcome : Event → State → Prepared → Type 0
  Outcome e s (stopped err s') = (s'.writes ≡ s.writes) × (err ≢ write_failed)
  Outcome e s (ready m s') = (s'.writes ≡ s.writes) × Carries e m

  encode-Outcome :
      (e : Event) (s s' : State) (b : Built)
      → s'.writes ≡ s.writes
      → validate_event_type e.type ≡ true
      → Outcome e s (encode codec ids now r generic write c e.type e.payload s' b)
  encode-Outcome e s s' (not_built err n) q v = (q, λ p. cc)
  encode-Outcome e s s' (built ce value n) q v = (q, record { topic = refl; key = refl; valid = v })

  checked-Outcome :
      (wrap : PayloadError → PublishError) (e : Event) (s s' : State) (o : Option PayloadError)
      → ((p : PayloadError) → wrap p ≢ write_failed)
      → s'.writes ≡ s.writes
      → validate_event_type e.type ≡ true
      → Outcome e s (prepare_checked codec ids now r generic write c wrap e s' o)
  checked-Outcome wrap e s s' (some p) w q v = (q, w p)
  checked-Outcome wrap e s s' none w q v = encode-Outcome e s s' _ q v

  prepare-Outcome :
      (wrap : PayloadError → PublishError) (e : Event) (s : State)
      → ((p : PayloadError) → wrap p ≢ write_failed)
      → Outcome e s (prepare codec ids now r generic write c wrap e s)
  unfolding prepare
  prepare-Outcome wrap e s w = elim (Bool-cases (validate_event_type e.type)) [
    | inl v ↦ rw v (checked-Outcome wrap e s _ _ w refl v)
    | inr v ↦ rw v (refl, λ p. cc)
  ]

  -- Nothing was written and the error is no failure of the writer; or one write carries the events,
  -- and its result is the result.
  abbrev pub AllOrNothing : List Event → State → Option PublishError × State → Type 0
  AllOrNothing es s (err, s') =
      ((s'.writes ≡ s.writes) × (err ≢ none) × (err ≢ some write_failed))
      ⊎ ((ms : List Message) × (s'.writes ≡ s.writes ++ ms ∷ [])
          × CarriesAll es ms
          × (err ≡ (if write ms then none else some write_failed)))

  -- The events done so far are `before`, carried by `messages`.
  CarriesAll-append :
      (before : List Event) (messages : List Message) (e : Event) (m : Message)
      → CarriesAll before messages
      → Carries e m
      → CarriesAll (before ++ e ∷ []) (messages ++ m ∷ [])
  CarriesAll-append [] [] e m h k = (k, tt)
  CarriesAll-append (e' ∷ es) (m' ∷ ms) e m (h, hs) k = (h, CarriesAll-append es ms e m hs k)
  CarriesAll-append [] (m' ∷ ms) e m h k = absurd h
  CarriesAll-append (e' ∷ es) [] e m h k = absurd h

  batch_from-AllOrNothing :
      (before es : List Event) (messages : List Message) (s₀ s : State)
      → s.writes ≡ s₀.writes
      → CarriesAll before messages
      → AllOrNothing (before ++ es) s₀ (batch_from codec ids now r generic write c es messages s)
  unfolding batch_from
  batch_from-AllOrNothing before [] messages s₀ s q h = inr (
    messages,
    ap (λ w. w ++ messages ∷ []) q,
    subst (λ l. CarriesAll l messages) (sym (append-nil before)) h,
    refl,
  )
  batch_from-AllOrNothing before (e ∷ es) messages s₀ s q h =
      go (prepare codec ids now r generic write c (batch_rejected e.type) e s)
        (prepare-Outcome (batch_rejected e.type) e s (λ p k. cc))
        (batch_from-AllOrNothing (before ++ e ∷ []) es)
    where
      go :
          (p : Prepared)
          → Outcome e s p
          → ((ms : List Message) (s₀ s' : State)
              → s'.writes ≡ s₀.writes
              → CarriesAll (before ++ e ∷ []) ms
              → AllOrNothing
                  ((before ++ e ∷ []) ++ es)
                  s₀
                  (batch_from codec ids now r generic write c es ms s'))
          → AllOrNothing (before ++ e ∷ es) s₀ (
              batch_next codec ids now r generic write c
                (batch_from codec ids now r generic write c es)
                messages
                p)
      go (stopped err s') (w, n) rest = inl (w ∙ q, λ k. cc, λ k. n (some-inj k))
      go (ready m s') (w, k) rest =
          subst
            (λ l.
              AllOrNothing l s₀
                (batch_from codec ids now r generic write c es (messages ++ m ∷ []) s'))
            (append_assoc before (e ∷ []) es)
            (rest (messages ++ m ∷ []) s₀ s' (w ∙ q) (CarriesAll-append before messages e m h k))

  -- PublishBatch of at least one event is all or nothing: either it returns an error other than the
  -- writer's and nothing is written, or it makes one write, with one message for each event in
  -- order, each of a valid type, to the event's topic under its resource id, and returns what the
  -- write returns.
  pub publish_batch-AllOrNothing :
      (e : Event) (es : List Event) (s : State)
      → AllOrNothing (e ∷ es) s (publish_batch codec ids now r generic write c (e ∷ es) s)
  unfolding publish_batch
  publish_batch-AllOrNothing e es s = batch_from-AllOrNothing [] (e ∷ es) [] s s refl tt

  send_one-AllOrNothing :
      (e : Event) (s : State) (p : Prepared)
      → Outcome e s p
      → AllOrNothing (e ∷ []) s (send_one codec ids now r generic write c p)
  send_one-AllOrNothing e s (stopped err s') (w, n) = inl (w, λ k. cc, λ k. n (some-inj k))
  send_one-AllOrNothing e s (ready m s') (w, k) =
      inr (m ∷ [], ap (λ l. l ++ (m ∷ []) ∷ []) w, (k, tt), refl)

  -- Publish is all or nothing, like PublishBatch of the one event without an idempotency key.
  pub publish-AllOrNothing :
      (t : Str) (d : EventData) (s : State)
      → AllOrNothing
          (record { type = t; payload = d; idempotency_key = [] } ∷ [])
          s
          (publish codec ids now r generic write c t d s)
  unfolding publish
  publish-AllOrNothing t d s =
      let e : Event = record { type = t; payload = d; idempotency_key = [] } in
      send_one-AllOrNothing e s _ (prepare-Outcome rejected e s (λ p k. cc))

  abbrev Stops : State → Prepared → Type 0
  Stops s p = (err : PublishError) × (s' : State) × (p ≡ stopped err s') × (s'.writes ≡ s.writes)

  payload_unregistered :
      (t : Str) (d : EventData) (s : State)
      → c.disable_schema_validation ≡ false
      → lookup_event r t ≡ none
      → check_payload codec ids now r generic write c t d s.cache ≡ (some (unregistered t), s.cache)
  unfolding validate_event_payload
  payload_unregistered t d s off l =
      ap
        (λ b.
          if b
          then (none, s.cache)
          else validate_event_payload codec.parse_schema r t (generic d) s.cache)
        off
      ∙ ap (validate_event_entry codec.parse_schema t (generic d) s.cache) l

  prepare_unregistered :
      (e : Event) (s : State)
      → c.disable_schema_validation ≡ false
      → lookup_event r e.type ≡ none
      → Stops s (prepare codec ids now r generic write c rejected e s)
  unfolding prepare
  prepare_unregistered e s off l =
      if-both (Stops s) (not (validate_event_type e.type)) _ _
        (λ b. (invalid_type e.type, s, refl, refl))
        (λ b. (
          rejected (unregistered e.type),
          record s { cache = s.cache },
          ap
              (λ x.
                prepare_checked codec ids now r generic write c rejected e
                  (record s { cache = x.1 }) x.0)
              (payload_unregistered e.type e.payload s off l),
          refl,
        ))

  -- With validation on, Publish of an event whose type is not registered returns an error and
  -- writes nothing.
  pub publish_unregistered :
      (t : Str) (d : EventData) (s : State)
      → c.disable_schema_validation ≡ false
      → lookup_event r t ≡ none
      → ((publish codec ids now r generic write c t d s).0 ≢ none)
        × ((publish codec ids now r generic write c t d s).1.writes ≡ s.writes)
  unfolding publish
  publish_unregistered t d s off l =
      let (err, s', p, w) =
        prepare_unregistered (record { type = t; payload = d; idempotency_key = [] }) s off l in
      rw p (λ k. cc, w)
