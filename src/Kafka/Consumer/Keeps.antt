-- ===== src/Kafka/Consumer/Keeps.antt =====
-- kafka/consumer.go: predicates on the state that the loop's body keeps.
use platform_kit.Common.{
  ℕ, Option, none, some, ◌≡◌, refl, ap, ◌∙◌, Str, if-both, Dict, lookup, lookup-insert_miss, str_eq,
  false, ℤ,
}
use platform_kit.Kafka.Envelope.{CloudEvent, Codec}
use platform_kit.Kafka.Registry.{Registry, SchemaCache}
use platform_kit.Kafka.Consumer.{
  ConsumerConfig, Handler, Failure, Fetched, State, commit, record_success, record_failure,
  send_to_dead_letter, after_retries, run_handler, after_validation, handle, process,
}
use platform_kit.Kafka.Consumer.Fate.{dead-health}

module _ (c : ConsumerConfig) (topic : Str) where
  -- A predicate that each change of the state keeps.
  pub record IsKept (P : State → Type 0) : Type 0 where
    pub committed : (m : Fetched) (s : State) → P s → P (commit m s)
    pub success :
        (t : Str) (offset now : ℕ) (s : State) → P s → P (record_success c topic t offset now s)
    pub failure :
        (t : Str) (offset now : ℕ) (s : State) → P s → P (record_failure c topic t offset now s)
    pub letter :
        (m : Fetched) (t : Str) (n : ℤ) (e : Failure) (s : State)
        → P s
        → P (send_to_dead_letter c topic m t n e s)
    pub calls : (n : ℕ) (s : State) → P s → P (record s { calls = n })
    pub cache : (d : SchemaCache) (s : State) → P s → P (record s { cache = d })

module _ (codec : Codec) (r : Registry) (handlers : Dict Handler) (c : ConsumerConfig) (topic : Str)
    (P : State → Type 0) (keep : IsKept c topic P) where
  after_retries-kept :
      (m : Fetched) (event : CloudEvent) (now : ℕ) (s : State) (o : Option Failure)
      → P s
      → P (after_retries codec r handlers c topic m event now s o)
  after_retries-kept m event now s none h =
      keep.committed m _ (keep.success event.type m.offset now s h)
  after_retries-kept m event now s (some e) h =
      keep.committed m _
        (keep.failure event.type m.offset now _ (keep.letter m event.type c.max_retries e s h))

  run_handler-kept :
      (handler : Handler) (m : Fetched) (event : CloudEvent) (now : ℕ) (s : State)
      → P s
      → P (run_handler codec r handlers c topic handler m event now s)
  unfolding run_handler
  run_handler-kept handler m event now s h = after_retries-kept m event now _ _ (keep.calls _ s h)

  after_validation-kept :
      (handler : Handler) (m : Fetched) (event : CloudEvent) (now : ℕ) (s : State)
      (o : Option Failure)
      → P s
      → P (after_validation codec r handlers c topic handler m event now s o)
  after_validation-kept handler m event now s none h = run_handler-kept handler m event now s h
  after_validation-kept handler m event now s (some e) h =
      keep.committed m _ (keep.failure event.type m.offset now _ (keep.letter m event.type _ e s h))

  handle-kept :
      (m : Fetched) (event : CloudEvent) (now : ℕ) (s : State) (o : Option Handler)
      → P s
      → P (handle codec r handlers c topic m event now s o)
  handle-kept m event now s none h = keep.committed m s h
  handle-kept m event now s (some handler) h =
      if-both P c.disable_schema_validation _ _ (λ _. run_handler-kept handler m event now s h)
        (λ _. after_validation-kept handler m event now _ _ (keep.cache _ s h))

  pub process-kept :
      (m : Fetched) (now : ℕ) (s : State) → P s → P (process codec r handlers c topic m now s)
  unfolding process
  process-kept m now s h =
      let (event, decoded) = codec.unmarshal_event m.value in
      if-both P decoded _ _ (λ _. handle-kept m event now s _ h)
        (λ _. keep.committed m _ (keep.letter m _ _ _ s h))

module _ (c : ConsumerConfig) (topic : Str) where
  -- A topic's loop leaves the health of the other topics alone.
  other_health :
      (other : Str) (s0 : State)
      → str_eq topic other ≡ false
      → IsKept c topic (λ s. lookup other s.health ≡ lookup other s0.health)
  unfolding record_success record_failure
  other_health other s0 n = record {
    committed = λ m s h. h;
    success = λ t offset now s h. lookup-insert_miss topic other _ s.health n ∙ h;
    failure = λ t offset now s h. lookup-insert_miss topic other _ s.health n ∙ h;
    letter = λ m t k e s h. ap (lookup other) (dead-health c topic m t k e s) ∙ h;
    calls = λ k s h. h;
    cache = λ d s h. h;
  }

module _ (codec : Codec) (r : Registry) (handlers : Dict Handler) (c : ConsumerConfig)
    (topic : Str) where
  pub process-other_health :
      (other : Str) (m : Fetched) (now : ℕ) (s : State)
      → str_eq topic other ≡ false
      → lookup other (process codec r handlers c topic m now s).health ≡ lookup other s.health
  process-other_health other m now s n =
      process-kept codec r handlers c topic (λ q. lookup other q.health ≡ lookup other s.health)
        (other_health c topic other s n) m now s refl
