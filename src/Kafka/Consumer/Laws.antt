-- ===== src/Kafka/Consumer/Laws.antt =====
-- kafka/consumer.go: what the loop commits.
use mathlib.Core.List.{append_assoc, append-nil}
use platform_kit.Common.{
  ℕ, ◌+◌, ◌≤◌, Option, none, some, List, [], ◌∷◌, ◌++◌, ◌≡◌, refl, sym, ap, subst, ◌∙◌, inl, inr,
  arith, Str, Bool-cases, if-both, Dict, pos, pos_part, ℤ,
}
use platform_kit.Kafka.Envelope.{CloudEvent, Codec}
use platform_kit.Kafka.Registry.{Registry}
use platform_kit.Kafka.Consumer.{
  ConsumerConfig, Handler, Failure, nothing_tried, Fetched, State, Fetch, message, fetch_failed,
  cancelled, commit, record_success, record_failure, send_to_dead_letter, after_retries,
  run_handler, after_validation, handle, validate_message_payload, process, consume,
}
use platform_kit.Kafka.Consumer.Retry.{retry_cases}

-- The messages fetched before the loop is cancelled.
unfoldable pub fetched : List Fetch → List Fetched
fetched [] = []
fetched (message m now ∷ fs) = m ∷ fetched fs
fetched (fetch_failed ∷ fs) = fetched fs
fetched (cancelled ∷ fs) = []

module _ (c : ConsumerConfig) (topic : Str) where
  dead-committed :
      (m : Fetched) (t : Str) (n : ℤ) (e : Failure) (s : State)
      → (send_to_dead_letter c topic m t n e s).committed ≡ s.committed
  unfolding send_to_dead_letter
  dead-committed m t n e s = ground arith

  dead-calls :
      (m : Fetched) (t : Str) (n : ℤ) (e : Failure) (s : State)
      → (send_to_dead_letter c topic m t n e s).calls ≡ s.calls
  unfolding send_to_dead_letter
  dead-calls m t n e s = ground arith

module _ (codec : Codec) (r : Registry) (handlers : Dict Handler) (c : ConsumerConfig)
    (topic : Str) where
  -- The message is committed once, and the handler is called at most max_retries times.
  abbrev Bounded : Fetched → State → State → Type 0
  Bounded m s s' =
      (s'.committed ≡ s.committed ++ m ∷ []) × (s'.calls ≤ s.calls + pos_part c.max_retries)

  after_retries-Bounded :
      (m : Fetched) (event : CloudEvent) (now calls : ℕ) (s : State) (o : Option Failure)
      → calls ≤ s.calls + pos_part c.max_retries
      → Bounded m s
          (after_retries codec r handlers c topic m event now (record s { calls = calls }) o)
  unfolding record_success record_failure
  after_retries-Bounded m event now calls s none le = (refl, le)
  after_retries-Bounded m event now calls s (some e) le = (
    ap (λ l. l ++ m ∷ [])
        (dead-committed c topic m event.type c.max_retries e (record s { calls = calls })),
    subst (λ k. k ≤ s.calls + pos_part c.max_retries)
        (sym (dead-calls c topic m event.type c.max_retries e (record s { calls = calls }))) le,
  )

  run_handler-Bounded :
      (h : Handler) (m : Fetched) (event : CloudEvent) (now : ℕ) (s : State)
      → Bounded m s (run_handler codec r handlers c topic h m event now s)
  unfolding run_handler
  run_handler-Bounded h m event now s =
      let n = pos_part c.max_retries in
      after_retries-Bounded m event now _ s _ (elim (retry_cases h event n s.calls nothing_tried) [
        | inl (k, f, q) ↦
            subst (λ (x : Option Failure × ℕ). x.1 ≤ s.calls + n) (sym q) (omega (arith, f.within))
        | inr (f, (e, q)) ↦
            subst (λ (x : Option Failure × ℕ). x.1 ≤ s.calls + n) (sym q) (omega arith)
      ])

  -- A dead-lettered message that is committed with no handler call.
  refused-Bounded :
      (m : Fetched) (t : Str) (e : Failure) (s : State)
      → Bounded m s (commit m (send_to_dead_letter c topic m t (pos 0) e s))
  refused-Bounded m t e s = (
    ap (λ l. l ++ m ∷ []) (dead-committed c topic m t (pos 0) e s),
    subst (λ k. k ≤ s.calls + pos_part c.max_retries) (sym (dead-calls c topic m t (pos 0) e s))
        (omega arith),
  )

  after_validation-Bounded :
      (h : Handler) (m : Fetched) (event : CloudEvent) (now : ℕ) (s : State) (o : Option Failure)
      → Bounded m s (after_validation codec r handlers c topic h m event now s o)
  unfolding record_failure
  after_validation-Bounded h m event now s none = run_handler-Bounded h m event now s
  after_validation-Bounded h m event now s (some e) = refused-Bounded m event.type e s

  handle-Bounded :
      (m : Fetched) (event : CloudEvent) (now : ℕ) (s : State) (o : Option Handler)
      → Bounded m s (handle codec r handlers c topic m event now s o)
  handle-Bounded m event now s none = (refl, omega arith)
  handle-Bounded m event now s (some h) =
      if-both (Bounded m s) c.disable_schema_validation _ _
        (λ d. run_handler-Bounded h m event now s)
        (λ d.
          let (e, cache) = validate_message_payload codec r handlers c topic event s.cache in
          after_validation-Bounded h m event now (record s { cache = cache }) e)

  -- Each message, whatever becomes of it, is committed exactly once, and takes at most MaxRetries
  -- handler calls (none if MaxRetries is negative).
  pub process-Bounded :
      (m : Fetched) (now : ℕ) (s : State)
      → ((process codec r handlers c topic m now s).committed ≡ s.committed ++ m ∷ [])
        × ((process codec r handlers c topic m now s).calls ≤ s.calls + pos_part c.max_retries)
  unfolding process
  process-Bounded m now s = elim (Bool-cases (codec.unmarshal_event m.value).1) [
    | inl d ↦ rw d (handle-Bounded m (codec.unmarshal_event m.value).0 now s _)
    | inr d ↦ rw d (refused-Bounded m [] _ s)
  ]

  -- The loop commits exactly the messages that it fetched before it was cancelled, each once, in the
  -- order of the fetches.
  pub consume-committed :
      (fs : List Fetch) (s : State)
      → (consume codec r handlers c topic fs s).committed ≡ s.committed ++ fetched fs
  unfolding consume fetched
  consume-committed [] s = sym (append-nil s.committed)
  consume-committed (message m now ∷ fs) s =
      consume-committed fs (process codec r handlers c topic m now s)
      ∙ ap (λ l. l ++ fetched fs) (process-Bounded m now s).0
      ∙ append_assoc s.committed (m ∷ []) (fetched fs)
  consume-committed (fetch_failed ∷ fs) s = consume-committed fs s
  consume-committed (cancelled ∷ fs) s = sym (append-nil s.committed)
