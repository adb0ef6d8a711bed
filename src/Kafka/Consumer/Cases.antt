-- ===== src/Kafka/Consumer/Cases.antt =====
-- kafka/consumer.go: the fates of a message.
use platform_kit.Common.{
  ℕ, ◌+◌, Bool, true, false, Option, none, some, [], ◌∷◌, ◌≡◌, refl, sym, subst, ◌⊎◌, inl, inr,
  arith, Str, if-both, Dict, lookup, pos, pos_part, ℤ,
}
use platform_kit.Kafka.Envelope.{CloudEvent, Codec}
use platform_kit.Kafka.Registry.{Registry, SchemaCache}
use platform_kit.Kafka.Consumer.{
  ConsumerConfig, Handler, Failure, nothing_tried, unmarshal_failed, Fetched, State,
  send_to_dead_letter, record_success, record_failure, after_retries, run_handler, after_validation,
  handle, validate_message_payload, process,
}
use platform_kit.Kafka.Consumer.Retry.{FirstSuccess, AllFail, retry_cases}
use platform_kit.Kafka.Consumer.Fate.{
  Moves, letter, commit-Moves, success-Moves, failure-Moves, letter-Moves, same_letters,
}

module _ (codec : Codec) (r : Registry) (handlers : Dict Handler) (c : ConsumerConfig) (topic : Str)
    (m : Fetched) where
  abbrev pub decoded : Bool
  decoded = (codec.unmarshal_event m.value).1

  abbrev pub event : CloudEvent
  event = (codec.unmarshal_event m.value).0

  -- The payload is not checked, or passes the check.
  abbrev pub IsAccepted : State → Type 0
  IsAccepted s =
      (c.disable_schema_validation ≡ true)
      ⊎ ((validate_message_payload codec r handlers c topic event s.cache).0 ≡ none)

  abbrev pub rounds : ℕ
  rounds = pos_part c.max_retries

  pub data Fate (s s' : State) : Type 0 where
    undecodable :
        decoded ≡ false
        → Moves c topic s.dead s.health s' (letter c topic m [] (pos 0) unmarshal_failed ∷ []) 0 0
        → s'.calls ≡ s.calls
        → Fate s s'
    unhandled :
        decoded ≡ true
        → lookup event.type handlers ≡ none
        → Moves c topic s.dead s.health s' [] 0 0
        → s'.calls ≡ s.calls
        → Fate s s'
    invalid :
        (h : Handler) (e : Failure)
        → decoded ≡ true
        → lookup event.type handlers ≡ some h
        → c.disable_schema_validation ≡ false
        → (validate_message_payload codec r handlers c topic event s.cache).0 ≡ some e
        → Moves c topic s.dead s.health s' (letter c topic m event.type (pos 0) e ∷ []) 0 1
        → s'.calls ≡ s.calls
        → Fate s s'
    handled :
        (h : Handler) (k : ℕ)
        → decoded ≡ true
        → lookup event.type handlers ≡ some h
        → IsAccepted s
        → FirstSuccess h event s.calls rounds k
        → Moves c topic s.dead s.health s' [] 1 0
        → s'.calls ≡ s.calls + k + 1
        → Fate s s'
    exhausted :
        (h : Handler) (e : Failure)
        → decoded ≡ true
        → lookup event.type handlers ≡ some h
        → IsAccepted s
        → AllFail h event s.calls rounds
        → Moves c topic s.dead s.health s' (letter c topic m event.type c.max_retries e ∷ []) 0 1
        → s'.calls ≡ s.calls + rounds
        → Fate s s'

  success_calls :
      (t : Str) (now : ℕ) (s : State) → (record_success c topic t m.offset now s).calls ≡ s.calls
  unfolding record_success
  success_calls t now s = refl

  dead_calls :
      (t : Str) (n : ℤ) (e : Failure) (s : State)
      → (send_to_dead_letter c topic m t n e s).calls ≡ s.calls
  unfolding send_to_dead_letter
  dead_calls t n e s = ground arith

  failure_calls :
      (now : ℕ) (t : Str) (n : ℤ) (e : Failure) (s : State)
      → (record_failure c topic t m.offset now (send_to_dead_letter c topic m t n e s)).calls
        ≡ s.calls
  unfolding record_failure
  failure_calls now t n e s = dead_calls t n e s

  abbrev with : State → SchemaCache → State
  with s cache = record s { cache = cache }

  run-Fate :
      (h : Handler) (now : ℕ) (s : State) (cache : SchemaCache)
      → decoded ≡ true
      → lookup event.type handlers ≡ some h
      → IsAccepted s
      → Fate s (run_handler codec r handlers c topic h m event now (with s cache))
  unfolding run_handler
  run-Fate h now s cache d l a =
      let after = λ (x : Option Failure × ℕ).
        after_retries codec r handlers c topic m event now (record s { cache = cache; calls = x.1 })
          x.0 in
      elim (retry_cases h event rounds s.calls nothing_tried) [
        | inl (k, f, q) ↦
            subst (λ x. Fate s (after x)) (sym q)
              (handled h k d l a f
                (commit-Moves c topic m (
                  success-Moves c topic event.type m.offset now
                    (record s { cache = cache; calls = s.calls + k + 1 })))
                (success_calls event.type now
                  (record s { cache = cache; calls = s.calls + k + 1 })))
        | inr (f, (e, q)) ↦
            subst (λ x. Fate s (after x)) (sym q)
              (exhausted h e d l a f
                (commit-Moves c topic m (
                  failure-Moves c topic m event.type c.max_retries e now
                    (record s { cache = cache; calls = s.calls + rounds })))
                (failure_calls now event.type c.max_retries e
                  (record s { cache = cache; calls = s.calls + rounds })))
      ]

  validated-Fate :
      (h : Handler) (now : ℕ) (s : State) (cache : SchemaCache) (o : Option Failure)
      → decoded ≡ true
      → lookup event.type handlers ≡ some h
      → c.disable_schema_validation ≡ false
      → (validate_message_payload codec r handlers c topic event s.cache).0 ≡ o
      → Fate s (after_validation codec r handlers c topic h m event now (with s cache) o)
  validated-Fate h now s cache none d l off q = run-Fate h now s cache d l (inr q)
  validated-Fate h now s cache (some e) d l off q =
      invalid h e d l off q
        (commit-Moves c topic m (failure-Moves c topic m event.type (pos 0) e now (with s cache)))
        (failure_calls now event.type (pos 0) e (with s cache))

  handle-Fate :
      (now : ℕ) (s : State) (o : Option Handler)
      → decoded ≡ true
      → lookup event.type handlers ≡ o
      → Fate s (handle codec r handlers c topic m event now s o)
  handle-Fate now s none d l =
      unhandled d l
        (record {
          letters = same_letters c topic s.dead;
          ok_count = omega arith;
          failed_count = omega arith;
        })
        refl
  handle-Fate now s (some h) d l =
      if-both (Fate s) c.disable_schema_validation _ _ (λ on. run-Fate h now s s.cache d l (inl on))
        (λ off.
          let (e, cache) = validate_message_payload codec r handlers c topic event s.cache in
          validated-Fate h now s cache e d l off refl)

  -- Every message has one of the five fates: dead-lettered as undecodable; passed over without a
  -- handler; dead-lettered and counted as failed because its payload is invalid; counted as ok,
  -- after the first handler call that succeeds within MaxRetries; or dead-lettered with MaxRetries
  -- and counted as failed, after all MaxRetries calls have failed. A message is dead-lettered at
  -- most once, only if a DeadLetterFunc is set, and never if it is counted as ok.
  pub process-Fate : (now : ℕ) (s : State) → Fate s (process codec r handlers c topic m now s)
  unfolding process
  process-Fate now s =
      if-both (Fate s) decoded _ _ (λ d. handle-Fate now s _ d refl)
        (λ d.
          undecodable d
            (commit-Moves c topic m (letter-Moves c topic m [] (pos 0) unmarshal_failed s))
            (dead_calls [] (pos 0) unmarshal_failed s))
