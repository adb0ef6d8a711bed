-- ===== src/Kafka/Consumer/Topics/Counters.antt =====
-- kafka/consumer.go, Start: the health counters of a topic while the goroutines interleave.
use platform_kit.Common.{
  ℕ, ◌+◌, ◌≤◌, Bool, true, false, ◌&&◌, List, [], ◌∷◌, if◌then◌else◌, Str, str_eq, str_eq_iff, Dict,
  lookup, ◌≡◌, refl, ◌∙◌, subst, Option, none, some, arith, Bool-cases, inl, inr,
}
use platform_kit.Kafka.Envelope.{Codec}
use platform_kit.Kafka.Registry.{Registry}
use platform_kit.Kafka.Consumer.{
  ConsumerConfig, Handler, Fetched, FailedMessage, State, TopicHealth, Fetch, message, fetch_failed,
  cancelled, process,
}
use platform_kit.Kafka.Consumer.Keeps.{process-other_health}
use platform_kit.Kafka.Consumer.Fate.{Moves, ok_of, failed_of}
use platform_kit.Kafka.Consumer.Cases.{
  undecodable, unhandled, invalid, handled, exhausted, process-Fate,
}
use platform_kit.Kafka.Consumer.Topics.{System, round, rest_after, Step, turn, Reach, here, next}

abbrev pub counted : Option TopicHealth → ℕ
counted o = ok_of o + failed_of o

abbrev pub has_handler : Option Handler → Bool
has_handler none = false
has_handler (some h) = true

module _ (codec : Codec) (r : Registry) (handlers : Dict Handler) (c : ConsumerConfig) where
  -- The message decodes to an event whose type has a handler.
  abbrev pub is_handled : Fetched → Bool
  is_handled m =
      (codec.unmarshal_event m.value).1
      && has_handler (lookup (codec.unmarshal_event m.value).0.type handlers)

  -- The handled messages before the reader is cancelled.
  pub handled_in : List Fetch → ℕ
  handled_in [] = 0
  handled_in (message m now ∷ fs) = (if is_handled m then 1 else 0) + handled_in fs
  handled_in (fetch_failed ∷ fs) = handled_in fs
  handled_in (cancelled ∷ fs) = 0

  Moves-counted :
      {t : Str} {old : List FailedMessage} {health : Dict TopicHealth} {s' : State}
      {dead : List FailedMessage} {ok failed n : ℕ}
      → Moves c t old health s' dead ok failed
      → ok + failed ≡ n
      → counted (lookup t s'.health) ≡ counted (lookup t health) + n
  Moves-counted v e = omega (arith, v.ok_count, v.failed_count)

  process-counted :
      (t : Str) (m : Fetched) (now : ℕ) (s : State)
      → counted (lookup t (process codec r handlers c t m now s).health)
        ≡ counted (lookup t s.health) + (if is_handled m then 1 else 0)
  process-counted t m now s = elim (process-Fate codec r handlers c t m now s) [
    | undecodable d v _ ↦ rw d (Moves-counted v refl)
    | unhandled d l v _ ↦ rw (d, l) (Moves-counted v refl)
    | invalid h e d l _ _ v _ ↦ rw (d, l) (Moves-counted v refl)
    | handled h k d l _ _ v _ ↦ rw (d, l) (Moves-counted v refl)
    | exhausted h e d l _ _ v _ ↦ rw (d, l) (Moves-counted v refl)
  ]

  process-failed :
      (t : Str) (m : Fetched) (now : ℕ) (s : State)
      → failed_of (lookup t s.health)
        ≤ failed_of (lookup t (process codec r handlers c t m now s).health)
  process-failed t m now s = elim (process-Fate codec r handlers c t m now s) [
    | undecodable d v _ ↦ omega (arith, v.failed_count)
    | unhandled d l v _ ↦ omega (arith, v.failed_count)
    | invalid h e d l _ _ v _ ↦ omega (arith, v.failed_count)
    | handled h k d l _ _ v _ ↦ omega (arith, v.failed_count)
    | exhausted h e d l _ _ v _ ↦ omega (arith, v.failed_count)
  ]

  round-counted :
      (t : Str) (f : Fetch) (fs : List Fetch) (s : State)
      → counted (lookup t (round codec r handlers c t f s).health) + handled_in (rest_after f fs)
        ≡ counted (lookup t s.health) + handled_in (f ∷ fs)
  unfolding round handled_in
  round-counted t (message m now) fs s = omega (arith, process-counted t m now s)
  round-counted t fetch_failed fs s = refl
  round-counted t cancelled fs s = refl

  round-failed :
      (t : Str) (f : Fetch) (s : State)
      → failed_of (lookup t s.health) ≤ failed_of (lookup t (round codec r handlers c t f s).health)
  unfolding round
  round-failed t (message m now) s = process-failed t m now s
  round-failed t fetch_failed s = omega arith
  round-failed t cancelled s = omega arith

  round-other_health :
      (topic t : Str) (f : Fetch) (s : State)
      → str_eq topic t ≡ false
      → lookup t (round codec r handlers c topic f s).health ≡ lookup t s.health
  unfolding round
  round-other_health topic t (message m now) s n =
      process-other_health codec r handlers c topic t m now s n
  round-other_health topic t fetch_failed s n = refl
  round-other_health topic t cancelled s n = refl

  abbrev pub health_account : Str → System → ℕ
  health_account t s = counted (lookup t s.shared.health) + handled_in (s.queues t)

  Step-health_account :
      {s u : System} (t : Str)
      → Step codec r handlers c s u
      → (health_account t u ≡ health_account t s)
        × (failed_of (lookup t s.shared.health) ≤ failed_of (lookup t u.shared.health))
  Step-health_account {s} t (turn topic f fs q) = elim (Bool-cases (str_eq topic t)) [
    | inl e ↦
        let e' : topic ≡ t = (str_eq_iff topic t).0 e in
        let q' : s.queues t ≡ f ∷ fs = subst (λ x. s.queues x ≡ f ∷ fs) e' q in
        rw (e, e', q') (round-counted t f fs s.shared, round-failed t f s.shared)
    | inr e ↦ rw (e, round-other_health topic t f s.shared e) (refl, omega arith)
  ]

  -- In every state that the goroutines of Start reach, in whatever order they take their turns, the health
  -- counters of a topic, together with the messages with a handler that its reader has still to return, add
  -- up to what they were in the first state, and the counter of failures has not gone down.
  pub Reach-health_account :
      {s u : System} (t : Str)
      → Reach codec r handlers c s u
      → (health_account t u ≡ health_account t s)
        × (failed_of (lookup t s.shared.health) ≤ failed_of (lookup t u.shared.health))
  Reach-health_account t here = (refl, omega arith)
  Reach-health_account t (next p st) =
      let (e, le) = Step-health_account t st in
      let (e', le') = Reach-health_account t p in (e ∙ e', omega arith)
