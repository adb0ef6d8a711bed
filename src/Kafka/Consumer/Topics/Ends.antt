-- ===== src/Kafka/Consumer/Topics/Ends.antt =====
-- kafka/consumer.go, Start: how many turns the goroutines take.
use platform_kit.Common.{
  ℕ, suc, ◌+◌, ◌≤◌, true, List, [], ◌∷◌, if◌then◌else◌, Str, str_eq, str_eq_iff, Dict, ◌≡◌, subst,
  arith, Bool-cases, inl, inr, any, length, ◌⊎◌,
}
use platform_kit.Kafka.Envelope.{Codec}
use platform_kit.Kafka.Registry.{Registry}
use platform_kit.Kafka.Consumer.{ConsumerConfig, Handler, Fetch, message, fetch_failed, cancelled}
use platform_kit.Kafka.Consumer.Topics.{
  System, with_queue, rest_after, Step, turn, Reach, here, next,
}

-- What the readers of these topics have still to return.
pub pending : List Str → (Str → List Fetch) → ℕ
pending [] queues = 0
pending (t ∷ ts) queues = length (queues t) + pending ts queues

-- A topic with something to return is in the list.
abbrev pub IsCovered : List Str → System → Type 0
IsCovered ts s = (t : Str) → (s.queues t ≡ []) ⊎ (any (str_eq t) ts ≡ true)

length-rest_after : (f : Fetch) (fs : List Fetch) → length (rest_after f fs) ≤ length fs
length-rest_after (message m now) fs = omega arith
length-rest_after fetch_failed fs = omega arith
length-rest_after cancelled fs = omega arith

module _ (topic : Str) (f : Fetch) (fs : List Fetch) (queues : Str → List Fetch)
    (q : queues topic ≡ f ∷ fs) where
  shorter :
      (t : Str)
      → length (with_queue topic (rest_after f fs) queues t) + (if str_eq topic t then 1 else 0)
        ≤ length (queues t)
  shorter t = elim (Bool-cases (str_eq topic t)) [
    | inl e ↦
        let q' : queues t ≡ f ∷ fs = subst (λ x. queues x ≡ f ∷ fs) ((str_eq_iff topic t).0 e) q in
        rw (e, q') (omega (arith, length-rest_after f fs))
    | inr e ↦ rw e (omega arith)
  ]

  pending-turn :
      (ts : List Str)
      → pending ts (with_queue topic (rest_after f fs) queues)
          + (if any (str_eq topic) ts then 1 else 0)
        ≤ pending ts queues
  unfolding pending
  pending-turn [] = omega arith
  pending-turn (t ∷ ts) = ground (arith, shorter t, pending-turn ts)

module _ (codec : Codec) (r : Registry) (handlers : Dict Handler) (c : ConsumerConfig)
    (ts : List Str) where
  pub Step-pending :
      {s u : System}
      → Step codec r handlers c s u
      → IsCovered ts s
      → pending ts u.queues + 1 ≤ pending ts s.queues
  Step-pending {s} (turn topic f fs q) h = elim (h topic) [
    | inl e ↦ cc
    | inr e ↦ rw e at (pending-turn topic f fs s.queues q ts)
  ]

  pub Step-IsCovered :
      {s u : System} → Step codec r handlers c s u → IsCovered ts s → IsCovered ts u
  Step-IsCovered {s} (turn topic f fs q) h t = elim (Bool-cases (str_eq topic t)) [
    | inl e ↦ elim (h topic) [
      | inl e' ↦ cc
      | inr e' ↦ inr (subst (λ x. any (str_eq x) ts ≡ true) ((str_eq_iff topic t).0 e) e')
    ]
    | inr e ↦ rw e (h t)
  ]

  -- The number of turns.
  unfoldable pub turns : {s u : System} → Reach codec r handlers c s u → ℕ
  turns here = 0
  turns (next p st) = suc (turns p)

  pub Reach-IsCovered :
      {s u : System} → IsCovered ts s → Reach codec r handlers c s u → IsCovered ts u
  Reach-IsCovered h here = h
  Reach-IsCovered h (next p st) = Step-IsCovered st (Reach-IsCovered h p)

  -- Whatever the order of the turns, the turns that the goroutines of Start have taken and the
  -- results that the readers of the listed topics have left are together no more than the results
  -- at first, if every topic with results is in the list.
  pub turns-bound :
      {s u : System} (p : Reach codec r handlers c s u)
      → IsCovered ts s
      → turns p + pending ts u.queues ≤ pending ts s.queues
  unfolding turns
  turns-bound here h = omega arith
  turns-bound (next p st) h = omega (arith, turns-bound p h, Step-pending st (Reach-IsCovered h p))
