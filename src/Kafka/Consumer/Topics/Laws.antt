-- ===== src/Kafka/Consumer/Topics/Laws.antt =====
-- kafka/consumer.go, Start: what each topic commits while the goroutines interleave.
use mathlib.Core.List.{append_assoc, append-nil}
use platform_kit.Common.{
  true, false, List, [], ◌∷◌, ◌++◌, if◌then◌else◌, Str, str_eq, str_eq_iff, Dict, ◌≡◌, refl, ap,
  ◌∙◌, subst, All, Bool-cases, inl, inr,
}
use platform_kit.Kafka.Envelope.{Codec}
use platform_kit.Kafka.Registry.{Registry}
use platform_kit.Kafka.Consumer.{
  ConsumerConfig, Handler, Fetched, State, Fetch, message, fetch_failed, cancelled,
}
use platform_kit.Kafka.Consumer.Laws.{fetched, process-Bounded}
use platform_kit.Kafka.Consumer.Topics.{System, round, rest_after, Step, turn, Reach, here, next}

-- The messages of a topic.
pub of_topic : Str → List Fetched → List Fetched
of_topic t [] = []
of_topic t (m ∷ ms) = let rest = of_topic t ms in if str_eq m.topic t then m ∷ rest else rest

of_topic-append :
    (t : Str) (ms ns : List Fetched) → of_topic t (ms ++ ns) ≡ of_topic t ms ++ of_topic t ns
unfolding of_topic
of_topic-append t [] ns = refl
of_topic-append t (m ∷ ms) ns =
    let ih = of_topic-append t ms ns in
    elim (Bool-cases (str_eq m.topic t)) [ inl e ↦ rw (e, ih) refl | inr e ↦ rw (e, ih) refl ]

of_topic-own :
    (t : Str) (m : Fetched) (ms : List Fetched)
    → str_eq m.topic t ≡ true
    → of_topic t (ms ++ m ∷ []) ≡ of_topic t ms ++ m ∷ []
unfolding of_topic
of_topic-own t m ms e = of_topic-append t ms (m ∷ []) ∙ ap (λ l. of_topic t ms ++ l) (rw e refl)

of_topic-other :
    (t : Str) (m : Fetched) (ms : List Fetched)
    → str_eq m.topic t ≡ false
    → of_topic t (ms ++ m ∷ []) ≡ of_topic t ms
unfolding of_topic
of_topic-other t m ms n =
    of_topic-append t ms (m ∷ [])
    ∙ ap (λ l. of_topic t ms ++ l) (rw n refl)
    ∙ append-nil (of_topic t ms)

-- A reader of a topic returns messages of that topic.
abbrev pub IsOf : Str → Fetch → Type 0
IsOf t (message m now) = m.topic ≡ t
IsOf t fetch_failed = Unit
IsOf t cancelled = Unit

abbrev pub IsRouted : System → Type 0
IsRouted s = (t : Str) → All (IsOf t) (s.queues t)

module _ (codec : Codec) (r : Registry) (handlers : Dict Handler) (c : ConsumerConfig) where
  rest_after-IsOf :
      (t : Str) (f : Fetch) (fs : List Fetch)
      → All (IsOf t) (f ∷ fs)
      → All (IsOf t) (rest_after f fs)
  rest_after-IsOf t (message m now) fs h = h.1
  rest_after-IsOf t fetch_failed fs h = h.1
  rest_after-IsOf t cancelled fs h = tt

  Step-IsRouted : {s u : System} → Step codec r handlers c s u → IsRouted s → IsRouted u
  Step-IsRouted {s} (turn topic f fs q) h t = elim (Bool-cases (str_eq topic t)) [
    | inl e ↦
        let e' : topic ≡ t = (str_eq_iff topic t).0 e in
        let g : All (IsOf topic) (f ∷ fs) = rw q at (h topic) in
        rw e (subst (λ x. All (IsOf x) (rest_after f fs)) e' (rest_after-IsOf topic f fs g))
    | inr e ↦ rw e (h t)
  ]

  -- What a topic has committed and has still to fetch, in order.
  abbrev pub account : Str → System → List Fetched
  account t s = of_topic t s.shared.committed ++ fetched (s.queues t)

  -- A turn of the topic itself.
  own_turn :
      (t : Str) (f : Fetch) (fs : List Fetch) (s : State)
      → IsOf t f
      → of_topic t (round codec r handlers c t f s).committed ++ fetched (rest_after f fs)
        ≡ of_topic t s.committed ++ fetched (f ∷ fs)
  unfolding round fetched
  own_turn t (message m now) fs s h =
      rw
        (
          (process-Bounded codec r handlers c t m now s).0,
          of_topic-own t m s.committed ((str_eq_iff m.topic t).1 h),
        )
        (append_assoc (of_topic t s.committed) (m ∷ []) (fetched fs))
  own_turn t fetch_failed fs s h = refl
  own_turn t cancelled fs s h = refl

  other_turn :
      (topic t : Str) (f : Fetch) (s : State)
      → IsOf topic f
      → str_eq topic t ≡ false
      → of_topic t (round codec r handlers c topic f s).committed ≡ of_topic t s.committed
  unfolding round
  other_turn topic t (message m now) s h n =
      rw (process-Bounded codec r handlers c topic m now s).0
        (of_topic-other t m s.committed (rw h n))
  other_turn topic t fetch_failed s h n = refl
  other_turn topic t cancelled s h n = refl

  Step-account :
      {s u : System} (t : Str)
      → Step codec r handlers c s u
      → IsRouted s
      → account t u ≡ account t s
  Step-account {s} t (turn topic f fs q) h = elim (Bool-cases (str_eq topic t)) [
    | inl e ↦
        let e' : topic ≡ t = (str_eq_iff topic t).0 e in
        let q' : s.queues t ≡ f ∷ fs = subst (λ x. s.queues x ≡ f ∷ fs) e' q in
        let g : All (IsOf t) (f ∷ fs) = rw q' at (h t) in
        rw (e, e', q') (own_turn t f fs s.shared g.0)
    | inr e ↦
        let g : All (IsOf topic) (f ∷ fs) = rw q at (h topic) in
        rw (e, other_turn topic t f s.shared g.0 e) refl
  ]

  Reach-IsRouted : {s u : System} → IsRouted s → Reach codec r handlers c s u → IsRouted u
  Reach-IsRouted h here = h
  Reach-IsRouted h (next p st) = Step-IsRouted st (Reach-IsRouted h p)

  -- In every state that the goroutines of Start reach, in whatever order they take their turns, the messages
  -- of a topic that are committed, followed by those that its reader has still to return before it is
  -- cancelled, are those of the first state: none is lost, none is committed twice, and they keep their order.
  -- A reader returns messages of its own topic.
  pub Reach-account :
      {s u : System} (t : Str)
      → IsRouted s
      → Reach codec r handlers c s u
      → account t u ≡ account t s
  Reach-account t h here = refl
  Reach-account t h (next p st) = Step-account t st (Reach-IsRouted h p) ∙ Reach-account t h p
