-- ===== src/Kafka/Healthz/Laws.antt =====
-- kafka/healthz.go, kafka/consumer_healthz.go: when the endpoints report a degraded service.
use platform_kit.Common.{
  ℕ, ◌<◌, Bool, true, false, ◌||◌, Option, none, some, List, [], ◌∷◌, ◌++◌, map, negsuc, Bool-cases,
  any, any-In, In-any, In, Str, str_eq, ℤ, pos, ltb, ltb_ℤ, ◌≡◌, refl, ◌∙◌, ◌↔◌, ◌⊎◌, inl, inr,
  arith,
}
use platform_kit.Kafka.Registry.{Registry}
use platform_kit.Kafka.Consumer.{TopicHealth}
use platform_kit.Kafka.Consumer.Client.{KafkaConsumer, subscribed_types, health}
use platform_kit.Kafka.Healthz.{
  entry_of, is_degraded, status_of, code_of, Collected, add_subscriptions, collect,
  consumers_healthz_handler, healthz_handler,
}

-- A topic with a failed message, or with a lag above 10,000.
abbrev pub IsDegraded : TopicHealth → Type 0
IsDegraded h = (0 < h.messages_failed) ⊎ ((n : ℕ) × (h.lag ≡ pos n) × (10000 < n))

lag_above : (z : ℤ) → ltb_ℤ (pos 10000) z ≡ true → (n : ℕ) × (z ≡ pos n) × (10000 < n)
lag_above (pos n) e = (n, refl, ground arith)
lag_above (negsuc n) e = absurd (ground arith)

is_degraded_iff : (h : TopicHealth) → (is_degraded h ≡ true) ↔ IsDegraded h
unfolding is_degraded
is_degraded_iff h = (to, from)
  where
    to : (ltb 0 h.messages_failed || ltb_ℤ (pos 10000) h.lag) ≡ true → IsDegraded h
    to e = elim (Bool-cases (ltb 0 h.messages_failed)) [
      | inl t ↦ inl (ground arith)
      | inr f ↦ inr (lag_above h.lag (rw f at e))
    ]

    from : IsDegraded h → (ltb 0 h.messages_failed || ltb_ℤ (pos 10000) h.lag) ≡ true
    from (inl p) = ground arith
    from (inr (n, e, p)) = rw e (ground arith)

code_of-status_of : (b : Bool) → (code_of (status_of b) ≡ 503) ↔ (b ≡ true)
unfolding str_eq
code_of-status_of true = (λ _. refl, λ _. refl)
code_of-status_of false = (λ e. absurd (omega arith), λ e. cc)

-- HealthzHandler answers 503 exactly if some topic of the consumer has a failed message or a lag above
-- 10,000.
pub healthz_handler_iff :
    (r : Registry) (k : KafkaConsumer) (service : Str) (now : ℕ)
    → ((healthz_handler r (some k) service now).0 ≡ 503)
      ↔ ((h : TopicHealth) × In h (health k) × IsDegraded h)
unfolding healthz_handler
healthz_handler_iff r k service now = (to, from)
  where
    to :
        code_of (status_of (any is_degraded (health k))) ≡ 503
        → (h : TopicHealth) × In h (health k) × IsDegraded h
    to e =
        let (h, m, d) = any-In is_degraded (health k) ((code_of-status_of _).0 e) in
        (h, m, (is_degraded_iff h).0 d)

    from :
        (h : TopicHealth) × In h (health k) × IsDegraded h
        → code_of (status_of (any is_degraded (health k))) ≡ 503
    from (h, m, d) =
        (code_of-status_of _).1 (In-any is_degraded (health k) h m ((is_degraded_iff h).1 d))

abbrev consumer_degraded : Option KafkaConsumer → Bool
consumer_degraded none = false
consumer_degraded (some k) = any is_degraded (health k)

collect-degraded :
    (ks : List (Option KafkaConsumer)) (s : Collected)
    → (collect ks s).degraded ≡ s.degraded || any consumer_degraded ks
unfolding collect
collect-degraded [] s = ground arith
collect-degraded (none ∷ ks) s = collect-degraded ks s
collect-degraded (some k ∷ ks) s =
    let ih = collect-degraded ks (record {
      subscriptions = add_subscriptions (subscribed_types k) s.subscriptions;
      consumers = s.consumers ++ map entry_of (health k);
      degraded = s.degraded || any is_degraded (health k);
    }) in
    ground arith

-- ConsumersHealthzHandler answers 503 exactly if some topic of some consumer has a failed message or a lag
-- above 10,000.
pub consumers_healthz_handler_iff :
    (service : Str) (ks : List (Option KafkaConsumer)) (now : ℕ)
    → ((consumers_healthz_handler service ks now).0 ≡ 503) ↔ (
        (k : KafkaConsumer) × In (some k) ks × ((h : TopicHealth) × In h (health k) × IsDegraded h))
unfolding consumers_healthz_handler
consumers_healthz_handler_iff service ks now = (to, from)
  where
    collected : Collected
    collected = collect ks (record { subscriptions = []; consumers = []; degraded = false })

    found :
        (o : Option KafkaConsumer)
        → In o ks
        → consumer_degraded o ≡ true
        → (k : KafkaConsumer) × In (some k) ks
          × ((h : TopicHealth) × In h (health k) × IsDegraded h)
    found none m e = cc
    found (some k) m e =
        let (h, i, d) = any-In is_degraded (health k) e in (k, m, (h, i, (is_degraded_iff h).0 d))

    to :
        code_of (status_of collected.degraded) ≡ 503
        → (k : KafkaConsumer) × In (some k) ks
          × ((h : TopicHealth) × In h (health k) × IsDegraded h)
    to e =
        let d : collected.degraded ≡ true = (code_of-status_of _).0 e in
        let d' : any consumer_degraded ks ≡ true = rw (collect-degraded ks _) at d in
        let (o, m, t) = any-In consumer_degraded ks d' in found o m t

    from :
        (k : KafkaConsumer) × In (some k) ks × ((h : TopicHealth) × In h (health k) × IsDegraded h)
        → code_of (status_of collected.degraded) ≡ 503
    from (k, m, (h, i, d)) =
        let t : any is_degraded (health k) ≡ true =
          In-any is_degraded (health k) h i ((is_degraded_iff h).1 d) in
        (code_of-status_of _).1 (collect-degraded ks _ ∙ In-any consumer_degraded ks (some k) m t)
