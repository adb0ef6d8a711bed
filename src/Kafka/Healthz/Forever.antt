-- ===== src/Kafka/Healthz/Forever.antt =====
-- kafka/healthz.go: the endpoint after a failure.
use platform_kit.Common.{
  ℕ, ◌<◌, ◌≤◌, some, List, [], ◌∷◌, map, In, if-both, Str, str_eq, Dict, lookup, ◌≡◌, refl, inl,
  inr, arith, Bool-cases,
}
use platform_kit.Kafka.Envelope.{Codec}
use platform_kit.Kafka.Registry.{Registry}
use platform_kit.Kafka.Consumer.{TopicHealth}
use platform_kit.Kafka.Consumer.Client.{Reader, KafkaConsumer, with_lag, health}
use platform_kit.Kafka.Consumer.Fate.{failed_of}
use platform_kit.Kafka.Consumer.Topics.{System, Reach}
use platform_kit.Kafka.Consumer.Topics.Counters.{Reach-health_account}
use platform_kit.Kafka.Healthz.{healthz_handler}
use platform_kit.Kafka.Healthz.Laws.{healthz_handler_iff}

with_lag-failed :
    (rs : List Reader) (h : TopicHealth) → (with_lag rs h).messages_failed ≡ h.messages_failed
with_lag-failed [] h = refl
with_lag-failed (r ∷ rs) h =
    if-both (λ (x : TopicHealth). x.messages_failed ≡ h.messages_failed) (str_eq r.topic h.topic) _
      _ (λ _. refl) (λ _. with_lag-failed rs h)

-- A failure that the map counts is in the snapshot.
snapshot-failed :
    (t : Str) (rs : List Reader) (d : Dict TopicHealth)
    → 0 < failed_of (lookup t d)
    → (h : TopicHealth) × In h (map (λ (e : Str × TopicHealth). with_lag rs e.1) d)
      × (0 < h.messages_failed)
unfolding lookup
snapshot-failed t rs [] p = absurd (omega (arith, p))
snapshot-failed t rs ((j, h) ∷ d) p = elim (Bool-cases (str_eq j t)) [
  | inl e ↦
      let p' : 0 < h.messages_failed = rw e at p in
      (with_lag rs h, inl refl, omega (arith, with_lag-failed rs h))
  | inr e ↦
      let p' : 0 < failed_of (lookup t d) = rw e at p in
      let (g, m, q) = snapshot-failed t rs d p' in (g, inr m, q)
]

module _ (codec : Codec) (r : Registry) where
  -- Once a topic of a consumer has a failed message, /healthz/events answers 503 in every state
  -- that the goroutines of the consumer reach from there, however many messages succeed.
  pub healthz_handler_forever :
      (k : KafkaConsumer) (s u : System) (t service : Str) (now : ℕ)
      → s.shared ≡ k.state
      → 0 < failed_of (lookup t k.state.health)
      → Reach codec r k.handlers k.config s u
      → (healthz_handler r (some (record k { state = u.shared })) service now).0 ≡ 503
  unfolding health
  healthz_handler_forever k s u t service now e p reach =
      let le : failed_of (lookup t s.shared.health) ≤ failed_of (lookup t u.shared.health) =
        (Reach-health_account codec r k.handlers k.config t reach).1 in
      let le' : failed_of (lookup t k.state.health) ≤ failed_of (lookup t u.shared.health) =
        rw e at le in
      let (h, m, q) = snapshot-failed t k.readers u.shared.health (omega arith) in
      (healthz_handler_iff r (record k { state = u.shared }) service now).1 (h, m, inl q)
