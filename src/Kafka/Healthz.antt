-- ===== src/Kafka/Healthz.antt =====
-- kafka/healthz.go and kafka/consumer_healthz.go: the health endpoints over the consumers.
pub mod Laws
pub mod Forever
use platform_kit.Common.{
  ℕ, Bool, true, false, ◌||◌, Option, none, some, List, [], ◌∷◌, ◌++◌, map, any, length,
  if◌then◌else◌, Str, lit, str_eq, ℤ, pos, ltb, ltb_ℤ,
}
use platform_kit.Kafka.Registry.{Registry, all_events}
use platform_kit.Kafka.Consumer.{TopicHealth}
use platform_kit.Kafka.Consumer.Client.{KafkaConsumer, subscribed_types, health}

-- t.MessagesFailed > 0 || t.Lag > 10_000
unfoldable pub is_degraded : TopicHealth → Bool
is_degraded h = ltb 0 h.messages_failed || ltb_ℤ (pos 10000) h.lag

pub record HealthzResponse : Type 0 where
  pub status : Str
  pub service : Str
  pub registered_types : ℕ
  pub subscriptions : List Str
  pub topics : List TopicHealth
  pub generated_at : ℕ

abbrev pub status_of : Bool → Str
status_of degraded = if degraded then lit "degraded" else lit "ok"

-- http.StatusServiceUnavailable, or the default.
abbrev pub code_of : Str → ℕ
code_of status = if str_eq status (lit "ok") then 200 else 503

abbrev pub report : Registry → Str → ℕ → List Str → List TopicHealth → HealthzResponse
report r service now subscriptions topics = record {
  status = status_of (any is_degraded topics);
  service = service;
  registered_types = length (all_events r);
  subscriptions = subscriptions;
  topics = topics;
  generated_at = now;
}

abbrev pub response_of : Registry → Str → ℕ → Option KafkaConsumer → HealthzResponse
response_of r service now none = report r service now [] []
response_of r service now (some k) = report r service now (subscribed_types k) (health k)

-- HealthzHandler: the status code and the body; none for a nil consumer.
unfoldable pub healthz_handler :
    Registry → Option KafkaConsumer → (service : Str) → (now : ℕ) → ℕ × HealthzResponse
unfolding all_events subscribed_types health is_degraded
healthz_handler r consumer service now =
    let response = response_of r service now consumer in (code_of response.status, response)

-- ConsumerLagEntry; the partition is never set.
pub record ConsumerLagEntry : Type 0 where
  pub topic : Str
  pub partition : ℕ
  pub lag : ℤ
  pub last_commit : ℕ
  pub last_event_type : Str
  pub group_id : Str
  pub messages_ok : ℕ
  pub messages_failed : ℕ

abbrev pub entry_of : TopicHealth → ConsumerLagEntry
entry_of h = record {
  topic = h.topic;
  partition = 0;
  lag = h.lag;
  last_commit = h.last_processed;
  last_event_type = h.last_event_type;
  group_id = h.group_id;
  messages_ok = h.messages_ok;
  messages_failed = h.messages_failed;
}

-- What the loop over the consumers has collected; seenSub holds the subscriptions.
pub record Collected : Type 0 where
  pub subscriptions : List Str
  pub consumers : List ConsumerLagEntry
  pub degraded : Bool

unfoldable pub add_subscriptions : List Str → List Str → List Str
add_subscriptions [] seen = seen
add_subscriptions (t ∷ ts) seen =
    add_subscriptions ts (if any (str_eq t) seen then seen else seen ++ t ∷ [])

unfoldable pub collect : List (Option KafkaConsumer) → Collected → Collected
unfolding add_subscriptions subscribed_types health is_degraded
collect [] s = s
collect (none ∷ ks) s = collect ks s
collect (some k ∷ ks) s = collect ks (record {
  subscriptions = add_subscriptions (subscribed_types k) s.subscriptions;
  consumers = s.consumers ++ map entry_of (health k);
  degraded = s.degraded || any is_degraded (health k);
})

pub record ConsumersHealthResponse : Type 0 where
  pub service : Str
  pub status : Str
  pub subscriptions : List Str
  pub consumers : List ConsumerLagEntry
  pub generated_at : ℕ

-- ConsumersHealthzHandler
unfoldable pub consumers_healthz_handler :
    (service : Str) → List (Option KafkaConsumer) → (now : ℕ) → ℕ × ConsumersHealthResponse
unfolding collect
consumers_healthz_handler service ks now =
    let s = collect ks (record { subscriptions = []; consumers = []; degraded = false }) in
    (
      code_of (status_of s.degraded),
      record {
        service = service;
        status = status_of s.degraded;
        subscriptions = s.subscriptions;
        consumers = s.consumers;
        generated_at = now;
      },
    )
