-- ===== src/Kafka/Dlq/Laws.antt =====
-- Where the dead letters go.
use mathlib.Core.List.{append_assoc}
use platform_kit.Common.{
  ℕ, Bool, true, Option, some, List, [], ◌∷◌, ◌++◌, ◌≡◌, ◌⊎◌, inl, inr, ap, sym, ◌∙◌, Str, ℤ,
}
use platform_kit.Common.Json.{Fields}
use platform_kit.Kafka.Event.{validate_event_type, topic_from_event_type}
use platform_kit.Kafka.Event.Topics.{IsSplit, valid-IsSplit, topic-IsSplit}
use platform_kit.Kafka.Envelope.{EventData, Codec}
use platform_kit.Kafka.Registry.{Registry}
use platform_kit.Kafka.Publisher.{PublisherConfig, Message, PublishError, State, publish}
use platform_kit.Kafka.Publisher.Laws.{AllOrNothing, publish-AllOrNothing}
use platform_kit.Kafka.Dlq.{send, dead_data}

IsSplit-append : {s d r t : Str} (u : Str) → IsSplit s d r t → IsSplit (s ++ u) d r (t ++ u)
IsSplit-append {d} {r} {t} u h = record {
  shape =
      ap (λ x. x ++ u) h.shape
      ∙ append_assoc d (b'.' ∷ (r ++ b'.' ∷ t)) u
      ∙ ap (λ x. d ++ b'.' ∷ x) (append_assoc r (b'.' ∷ t) u);
  domain = h.domain;
  resource = h.resource;
  nonempty = h.nonempty;
}

-- Whatever the suffix, a valid event type with the suffix appended has the topic of the event type
-- itself: the dead letter goes to the topic that the event is published to.
pub topic-dead_letter :
    (prefix suffix s : Str)
    → validate_event_type s ≡ true
    → topic_from_event_type prefix (s ++ suffix) ≡ topic_from_event_type prefix s
topic-dead_letter prefix suffix s v =
    let (d, r, t, h) = valid-IsSplit s v in
    topic-IsSplit prefix (IsSplit-append suffix h) ∙ sym (topic-IsSplit prefix h)

module _ (codec : Codec) (ids : ℕ → Str) (now : ℕ) (r : Registry)
    (generic : EventData → Option Fields) (write : List Message → Bool) (c : PublisherConfig)
    (suffix : Str) where
  abbrev pub kafka_publish : Str → EventData → State → Option PublishError × State
  kafka_publish = publish codec ids now r generic write c

  abbrev pub ToTopic : Str → State → State → Type 0
  ToTopic t s s' =
      (s'.writes ≡ s.writes)
      ⊎ ((m : Message) × (s'.writes ≡ s.writes ++ (m ∷ []) ∷ [])
          × (m.topic ≡ topic_from_event_type c.topic_prefix t))

  one_topic :
      (t : Str) {d : EventData} (o : Option PublishError × State) (s : State)
      → AllOrNothing codec ids now r generic write c
          (record { type = t ++ suffix; payload = d; idempotency_key = [] } ∷ [])
          s
          o
      → validate_event_type t ≡ true
      → ToTopic t s o.1
  one_topic t o s (inl h) v = inl h.0
  one_topic t o s (inr (m ∷ [], w, (h, _), q)) v =
      inr (m, w, h.topic ∙ topic-dead_letter c.topic_prefix suffix t v)
  one_topic t o s (inr ([], w, h, q)) v = absurd h
  one_topic t o s (inr (m ∷ m' ∷ ms, w, h, q)) v = absurd h.1

  -- DLQProducer.Send over a KafkaPublisher writes nothing, or one message; and for a source event
  -- of a valid type that message goes to the very topic of the source event.
  pub send-source_topic :
      (source t : Str) (d : EventData) (attempt : ℤ) (last_error : Option Str) (s : State)
      → validate_event_type t ≡ true
      → let s' = (send (some kafka_publish) suffix source t d attempt last_error s).1 in
        (s'.writes ≡ s.writes)
        ⊎ ((m : Message) × (s'.writes ≡ s.writes ++ (m ∷ []) ∷ [])
            × (m.topic ≡ topic_from_event_type c.topic_prefix t))
  unfolding send
  send-source_topic source t d attempt last_error s v =
      let d' = dead_data source attempt last_error d in
      one_topic t (kafka_publish (t ++ suffix) d' s) s
        (publish-AllOrNothing codec ids now r generic write c (t ++ suffix) d' s) v
