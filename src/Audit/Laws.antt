-- ===== src/Audit/Laws.antt =====
-- audit/recorder.go over kafka/publisher.go: what is recorded, and what is published.
use platform_kit.Common.{
  ℕ, Bool, false, Option, none, some, List, Str, is_empty, ◌≡◌, ◌≢◌, refl, str_eq, lit, some-inj,
  Option-cases, inl, inr,
}
use platform_kit.Common.Json.{Fields}
use platform_kit.Kafka.Event.{topic_from_event_type}
use platform_kit.Kafka.Envelope.{EventData, Codec}
use platform_kit.Kafka.Registry.{lookup_event}
use platform_kit.Kafka.Taxonomy.{initial_registry}
use platform_kit.Kafka.Taxonomy.Absent.{lookup_event-absent}
use platform_kit.Kafka.Publisher.{PublisherConfig, Message, PublishError, State, publish}
use platform_kit.Kafka.Publisher.Laws.{publish_unregistered}
use platform_kit.Audit.{
  ActorRef, TargetRef, AuditEvent, event_type, audit_topic, Recorder, new_recorder, verdict,
  event_of, data_of, record_action, value, scan, Column, null_column, bytes,
}

pub event_type-absent : lookup_event initial_registry event_type ≡ none
unfolding str_eq
event_type-absent = lookup_event-absent event_type refl refl

-- The topic constant for consumers is not the topic that a publisher with the default prefix derives from
-- the event type.
pub audit_topic-differs : topic_from_event_type (lit "sentiae") event_type ≢ audit_topic
unfolding topic_from_event_type
audit_topic-differs h = cc

-- A recorded action's fields.
abbrev pub IsComplete : ActorRef → Str → TargetRef → Type 0
IsComplete actor action target =
    (is_empty actor.type ≡ false)
    × (is_empty actor.id ≡ false)
    × (is_empty action ≡ false)
    × (is_empty target.type ≡ false)
    × (is_empty target.id ≡ false)

verdict-some : {E : Type 0} (d : Option Str) (p : Option E) → p ≢ none → verdict d p ≢ none
verdict-some none none n h = n refl
verdict-some (some d) none n h = n refl
verdict-some none (some p) n h = cc
verdict-some (some d) (some p) n h = cc

module _ (codec : Codec) (ids : ℕ → Str) (now : ℕ) (generic : EventData → Option Fields)
    (write : List Message → Bool) (c : PublisherConfig) {D : Type 0}
    (create : AuditEvent → D → Option Str × D) (service : Str) where
  abbrev pub over_kafka : Recorder D State PublishError
  over_kafka =
      new_recorder (some create) (some (publish codec ids now initial_registry generic write c))
        service

  -- Record over a database and a KafkaPublisher with the registry of the package's init functions and
  -- schema validation on: a complete action's row is given to the database, and yet the result is an error
  -- and no message is written, because the event type is in neither table.
  pub record_action_unpublished :
      (actor : ActorRef) (action : Str) (target : TargetRef) (metadata : Option Fields) (uuid : Str)
      (d : D) (s : State)
      → c.disable_schema_validation ≡ false
      → IsComplete actor action target
      → let r =
          record_action over_kafka codec.rfc3339 actor action target metadata uuid now (d, s) in
        (r.0 ≢ none)
        × (r.1.0 ≡ (create (event_of over_kafka.service actor action target metadata uuid now) d).1)
        × (r.1.1.writes ≡ s.writes)
  unfolding record_action new_recorder
  record_action_unpublished actor action target metadata uuid d s off (a, b, e, f, g) =
      let event = event_of over_kafka.service actor action target metadata uuid now in
      let (n, w) =
        publish_unregistered codec ids now initial_registry generic write c event_type
          (data_of codec.rfc3339 event) s off event_type-absent in
      rw (a, b, e, f, g) (verdict-some (create event d).0 _ n, refl, w)

-- What JSONMap.Value stores, Scan reads back, as long as json.Marshal succeeds with a text that is not empty
-- and that json.Unmarshal reads as the same map.
pub scan-value :
    (marshal : Fields → Option Str) (unmarshal : Str → Option Fields) (m : Option Fields)
    (raw : Column)
    → ((fs : Fields) (t : Str)
        → marshal fs ≡ some t
        → (is_empty t ≡ false) × (unmarshal t ≡ some fs))
    → value marshal unmarshal m ≡ some raw
    → scan marshal unmarshal raw ≡ some m
unfolding value scan
scan-value marshal unmarshal none raw laws h =
    let e : null_column ≡ raw = some-inj h in rw (← e) refl
scan-value marshal unmarshal (some fs) raw laws h = elim (Option-cases (marshal fs)) [
  | inl e ↦ let h' : ◌≡◌ {A = Option Column} none (some raw) = rw (e, value) at h in cc
  | inr (t, e) ↦
      let h' : some (bytes t) ≡ some raw = rw (e, value) at h in
      let q : bytes t ≡ raw = some-inj h' in let (n, u) = laws fs t e in rw (← q, n, u) refl
]
