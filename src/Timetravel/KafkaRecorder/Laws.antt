-- ===== src/Timetravel/KafkaRecorder/Laws.antt =====
-- timetravel/kafka_recorder.go: what the consumer receives, and what a publisher makes of a snapshot.
use platform_kit.Common.{ℕ, Bool, false, Option, none, some, List, Str, str_eq, ◌≡◌, ◌≢◌, refl}
use platform_kit.Common.Json.{Json, Fields}
use platform_kit.Kafka.Envelope.{EventData, Codec}
use platform_kit.Kafka.Registry.{lookup_event}
use platform_kit.Kafka.Taxonomy.{initial_registry}
use platform_kit.Kafka.Taxonomy.Absent.{lookup_event-absent}
use platform_kit.Kafka.Publisher.{PublisherConfig, Message, PublishError, State, publish}
use platform_kit.Kafka.Publisher.Laws.{publish_unregistered}
use platform_kit.Timetravel.Recorder.{ChangeContext, change_context_from_context}
use platform_kit.Timetravel.KafkaRecorder.{
  event_type, KafkaRecorder, new_kafka_recorder, snapshot_data, published, record_snapshot,
}

event_type-absent : lookup_event initial_registry event_type ≡ none
unfolding str_eq
event_type-absent = lookup_event-absent event_type refl refl

module _ (codec : Codec) (ids : ℕ → Str) (now : ℕ) (generic : EventData → Option Fields)
    (write : List Message → Bool) (c : PublisherConfig) (writer_service : Str)
    (uuid_string : Str → Str) where
  abbrev pub over_kafka : KafkaRecorder State PublishError
  over_kafka =
      new_kafka_recorder (some (publish codec ids now initial_registry generic write c))
        writer_service

  published-writes :
      (r : Option PublishError × State) → r.0 ≢ none → (published over_kafka uuid_string r).0 ≢ none
  published-writes (none, p) n h = n refl
  published-writes (some e, p) n h = cc

  published-state : (r : Option PublishError × State) → (published over_kafka uuid_string r).1 ≡ r.1
  published-state (none, p) = refl
  published-state (some e, p) = refl

  -- RecordEntity over a KafkaPublisher with the registry of the package's init functions and schema
  -- validation on returns an error and writes no message, because its event type is in neither table.
  pub record_snapshot_unpublished :
      (ctx : Option ChangeContext) (kind id : Str) (payload : Option Str) (s : State)
      → c.disable_schema_validation ≡ false
      → ((record_snapshot over_kafka uuid_string ctx kind id payload s).0 ≢ none)
        × ((record_snapshot over_kafka uuid_string ctx kind id payload s).1.writes ≡ s.writes)
  unfolding record_snapshot new_kafka_recorder
  record_snapshot_unpublished ctx kind id none s off = (λ h. cc, refl)
  record_snapshot_unpublished ctx kind id (some raw) s off =
      let cc' = change_context_from_context ctx in
      let (n, w) =
        publish_unregistered codec ids now initial_registry generic write c event_type
          (snapshot_data over_kafka.writer_service cc' kind id raw (uuid_string cc'.changed_by)) s
          off event_type-absent in
      (published-writes _ n, rw (published-state _) w)
