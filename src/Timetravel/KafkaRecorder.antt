-- ===== src/Timetravel/KafkaRecorder.antt =====
-- timetravel/kafka_recorder.go: snapshots that are published as events, and the consumer that records
-- them. The publisher, the sink, uuid's String and Parse and the two decoders are parameters.
pub mod Laws
use platform_kit.Common.{
  ℕ, Bool, true, false, ◌||◌, Option, none, some, List, [], ◌∷◌, ◌++◌, if◌then◌else◌, Str, lit,
  is_empty, Dict, lookup,
}
use platform_kit.Common.Json.{Json, str}
use platform_kit.Authjwt.Token.{as_string}
use platform_kit.Kafka.Envelope.{EventData, CloudEvent}
use platform_kit.Timetravel.Recorder.{ChangeContext, change_context_from_context}

-- EventType
abbrev pub event_type : Str
event_type = lit "sentiae.timetravel.entity.changed"

pub record KafkaRecorder (P E : Type 0) : Type 0 where
  pub publisher : Option (Str → EventData → P → Option E × P)
  pub writer_service : Str

unfoldable pub new_kafka_recorder :
    {P E : Type 0} → Option (Str → EventData → P → Option E × P) → Str → KafkaRecorder P E
new_kafka_recorder publish writer_service = record {
  publisher = publish;
  writer_service = if is_empty writer_service then lit "unknown-service" else writer_service;
}

pub data SnapshotError (E : Type 0) : Type 0 where
  not_configured : SnapshotError E
  marshal_failed : SnapshotError E
  publish_failed : E → SnapshotError E

-- The event's data; the timestamp is left zero.
abbrev pub snapshot_data :
    (writer_service : Str) → ChangeContext → (kind id raw changed_by : Str) → EventData
snapshot_data writer_service cc kind id raw changed_by = record {
  actor_id = [];
  actor_type = [];
  resource_type = lit "entity_snapshot";
  resource_id = kind ++ b':' ∷ id;
  organization_id = [];
  team_id = [];
  metadata = some (
      (lit "kind", str kind)
      ∷ (lit "entity_id", str id)
      ∷ (lit "writer_service", str writer_service)
      ∷ (lit "payload", str raw)
      ∷ (lit "changed_by", str changed_by)
      ∷ (lit "change_reason", str cc.reason)
      ∷ []);
  timestamp = 0;
}

module _ {P E : Type 0} (r : KafkaRecorder P E) (uuid_string : Str → Str) where
  abbrev pub published : Option E × P → Option (SnapshotError E) × P
  published (none, p) = (none, p)
  published (some e, p) = (some (publish_failed e), p)

  abbrev pub publish_marshalled :
      (Str → EventData → P → Option E × P)
      → ChangeContext
      → (kind id : Str) → Option Str
      → P
      → Option (SnapshotError E) × P
  publish_marshalled publish cc kind id none p = (some marshal_failed, p)
  publish_marshalled publish cc kind id (some raw) p = published (
      publish event_type (snapshot_data r.writer_service cc kind id raw (uuid_string cc.changed_by))
        p)

  -- RecordEntity of a recorder that is not nil; `payload` is what json.Marshal returns.
  unfoldable pub record_snapshot :
      Option ChangeContext
      → (kind id : Str) → (payload : Option Str) → P
      → Option (SnapshotError E) × P
  unfolding change_context_from_context
  record_snapshot ctx kind id payload p = elim r.publisher [
    | none ↦ (some not_configured, p)
    | some publish ↦ publish_marshalled publish (change_context_from_context ctx) kind id payload p
  ]

-- The sink's RecordEntity: the context, kind, id and payload; its error is only logged, so it is left out.
abbrev pub Sink : Type 0 → Type 0
Sink S = ChangeContext → (kind id payload : Str) → S → S

-- Metadata[key].(string)
abbrev pub text_of : Dict Json → Str → Str
text_of metadata key = as_string (lookup key metadata)

module _ (parse_uuid : Str → Option Str) where
  abbrev pub changed_by_of : Str → Str
  changed_by_of raw =
      if is_empty raw then [] else (elim (parse_uuid raw) [ none ↦ [] | some id ↦ id ])

  -- The context that handle reconstructs.
  unfoldable pub context_of : Dict Json → ChangeContext
  context_of metadata =
      let reason = text_of metadata (lit "change_reason") in
      record {
        changed_by = changed_by_of (text_of metadata (lit "changed_by"));
        reason = if is_empty reason then lit "system" else reason;
      }

  abbrev pub forward : {S : Type 0} → Sink S → Option (Dict Json) → S → S
  forward sink none s = s
  forward sink (some metadata) s =
      let kind = text_of metadata (lit "kind") in
      let id = text_of metadata (lit "entity_id") in
      if is_empty kind || is_empty id
      then s
      else sink (context_of metadata) kind id (text_of metadata (lit "payload")) s

  -- Consumer.handle, which always returns nil; `metadata_of` decodes the metadata of an event's data, and
  -- none is its error.
  unfoldable pub record_received :
      {S : Type 0} → (metadata_of : Str → Option (Dict Json)) → Option (Sink S) → CloudEvent → S → S
  unfolding context_of
  record_received metadata_of sink event s = elim sink [
    | none ↦ s
    | some record_entity ↦ forward record_entity (metadata_of event.payload) s
  ]
