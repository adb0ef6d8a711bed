-- ===== src/Kafka/Publisher.antt =====
-- kafka/publisher.go: the publisher. The writer of segmentio/kafka-go is a parameter, a function
-- from the messages of one WriteMessages call to whether it succeeds.
pub mod Laws
use platform_kit.Common.{
  ℕ, suc, zero, ◌+◌, Bool, true, false, not, Option, none, some, List, [], ◌∷◌, ◌++◌, ◌==◌,
  if◌then◌else◌, Str, lit, is_empty, Dict, ℤ, pos, negsuc, is_zero,
}
use platform_kit.Common.Json.{Json, Fields}
use platform_kit.Kafka.Event.{validate_event_type, topic_from_event_type}
use platform_kit.Kafka.Envelope.{
  EventData, CloudEvent, Event, Codec, EnvelopeError, Built, built, not_built, new_cloud_event,
}
use platform_kit.Kafka.Registry.{Registry, SchemaCache, PayloadError, validate_event_payload}

-- Durations are numbers of nanoseconds; a nil Logger is false.
pub record PublisherConfig : Type 0 where
  pub brokers : List Str
  pub topic_prefix : Str
  pub source : Str
  pub required_acks : ℤ
  pub async : Bool
  pub batch_size : ℤ
  pub batch_timeout : ℤ
  pub max_attempts : ℤ
  pub write_timeout : ℤ
  pub logger : Bool
  pub disable_schema_validation : Bool

abbrev or_default : ℤ → ℤ → ℤ
or_default default n = if is_zero n then default else n

unfoldable pub defaults : PublisherConfig → PublisherConfig
defaults c = record c {
  topic_prefix = if is_empty c.topic_prefix then lit "sentiae" else c.topic_prefix;
  batch_size = or_default (pos 100) c.batch_size;
  batch_timeout = or_default (pos 10000000) c.batch_timeout;
  max_attempts = or_default (pos 3) c.max_attempts;
  write_timeout = or_default (pos 10000000000) c.write_timeout;
  logger = true;
  required_acks = or_default (negsuc 0) c.required_acks;
}

pub data NewError : Type 0 where
  no_brokers : NewError
  no_source : NewError

pub data NewResult : Type 0 where
  publisher : PublisherConfig → NewResult
  failed : NewError → NewResult

unfoldable pub new_publisher : PublisherConfig → NewResult
unfolding defaults
new_publisher c =
    if is_empty c.brokers
    then failed no_brokers
    else if is_empty c.source
    then failed no_source
    else publisher (defaults c)

pub record Header : Type 0 where
  pub key : Str
  pub value : Str

pub record Message : Type 0 where
  pub topic : Str
  pub key : Str
  pub value : Str
  pub headers : List Header

pub data PublishError : Type 0 where
  invalid_type : Str → PublishError
  rejected : PayloadError → PublishError
  batch_rejected : Str → PayloadError → PublishError
  not_encoded : EnvelopeError → PublishError
  write_failed : PublishError

abbrev pub message : Str → Str → Str → EventData → CloudEvent → Str → Message
message prefix source event_type d ce value = record {
  topic = topic_from_event_type prefix event_type;
  key = d.resource_id;
  value = value;
  headers =
      record { key = lit "ce-specversion"; value = lit "1.0" }
      ∷ record { key = lit "ce-type"; value = event_type }
      ∷ record { key = lit "ce-source"; value = source }
      ∷ record { key = lit "ce-id"; value = ce.id }
      ∷ record { key = lit "ce-idempotencykey"; value = ce.idempotency_key }
      ∷ record { key = lit "content-type"; value = lit "application/cloudevents+json" }
      ∷ [];
}

-- What a call changes besides its result: the schema cache, the ids taken, and the arguments of
-- each WriteMessages call.
pub record State : Type 0 where
  pub cache : SchemaCache
  pub taken : ℕ
  pub writes : List (List Message)

pub data Prepared : Type 0 where
  ready : Message → State → Prepared
  stopped : PublishError → State → Prepared

module _ (codec : Codec) (ids : ℕ → Str) (now : ℕ) (r : Registry)
    (generic : EventData → Option Fields) (write : List Message → Bool) (c : PublisherConfig) where
  abbrev encode : Str → EventData → State → Built → Prepared
  encode event_type d s (not_built e taken) = stopped (not_encoded e) (record s { taken = taken })
  encode event_type d s (built ce value taken) =
      ready (message c.topic_prefix c.source event_type d ce value) (record s { taken = taken })

  abbrev check_payload : Str → EventData → SchemaCache → Option PayloadError × SchemaCache
  check_payload event_type d cache =
      if c.disable_schema_validation
      then (none, cache)
      else validate_event_payload codec.parse_schema r event_type (generic d) cache

  abbrev prepare_checked :
      (PayloadError → PublishError) → Event → State → Option PayloadError → Prepared
  prepare_checked wrap e s (some problem) = stopped (wrap problem) s
  prepare_checked wrap e s none =
      encode e.type e.payload s
        (new_cloud_event codec ids now c.source e.type e.payload e.idempotency_key s.taken)

  -- The checks and the message of one event, which Publish and the loop of PublishBatch share.
  unfoldable pub prepare : (PayloadError → PublishError) → Event → State → Prepared
  unfolding new_cloud_event validate_event_payload
  prepare wrap e s =
      let (problem, cache) = check_payload e.type e.payload s.cache in
      if not (validate_event_type e.type)
      then stopped (invalid_type e.type) s
      else prepare_checked wrap e (record s { cache = cache }) problem

  -- One WriteMessages call.
  abbrev pub send : List Message → State → Option PublishError × State
  send messages s = (
    if write messages then none else some write_failed,
    record s { writes = s.writes ++ messages ∷ [] },
  )

  abbrev send_one : Prepared → Option PublishError × State
  send_one (stopped e s) = (some e, s)
  send_one (ready m s) = send (m ∷ []) s

  unfoldable pub publish : Str → EventData → State → Option PublishError × State
  unfolding prepare
  publish event_type d s =
      send_one
        (prepare rejected (record { type = event_type; payload = d; idempotency_key = [] }) s)

  -- The loop of PublishBatch: the messages so far, in order.
  abbrev batch_next :
      (List Message → State → Option PublishError × State)
      → List Message
      → Prepared
      → Option PublishError × State
  batch_next rest messages (stopped e s) = (some e, s)
  batch_next rest messages (ready m s) = rest (messages ++ m ∷ []) s

  unfoldable pub batch_from : List Event → List Message → State → Option PublishError × State
  unfolding prepare
  batch_from [] messages s = send messages s
  batch_from (e ∷ es) messages s =
      batch_next (batch_from es) messages (prepare (batch_rejected e.type) e s)

  unfoldable pub publish_batch : List Event → State → Option PublishError × State
  unfolding batch_from
  publish_batch [] s = (none, s)
  publish_batch (e ∷ es) s = batch_from (e ∷ es) [] s

-- KafkaPublisher.Close: what the writer's Close returns, or nil without a writer.
unfoldable pub close : (writer : Option (Option Str)) → Option Str
close none = none
close (some answer) = answer

-- NoopPublisher
unfoldable pub noop_publish : {S : Type 0} → Str → EventData → S → Option PublishError × S
noop_publish event_type d s = (none, s)

unfoldable pub noop_publish_batch : {S : Type 0} → List Event → S → Option PublishError × S
noop_publish_batch es s = (none, s)
