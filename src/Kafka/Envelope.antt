-- ===== src/Kafka/Envelope.antt =====
-- kafka/event.go: the envelope of an event. `encoding/json`, the clock, `uuid.New` and time
-- formatting are the record Codec, and arguments. A time is a number of nanoseconds, 0 the zero time.
use platform_kit.Common.{
  ℕ, suc, Bool, Option, none, some, ◌∷◌, ◌++◌, ◌==◌, if◌then◌else◌, Str, lit, is_empty, Dict,
}
use platform_kit.Common.Json.{Json, Fields}
use platform_kit.Kafka.Schema.{Node}

pub record EventData : Type 0 where
  pub actor_id : Str
  pub actor_type : Str
  pub resource_type : Str
  pub resource_id : Str
  pub organization_id : Str
  pub team_id : Str
  pub metadata : Option (Dict Json)
  pub timestamp : ℕ

pub record CloudEvent : Type 0 where
  pub spec_version : Str
  pub id : Str
  pub source : Str
  pub type : Str
  pub time : Str
  pub data_content_type : Str
  pub subject : Str
  pub idempotency_key : Str
  pub payload : Str

pub record Event : Type 0 where
  pub type : Str
  pub payload : EventData
  pub idempotency_key : Str

-- json.Marshal and json.Unmarshal at the types that the package uses, and Time.Format(time.RFC3339).
-- `none` is an error; to a struct, Unmarshal gives what it left there and whether it returned nil.
pub record Codec : Type 0 where
  pub marshal_data : EventData → Option Str
  pub marshal_event : CloudEvent → Option Str
  pub unmarshal_event : Str → CloudEvent × Bool
  pub unmarshal_data : Str → EventData × Bool
  pub unmarshal_object : Str → Option Fields
  pub parse_schema : Str → Option Node
  pub rfc3339 : ℕ → Str

pub data EnvelopeError : Type 0 where
  marshal_data_failed : EnvelopeError
  marshal_event_failed : EnvelopeError

-- The event, its bytes and the number of ids taken so far, or an error with that number.
pub data Built : Type 0 where
  built : CloudEvent → Str → ℕ → Built
  not_built : EnvelopeError → ℕ → Built

abbrev pub stamped : ℕ → EventData → EventData
stamped now d = if d.timestamp == 0 then record d { timestamp = now } else d

module _ (codec : Codec) (ids : ℕ → Str) (now : ℕ) where
  abbrev finish_event : CloudEvent → ℕ → Option Str → Built
  finish_event ce taken none = not_built marshal_event_failed taken
  finish_event ce taken (some payload) = built ce payload taken

  -- The body of newCloudEvent once the data are marshalled; `taken` ids were taken before.
  abbrev envelope : Str → Str → EventData → Str → ℕ → Option Str → Built
  envelope source event_type d idempotency_key taken none = not_built marshal_data_failed taken
  envelope source event_type d idempotency_key taken (some raw) =
      let generated = is_empty idempotency_key in
      let taken' = if generated then suc taken else taken in
      let ce : CloudEvent = record {
        spec_version = lit "1.0";
        id = ids taken';
        source = source;
        type = event_type;
        time = codec.rfc3339 d.timestamp;
        data_content_type = lit "application/json";
        subject = d.resource_type ++ b'/' ∷ d.resource_id;
        idempotency_key = if generated then ids taken else idempotency_key;
        payload = raw;
      } in
      finish_event ce (suc taken') (codec.marshal_event ce)

  unfoldable pub new_cloud_event : Str → Str → EventData → Str → ℕ → Built
  new_cloud_event source event_type d idempotency_key taken =
      let d' = stamped now d in
      envelope source event_type d' idempotency_key taken (codec.marshal_data d')
