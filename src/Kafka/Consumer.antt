-- ===== src/Kafka/Consumer.antt =====
-- kafka/consumer.go: one topic's consumer loop. The reader of segmentio/kafka-go is the list of the
-- results of its FetchMessage calls; a handler is a function from the event and the number of handler
-- calls made before, so that it may answer each call differently. The message counters are int64 and
-- grow by one at a message, so they do not wrap.
pub mod Retry
pub mod Laws
pub mod Fate
pub mod Cases
pub mod Keeps
pub mod Topics
pub mod Client
use platform_kit.Common.{
  ℕ, suc, zero, ◌+◌, Bool, true, false, not, Option, none, some, List, [], ◌∷◌, ◌++◌, if◌then◌else◌,
  Str, lit, is_empty, Dict, lookup, insert, ℤ, pos, is_zero, pos_part,
}
use platform_kit.Common.Json.{Json, Fields}
use platform_kit.Kafka.Envelope.{CloudEvent, Codec}
use platform_kit.Kafka.Registry.{Registry, SchemaCache, PayloadError, validate_raw_payload}
use platform_kit.Kafka.Publisher.{Header}

-- A nil DeadLetterFunc or Logger is false.
pub record ConsumerConfig : Type 0 where
  pub brokers : List Str
  pub group_id : Str
  pub topics : List Str
  pub min_bytes : ℤ
  pub max_bytes : ℤ
  pub max_wait : ℤ
  pub start_offset : ℤ
  pub max_retries : ℤ
  pub dead_letter : Bool
  pub logger : Bool
  pub disable_schema_validation : Bool

abbrev or_default : ℤ → ℤ → ℤ
or_default default n = if is_zero n then default else n

unfoldable pub defaults : ConsumerConfig → ConsumerConfig
defaults c = record c {
  min_bytes = or_default (pos 1) c.min_bytes;
  max_bytes = or_default (pos 10000000) c.max_bytes;
  max_wait = or_default (pos 10000000000) c.max_wait;
  max_retries = or_default (pos 3) c.max_retries;
  logger = true;
}

pub data NewError : Type 0 where
  no_brokers : NewError
  no_group : NewError
  no_topics : NewError

pub data NewResult : Type 0 where
  consumer : ConsumerConfig → NewResult
  failed : NewError → NewResult

unfoldable pub new_consumer : ConsumerConfig → NewResult
unfolding defaults
new_consumer c =
    if is_empty c.brokers
    then failed no_brokers
    else if is_empty c.group_id
    then failed no_group
    else if is_empty c.topics
    then failed no_topics
    else consumer (defaults c)

-- kafka.Message, as fetched.
pub record Fetched : Type 0 where
  pub topic : Str
  pub partition : ℕ
  pub offset : ℕ
  pub key : Str
  pub value : Str
  pub headers : List Header

pub data Failure : Type 0 where
  unmarshal_failed : Failure
  not_an_object : Failure
  schema_validation_failed : PayloadError → Failure
  handler_failed : Str → Failure
  nothing_tried : Failure

pub record FailedMessage : Type 0 where
  pub original : Fetched
  pub event_type : Str
  pub retry_count : ℤ
  pub last_error : Failure

pub record TopicHealth : Type 0 where
  pub topic : Str
  pub group_id : Str
  pub last_offset : ℕ
  pub last_event_type : Str
  pub last_processed : ℕ
  pub messages_ok : ℕ
  pub messages_failed : ℕ
  pub lag : ℤ

-- `none` is the nil error.
abbrev pub Handler : Type 0
Handler = CloudEvent → ℕ → Option Str

-- What the loop changes: the health map, the schema cache, the handler calls made, the calls of the
-- dead-letter function and the messages given to CommitMessages, oldest first.
pub record State : Type 0 where
  pub health : Dict TopicHealth
  pub cache : SchemaCache
  pub calls : ℕ
  pub dead : List FailedMessage
  pub committed : List Fetched

pub data Fetch : Type 0 where
  message : Fetched → (now : ℕ) → Fetch
  fetch_failed : Fetch
  cancelled : Fetch

abbrev pub fresh_health : Str → Str → TopicHealth
fresh_health topic group_id = record {
  topic = topic;
  group_id = group_id;
  last_offset = 0;
  last_event_type = [];
  last_processed = 0;
  messages_ok = 0;
  messages_failed = 0;
  lag = pos 0;
}

abbrev pub or_fresh : Str → Str → Option TopicHealth → TopicHealth
or_fresh topic group_id none = fresh_health topic group_id
or_fresh topic group_id (some h) = h

abbrev pub commit : Fetched → State → State
commit m s = record s { committed = s.committed ++ m ∷ [] }

module _ (c : ConsumerConfig) (topic : Str) where
  unfoldable pub record_success : Str → ℕ → ℕ → State → State
  record_success event_type offset now s =
      let h = or_fresh topic c.group_id (lookup topic s.health) in
      record s {
        health =
            insert topic
              (record h {
                last_offset = offset;
                last_event_type = event_type;
                last_processed = now;
                messages_ok = h.messages_ok + 1;
              })
              s.health;
      }

  unfoldable pub record_failure : Str → ℕ → ℕ → State → State
  record_failure event_type offset now s =
      let h = or_fresh topic c.group_id (lookup topic s.health) in
      record s {
        health =
            insert topic
              (record h {
                last_offset = offset;
                last_event_type = event_type;
                last_processed = now;
                messages_failed = h.messages_failed + 1;
              })
              s.health;
      }

  unfoldable pub send_to_dead_letter : Fetched → Str → ℤ → Failure → State → State
  send_to_dead_letter m event_type retries e s =
      if c.dead_letter
      then record s {
        dead =
            s.dead
            ++ record {
              original = m;
              event_type = event_type;
              retry_count = retries;
              last_error = e;
            }
              ∷ [];
      }
      else s

-- The retry loop: the last error, `none` once a call returned nil, and the calls made. `left` is the
-- number of rounds to go.
unfoldable pub retry : Handler → CloudEvent → ℕ → ℕ → Failure → Option Failure × ℕ
retry handler event zero calls last = (some last, calls)
retry handler event (suc left) calls last = elim (handler event calls) [
  | none ↦ (none, suc calls)
  | some e ↦ retry handler event left (suc calls) (handler_failed e)
]

module _ (codec : Codec) (r : Registry) (handlers : Dict Handler) (c : ConsumerConfig)
    (topic : Str) where
  abbrev pub validate_object :
      CloudEvent → SchemaCache → Option Fields → Option Failure × SchemaCache
  validate_object event cache none = (some not_an_object, cache)
  validate_object event cache (some payload) =
      let (e, cache') = validate_raw_payload codec.parse_schema r event.type payload cache in
      (elim e [ none ↦ none | some p ↦ some (schema_validation_failed p) ], cache')

  -- validateMessagePayload
  unfoldable pub validate_message_payload : CloudEvent → SchemaCache → Option Failure × SchemaCache
  unfolding validate_raw_payload
  validate_message_payload event cache =
      validate_object event cache (codec.unmarshal_object event.payload)

  abbrev after_retries : Fetched → CloudEvent → ℕ → State → Option Failure → State
  after_retries m event now s none = commit m (record_success c topic event.type m.offset now s)
  after_retries m event now s (some e) = commit m (
      record_failure c topic event.type m.offset now
        (send_to_dead_letter c topic m event.type c.max_retries e s))

  -- The rest of the loop's body once the payload is accepted.
  unfoldable pub run_handler : Handler → Fetched → CloudEvent → ℕ → State → State
  unfolding retry record_success record_failure send_to_dead_letter
  run_handler handler m event now s =
      let (outcome, calls) = retry handler event (pos_part c.max_retries) s.calls nothing_tried in
      after_retries m event now (record s { calls = calls }) outcome

  abbrev after_validation : Handler → Fetched → CloudEvent → ℕ → State → Option Failure → State
  after_validation handler m event now s none = run_handler handler m event now s
  after_validation handler m event now s (some e) = commit m (
      record_failure c topic event.type m.offset now
        (send_to_dead_letter c topic m event.type (pos 0) e s))

  abbrev handle : Fetched → CloudEvent → ℕ → State → Option Handler → State
  handle m event now s none = commit m s
  handle m event now s (some handler) =
      if c.disable_schema_validation
      then run_handler handler m event now s
      else (let (e, cache) = validate_message_payload event s.cache in
          after_validation handler m event now (record s { cache = cache }) e)

  -- One message.
  unfoldable pub process : Fetched → ℕ → State → State
  unfolding run_handler validate_message_payload send_to_dead_letter
  process m now s =
      let (event, decoded) = codec.unmarshal_event m.value in
      if decoded
      then handle m event now s (lookup event.type handlers)
      else commit m (send_to_dead_letter c topic m [] (pos 0) unmarshal_failed s)

  -- consumeTopic, until a fetch fails with the context cancelled or the list of results ends.
  unfoldable pub consume : List Fetch → State → State
  unfolding process
  consume [] s = s
  consume (message m now ∷ fs) s = consume fs (process m now s)
  consume (fetch_failed ∷ fs) s = consume fs s
  consume (cancelled ∷ fs) s = s
