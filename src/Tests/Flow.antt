-- ===== src/Tests/Flow.antt =====
-- The publisher, the consumer and the dead-letter producer, at concrete messages and configurations.
use platform_kit.Common.{
  ℕ, suc, Bool, true, false, Option, none, some, List, [], ◌∷◌, ◌≡◌, ◌≢◌, refl, Str, lit, pos, ℤ,
  negsuc, zero, lookup, insert, str_eq,
}
use platform_kit.Common.Json.{Fields, end}
use platform_kit.Kafka.Event.{validate_event_type}
use platform_kit.Kafka.Envelope.{EventData, CloudEvent, Event, Codec}
use platform_kit.Kafka.Schema.{nil, validate_node}
use platform_kit.Kafka.Registry.{Registry}
use platform_kit.Kafka.Taxonomy.{initial_registry}
use platform_kit.Kafka.Publisher
use platform_kit.Kafka.Publisher.{PublisherConfig, Message, PublishError, publish_batch, publish}
use platform_kit.Kafka.Publisher.Laws.{AllOrNothing, publish_batch-AllOrNothing}
use platform_kit.Kafka.Consumer
use platform_kit.Kafka.Consumer.{
  ConsumerConfig, FailedMessage, Handler, Failure, nothing_tried, Fetched, Fetch, message,
  fetch_failed, cancelled, retry, process, consume,
}
use platform_kit.Kafka.Consumer.Cases.{Fate, process-Fate}
use platform_kit.Kafka.Dlq.{send}
use platform_kit.Kafka.Dlq.Laws.{kafka_publish, ToTopic, send-source_topic}
use platform_kit.Kafka.Dlq.Lost.{default_suffix, hand_over, dead_letters_lost}

abbrev pub blank : CloudEvent
blank = record {
  spec_version = lit "1.0";
  id = lit "1";
  source = lit "s";
  type = lit "a.b.c";
  time = [];
  data_content_type = [];
  subject = [];
  idempotency_key = [];
  payload = [];
}

abbrev spec : EventData
spec = record {
  actor_id = [];
  actor_type = [];
  resource_type = lit "spec";
  resource_id = lit "7";
  organization_id = [];
  team_id = [];
  metadata = none;
  timestamp = 5;
}

-- Bytes that start with a zero byte do not decode; others decode to the event `blank`.
abbrev decode : Str → CloudEvent × Bool
decode [] = (blank, true)
decode (zero ∷ s) = (blank, false)
decode (suc b ∷ s) = (blank, true)

abbrev pub codec : Codec
codec = record {
  marshal_data = λ d. some d.resource_id;
  marshal_event = λ e. some e.id;
  unmarshal_event = decode;
  unmarshal_data = λ s. (spec, true);
  unmarshal_object = λ s. some end;
  parse_schema = λ s. some nil;
  rfc3339 = λ t. [];
}

abbrev pub ids : ℕ → Str
ids n = n ∷ []

abbrev pub registry : Registry
registry =
    (
      lit "a.b.c",
      record {
        type = lit "a.b.c";
        domain = lit "a";
        description = [];
        owner = [];
        schema = lit "{}";
      },
    )
    ∷ []

abbrev pub generic : EventData → Option Fields
generic d = some end

abbrev pub accept : List Message → Bool
accept ms = true

abbrev pub publisher : PublisherConfig
publisher = record {
  brokers = lit "k:9092" ∷ [];
  topic_prefix = lit "sentiae";
  source = lit "s";
  required_acks = negsuc 0;
  async = false;
  batch_size = pos 100;
  batch_timeout = pos 1;
  max_attempts = pos 3;
  write_timeout = pos 1;
  logger = true;
  disable_schema_validation = false;
}

abbrev pub idle : Publisher.State
idle = record { cache = []; taken = 0; writes = [] }

abbrev one : Event
one = record { type = lit "a.b.c"; payload = spec; idempotency_key = [] }

publish_batch-AllOrNothing_example :
    AllOrNothing codec ids 9 registry generic accept publisher
      (one ∷ one ∷ [])
      idle
      (publish_batch codec ids 9 registry generic accept publisher (one ∷ one ∷ []) idle)
publish_batch-AllOrNothing_example =
    publish_batch-AllOrNothing codec ids 9 registry generic accept publisher one (one ∷ []) idle

send-source_topic_example :
    ToTopic codec ids 9 registry generic accept publisher
      (lit ".dlq")
      (lit "a.b.c")
      idle
      (send
        (some (kafka_publish codec ids 9 registry generic accept publisher (lit ".dlq")))
        (lit ".dlq")
        (lit "sentiae.a.b")
        (lit "a.b.c")
        spec
        (pos 3)
        none
        idle).1
unfolding validate_event_type
send-source_topic_example =
    send-source_topic codec ids 9 registry generic accept publisher (lit ".dlq") (lit "sentiae.a.b")
      (lit "a.b.c") spec (pos 3) none idle refl

-- The first two calls fail.
abbrev pub flaky : Handler
flaky e zero = some (lit "down")
flaky e (suc zero) = some (lit "down")
flaky e (suc (suc n)) = none

abbrev pub config : ConsumerConfig
config = record {
  brokers = lit "k:9092" ∷ [];
  group_id = lit "g";
  topics = lit "sentiae.a.b" ∷ [];
  min_bytes = pos 1;
  max_bytes = pos 10;
  max_wait = pos 1;
  start_offset = pos 0;
  max_retries = pos 3;
  dead_letter = true;
  logger = true;
  disable_schema_validation = false;
}

abbrev start : Consumer.State
start = record { health = []; cache = []; calls = 0; dead = []; committed = [] }

abbrev pub msg : ℕ → Fetched
msg n = record {
  topic = lit "sentiae.a.b";
  partition = 0;
  offset = n;
  key = [];
  value = n ∷ [];
  headers = [];
}

abbrev run : List Fetch → Consumer.State
run fs = consume codec registry ((lit "a.b.c", flaky) ∷ []) config (lit "sentiae.a.b") fs start

-- Offset 0 does not decode; offset 4 succeeds at its third call; the last message is not reached.
flow :
    ((run (
        message (msg 0) 1
        ∷ fetch_failed
        ∷ message (msg 4) 2
        ∷ cancelled
        ∷ message (msg 6) 3
        ∷ [])).calls
      ≡ 3)
    × ((run (message (msg 0) 1 ∷ message (msg 4) 2 ∷ cancelled ∷ message (msg 6) 3 ∷ [])).committed
        ≡ msg 0 ∷ msg 4 ∷ [])
unfolding consume lookup str_eq insert validate_node
flow = (refl, refl)

process-Fate_example :
    Fate codec registry ((lit "a.b.c", flaky) ∷ []) config (lit "sentiae.a.b") (msg 4) start (
      process codec registry ((lit "a.b.c", flaky) ∷ []) config (lit "sentiae.a.b") (msg 4) 2 start)
process-Fate_example =
    process-Fate codec registry ((lit "a.b.c", flaky) ∷ []) config (lit "sentiae.a.b") (msg 4) 2
      start

abbrev failed : FailedMessage
failed = record {
  original = msg 4;
  event_type = lit "work.spec.created";
  retry_count = pos 3;
  last_error = nothing_tried;
}

dead_letters_lost_example :
    ((hand_over codec ids 9 generic accept publisher spec (λ e. none) (failed ∷ []) idle).writes
      ≡ idle.writes)
    × ((source t : Str) (d : EventData) (attempt : ℤ) (last_error : Option Str)
        → (send
            (some
              (kafka_publish codec ids 9 initial_registry generic accept publisher default_suffix))
            default_suffix
            source
            t
            d
            attempt
            last_error
            idle).0
          ≢ none)
dead_letters_lost_example =
    dead_letters_lost codec ids 9 generic accept publisher spec (λ e. none) (failed ∷ []) idle refl
