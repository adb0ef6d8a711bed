-- ===== src/Lib.antt =====
-- platform-kit is the library that every service of the platform links: Kafka eventing, HTTP
-- middleware, webhooks, entity snapshots, regions, configuration and health. This development models
-- the parts with logic of their own, one module tree for each, and states what makes them correct.
--
-- The parts and how they interact. A producer gives an event type and its data to the Kafka publisher
-- (kafka/publisher.go), which checks the name (kafka/event.go), checks the data against the schema that
-- the registry has for the type (kafka/event_taxonomy.go, kafka/schema_validator.go), builds a
-- CloudEvent and writes it to the topic of the type. A consumer (kafka/consumer.go) reads a topic, runs
-- the same schema check and the handler of the type with retries, keeps health counters, hands what
-- failed to the dead-letter function (kafka/dlq.go), which publishes it again, and commits. A replay
-- (kafka/replay.go) and the listing of dead letters read a partition outside any consumer group. HTTP
-- services stack the middleware of middleware/: CORS and the rate limiter, then Auth, whose claims
-- RequirePermission and the quota check (quota/client.go) read. webhook/ receives and sends webhook
-- deliveries. timetravel/ records a row for each change of an entity, finds the row of a point in time
-- and compares two of them field by field; timetravel/kafka_recorder.go and audit/ publish what they record
-- through the Kafka publisher. region/ finds services and says where data may go. authjwt/ validates the
-- tokens behind Auth with the keys of the identity service. config/ reloads the tagged fields of a running
-- service's configuration and fetches its secrets. The health endpoints of kafka/ report the consumers' counters.
--
-- Files and code. The names of definitions are those of the source in snake case; a constructor of a
-- result type stands for an error or an early return.
--   Common: shared tests, lists, strings, maps, signed integers, JSON values and sorting.
--   Kafka.Event, Kafka.Envelope: kafka/event.go (ValidateEventType, splitEventParts,
--     topicFromEventType, newCloudEvent).
--   Kafka.Registry, Kafka.Taxonomy: kafka/event_taxonomy.go and kafka/event_taxonomy_conversation.go: the
--     registry's operations, dataSchema, the whole table and both init functions.
--   Kafka.Schema, Kafka.Registry: kafka/schema_validator.go (validateNode and its checks; compileSchema
--     with its cache, ValidateRawPayload, ValidateEventPayload).
--   Kafka.Consumer: kafka/consumer.go: the loop of one topic; Kafka.Consumer.Topics: Start, with the turns of
--     its goroutines as a step relation, one queue for each topic, so that the topics listed are distinct;
--     Kafka.Consumer.Client: the other operations of KafkaConsumer.
--   Kafka.Healthz: kafka/healthz.go, kafka/consumer_healthz.go.
--   Kafka.Publisher, Kafka.Dlq, Kafka.Listing, Kafka.Replay: kafka/publisher.go,
--     kafka/dlq.go (Send, AsHandler; ListDLQ) and kafka/replay.go.
--   Timetravel.Recorder: timetravel/recorder.go and LoadSnapshotAt; Timetravel.Diff:
--     timetravel/diff.go (DiffSnapshots, DiffPayloads and the walk below them).
--   Timetravel.KafkaRecorder: timetravel/kafka_recorder.go (KafkaRecorder, Consumer).
--   Audit: audit/recorder.go, audit/jsonmap.go.
--   Authjwt: authjwt/validator.go (the key cache: New, keyForKid, refresh); Authjwt.Token: Validate,
--     audienceMatch.
--   Interceptor: interceptor/auth.go, interceptor/chain.go; Health: health/health.go, health/grpc.go.
--   Config.Reloadable: ApplyReloadable of config/hot_reload.go, on trees of fields; Config.HotReload:
--     HotReloader, and InstallHotReload of config/reloadable_apply.go; Config.Vault: config/vault.go;
--     Config.Secrets: config/secret_loader.go.
--   Middleware.RateLimit, Middleware.Cors, Middleware.Chain: middleware/ratelimit.go,
--     middleware/cors.go, middleware/chain.go and middleware/authheaders.go;
--     Middleware.Guards: middleware/auth.go, middleware/permission.go, middleware/quota_check.go,
--     quota/client.go; Middleware.Http: what they use of net/http.
--   Webhook.Inbound: webhook/inbound/inbound.go; Webhook.Delivery: webhook/dispatch.go, webhook/retry.go.
--   Region: region/region.go, region/replication.go.
--   Errors: errors/errors.go.
--   Tests: runs at concrete inputs, and each theorem that has hypotheses at an input that meets them.
--
-- Conventions. A string is the list of its bytes, a map an association list in which a key's first
-- entry counts; where Go leaves the order of a map open, the list's order is one such order. Times
-- and durations are numbers of nanoseconds. Counters are not bounded: a 64-bit counter that grows by
-- one for each message does not wrap. A float64 is an integer multiple of 2^-1074. A lock makes each
-- locked method one step. Loops recur on the list they read: the results of a reader's calls, what
-- a file watcher delivers, the fields of an object, the attempts left;
-- `itoa` has fuel n + 1 for a number n, which has at most as many digits. diffValues recurs on its first value, whose children are paired with their comparison.
--
-- Read with care: a schema's additionalProperties, and its enum for a value that is not a string, have no
-- part in what conforms to it, as no check reads them; a float64 out of the range of int64 is not an integer,
-- as on amd64, where Go leaves the conversion open; a payload column comes back as it was written, where jsonb
-- normalizes the text; nil pointers of a type, at which ApplyReloadable panics, are not arguments.
--
-- Parameters, for code that is not in the repository or has no definition in it: encoding/json at the
-- types used (the record Codec; the Printer of Diff; the decoders of the quota client), the segmentio/kafka-go
-- reader and writer, the gorm database (the record Database with DatabaseLaws, what SQL promises of the three
-- statements), the token bucket of x/time/rate, golang-jwt's Parse (the record Jwt with JwtLaws), HMAC and
-- SHA-256, uuid, base64, the clock, Vault's key-value engine (the record Kv with KvLaws) and logins, fsnotify,
-- the environment, the checks of the health handler, the validators of the gRPC interceptor, net.SplitHostPort, strings.EqualFold beyond ASCII, HTTP exchanges.
--
-- Not modelled: logging and request ids; the HTTP client of the schema registry; the interceptors that only observe a
-- call; request validation and config.Load, whose rules are those of validator and viper; the foundry and
-- comment clients, database metrics, atlas templates, the DSL handler and test utilities, which are mostly
-- calls of other libraries.
pub mod Audit
pub mod Authjwt
pub mod Common
pub mod Config
pub mod Errors
pub mod Health
pub mod Interceptor
pub mod Kafka
pub mod Middleware
pub mod Region
pub mod Tests
pub mod Timetravel
pub mod Webhook
