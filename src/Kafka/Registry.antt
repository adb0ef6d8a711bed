-- ===== src/Kafka/Registry.antt =====
-- kafka/event_taxonomy.go: the registry of event types and its lookups; the schema cache and the
-- payload checks of kafka/schema_validator.go. The registry is a Go map keyed by event type.
pub mod Laws
pub mod Cache
use platform_kit.Common.{
  Bool, true, false, ◌&&◌, not, Option, none, some, List, [], ◌∷◌, ◌++◌, if◌then◌else◌, Str, lit,
  str_eq, lookup, insert, Dict, is_empty, map, index_byte, take, zero, suc,
}
use platform_kit.Common.Json.{Json, obj, Fields}
use platform_kit.Common.Sort.{sort_by}
use platform_kit.Kafka.Event.{validate_event_type, topic_from_event_type}
use platform_kit.Kafka.Schema.{Node, Problem, validate_node}

pub record RegisteredEvent : Type 0 where
  pub type : Str
  pub domain : Str
  pub description : Str
  pub owner : Str
  pub schema : Str

abbrev pub Registry : Type 0
Registry = Dict RegisteredEvent

-- The default of `prefix` in FullTopic and KnownTopics.
abbrev pub or_sentiae : Str → Str
or_sentiae prefix = if is_empty prefix then lit "sentiae" else prefix

unfoldable pub full_topic : RegisteredEvent → Str → Str
full_topic e prefix = topic_from_event_type (or_sentiae prefix) e.type

-- The loops of the two `init` functions.
unfoldable pub register_all : List RegisteredEvent → Registry → Registry
register_all [] r = r
register_all (e ∷ es) r = register_all es (insert e.type e r)

abbrev pub lookup_event : Registry → Str → Option RegisteredEvent
lookup_event r event_type = lookup event_type r

unfoldable pub values : Registry → List RegisteredEvent
values [] = []
values ((k, e) ∷ r) = e ∷ values r

unfoldable pub all_events : Registry → List RegisteredEvent
unfolding values
all_events r = sort_by (λ e. e.type) (values r)

unfoldable pub in_domain : Str → List RegisteredEvent → List RegisteredEvent
in_domain domain [] = []
in_domain domain (e ∷ es) =
    let rest = in_domain domain es in if str_eq e.domain domain then e ∷ rest else rest

unfoldable pub events_by_domain : Registry → Str → List RegisteredEvent
unfolding in_domain values
events_by_domain r domain = sort_by (λ e. e.type) (in_domain domain (values r))

pub data RegisterError : Type 0 where
  type_required : RegisterError
  invalid_type : Str → RegisterError
  schema_required : Str → RegisterError

pub data RegisterResult : Type 0 where
  registered : Registry → RegisterResult
  refused : RegisterError → RegisterResult

unfoldable pub register_extension_event : RegisteredEvent → Registry → RegisterResult
register_extension_event e r =
    if is_empty e.type
    then refused type_required
    else if not (validate_event_type e.type)
    then refused (invalid_type e.type)
    else if is_empty e.schema
    then refused (schema_required e.type)
    else registered (insert e.type e r)

-- `seen[topic] = struct{}{}` for each registered event.
unfoldable pub seen_topics : Str → List RegisteredEvent → Dict (Unit {0}) → Dict (Unit {0})
seen_topics prefix [] seen = seen
seen_topics prefix (e ∷ es) seen =
    seen_topics prefix es (insert (topic_from_event_type prefix e.type) tt seen)

abbrev pub keys : Dict (Unit {0}) → List Str
keys [] = []
keys ((k, u) ∷ d) = k ∷ keys d

unfoldable pub known_topics : Registry → Str → List Str
unfolding values seen_topics
known_topics r prefix = sort_by (λ t. t) (keys (seen_topics (or_sentiae prefix) (values r) []))

unfoldable pub domain_of : Str → Str
domain_of event_type = elim (index_byte event_type b'.') [
  | none ↦ event_type
  | some i ↦ elim i [ zero ↦ event_type | suc n ↦ take (suc n) event_type ]
]

-- A parsed schema and the text that it was parsed from.
pub record CompiledSchema : Type 0 where
  pub src : Str
  pub root : Node

abbrev pub SchemaCache : Type 0
SchemaCache = Dict CompiledSchema

pub data PayloadError : Type 0 where
  unregistered : Str → PayloadError
  bad_schema : Str → PayloadError
  not_marshalled : PayloadError
  schema_failed : Str → List Problem → PayloadError

-- The end of the two checks of a payload: the problems, if any, are one error.
abbrev pub report : Str → List Problem → Option PayloadError
report event_type [] = none
report event_type (p ∷ ps) = some (schema_failed event_type (p ∷ ps))

-- `json.Unmarshal` of a schema text into a schemaNode is a parameter.
module _ (parse_schema : Str → Option Node) where
  abbrev parse_and_store : Str → Str → Option Node → SchemaCache → Option Node × SchemaCache
  parse_and_store event_type src none cache = (none, cache)
  parse_and_store event_type src (some root) cache =
      (some root, insert event_type (record { src = src; root = root }) cache)

  -- After the read of the cache: a hit for the same text, or a parse.
  abbrev compile_from : Str → Str → SchemaCache → Option CompiledSchema → Option Node × SchemaCache
  compile_from event_type src cache none = parse_and_store event_type src (parse_schema src) cache
  compile_from event_type src cache (some cs) =
      if str_eq cs.src src
      then (some cs.root, cache)
      else parse_and_store event_type src (parse_schema src) cache

  -- compileSchema: the parsed schema, and the cache after the call.
  unfoldable pub compile_schema : Str → Str → SchemaCache → Option Node × SchemaCache
  compile_schema event_type src cache = compile_from event_type src cache (lookup event_type cache)

  abbrev check_root : Str → Fields → Option Node → Option PayloadError
  check_root event_type payload none = some (bad_schema event_type)
  check_root event_type payload (some root) =
      report event_type (validate_node root (obj payload) [])

  abbrev validate_raw_entry :
      Str → Fields → SchemaCache → Option RegisteredEvent → Option PayloadError × SchemaCache
  validate_raw_entry event_type payload cache none = (some (unregistered event_type), cache)
  validate_raw_entry event_type payload cache (some entry) =
      let (root, cache') = compile_schema event_type entry.schema cache in
      (check_root event_type payload root, cache')

  -- ValidateRawPayload: nil or an error, and the cache after the call.
  unfoldable pub validate_raw_payload :
      Registry → Str → Fields → SchemaCache → Option PayloadError × SchemaCache
  unfolding compile_schema
  validate_raw_payload r event_type payload cache =
      validate_raw_entry event_type payload cache (lookup_event r event_type)

  -- ValidateEventPayload; `generic` is the EventData after Marshal and Unmarshal, `none` if Marshal
  -- failed. Both errors come after compileSchema.
  abbrev pub check_generic : Str → Option Fields → Option Node → Option PayloadError
  check_generic event_type generic none = some (bad_schema event_type)
  check_generic event_type none (some root) = some not_marshalled
  check_generic event_type (some payload) (some root) =
      report event_type (validate_node root (obj payload) [])

  abbrev pub validate_event_entry :
      Str → Option Fields → SchemaCache → Option RegisteredEvent → Option PayloadError × SchemaCache
  validate_event_entry event_type generic cache none = (some (unregistered event_type), cache)
  validate_event_entry event_type generic cache (some entry) =
      let (root, cache') = compile_schema event_type entry.schema cache in
      (check_generic event_type generic root, cache')

  unfoldable pub validate_event_payload :
      Registry → Str → Option Fields → SchemaCache → Option PayloadError × SchemaCache
  unfolding compile_schema
  validate_event_payload r event_type generic cache =
      validate_event_entry event_type generic cache (lookup_event r event_type)
