-- ===== src/Kafka/Taxonomy/Entry.antt =====
-- kafka/event_taxonomy.go: the helper `dataSchema`, and one row of the table of registered events.
use platform_kit.Common.{
  Bool, ◌&&◌, not, List, [], ◌∷◌, ◌++◌, Str, lit, is_empty, if◌then◌else◌, map, join,
}
use Prim.Native.String.{String}
use platform_kit.Kafka.Event.{validate_event_type}
use platform_kit.Kafka.Registry.{RegisteredEvent}

abbrev quoted : Str → Str
quoted s = b'"' ∷ (s ++ b'"' ∷ [])

-- The texts of `req` and `meta`: a part is left out where its argument is empty.
abbrev required_fields : List Str → Str
required_fields required =
    lit "\"resource_type\",\"resource_id\",\"timestamp\""
    ++ (if is_empty required then [] else lit ",\"metadata\"")

abbrev metadata_schema : List Str → Str → Str
metadata_schema required props =
    lit "\"metadata\": {\"type\":\"object\""
    ++ ((if is_empty props then [] else lit ",\"properties\":{" ++ (props ++ lit "}"))
        ++ ((if is_empty required
              then []
              else lit ",\"required\":[" ++ (join (map quoted required) (lit ",") ++ lit "]"))
            ++ lit "}"))

unfoldable pub data_schema : Str → List Str → Str → Str
unfolding join
data_schema description required props =
    lit "{\n  \"$schema\": \"https://json-schema.org/draft/2020-12/schema\",\n  \"title\": \""
    ++ (description
        ++ (lit "\",\n  \"type\": \"object\",\n  \"required\": ["
            ++ (required_fields required
                ++ (lit "],\n  \"properties\": {\n    \"actor_id\": {\"type\":\"string\"},\n"
                    ++ (lit "    \"actor_type\": {\"type\":\"string\"},\n"
                        ++ (lit "    \"resource_type\": {\"type\":\"string\",\"minLength\":1},\n"
                            ++ (lit "    \"resource_id\": {\"type\":\"string\",\"minLength\":1},\n"
                                ++ (lit "    \"organization_id\": {\"type\":\"string\"},\n"
                                    ++ (lit "    \"team_id\": {\"type\":\"string\"},\n"
                                        ++ (lit "    \"timestamp\": {\"type\":\"string\"},\n    "
                                            ++ (metadata_schema required props
                                                ++ lit "\n  }\n}")))))))))))

abbrev literals : List String → List Str
literals [] = []
literals (s ∷ ss) = lit s ∷ literals ss

-- A composite literal of the table; each one's description for `dataSchema` is its event type.
abbrev pub entry : (type domain description owner : String) → List String → String → RegisteredEvent
entry type domain description owner required props = record {
  type = lit type;
  domain = lit domain;
  description = lit description;
  owner = lit owner;
  schema = data_schema (lit type) (literals required) (lit props);
}

abbrev pub is_sound : RegisteredEvent → Bool
is_sound e = validate_event_type e.type && not (is_empty e.schema)
