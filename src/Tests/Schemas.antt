-- ===== src/Tests/Schemas.antt =====
-- Payload validation against a small schema.
use platform_kit.Common.{str_eq, lookup, Option, none, some, [], ◌∷◌, ◌≡◌, refl, ◌↔◌, Str, lit, pos}
use platform_kit.Common.Json.{null, str, obj, Fields, field, end}
use platform_kit.Kafka.Schema.{
  Facets, Node, node, nil, property, validate_node, missing, null_field, too_short, wrong_type,
}
use platform_kit.Kafka.Schema
use platform_kit.Kafka.Schema.Conforms.{Conforms}
use platform_kit.Kafka.Schema.Laws.{validate_node_iff}
use platform_kit.Kafka.Registry.{Registry, SchemaCache, validate_raw_payload}
use platform_kit.Kafka.Registry.Cache.{IsCoherent, Accepts, validate_raw_payload_iff}

abbrev plain : Facets
plain = record {
  type = [];
  required = [];
  enum = [];
  min_length = none;
  max_length = none;
  minimum = none;
  maximum = none;
  additional_properties = none;
  title = [];
}

-- {"type":"object","required":["id"],"properties":{"id":{"type":"string","minLength":1}}}
abbrev with_id : Node
with_id =
    node (record plain { type = lit "object"; required = lit "id" ∷ [] })
      (property (lit "id")
        (node (record plain { type = lit "string"; min_length = some (pos 1) })
          Schema.Properties.end nil)
        Schema.Properties.end)
      nil

abbrev good : Fields
good = field (lit "id") (str (lit "x")) end

problems :
    (validate_node with_id (obj good) [] ≡ [])
    × (validate_node with_id (obj end) [] ≡ missing (lit "(root)") (lit "id") ∷ [])
    × (validate_node with_id (obj (field (lit "id") null end)) []
        ≡ null_field (lit "(root)") (lit "id") ∷ [])
    × (validate_node with_id (obj (field (lit "id") (str []) end)) []
        ≡ too_short (lit "id") 0 (pos 1) ∷ [])
    × (validate_node with_id null [] ≡ wrong_type (lit "(root)") (lit "object") null ∷ [])
unfolding validate_node str_eq lookup Schema.path_or_root
problems = (refl, refl, refl, refl, refl)

validate_node_iff_example : (validate_node with_id (obj good) [] ≡ []) ↔ Conforms with_id (obj good)
validate_node_iff_example = validate_node_iff with_id (obj good) []

abbrev parse : Str → Option Node
parse s = some with_id

abbrev registry : Registry
registry =
    (
      lit "a.b.c",
      record {
        type = lit "a.b.c";
        domain = lit "a";
        description = [];
        owner = [];
        schema = lit "{}";
      },
    )
    ∷ []

abbrev warm : SchemaCache
warm = (lit "a.b.c", record { src = lit "{}"; root = with_id }) ∷ []

validate_raw_payload_iff_example :
    (((validate_raw_payload parse registry (lit "a.b.c") good warm).0 ≡ none)
      ↔ Accepts parse registry (lit "a.b.c") good)
    × IsCoherent parse (validate_raw_payload parse registry (lit "a.b.c") good warm).1
validate_raw_payload_iff_example =
    validate_raw_payload_iff parse registry (lit "a.b.c") good warm (refl, tt)
