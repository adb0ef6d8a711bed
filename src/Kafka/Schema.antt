-- ===== src/Kafka/Schema.antt =====
-- kafka/schema_validator.go: the checks of a decoded payload against a parsed JSON Schema.
-- Messages are data: the constructor names the format, its fields are the arguments.
pub mod Conforms
pub mod Laws
use platform_kit.Common.{
  ℕ, suc, ◌+◌, Bool, true, false, ◌&&◌, ◌||◌, not, Option, none, some, List, [], ◌∷◌, ◌++◌, ltb_ℤ,
  ℤ, pos, length, is_empty, if◌then◌else◌, Str, lit, str_eq, lookup, Dict, itoa,
}
use platform_kit.Common.Json.{
  Float, Json, null, bool, num, str, arr, obj, items, fields, is_null, is_int64, float_lt,
}

-- schemaNode without its children. No check reads `title` or `additional_properties`, and only the
-- check of a string reads `enum`.
pub record Facets : Type 0 where
  pub type : Str
  pub required : List Str
  pub enum : List Json
  pub min_length : Option ℤ
  pub max_length : Option ℤ
  pub minimum : Option Float
  pub maximum : Option Float
  pub additional_properties : Option Bool
  pub title : Str

mutual
  -- *schemaNode
  pub data Node : Type 0 where
    nil : Node
    node : Facets → (properties : Properties) → (items : Node) → Node

  pub data Properties : Type 0 where
    end : Properties
    property : Str → Node → Properties → Properties

pub data Problem : Type 0 where
  wrong_type : (path type : Str) → Json → Problem
  missing : (path field : Str) → Problem
  null_field : (path field : Str) → Problem
  too_short : (path : Str) → ℕ → ℤ → Problem
  too_long : (path : Str) → ℕ → ℤ → Problem
  not_in_enum : (path value : Str) → Problem
  too_small : (path : Str) → (value minimum : Float) → Problem
  too_large : (path : Str) → (value maximum : Float) → Problem

unfoldable pub path_or_root : Str → Str
path_or_root p = if is_empty p then lit "(root)" else p

unfoldable pub path_join : Str → Str → Str
path_join base seg = if is_empty base then seg else base ++ b'.' ∷ seg

-- fmt.Sprintf("%s[%d]", path, i)
abbrev pub path_index : Str → ℕ → Str
path_index path i = path ++ b'[' ∷ (itoa i ++ b']' ∷ [])

-- The branch of `matchesType` for a value that is not nil.
unfoldable pub matches_kind : Str → Json → Bool
matches_kind expected value =
    if str_eq expected (lit "object")
    then elim value [ obj fs ↦ true | _ ↦ false ]
    else if str_eq expected (lit "array")
    then elim value [ arr xs ↦ true | _ ↦ false ]
    else if str_eq expected (lit "string")
    then elim value [ str s ↦ true | _ ↦ false ]
    else if str_eq expected (lit "number")
    then elim value [ num x ↦ true | _ ↦ false ]
    else if str_eq expected (lit "integer")
    then elim value [ num x ↦ is_int64 x | _ ↦ false ]
    else if str_eq expected (lit "boolean")
    then elim value [ bool b ↦ true | _ ↦ false ]
    else if str_eq expected (lit "null")
    then is_null value
    else true

unfoldable pub matches_type : Str → Json → Bool
unfolding matches_kind
matches_type expected value =
    if is_null value
    then str_eq expected (lit "null") || is_empty expected
    else matches_kind expected value

unfoldable pub enum_contains : List Json → Str → Bool
enum_contains [] v = false
enum_contains (e ∷ es) v = elim e [ str s ↦ str_eq s v | _ ↦ false ] || enum_contains es v

-- One round of the loop over `node.Required`.
unfoldable pub check_field : Str → Dict Json → Str → List Problem
check_field path v r = elim (lookup r v) [
  | none ↦ missing (path_or_root path) r ∷ []
  | some val ↦ if is_null val then null_field (path_or_root path) r ∷ [] else []
]

unfoldable pub check_required : Str → Dict Json → List Str → List Problem
unfolding check_field
check_required path v [] = []
check_required path v (r ∷ rs) = check_field path v r ++ check_required path v rs

abbrev pub check_min_length : Option ℤ → Str → Str → List Problem
check_min_length none path v = []
check_min_length (some m) path v =
    if ltb_ℤ (pos (length v)) m then too_short (path_or_root path) (length v) m ∷ [] else []

abbrev pub check_max_length : Option ℤ → Str → Str → List Problem
check_max_length none path v = []
check_max_length (some m) path v =
    if ltb_ℤ m (pos (length v)) then too_long (path_or_root path) (length v) m ∷ [] else []

abbrev pub check_enum : List Json → Str → Str → List Problem
check_enum enum path v =
    if not (is_empty enum) && not (enum_contains enum v)
    then not_in_enum (path_or_root path) v ∷ []
    else []

-- The string case of `validateNode`.
unfoldable pub check_text : Facets → Str → Str → List Problem
check_text f path v =
    check_min_length f.min_length path v
    ++ (check_max_length f.max_length path v ++ check_enum f.enum path v)

abbrev pub check_minimum : Option Float → Str → Float → List Problem
check_minimum none path v = []
check_minimum (some m) path v = if float_lt v m then too_small (path_or_root path) v m ∷ [] else []

abbrev pub check_maximum : Option Float → Str → Float → List Problem
check_maximum none path v = []
check_maximum (some m) path v = if float_lt m v then too_large (path_or_root path) v m ∷ [] else []

-- The float64 case of `validateNode`.
unfoldable pub check_number : Facets → Str → Float → List Problem
check_number f path v = check_minimum f.minimum path v ++ check_maximum f.maximum path v

-- The loop over the items of an array, from index i.
unfoldable pub check_items : (Json → Str → List Problem) → Str → ℕ → List Json → List Problem
check_items check path i [] = []
check_items check path i (x ∷ xs) = check x (path_index path i) ++ check_items check path (suc i) xs

-- One property of an object: skipped where it is absent or null.
abbrev pub check_child : (Json → List Problem) → Option Json → List Problem
check_child check none = []
check_child check (some child) = if is_null child then [] else check child

unfoldable mutual
  unfolding matches_type enum_contains check_required check_items check_text check_number path_join

  pub validate_node : Node → Json → Str → List Problem
  validate_node nil value path = []
  validate_node (node f ps its) value path =
      let problems : List Problem = elim value [
        | null ↦ []
        | bool b ↦ []
        | num x ↦ check_number f path x
        | str s ↦ check_text f path s
        | arr xs ↦ check_items (validate_node its) path 0 (items xs)
        | obj fs ↦
            check_required path (fields fs) f.required ++ validate_properties ps (fields fs) path
      ] in
      if not (is_empty f.type) && not (matches_type f.type value)
      then wrong_type (path_or_root path) f.type value ∷ []
      else problems

  pub validate_properties : Properties → Dict Json → Str → List Problem
  validate_properties end v path = []
  validate_properties (property k sub ps) v path =
      check_child (λ child. validate_node sub child (path_join path k)) (lookup k v)
      ++ validate_properties ps v path
