-- ===== src/Kafka/Schema/Conforms.antt =====
-- When a value fits a schema, as relations: type, required fields, properties, items, the lengths and the
-- enum of a string, the bounds of a number. A schema's additionalProperties, and an enum for a value that is
-- not a string, have no part in it.
use platform_kit.Common.{
  Bool, true, false, none, some, List, [], ◌∷◌, ◌≡◌, ◌⊎◌, ◌≤◌, ◌+◌, ℤ, pos_part, neg_part, length,
  Str, lit, lookup, Dict, All, In,
}
use platform_kit.Common.Json.{
  Float, Json, Items, Fields, null, bool, num, str, arr, obj, items, fields, is_null, is_int64,
  float_lt,
}
use platform_kit.Kafka.Schema.{Facets, Node, nil, node, Properties, end, property}

-- The names that the validator knows.
abbrev pub KnownType : Str → Type 0
KnownType t =
    (t ≡ lit "object")
    ⊎ (t ≡ lit "array")
    ⊎ (t ≡ lit "string")
    ⊎ (t ≡ lit "number")
    ⊎ (t ≡ lit "integer")
    ⊎ (t ≡ lit "boolean")
    ⊎ (t ≡ lit "null")

pub data HasType (t : Str) : Json → Type 0 where
  untyped : {v : Json} → t ≡ [] → HasType t v
  object : {fs : Fields} → t ≡ lit "object" → HasType t (obj fs)
  array : {xs : Items} → t ≡ lit "array" → HasType t (arr xs)
  text : {s : Str} → t ≡ lit "string" → HasType t (str s)
  number : {x : Float} → t ≡ lit "number" → HasType t (num x)
  integer : {x : Float} → t ≡ lit "integer" → is_int64 x ≡ true → HasType t (num x)
  boolean : {b : Bool} → t ≡ lit "boolean" → HasType t (bool b)
  nothing : t ≡ lit "null" → HasType t null
  unknown : {v : Json} → (KnownType t → ⊥) → is_null v ≡ false → HasType t v

-- A required field is there and is not null.
abbrev pub Present : Dict Json → Str → Type 0
Present d r = (v : Json) × (lookup r d ≡ some v) × (is_null v ≡ false)

pub record FitsText (f : Facets) (s : Str) : Type 0 where
  pub long_enough : (m : ℤ) → f.min_length ≡ some m → pos_part m ≤ length s + neg_part m
  pub short_enough : (m : ℤ) → f.max_length ≡ some m → length s + neg_part m ≤ pos_part m
  pub listed : (f.enum ≡ []) ⊎ In (str s) f.enum

pub record FitsNumber (f : Facets) (x : Float) : Type 0 where
  pub large_enough : (m : Float) → f.minimum ≡ some m → float_lt x m ≡ false
  pub small_enough : (m : Float) → f.maximum ≡ some m → float_lt m x ≡ false

mutual
  pub data Conforms : Node → Json → Type 0 where
    unchecked : {v : Json} → Conforms nil v
    a_null :
        {f : Facets} {ps : Properties} {n : Node}
        → HasType f.type null
        → Conforms (node f ps n) null
    a_bool :
        {f : Facets} {ps : Properties} {n : Node} {b : Bool}
        → HasType f.type (bool b)
        → Conforms (node f ps n) (bool b)
    a_number :
        {f : Facets} {ps : Properties} {n : Node} {x : Float}
        → HasType f.type (num x)
        → FitsNumber f x
        → Conforms (node f ps n) (num x)
    a_text :
        {f : Facets} {ps : Properties} {n : Node} {s : Str}
        → HasType f.type (str s)
        → FitsText f s
        → Conforms (node f ps n) (str s)
    an_array :
        {f : Facets} {ps : Properties} {n : Node} {xs : Items}
        → HasType f.type (arr xs)
        → Each n (items xs)
        → Conforms (node f ps n) (arr xs)
    an_object :
        {f : Facets} {ps : Properties} {n : Node} {fs : Fields}
        → HasType f.type (obj fs)
        → All (Present (fields fs)) f.required
        → Has ps (fields fs)
        → Conforms (node f ps n) (obj fs)

  pub data Each : Node → List Json → Type 0 where
    done : {n : Node} → Each n []
    more : {n : Node} {v : Json} {vs : List Json} → Conforms n v → Each n vs → Each n (v ∷ vs)

  -- Every property that is present and not null conforms to its own schema.
  pub data Has : Properties → Dict Json → Type 0 where
    all_checked : {d : Dict Json} → Has end d
    absent :
        {k : Str} {n : Node} {ps : Properties} {d : Dict Json}
        → lookup k d ≡ none
        → Has ps d
        → Has (property k n ps) d
    ignored :
        {k : Str} {n : Node} {ps : Properties} {d : Dict Json}
        → lookup k d ≡ some null
        → Has ps d
        → Has (property k n ps) d
    present :
        {k : Str} {n : Node} {ps : Properties} {d : Dict Json} {v : Json}
        → lookup k d ≡ some v
        → is_null v ≡ false
        → Conforms n v
        → Has ps d
        → Has (property k n ps) d
