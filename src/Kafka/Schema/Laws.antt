-- ===== src/Kafka/Schema/Laws.antt =====
-- The validator reports no problem exactly for the values that conform.
mod Types
mod Values
use platform_kit.Common.{
  ℕ, suc, Bool, true, false, not, ◌&&◌, ◌||◌, Option, none, some, List, [], ◌∷◌, ◌++◌, ◌≡◌, refl,
  ◌↔◌, ◌⊎◌, inl, inr, ap, sym, ◌∙◌, arith, ℤ, pos, pos_part, neg_part, ◌+◌, ◌≤◌, ltb_ℤ, length, Str,
  lit, lookup, Dict, All, In, Bool-cases, Option-cases, str_eq, str_eq_iff, str_eq_refl, is_empty,
  if◌then◌else◌,
}
use mathlib.Core.Bool.{false≢true}
use platform_kit.Common.Json.{
  Float, Json, Items, Fields, null, bool, num, str, arr, obj, items, fields, is_null, is_int64,
  float_lt,
}
use platform_kit.Kafka.Schema.{
  Facets, Node, nil, node, Properties, end, property, Problem, wrong_type, path_or_root,
  matches_kind, matches_type, enum_contains, check_field, check_required, check_text,
  check_min_length, check_max_length, check_enum, check_minimum, check_maximum, check_number,
  check_items, check_child, validate_node, validate_properties, path_join, path_index,
}
use Values.{
  append-nil_both, check_required-All, All-check_required, check_text-FitsText, FitsText-check_text,
  check_number-FitsNumber, FitsNumber-check_number,
}
use Types.{or_true, type_ok, type_ok-HasType, HasType-type_ok}
use platform_kit.Kafka.Schema.Conforms.{
  KnownType, HasType, untyped, object, array, text, number, integer, boolean, nothing, unknown,
  Present, FitsText, FitsNumber, Conforms, unchecked, a_null, a_bool, a_number, a_text, an_array,
  an_object, Each, done, more, Has, all_checked, absent, ignored, present,
}

-- The test of `validateNode` on the node's type passes.
module _ (f : Facets) (v : Json) where
  guarded : List Problem → Str → List Problem
  guarded problems path =
      if not (is_empty f.type) && not (matches_type f.type v)
      then wrong_type (path_or_root path) f.type v ∷ []
      else problems

  guarded-HasType :
      (problems : List Problem) (path : Str)
      → guarded problems path ≡ []
      → HasType f.type v × (problems ≡ [])
  unfolding guarded
  guarded-HasType problems path h = (type_ok-HasType f.type v (ground arith), ground arith)

  HasType-guarded :
      (problems : List Problem) (path : Str) → HasType f.type v → guarded problems path ≡ problems
  unfolding guarded
  HasType-guarded problems path t = ground (arith, HasType-type_ok t)

is_null-eq : (v : Json) → is_null v ≡ true → v ≡ null
is_null-eq null h = refl
is_null-eq (bool b) h = cc
is_null-eq (num x) h = cc
is_null-eq (str s) h = cc
is_null-eq (arr xs) h = cc
is_null-eq (obj fs) h = cc

check_items-Each :
    (its : Node) (path : Str)
    → ((v : Json) (p : Str) → validate_node its v p ≡ [] → Conforms its v)
    → (i : ℕ) (xs : List Json) → check_items (validate_node its) path i xs ≡ []
    → Each its xs
unfolding check_items
check_items-Each its path f i [] h = done
check_items-Each its path f i (x ∷ xs) h =
    let (p, q) = append-nil_both (validate_node its x (path_index path i)) _ h in
    more (f x (path_index path i) p) (check_items-Each its path f (suc i) xs q)

child-Has :
    (k : Str) (n : Node) (ps : Properties) (d : Dict Json) (path : Str)
    → check_child (λ child. validate_node n child (path_join path k)) (lookup k d) ≡ []
    → ((v : Json) (p : Str) → validate_node n v p ≡ [] → Conforms n v)
    → Has ps d
    → Has (property k n ps) d
child-Has k n ps d path h f rest = elim (Option-cases (lookup k d)) [
  | inl e ↦ absent e rest
  | inr (v, e) ↦ elim (Bool-cases (is_null v)) [
    | inl z ↦ ignored (e ∙ ap some (is_null-eq v z)) rest
    | inr z ↦ present e z (f v (path_join path k) (ground arith)) rest
  ]
]

mutual
  unfolding validate_node guarded

  validate_node-Conforms :
      (n : Node) (v : Json) (path : Str) → validate_node n v path ≡ [] → Conforms n v
  validate_node-Conforms nil v path h = unchecked
  validate_node-Conforms (node f ps its) null path h =
      let (t, e) = guarded-HasType f null [] path h in a_null t
  validate_node-Conforms (node f ps its) (bool b) path h =
      let (t, e) = guarded-HasType f (bool b) [] path h in a_bool t
  validate_node-Conforms (node f ps its) (num x) path h =
      let (t, e) = guarded-HasType f (num x) (check_number f path x) path h in
      a_number t (check_number-FitsNumber f path x e)
  validate_node-Conforms (node f ps its) (str s) path h =
      let (t, e) = guarded-HasType f (str s) (check_text f path s) path h in
      a_text t (check_text-FitsText f path s e)
  validate_node-Conforms (node f ps its) (arr xs) path h =
      let (t, e) =
        guarded-HasType f (arr xs) (check_items (validate_node its) path 0 (items xs)) path h in
      an_array t (check_items-Each its path (validate_node-Conforms its) 0 (items xs) e)
  validate_node-Conforms (node f ps its) (obj fs) path h =
      let (t, e) =
        guarded-HasType f (obj fs)
          (check_required path (fields fs) f.required ++ validate_properties ps (fields fs) path)
          path h in
      let (p, q) = append-nil_both (check_required path (fields fs) f.required) _ e in
      an_object t (check_required-All path (fields fs) f.required p)
        (validate_properties-Has ps (fields fs) path q)

  validate_properties-Has :
      (ps : Properties) (d : Dict Json) (path : Str) → validate_properties ps d path ≡ [] → Has ps d
  validate_properties-Has end d path h = all_checked
  validate_properties-Has (property k n ps) d path h =
      let (p, q) =
        append-nil_both
          (check_child (λ child. validate_node n child (path_join path k)) (lookup k d)) _ h in
      child-Has k n ps d path p (validate_node-Conforms n) (validate_properties-Has ps d path q)

check_child-null :
    (check : Json → List Problem) (k : Str) (d : Dict Json)
    → lookup k d ≡ some null
    → check_child check (lookup k d) ≡ []
check_child-null check k d e = rw e refl

check_child-present :
    (check : Json → List Problem) (k : Str) (d : Dict Json) (v : Json)
    → lookup k d ≡ some v
    → is_null v ≡ false
    → check v ≡ []
    → check_child check (lookup k d) ≡ []
check_child-present check k d v e z h = rw (e, z) h

mutual
  unfolding validate_node guarded check_items

  Conforms-validate_node :
      {n : Node} {v : Json} → Conforms n v → (path : Str) → validate_node n v path ≡ []
  Conforms-validate_node unchecked path = refl
  Conforms-validate_node (a_null {f = f} t) path = HasType-guarded f null [] path t
  Conforms-validate_node (a_bool {f = f} {b = b} t) path = HasType-guarded f (bool b) [] path t
  Conforms-validate_node (a_number {f = f} {x = x} t h) path =
      HasType-guarded f (num x) (check_number f path x) path t ∙ FitsNumber-check_number f path x h
  Conforms-validate_node (a_text {f = f} {s = s} t h) path =
      HasType-guarded f (str s) (check_text f path s) path t ∙ FitsText-check_text f path s h
  Conforms-validate_node (an_array {f = f} {n = its} {xs = xs} t h) path =
      HasType-guarded f (arr xs) (check_items (validate_node its) path 0 (items xs)) path t
      ∙ Each-check_items h path 0
  Conforms-validate_node (an_object {f = f} {ps = ps} {fs = fs} t r h) path =
      HasType-guarded f (obj fs)
        (check_required path (fields fs) f.required ++ validate_properties ps (fields fs) path) path
        t
      ∙ ap (λ l. l ++ validate_properties ps (fields fs) path)
          (All-check_required path (fields fs) f.required r)
      ∙ Has-validate_properties h path

  Each-check_items :
      {n : Node} {vs : List Json}
      → Each n vs
      → (path : Str) (i : ℕ) → check_items (validate_node n) path i vs ≡ []
  Each-check_items done path i = refl
  Each-check_items (more {n = n} {vs = vs} h hs) path i =
      ap (λ l. l ++ check_items (validate_node n) path (suc i) vs)
        (Conforms-validate_node h (path_index path i))
      ∙ Each-check_items hs path (suc i)

  Has-validate_properties :
      {ps : Properties} {d : Dict Json}
      → Has ps d
      → (path : Str) → validate_properties ps d path ≡ []
  Has-validate_properties all_checked path = refl
  Has-validate_properties (absent {k = k} {n = n} {ps = ps} {d = d} e h) path =
      ap
        (λ o.
          check_child (λ child. validate_node n child (path_join path k)) o
          ++ validate_properties ps d path)
        e
      ∙ Has-validate_properties h path
  Has-validate_properties (ignored {k = k} {n = n} {ps = ps} {d = d} e h) path =
      ap (λ l. l ++ validate_properties ps d path)
        (check_child-null (λ child. validate_node n child (path_join path k)) k d e)
      ∙ Has-validate_properties h path
  Has-validate_properties (present {k = k} {n = n} {ps = ps} {d = d} {v = v} e z c h) path =
      ap (λ l. l ++ validate_properties ps d path)
        (check_child-present (λ child. validate_node n child (path_join path k)) k d v e z
          (Conforms-validate_node c (path_join path k)))
      ∙ Has-validate_properties h path

-- validateNode reports no problem exactly for the values that conform to the schema, whatever the
-- path that it starts from. Conforming is about type, required fields, properties, items, the lengths and
-- the enum of a string and the bounds of a number: fields that additionalProperties forbids conform, and so
-- does a value that is not a string and not in the enum.
pub validate_node_iff :
    (n : Node) (v : Json) (path : Str) → (validate_node n v path ≡ []) ↔ Conforms n v
validate_node_iff n v path = (validate_node-Conforms n v path, λ c. Conforms-validate_node c path)

-- The problems are the same whatever the schema says of additional properties, here at one node.
pub validate_node-additional :
    (f : Facets) (a : Option Bool) (ps : Properties) (its : Node) (v : Json) (path : Str)
    → validate_node (node (record f { additional_properties = a }) ps its) v path
      ≡ validate_node (node f ps its) v path
unfolding validate_node check_text check_number
validate_node-additional f a ps its null path = refl
validate_node-additional f a ps its (bool b) path = refl
validate_node-additional f a ps its (num x) path = refl
validate_node-additional f a ps its (str s) path = refl
validate_node-additional f a ps its (arr xs) path = refl
validate_node-additional f a ps its (obj fs) path = refl
