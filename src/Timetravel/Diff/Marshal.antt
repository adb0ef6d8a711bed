-- ===== src/Timetravel/Diff/Marshal.antt =====
-- json.Marshal on decoded values, on which it does not fail, and `jsonEqual` of timetravel/diff.go.
use platform_kit.Common.{
  Bool, true, ◌&&◌, List, [], ◌∷◌, ◌++◌, ◌≡◌, refl, sym, ap, ◌∙◌, inl, inr, arith, Str, lit, str_eq,
  str_eq_iff, if◌then◌else◌, Dict, Bool-cases,
}
use platform_kit.Common.Json.{
  Float, Json, null, bool, num, str, arr, obj, Items, nil, cons, Fields, end, field, is_null,
}
use platform_kit.Common.Sort.{sort_by}

-- How a float64 and a quoted string are printed.
pub record Printer : Type 0 where
  pub number : Float → Str
  pub quoted : Str → Str

-- The elements of an array or an object, with commas between them.
unfoldable pub print_items : List Str → Str
print_items [] = []
print_items (s ∷ []) = s
print_items (s ∷ t ∷ more) = s ++ b',' ∷ print_items (t ∷ more)

module _ (p : Printer) where
  unfoldable pub print_members : List (Str × Str) → List Str
  print_members [] = []
  print_members ((k, v) ∷ ms) = (p.quoted k ++ b':' ∷ v) ∷ print_members ms

  unfoldable mutual
    unfolding print_items print_members sort_by

    pub marshal : Json → Str
    marshal null = lit "null"
    marshal (bool b) = if b then lit "true" else lit "false"
    marshal (num x) = p.number x
    marshal (str s) = p.quoted s
    marshal (arr xs) = b'[' ∷ (print_items (marshal_items xs) ++ b']' ∷ [])
    marshal (obj fs) =
        b'{' ∷ (print_items (print_members (sort_by (λ m. m.0) (marshal_fields fs))) ++ b'}' ∷ [])

    pub marshal_items : Items → List Str
    marshal_items nil = []
    marshal_items (cons v vs) = marshal v ∷ marshal_items vs

    pub marshal_fields : Fields → Dict Str
    marshal_fields end = []
    marshal_fields (field k v fs) = (k, marshal v) ∷ marshal_fields fs

  unfoldable pub json_equal : Json → Json → Bool
  json_equal a b = if is_null a && is_null b then true else str_eq (marshal a) (marshal b)

  null_eq : (a : Json) → is_null a ≡ true → a ≡ null
  null_eq null e = refl
  null_eq (bool b) e = cc
  null_eq (num x) e = cc
  null_eq (str s) e = cc
  null_eq (arr xs) e = cc
  null_eq (obj fs) e = cc

  pub json_equal-marshal : (a b : Json) → json_equal a b ≡ true → marshal a ≡ marshal b
  unfolding json_equal
  json_equal-marshal a b h = elim (Bool-cases (is_null a && is_null b)) [
    | inl t ↦ ap marshal (null_eq a (ground arith) ∙ sym (null_eq b (ground arith)))
    | inr f ↦ (str_eq_iff _ _).0 (rw f at h)
  ]

  pub marshal-json_equal : (a b : Json) → marshal a ≡ marshal b → json_equal a b ≡ true
  unfolding json_equal
  marshal-json_equal a b e = let q = (str_eq_iff (marshal a) (marshal b)).1 e in ground arith
