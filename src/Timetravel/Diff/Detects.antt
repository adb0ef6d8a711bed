-- ===== src/Timetravel/Diff/Detects.antt =====
-- Values with an empty difference are equal.
use mathlib.Core.Option
use platform_kit.Common.{
  ◌⊎◌, ℕ, suc, true, Option, none, some, some-inj, [], ◌∷◌, ◌++◌, ◌≡◌, refl, sym, ap, ◌∙◌, subst,
  inl, inr, if◌then◌else◌, Str, str_eq, Bool-cases, Option-cases, lookup, IsFresh, IsDistinct,
}
use platform_kit.Common.Json.{
  Json, null, bool, num, str, arr, obj, Items, nil, cons, Fields, end, field, items, fields,
}
use platform_kit.Common.Sort.Keyed.{sort_by-canonical}
use platform_kit.Timetravel.Diff.{
  Child, diff_key, diff_maps, diff_slices, diff_scalar, diff_map_value, diff_slice_value,
  diff_values, children, elements, index_path, join_path,
}
use platform_kit.Timetravel.Diff.Marshal.{
  Printer, marshal, marshal_items, marshal_fields, print_items, print_members, json_equal,
  json_equal-marshal, marshal-json_equal,
}
use platform_kit.Timetravel.Diff.Keys.{append_nil, diff_maps-nil}

-- No object has a key twice: what json.Unmarshal makes.
abbrev mutual
  pub WellFormed : Json → Type 0
  WellFormed null = Unit
  WellFormed (bool b) = Unit
  WellFormed (num x) = Unit
  WellFormed (str s) = Unit
  WellFormed (arr xs) = WellFormedItems xs
  WellFormed (obj fs) = IsDistinct (fields fs) × WellFormedFields fs

  pub WellFormedItems : Items → Type 0
  WellFormedItems nil = Unit
  WellFormedItems (cons v vs) = WellFormed v × WellFormedItems vs

  pub WellFormedFields : Fields → Type 0
  WellFormedFields end = Unit
  WellFormedFields (field k v fs) = WellFormed v × WellFormedFields fs

WellFormed-lookup :
    (k : Str) (v : Json) (fs : Fields)
    → WellFormedFields fs
    → lookup k (fields fs) ≡ some v
    → WellFormed v
unfolding lookup
WellFormed-lookup k v end w e = cc
WellFormed-lookup k v (field j x fs) w e = elim (Bool-cases (str_eq j k)) [
  | inl t ↦ subst WellFormed (some-inj (rw t at e)) w.0
  | inr f ↦ WellFormed-lookup k v fs w.1 (rw f at e)
]

module _ (p : Printer) where
  IsFresh-marshal_fields :
      (k : Str) (fs : Fields) → IsFresh k (fields fs) → IsFresh k (marshal_fields p fs)
  unfolding marshal
  IsFresh-marshal_fields k end h = tt
  IsFresh-marshal_fields k (field j v fs) h = (h.0, IsFresh-marshal_fields k fs h.1)

  marshal_fields-IsDistinct :
      (fs : Fields) → IsDistinct (fields fs) → IsDistinct (marshal_fields p fs)
  unfolding marshal
  marshal_fields-IsDistinct end h = tt
  marshal_fields-IsDistinct (field j v fs) h =
      (IsFresh-marshal_fields j fs h.0, marshal_fields-IsDistinct fs h.1)

  lookup-marshal_fields :
      (k : Str) (fs : Fields)
      → lookup k (marshal_fields p fs) ≡ Option.map (marshal p) (lookup k (fields fs))
  unfolding lookup marshal
  lookup-marshal_fields k end = refl
  lookup-marshal_fields k (field j v fs) = elim (Bool-cases (str_eq j k)) [
    | inl t ↦ rw t refl
    | inr f ↦ rw f (lookup-marshal_fields k fs)
  ]

  abbrev child_of : Json → Child
  child_of v = (v, λ path to. diff_values p path v to)

  lookup-children :
      (k : Str) (fs : Fields)
      → lookup k (children p fs) ≡ Option.map child_of (lookup k (fields fs))
  unfolding lookup diff_values
  lookup-children k end = refl
  lookup-children k (field j v fs) = elim (Bool-cases (str_eq j k)) [
    | inl t ↦ rw t refl
    | inr f ↦ rw f (lookup-children k fs)
  ]

  -- An empty difference of v from any value means that the two are equal.
  abbrev Detects : Json → Type 0
  Detects v =
      (w : Json) (path : Str) → WellFormed w → diff_values p path v w ≡ [] → json_equal p v w ≡ true

  -- The walk stops at once on equal values, so only a walk of unequal ones is left.
  scalar_detects :
      (path : Str) (a b : Json)
      → (if json_equal p a b then [] else diff_scalar path a b) ≡ []
      → json_equal p a b ≡ true
  unfolding diff_scalar
  scalar_detects path a b e = elim (Bool-cases (json_equal p a b)) [
    | inl t ↦ t
    | inr f ↦ let no = rw f at e in cc
  ]

  key_marshal :
      (path : Str) (o q : Option Json)
      → ((v : Json) → o ≡ some v → Detects v)
      → ((w : Json) → q ≡ some w → WellFormed w)
      → diff_key path (Option.map child_of o) q ≡ []
      → Option.map (marshal p) o ≡ Option.map (marshal p) q
  key_marshal path none none h w e = refl
  key_marshal path none (some y) h w e = cc
  key_marshal path (some x) none h w e = cc
  key_marshal path (some x) (some y) h w e =
      ap some (json_equal-marshal p x y (h x refl y path (w y refl) e))

  agree_at_key :
      (path : Str) (fs gs : Fields)
      → ((k : Str) (v : Json) → lookup k (fields fs) ≡ some v → Detects v)
      → WellFormedFields gs
      → diff_maps path (children p fs) (fields gs) ≡ []
      → (k : Str)
      → Option.map (marshal p) (lookup k (fields fs))
        ≡ Option.map (marshal p) (lookup k (fields gs))
  agree_at_key path fs gs h w e k =
      let from_key : ((c : Child) × (lookup k (children p fs) ≡ some c))
            ⊎ ((v : Json) × (lookup k (fields gs) ≡ some v))
          → Option.map (marshal p) (lookup k (fields fs))
            ≡ Option.map (marshal p) (lookup k (fields gs)) =
        λ present.
          key_marshal (join_path path k) (lookup k (fields fs)) (lookup k (fields gs)) (h k)
            (λ v q. WellFormed-lookup k v gs w q)
            (subst (λ o. diff_key (join_path path k) o (lookup k (fields gs)) ≡ [])
              (lookup-children k fs)
              (diff_maps-nil path (children p fs) (fields gs) e k present)) in
      elim (Option-cases (lookup k (fields gs))) [
        | inr (v, q) ↦ from_key (inr (v, q))
        | inl g ↦ elim (Option-cases (lookup k (fields fs))) [
          | inr (v, q) ↦
              from_key (inl (child_of v, lookup-children k fs ∙ ap (Option.map child_of) q))
          | inl f ↦ ap (Option.map (marshal p)) (f ∙ sym g)
        ]
      ]

  object_marshal :
      (path : Str) (fs gs : Fields)
      → ((k : Str) (v : Json) → lookup k (fields fs) ≡ some v → Detects v)
      → IsDistinct (fields fs)
      → WellFormed (obj gs)
      → diff_maps path (children p fs) (fields gs) ≡ []
      → marshal p (obj fs) ≡ marshal p (obj gs)
  unfolding marshal
  object_marshal path fs gs h d w e =
      let same =
        sort_by-canonical (marshal_fields p fs) (marshal_fields p gs)
          (marshal_fields-IsDistinct fs d) (marshal_fields-IsDistinct gs w.0)
          (λ k.
            lookup-marshal_fields k fs
            ∙ agree_at_key path fs gs h w.1 e k
            ∙ sym (lookup-marshal_fields k gs)) in
      ap (λ ms. b'{' ∷ (print_items (print_members p ms) ++ b'}' ∷ [])) same

  object-Detects :
      (fs : Fields)
      → ((k : Str) (v : Json) → lookup k (fields fs) ≡ some v → Detects v)
      → IsDistinct (fields fs)
      → (path : Str) (to : Json) → WellFormed to
      → diff_map_value path (obj fs) (children p fs) to ≡ []
      → json_equal p (obj fs) to ≡ true
  unfolding diff_map_value diff_scalar
  object-Detects fs h d path (obj gs) w e =
      marshal-json_equal p (obj fs) (obj gs) (object_marshal path fs gs h d w e)
  object-Detects fs h d path null w e = cc
  object-Detects fs h d path (bool b) w e = cc
  object-Detects fs h d path (num x) w e = cc
  object-Detects fs h d path (str s) w e = cc
  object-Detects fs h d path (arr ys) w e = cc

  array-Detects :
      (xs : Items)
      → ((ys : Items) (path : Str)
          → WellFormedItems ys
          → diff_slices path 0 (elements p xs) (items ys) ≡ []
          → marshal_items p xs ≡ marshal_items p ys)
      → (path : Str) (to : Json) → WellFormed to
      → diff_slice_value path (arr xs) (elements p xs) to ≡ []
      → json_equal p (arr xs) to ≡ true
  unfolding diff_slice_value diff_scalar marshal
  array-Detects xs h path (arr ys) w e =
      marshal-json_equal p (arr xs) (arr ys)
        (ap (λ ss. b'[' ∷ (print_items ss ++ b']' ∷ [])) (h ys path w e))
  array-Detects xs h path null w e = cc
  array-Detects xs h path (bool b) w e = cc
  array-Detects xs h path (num x) w e = cc
  array-Detects xs h path (str s) w e = cc
  array-Detects xs h path (obj gs) w e = cc

  mutual
    unfolding lookup diff_values diff_slices marshal

    pub detects : (v : Json) → WellFormed v → Detects v
    detects null w b path wb e = scalar_detects path null b e
    detects (bool x) w b path wb e = scalar_detects path (bool x) b e
    detects (num x) w b path wb e = scalar_detects path (num x) b e
    detects (str s) w b path wb e = scalar_detects path (str s) b e
    detects (arr xs) w b path wb e = elim (Bool-cases (json_equal p (arr xs) b)) [
      | inl t ↦ t
      | inr f ↦ array-Detects xs (λ ys q wy d. items_marshal xs ys q 0 w wy d) path b wb (rw f at e)
    ]
    detects (obj fs) w b path wb e = elim (Bool-cases (json_equal p (obj fs) b)) [
      | inl t ↦ t
      | inr f ↦ object-Detects fs (field-Detects fs w.1) w.0 path b wb (rw f at e)
    ]

    field-Detects :
        (fs : Fields)
        → WellFormedFields fs
        → (k : Str) (v : Json) → lookup k (fields fs) ≡ some v
        → Detects v
    field-Detects end w k v e = cc
    field-Detects (field j x fs) w k v e = elim (Bool-cases (str_eq j k)) [
      | inl t ↦ subst Detects (some-inj (rw t at e)) (detects x w.0)
      | inr f ↦ field-Detects fs w.1 k v (rw f at e)
    ]

    items_marshal :
        (xs : Items) (ys : Items) (path : Str) (i : ℕ)
        → WellFormedItems xs
        → WellFormedItems ys
        → diff_slices path i (elements p xs) (items ys) ≡ []
        → marshal_items p xs ≡ marshal_items p ys
    items_marshal nil nil path i w v e = refl
    items_marshal nil (cons y ys) path i w v e = cc
    items_marshal (cons x xs) nil path i w v e = cc
    items_marshal (cons x xs) (cons y ys) path i w v e =
        let (h, t) = append_nil _ _ e in
        let q = json_equal-marshal p x y (detects x w.0 y (index_path path i) v.0 h) in
        let r = items_marshal xs ys path (suc i) w.1 v.1 t in cc
