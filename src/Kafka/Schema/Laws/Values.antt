-- ===== src/Kafka/Schema/Laws/Values.antt =====
-- The checks of one value, without its children: required fields, texts and numbers.
use platform_kit.Common.{
  true, false, Option, none, some, List, [], ◌∷◌, ◌++◌, ◌≡◌, refl, ◌⊎◌, inl, inr, ap, sym, arith, ℤ,
  pos_part, neg_part, ◌+◌, ◌≤◌, length, Str, lookup, Dict, All, In, Bool-cases, Option-cases,
  str_eq, str_eq_iff, str_eq_refl,
}
use mathlib.Core.Bool.{false≢true}
use platform_kit.Common.Json.{Float, Json, str, float_lt}
use platform_kit.Kafka.Schema.{
  Facets, enum_contains, check_field, check_required, check_text, check_min_length,
  check_max_length, check_enum, check_minimum, check_maximum, check_number,
}
use platform_kit.Kafka.Schema.Laws.Types.{or_true}
use platform_kit.Kafka.Schema.Conforms.{Present, FitsText, FitsNumber}

pub append-nil_both : {A : Type 0} (xs ys : List A) → xs ++ ys ≡ [] → (xs ≡ []) × (ys ≡ [])
append-nil_both [] ys e = (refl, e)
append-nil_both (x ∷ xs) ys e = absurd (ground arith)

pub check_field-Present :
    (path : Str) (d : Dict Json) (r : Str) → check_field path d r ≡ [] → Present d r
unfolding check_field
check_field-Present path d r h = elim (Option-cases (lookup r d)) [
  | inl e ↦ absurd (ground arith)
  | inr (v, e) ↦ (v, e, ground arith)
]

Present-check_field :
    (path : Str) (d : Dict Json) (r : Str) → Present d r → check_field path d r ≡ []
unfolding check_field
Present-check_field path d r (v, p, q) = ground arith

pub check_required-All :
    (path : Str) (d : Dict Json) (rs : List Str)
    → check_required path d rs ≡ []
    → All (Present d) rs
unfolding check_required
check_required-All path d [] e = tt
check_required-All path d (r ∷ rs) e =
    let (p, q) = append-nil_both _ _ e in
    (check_field-Present path d r p, check_required-All path d rs q)

pub All-check_required :
    (path : Str) (d : Dict Json) (rs : List Str)
    → All (Present d) rs
    → check_required path d rs ≡ []
unfolding check_required
All-check_required path d [] h = refl
All-check_required path d (r ∷ rs) (p, h) =
    rw (Present-check_field path d r p) (All-check_required path d rs h)

enum_contains-In : (es : List Json) (s : Str) → enum_contains es s ≡ true → In (str s) es
unfolding enum_contains
enum_contains-In [] s h = absurd (false≢true h)
enum_contains-In (str t ∷ es) s h = elim (Bool-cases (str_eq t s)) [
  | inl e ↦ inl (ap str (sym ((str_eq_iff t s).0 e)))
  | inr e ↦ inr (enum_contains-In es s (rw e at h))
]
enum_contains-In (_ ∷ es) s h = inr (enum_contains-In es s h)

In-enum_contains : (es : List Json) (s : Str) → In (str s) es → enum_contains es s ≡ true
unfolding enum_contains
In-enum_contains [] s m = elim m [ ]
In-enum_contains (e ∷ es) s (inl p) = rw (← p, str_eq_refl s) refl
In-enum_contains (e ∷ es) s (inr m) = rw (In-enum_contains es s m) (or_true _ true refl)

pub check_enum-listed :
    (es : List Json) (path s : Str) → check_enum es path s ≡ [] → (es ≡ []) ⊎ In (str s) es
check_enum-listed [] path s h = inl refl
check_enum-listed (e ∷ es) path s h = inr (enum_contains-In (e ∷ es) s (ground arith))

listed-check_enum :
    (es : List Json) (path s : Str) → (es ≡ []) ⊎ In (str s) es → check_enum es path s ≡ []
listed-check_enum es path s (inl e) = rw e refl
listed-check_enum es path s (inr m) = rw (In-enum_contains es s m) (ground arith)

pub check_text-FitsText : (f : Facets) (path s : Str) → check_text f path s ≡ [] → FitsText f s
unfolding check_text
check_text-FitsText f path s h =
    let (p, q) = append-nil_both (check_min_length f.min_length path s) _ h in
    let (q', r) = append-nil_both (check_max_length f.max_length path s) _ q in
    record {
      long_enough = λ m e. ground arith;
      short_enough = λ m e. ground arith;
      listed = check_enum-listed f.enum path s r;
    }

pub check_min_length-nil :
    (o : Option ℤ) (path s : Str)
    → ((m : ℤ) → o ≡ some m → pos_part m ≤ length s + neg_part m)
    → check_min_length o path s ≡ []
check_min_length-nil none path s h = refl
check_min_length-nil (some m) path s h = ground (arith, h m refl)

pub check_max_length-nil :
    (o : Option ℤ) (path s : Str)
    → ((m : ℤ) → o ≡ some m → length s + neg_part m ≤ pos_part m)
    → check_max_length o path s ≡ []
check_max_length-nil none path s h = refl
check_max_length-nil (some m) path s h = ground (arith, h m refl)

pub FitsText-check_text : (f : Facets) (path s : Str) → FitsText f s → check_text f path s ≡ []
unfolding check_text
FitsText-check_text f path s h =
    rw
      (
        check_min_length-nil f.min_length path s h.long_enough,
        check_max_length-nil f.max_length path s h.short_enough,
      )
      (listed-check_enum f.enum path s h.listed)

pub check_number-FitsNumber :
    (f : Facets) (path : Str) (x : Float) → check_number f path x ≡ [] → FitsNumber f x
unfolding check_number
check_number-FitsNumber f path x h =
    let (p, q) = append-nil_both (check_minimum f.minimum path x) _ h in
    record { large_enough = λ m e. ground arith; small_enough = λ m e. ground arith }

pub check_minimum-nil :
    (o : Option Float) (path : Str) (x : Float)
    → ((m : Float) → o ≡ some m → float_lt x m ≡ false)
    → check_minimum o path x ≡ []
check_minimum-nil none path x h = refl
check_minimum-nil (some m) path x h = rw (h m refl) refl

pub check_maximum-nil :
    (o : Option Float) (path : Str) (x : Float)
    → ((m : Float) → o ≡ some m → float_lt m x ≡ false)
    → check_maximum o path x ≡ []
check_maximum-nil none path x h = refl
check_maximum-nil (some m) path x h = rw (h m refl) refl

pub FitsNumber-check_number :
    (f : Facets) (path : Str) (x : Float) → FitsNumber f x → check_number f path x ≡ []
unfolding check_number
FitsNumber-check_number f path x h =
    rw (check_minimum-nil f.minimum path x h.large_enough)
      (check_maximum-nil f.maximum path x h.small_enough)
