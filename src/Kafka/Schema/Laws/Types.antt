-- ===== src/Kafka/Schema/Laws/Types.antt =====
-- The `type` keyword: `matchesType` against the relation HasType.
use platform_kit.Common.{
  Bool, true, false, ◌||◌, [], ◌∷◌, ◌≡◌, refl, inl, inr, sym, subst, arith, Str, lit, Bool-cases,
  str_eq, str_eq_iff, is_empty,
}
use mathlib.Core.Bool.{false≢true}
use platform_kit.Common.Json.{Json, null, bool, num, str, arr, obj, is_null}
use platform_kit.Kafka.Schema.{matches_kind, matches_type}
use platform_kit.Kafka.Schema.Conforms.{
  KnownType, HasType, untyped, object, array, text, number, integer, boolean, nothing, unknown,
}

-- The type test of `validateNode`: an empty type accepts everything.
abbrev pub type_ok : Str → Json → Bool
type_ok t v = is_empty t || matches_type t v

abbrev NotKnown : (t : Str) → Type 0
NotKnown t =
    (str_eq t (lit "object") ≡ false)
    × (str_eq t (lit "array") ≡ false)
    × (str_eq t (lit "string") ≡ false)
    × (str_eq t (lit "number") ≡ false)
    × (str_eq t (lit "integer") ≡ false)
    × (str_eq t (lit "boolean") ≡ false)
    × (str_eq t (lit "null") ≡ false)

data TypeView (t : Str) : Type 0 where
  named_object : t ≡ lit "object" → TypeView t
  named_array : t ≡ lit "array" → TypeView t
  named_string : t ≡ lit "string" → TypeView t
  named_number : t ≡ lit "number" → TypeView t
  named_integer : t ≡ lit "integer" → TypeView t
  named_boolean : t ≡ lit "boolean" → TypeView t
  named_null : t ≡ lit "null" → TypeView t
  other : NotKnown t → TypeView t

type_view : (t : Str) → TypeView t
type_view t = elim (Bool-cases (str_eq t (lit "object"))) [
  | inl e ↦ named_object ((str_eq_iff _ _).0 e)
  | inr e0 ↦ elim (Bool-cases (str_eq t (lit "array"))) [
    | inl e ↦ named_array ((str_eq_iff _ _).0 e)
    | inr e1 ↦ elim (Bool-cases (str_eq t (lit "string"))) [
      | inl e ↦ named_string ((str_eq_iff _ _).0 e)
      | inr e2 ↦ elim (Bool-cases (str_eq t (lit "number"))) [
        | inl e ↦ named_number ((str_eq_iff _ _).0 e)
        | inr e3 ↦ elim (Bool-cases (str_eq t (lit "integer"))) [
          | inl e ↦ named_integer ((str_eq_iff _ _).0 e)
          | inr e4 ↦ elim (Bool-cases (str_eq t (lit "boolean"))) [
            | inl e ↦ named_boolean ((str_eq_iff _ _).0 e)
            | inr e5 ↦ elim (Bool-cases (str_eq t (lit "null"))) [
              | inl e ↦ named_null ((str_eq_iff _ _).0 e)
              | inr e6 ↦ other (e0, e1, e2, e3, e4, e5, e6)
            ]
          ]
        ]
      ]
    ]
  ]
]

other-KnownType : (t : Str) → NotKnown t → KnownType t → ⊥
other-KnownType t n k = ground (
  arith,
  str_eq_iff t (lit "object"),
  str_eq_iff t (lit "array"),
  str_eq_iff t (lit "string"),
  str_eq_iff t (lit "number"),
  str_eq_iff t (lit "integer"),
  str_eq_iff t (lit "boolean"),
  str_eq_iff t (lit "null"),
)

KnownType-other : (t : Str) → (KnownType t → ⊥) → NotKnown t
KnownType-other t h = elim (type_view t) [
  | named_object e ↦ absurd (h (inl e))
  | named_array e ↦ absurd (h (inr (inl e)))
  | named_string e ↦ absurd (h (inr (inr (inl e))))
  | named_number e ↦ absurd (h (inr (inr (inr (inl e)))))
  | named_integer e ↦ absurd (h (inr (inr (inr (inr (inl e))))))
  | named_boolean e ↦ absurd (h (inr (inr (inr (inr (inr (inl e)))))))
  | named_null e ↦ absurd (h (inr (inr (inr (inr (inr (inr (e))))))))
  | other n ↦ n
]

object-HasType : (v : Json) → matches_type (lit "object") v ≡ true → HasType (lit "object") v
unfolding matches_type matches_kind str_eq
object-HasType null h = absurd (false≢true h)
object-HasType (bool b) h = absurd (false≢true h)
object-HasType (num x) h = absurd (false≢true h)
object-HasType (str s) h = absurd (false≢true h)
object-HasType (arr xs) h = absurd (false≢true h)
object-HasType (obj fs) h = object refl

array-HasType : (v : Json) → matches_type (lit "array") v ≡ true → HasType (lit "array") v
unfolding matches_type matches_kind str_eq
array-HasType null h = absurd (false≢true h)
array-HasType (bool b) h = absurd (false≢true h)
array-HasType (num x) h = absurd (false≢true h)
array-HasType (str s) h = absurd (false≢true h)
array-HasType (arr xs) h = array refl
array-HasType (obj fs) h = absurd (false≢true h)

string-HasType : (v : Json) → matches_type (lit "string") v ≡ true → HasType (lit "string") v
unfolding matches_type matches_kind str_eq
string-HasType null h = absurd (false≢true h)
string-HasType (bool b) h = absurd (false≢true h)
string-HasType (num x) h = absurd (false≢true h)
string-HasType (str s) h = text refl
string-HasType (arr xs) h = absurd (false≢true h)
string-HasType (obj fs) h = absurd (false≢true h)

number-HasType : (v : Json) → matches_type (lit "number") v ≡ true → HasType (lit "number") v
unfolding matches_type matches_kind str_eq
number-HasType null h = absurd (false≢true h)
number-HasType (bool b) h = absurd (false≢true h)
number-HasType (num x) h = number refl
number-HasType (str s) h = absurd (false≢true h)
number-HasType (arr xs) h = absurd (false≢true h)
number-HasType (obj fs) h = absurd (false≢true h)

integer-HasType : (v : Json) → matches_type (lit "integer") v ≡ true → HasType (lit "integer") v
unfolding matches_type matches_kind str_eq
integer-HasType null h = absurd (false≢true h)
integer-HasType (bool b) h = absurd (false≢true h)
integer-HasType (num x) h = integer refl h
integer-HasType (str s) h = absurd (false≢true h)
integer-HasType (arr xs) h = absurd (false≢true h)
integer-HasType (obj fs) h = absurd (false≢true h)

boolean-HasType : (v : Json) → matches_type (lit "boolean") v ≡ true → HasType (lit "boolean") v
unfolding matches_type matches_kind str_eq
boolean-HasType null h = absurd (false≢true h)
boolean-HasType (bool b) h = boolean refl
boolean-HasType (num x) h = absurd (false≢true h)
boolean-HasType (str s) h = absurd (false≢true h)
boolean-HasType (arr xs) h = absurd (false≢true h)
boolean-HasType (obj fs) h = absurd (false≢true h)

null-HasType : (v : Json) → matches_type (lit "null") v ≡ true → HasType (lit "null") v
unfolding matches_type matches_kind str_eq
null-HasType null h = nothing refl
null-HasType (bool b) h = absurd (false≢true h)
null-HasType (num x) h = absurd (false≢true h)
null-HasType (str s) h = absurd (false≢true h)
null-HasType (arr xs) h = absurd (false≢true h)
null-HasType (obj fs) h = absurd (false≢true h)

other-HasType : (t : Str) (v : Json) → NotKnown t → type_ok t v ≡ true → HasType t v
unfolding matches_type
other-HasType [] v n h = untyped refl
other-HasType (c ∷ t) null n h = absurd (ground arith)
other-HasType (c ∷ t) (bool b) n h = unknown (other-KnownType _ n) refl
other-HasType (c ∷ t) (num x) n h = unknown (other-KnownType _ n) refl
other-HasType (c ∷ t) (str s) n h = unknown (other-KnownType _ n) refl
other-HasType (c ∷ t) (arr xs) n h = unknown (other-KnownType _ n) refl
other-HasType (c ∷ t) (obj fs) n h = unknown (other-KnownType _ n) refl

pub type_ok-HasType : (t : Str) (v : Json) → type_ok t v ≡ true → HasType t v
type_ok-HasType t v h = elim (type_view t) [
  | named_object e ↦
      subst (λ u. HasType u v) (sym e) (object-HasType v (subst (λ u. type_ok u v ≡ true) e h))
  | named_array e ↦
      subst (λ u. HasType u v) (sym e) (array-HasType v (subst (λ u. type_ok u v ≡ true) e h))
  | named_string e ↦
      subst (λ u. HasType u v) (sym e) (string-HasType v (subst (λ u. type_ok u v ≡ true) e h))
  | named_number e ↦
      subst (λ u. HasType u v) (sym e) (number-HasType v (subst (λ u. type_ok u v ≡ true) e h))
  | named_integer e ↦
      subst (λ u. HasType u v) (sym e) (integer-HasType v (subst (λ u. type_ok u v ≡ true) e h))
  | named_boolean e ↦
      subst (λ u. HasType u v) (sym e) (boolean-HasType v (subst (λ u. type_ok u v ≡ true) e h))
  | named_null e ↦
      subst (λ u. HasType u v) (sym e) (null-HasType v (subst (λ u. type_ok u v ≡ true) e h))
  | other n ↦ other-HasType t v n h
]

matches_kind_other : (t : Str) (v : Json) → NotKnown t → matches_kind t v ≡ true
unfolding matches_kind
matches_kind_other t v n = ground arith

matches_type_other : (t : Str) (v : Json) → NotKnown t → is_null v ≡ false → matches_type t v ≡ true
unfolding matches_type
matches_type_other t null n e = absurd (false≢true (sym e))
matches_type_other t v n e = matches_kind_other t v n

pub or_true : (a b : Bool) → b ≡ true → (a || b) ≡ true
or_true true b h = refl
or_true false b h = h

pub HasType-type_ok : {t : Str} {v : Json} → HasType t v → type_ok t v ≡ true
unfolding matches_type matches_kind str_eq
HasType-type_ok (untyped e) = rw e refl
HasType-type_ok (object e) = rw e refl
HasType-type_ok (array e) = rw e refl
HasType-type_ok (text e) = rw e refl
HasType-type_ok (number e) = rw e refl
HasType-type_ok (integer e i) = rw e i
HasType-type_ok (boolean e) = rw e refl
HasType-type_ok (nothing e) = rw e refl
HasType-type_ok {t} (unknown {v = v} k e) =
    or_true (is_empty t) _ (matches_type_other t v (KnownType-other t k) e)
