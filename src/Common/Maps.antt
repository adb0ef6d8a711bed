-- ===== src/Common/Maps.antt =====
-- A Go `map[string]V` as an association list: a key's first entry counts, and `delete` removes them all. Go leaves
-- the order of iteration open; the order of the list is one such order.
use mathlib.Core.Path.{◌≡◌, refl, ap, subst}
use mathlib.Core.Logic.{inl, inr}
use mathlib.Core.Bool.{Bool, true, false}
use mathlib.Core.Option.{Option, none, some}
use mathlib.Core.List.{List, [], ◌∷◌}
use native.Mathlib.Omega.{arith}
use platform_kit.Common.Tests.{if◌then◌else◌, Bool-cases}
use platform_kit.Common.Strings.{Str, str_eq, str_eq_iff, str_eq_refl}

abbrev pub Dict {ℓ} : Type ℓ → Type ℓ
Dict V = List (Str × V)

module _ {ℓ} {V : Type ℓ} where
  -- v, ok := d[k]
  unfoldable pub lookup : Str → Dict V → Option V
  lookup k [] = none
  lookup k ((j, v) ∷ d) = if str_eq j k then some v else lookup k d

  -- d[k] = v
  unfoldable pub insert : Str → V → Dict V → Dict V
  insert k v [] = (k, v) ∷ []
  insert k v ((j, w) ∷ d) = if str_eq j k then (j, v) ∷ d else (j, w) ∷ insert k v d

  -- delete(d, k) for each entry that the test picks
  unfoldable pub delete_if : (Str → V → Bool) → Dict V → Dict V
  delete_if p [] = []
  delete_if p ((j, w) ∷ d) = let rest = delete_if p d in if p j w then rest else (j, w) ∷ rest

  pub lookup-insert :
      (k j : Str) (v : V) (d : Dict V)
      → lookup j (insert k v d) ≡ (if str_eq k j then some v else lookup j d)
  unfolding lookup insert
  lookup-insert k j v [] = refl
  lookup-insert k j v ((i, w) ∷ d) =
      ground (arith, str_eq_iff k j, str_eq_iff i k, str_eq_iff i j, lookup-insert k j v d)

  pub lookup-insert_self : (k : Str) (v : V) (d : Dict V) → lookup k (insert k v d) ≡ some v
  lookup-insert_self k v d = simp (lookup-insert, str_eq_refl)

  pub lookup-insert_hit :
      (k j : Str) (v : V) (d : Dict V) → str_eq k j ≡ true → lookup j (insert k v d) ≡ some v
  lookup-insert_hit k j v d t = let e = lookup-insert k j v d in rw t at e

  pub lookup-insert_miss :
      (k j : Str) (v : V) (d : Dict V) → str_eq k j ≡ false → lookup j (insert k v d) ≡ lookup j d
  lookup-insert_miss k j v d f = let e = lookup-insert k j v d in rw f at e

  -- No key has two entries, as in a Go map.
  abbrev pub IsFresh : Str → Dict V → Type 0
  IsFresh k [] = Unit
  IsFresh k ((j, w) ∷ d) = (str_eq j k ≡ false) × IsFresh k d

  abbrev pub IsDistinct : Dict V → Type 0
  IsDistinct [] = Unit
  IsDistinct ((j, w) ∷ d) = IsFresh j d × IsDistinct d

  IsFresh-insert :
      (j k : Str) (v : V) (d : Dict V) → str_eq k j ≡ false → IsFresh j d → IsFresh j (insert k v d)
  unfolding insert
  IsFresh-insert j k v [] e h = (e, tt)
  IsFresh-insert j k v ((i, w) ∷ d) e h = elim (Bool-cases (str_eq i k)) [
    | inl t ↦ rw t h
    | inr f ↦ rw f (h.0, IsFresh-insert j k v d e h.1)
  ]

  pub insert-IsDistinct : (k : Str) (v : V) (d : Dict V) → IsDistinct d → IsDistinct (insert k v d)
  unfolding insert
  insert-IsDistinct k v [] h = (tt, tt)
  insert-IsDistinct k v ((i, w) ∷ d) h = elim (Bool-cases (str_eq i k)) [
    | inl t ↦ rw t h
    | inr f ↦ rw f (
      IsFresh-insert i k v d (ground (arith, str_eq_iff k i, str_eq_iff i k)) h.0,
      insert-IsDistinct k v d h.1,
    )
  ]

  pub lookup_of_IsFresh : (k : Str) (d : Dict V) → IsFresh k d → lookup k d ≡ none
  unfolding lookup
  lookup_of_IsFresh k [] h = refl
  lookup_of_IsFresh k ((i, w) ∷ d) h = rw h.0 (lookup_of_IsFresh k d h.1)

  IsFresh-delete_if :
      (j : Str) (p : Str → V → Bool) (d : Dict V) → IsFresh j d → IsFresh j (delete_if p d)
  unfolding delete_if
  IsFresh-delete_if j p [] h = tt
  IsFresh-delete_if j p ((i, w) ∷ d) h = elim (Bool-cases (p i w)) [
    | inl t ↦ rw t (IsFresh-delete_if j p d h.1)
    | inr f ↦ rw f (h.0, IsFresh-delete_if j p d h.1)
  ]

  pub delete_if-IsDistinct :
      (p : Str → V → Bool) (d : Dict V) → IsDistinct d → IsDistinct (delete_if p d)
  unfolding delete_if
  delete_if-IsDistinct p [] h = tt
  delete_if-IsDistinct p ((i, w) ∷ d) h = elim (Bool-cases (p i w)) [
    | inl t ↦ rw t (delete_if-IsDistinct p d h.1)
    | inr f ↦ rw f (IsFresh-delete_if i p d h.0, delete_if-IsDistinct p d h.1)
  ]

  -- What is left under a key is what was there, unless the test picked it.
  abbrev pub unless : (V → Bool) → Option V → Option V
  unless p none = none
  unless p (some v) = if p v then none else some v

  pub lookup-delete_if :
      (p : Str → V → Bool) (k : Str) (d : Dict V)
      → IsDistinct d
      → lookup k (delete_if p d) ≡ unless (p k) (lookup k d)
  unfolding lookup delete_if
  lookup-delete_if p k [] h = refl
  lookup-delete_if p k ((i, w) ∷ d) h = elim (Bool-cases (str_eq i k)) [
    | inl t ↦
        let e : i ≡ k = (str_eq_iff i k).0 t in
        let gone : lookup k d ≡ none = lookup_of_IsFresh k d (subst (λ j. IsFresh j d) e h.0) in
        let ih = lookup-delete_if p k d h.1 in
        let e' : p i w ≡ p k w = ap (λ j. p j w) e in ground arith
    | inr f ↦ let ih = lookup-delete_if p k d h.1 in ground arith
  ]
