-- ===== src/Common/Sort.antt =====
-- sort.Slice with a comparison, as an insertion sort, and the byte order on strings that it is called with.
pub mod Keyed
use mathlib.Core.Path.{◌≡◌, refl, sym}
use mathlib.Core.Logic.{inl, inr, ◌↔◌}
use mathlib.Core.Bool.{Bool, true, false, ◌||◌, ◌&&◌, false≢true}
use mathlib.Core.List.{List, [], ◌∷◌, Perm}
use mathlib.Core.List.Perm
use native.Mathlib.Omega.{arith}
use platform_kit.Common.Tests.{ltb, ◌==◌, if◌then◌else◌, Bool-cases}
use platform_kit.Common.Lists.{All, In}
use platform_kit.Common.Strings.{Str}

-- s <= t
unfoldable pub str_le : Str → Str → Bool
str_le [] t = true
str_le (x ∷ xs) [] = false
str_le (x ∷ xs) (y ∷ ys) = ltb x y || (x == y) && str_le xs ys

pub str_le_total : (s t : Str) → str_le s t ≡ false → str_le t s ≡ true
unfolding str_le
str_le_total [] t h = absurd (false≢true (sym h))
str_le_total (x ∷ xs) [] h = refl
str_le_total (x ∷ xs) (y ∷ ys) h = ground (arith, str_le_total xs ys)

pub str_le_trans : (s t u : Str) → str_le s t ≡ true → str_le t u ≡ true → str_le s u ≡ true
unfolding str_le
str_le_trans [] t u h k = refl
str_le_trans (x ∷ xs) [] u h k = absurd (false≢true h)
str_le_trans (x ∷ xs) (y ∷ ys) [] h k = absurd (false≢true k)
str_le_trans (x ∷ xs) (y ∷ ys) (z ∷ zs) h k = ground (arith, str_le_trans xs ys zs)

pub str_le_antisymm : (s t : Str) → str_le s t ≡ true → str_le t s ≡ true → s ≡ t
unfolding str_le
str_le_antisymm [] [] h k = refl
str_le_antisymm [] (y ∷ ys) h k = absurd (false≢true k)
str_le_antisymm (x ∷ xs) [] h k = absurd (false≢true h)
str_le_antisymm (x ∷ xs) (y ∷ ys) h k = ground (arith, str_le_antisymm xs ys)

module _ {A : Type 0} (key : A → Str) where
  insert_by : A → List A → List A
  insert_by x [] = x ∷ []
  insert_by x (y ∷ ys) =
      let rest = y ∷ insert_by x ys in if str_le (key x) (key y) then x ∷ y ∷ ys else rest

  unfoldable pub sort_by : List A → List A
  unfolding insert_by str_le
  sort_by [] = []
  sort_by (x ∷ xs) = insert_by x (sort_by xs)

  abbrev pub IsSorted : List A → Type 0
  IsSorted [] = Unit
  IsSorted (x ∷ xs) = All (λ y. str_le (key x) (key y) ≡ true) xs × IsSorted xs

  insert_by-Perm : (x : A) (xs : List A) → Perm (insert_by x xs) (x ∷ xs)
  unfolding insert_by
  insert_by-Perm x [] = Perm.refl _
  insert_by-Perm x (y ∷ ys) = elim (Bool-cases (str_le (key x) (key y))) [
    | inl t ↦ rw t (Perm.refl _)
    | inr f ↦ rw f (Perm.trans (Perm.cons y (insert_by-Perm x ys)) (Perm.swap _ _ _))
  ]

  pub sort_by-Perm : (xs : List A) → Perm (sort_by xs) xs
  unfolding sort_by
  sort_by-Perm [] = Perm.refl _
  sort_by-Perm (x ∷ xs) = Perm.trans (insert_by-Perm x (sort_by xs)) (Perm.cons x (sort_by-Perm xs))

  insert_by-All : (P : A → Type 0) (x : A) (xs : List A) → P x → All P xs → All P (insert_by x xs)
  unfolding insert_by
  insert_by-All P x [] p h = (p, tt)
  insert_by-All P x (y ∷ ys) p (q, h) = elim (Bool-cases (str_le (key x) (key y))) [
    | inl t ↦ rw t (p, (q, h))
    | inr f ↦ rw f (q, insert_by-All P x ys p h)
  ]

  All-weaken :
      (x y : A) (ys : List A)
      → str_le (key x) (key y) ≡ true
      → All (λ z. str_le (key y) (key z) ≡ true) ys
      → All (λ z. str_le (key x) (key z) ≡ true) ys
  All-weaken x y [] e h = tt
  All-weaken x y (z ∷ zs) e (h, hs) = (str_le_trans _ _ _ e h, All-weaken x y zs e hs)

  insert_by-IsSorted : (x : A) (xs : List A) → IsSorted xs → IsSorted (insert_by x xs)
  unfolding insert_by
  insert_by-IsSorted x [] h = (tt, tt)
  insert_by-IsSorted x (y ∷ ys) (h, s) = elim (Bool-cases (str_le (key x) (key y))) [
    | inl t ↦ rw t ((t, All-weaken x y ys t h), (h, s))
    | inr f ↦ rw f (
      insert_by-All (λ z. str_le (key y) (key z) ≡ true) x ys (str_le_total _ _ f) h,
      insert_by-IsSorted x ys s,
    )
  ]

  pub sort_by-IsSorted : (xs : List A) → IsSorted (sort_by xs)
  unfolding sort_by
  sort_by-IsSorted [] = tt
  sort_by-IsSorted (x ∷ xs) = insert_by-IsSorted x (sort_by xs) (sort_by-IsSorted xs)

  insert_by-In :
      (a x : A) (xs : List A)
      → (In a (insert_by x xs) → In a (x ∷ xs)) × (In a (x ∷ xs) → In a (insert_by x xs))
  unfolding insert_by
  insert_by-In a x [] = (λ m. m, λ m. m)
  insert_by-In a x (y ∷ ys) = elim (Bool-cases (str_le (key x) (key y))) [
    | inl t ↦ rw t (λ m. m, λ m. m)
    | inr f ↦
        let (to, from) = insert_by-In a x ys in
        rw f (
          elim [
            | inl e ↦ inr (inl e)
            | inr m ↦ elim (to m) [ inl e ↦ inl e | inr n ↦ inr (inr n) ]
          ],
          elim [
            | inl e ↦ inr (from (inl e))
            | inr m ↦ elim m [ inl e ↦ inl e | inr n ↦ inr (from (inr n)) ]
          ],
        )
  ]

  -- Sorting keeps the elements.
  pub sort_by-In : (a : A) (xs : List A) → In a (sort_by xs) ↔ In a xs
  unfolding sort_by
  sort_by-In a [] = (λ m. m, λ m. m)
  sort_by-In a (x ∷ xs) =
      let (to, from) = insert_by-In a x (sort_by xs) in
      let (back, forth) = sort_by-In a xs in
      (
        λ m. elim (to m) [ inl e ↦ inl e | inr n ↦ inr (back n) ],
        elim [ inl e ↦ from (inl e) | inr n ↦ from (inr (forth n)) ],
      )
