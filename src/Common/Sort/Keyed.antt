-- ===== src/Common/Sort/Keyed.antt =====
-- Maps sorted by their keys: two maps with the same entries sort to the same list.
use platform_kit.Common.Tests.{if◌then◌else◌, Bool-cases, some-inj}
use mathlib.Core.Path.{◌≡◌, refl, sym, ap, ◌∙◌, subst}
use mathlib.Core.Logic.{inl, inr}
use mathlib.Core.Bool.{true, false}
use mathlib.Core.Option.{Option, none, some}
use mathlib.Core.List.{[], ◌∷◌}
use native.Mathlib.Omega.{arith}
use platform_kit.Common.Lists.{All}
use platform_kit.Common.Strings.{Str, str_eq, str_eq_iff, str_eq_refl}
use platform_kit.Common.Maps.{Dict, lookup, IsFresh, IsDistinct, lookup_of_IsFresh}
use platform_kit.Common.Sort.{
  str_le, str_le_antisymm, insert_by, sort_by, IsSorted, sort_by-IsSorted,
}

str_eq_sym : (i j : Str) → str_eq i j ≡ false → str_eq j i ≡ false
str_eq_sym i j f = ground (arith, str_eq_iff i j, str_eq_iff j i)

str_le_refl : (s : Str) → str_le s s ≡ true
unfolding str_le
str_le_refl [] = refl
str_le_refl (c ∷ s) = ground (arith, str_le_refl s)

module _ {V : Type 0} where
  abbrev pub key : Str × V → Str
  key m = m.0

  IsFresh-insert_by :
      (i k : Str) (v : V) (d : Dict V)
      → str_eq k i ≡ false
      → IsFresh i d
      → IsFresh i (insert_by key (k, v) d)
  unfolding insert_by
  IsFresh-insert_by i k v [] e h = (e, tt)
  IsFresh-insert_by i k v ((j, w) ∷ d) e h = elim (Bool-cases (str_le k j)) [
    | inl t ↦ rw t (e, h)
    | inr f ↦ rw f (h.0, IsFresh-insert_by i k v d e h.1)
  ]

  insert_by-IsDistinct :
      (k : Str) (v : V) (d : Dict V)
      → IsFresh k d
      → IsDistinct d
      → IsDistinct (insert_by key (k, v) d)
  unfolding insert_by
  insert_by-IsDistinct k v [] f h = (tt, tt)
  insert_by-IsDistinct k v ((j, w) ∷ d) f h = elim (Bool-cases (str_le k j)) [
    | inl t ↦ rw t (f, h)
    | inr g ↦
        rw g
          (IsFresh-insert_by j k v d (str_eq_sym j k f.0) h.0, insert_by-IsDistinct k v d f.1 h.1)
  ]

  lookup-insert_by :
      (i k : Str) (v : V) (d : Dict V)
      → IsFresh k d
      → lookup i (insert_by key (k, v) d) ≡ (if str_eq k i then some v else lookup i d)
  unfolding insert_by lookup
  lookup-insert_by i k v [] f = refl
  lookup-insert_by i k v ((j, w) ∷ d) f = elim (Bool-cases (str_le k j)) [
    | inl t ↦ rw t refl
    | inr g ↦ rw g (
        let ih = lookup-insert_by i k v d f.1 in
        ground (arith, f.0, str_eq_iff k i, str_eq_iff j i, str_eq_iff j k))
  ]

  IsFresh-sort_by : (i : Str) (d : Dict V) → IsFresh i d → IsFresh i (sort_by key d)
  unfolding sort_by
  IsFresh-sort_by i [] f = tt
  IsFresh-sort_by i ((k, v) ∷ d) f =
      IsFresh-insert_by i k v (sort_by key d) f.0 (IsFresh-sort_by i d f.1)

  sort_by-IsDistinct : (d : Dict V) → IsDistinct d → IsDistinct (sort_by key d)
  unfolding sort_by
  sort_by-IsDistinct [] h = tt
  sort_by-IsDistinct ((k, v) ∷ d) h =
      insert_by-IsDistinct k v (sort_by key d) (IsFresh-sort_by k d h.0) (sort_by-IsDistinct d h.1)

  lookup-sort_by : (i : Str) (d : Dict V) → IsDistinct d → lookup i (sort_by key d) ≡ lookup i d
  unfolding sort_by lookup
  lookup-sort_by i [] h = refl
  lookup-sort_by i ((k, v) ∷ d) h =
      let ih = lookup-sort_by i d h.1 in
      lookup-insert_by i k v (sort_by key d) (IsFresh-sort_by k d h.0)
      ∙ ap (λ (o : Option V). if str_eq k i then some v else o) ih

  lookup-le :
      (k j : Str) (w : V) (d : Dict V)
      → All (λ m. str_le k (key m) ≡ true) d
      → lookup j d ≡ some w
      → str_le k j ≡ true
  unfolding lookup
  lookup-le k j w [] a e = cc
  lookup-le k j w ((i, v) ∷ d) a e = elim (Bool-cases (str_eq i j)) [
    | inl t ↦ subst (λ s. str_le k s ≡ true) ((str_eq_iff i j).0 t) a.0
    | inr f ↦ lookup-le k j w d a.1 (rw f at e)
  ]

  -- The first key of a sorted map is at most every key that has a value.
  head_le :
      (k j : Str) (v w : V) (d : Dict V)
      → All (λ m. str_le k (key m) ≡ true) d
      → lookup j ((k, v) ∷ d) ≡ some w
      → str_le k j ≡ true
  unfolding lookup
  head_le k j v w d a e = elim (Bool-cases (str_eq k j)) [
    | inl t ↦ subst (λ s. str_le k s ≡ true) ((str_eq_iff k j).0 t) (str_le_refl k)
    | inr f ↦ lookup-le k j w d a (rw f at e)
  ]

  lookup_head : (k : Str) (v : V) (d : Dict V) → lookup k ((k, v) ∷ d) ≡ some v
  unfolding lookup
  lookup_head k v d = rw (str_eq_refl k) refl

  lookup_tail :
      (k : Str) (v w : V) (d e : Dict V) (i : Str)
      → IsFresh k d
      → IsFresh k e
      → lookup i ((k, v) ∷ d) ≡ lookup i ((k, w) ∷ e)
      → lookup i d ≡ lookup i e
  unfolding lookup
  lookup_tail k v w d e i fd fe q = elim (Bool-cases (str_eq k i)) [
    | inl t ↦
        subst (λ j. lookup j d ≡ lookup j e) ((str_eq_iff k i).0 t)
          (lookup_of_IsFresh k d fd ∙ sym (lookup_of_IsFresh k e fe))
    | inr f ↦ rw f at q
  ]

  none_or_some : (v : V) → (A : Type 0) → none ≡ some v → A
  none_or_some v A e = cc

  entries_eq :
      (k j : Str) (v w : V) (d e : Dict V) → k ≡ j → v ≡ w → d ≡ e → (k, v) ∷ d ≡ (j, w) ∷ e
  entries_eq k j v w d e p q r = cc

  sorted_unique :
      (d e : Dict V)
      → IsSorted key d
      → IsSorted key e
      → IsDistinct d
      → IsDistinct e
      → ((i : Str) → lookup i d ≡ lookup i e)
      → d ≡ e
  unfolding lookup
  sorted_unique [] [] sd se hd he q = refl
  sorted_unique [] ((k, v) ∷ e) sd se hd he q = none_or_some v _ (q k ∙ lookup_head k v e)
  sorted_unique ((k, v) ∷ d) [] sd se hd he q = none_or_some v _ (sym (q k) ∙ lookup_head k v d)
  sorted_unique ((k, v) ∷ d) ((j, w) ∷ e) sd se hd he q =
      let kj : k ≡ j =
        str_le_antisymm k j (head_le k j v w d sd.0 (q j ∙ lookup_head j w e))
          (head_le j k w v e se.0 (sym (q k) ∙ lookup_head k v d)) in
      let q' : (i : Str) → lookup i ((k, v) ∷ d) ≡ lookup i ((k, w) ∷ e) =
        λ i. q i ∙ ap (λ s. lookup i ((s, w) ∷ e)) (sym kj) in
      let fe : IsFresh k e = subst (λ s. IsFresh s e) (sym kj) he.0 in
      let vw : v ≡ w = some-inj (sym (lookup_head k v d) ∙ q' k ∙ lookup_head k w e) in
      entries_eq k j v w d e kj vw
        (sorted_unique d e sd.1 se.1 hd.1 he.1 (λ i. lookup_tail k v w d e i hd.0 fe (q' i)))

  -- Maps without repeated keys that agree on every lookup are sorted to the same list.
  pub sort_by-canonical :
      (d e : Dict V)
      → IsDistinct d
      → IsDistinct e
      → ((i : Str) → lookup i d ≡ lookup i e)
      → sort_by key d ≡ sort_by key e
  sort_by-canonical d e hd he q =
      sorted_unique (sort_by key d) (sort_by key e) (sort_by-IsSorted key d)
        (sort_by-IsSorted key e) (sort_by-IsDistinct d hd) (sort_by-IsDistinct e he)
        (λ i. lookup-sort_by i d hd ∙ q i ∙ sym (lookup-sort_by i e he))
