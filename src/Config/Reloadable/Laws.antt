-- ===== src/Config/Reloadable/Laws.antt =====
-- config/hot_reload.go: which leaves of a configuration a reload changes.
use platform_kit.Common.{
  ℕ, suc, zero, Bool, false, ◌&&◌, ◌||◌, Option, none, some, List, [], ◌∷◌, if◌then◌else◌, Str, ◌≡◌,
  refl, arith,
}
use platform_kit.Config.Reloadable.{
  Value, leaf, structure, nil_pointer, pointer, Members, end, member, apply_value,
  apply_reloadable_struct,
}

-- What stands at a path of positions: the text of a leaf, or a nil pointer.
pub data Leaf : Type 0 where
  text : Str → Leaf
  absent : Leaf

abbrev mutual
  pub leaf_at : Value → List ℕ → Option Leaf
  leaf_at (leaf x) [] = some (text x)
  leaf_at (leaf x) (i ∷ p) = none
  leaf_at (structure ms) p = leaf_in ms p
  leaf_at nil_pointer [] = some absent
  leaf_at nil_pointer (i ∷ p) = none
  leaf_at (pointer ms) p = leaf_in ms p

  pub leaf_in : Members → List ℕ → Option Leaf
  leaf_in ms [] = none
  leaf_in end (i ∷ p) = none
  leaf_in (member f v ms) (zero ∷ p) = leaf_at v p
  leaf_in (member f v ms) (suc i ∷ p) = leaf_in ms (i ∷ p)

-- A reload reaches the path: an exported field on it has the tag, the fields above that are exported, and
-- the pointers above it are set on both sides.
abbrev mutual
  pub reaches : Value → Value → List ℕ → Bool
  reaches (structure ms) (structure ns) p = reaches_in ms ns p
  reaches (pointer ms) (pointer ns) p = reaches_in ms ns p
  reaches (structure ms) (leaf y) p = false
  reaches (structure ms) nil_pointer p = false
  reaches (structure ms) (pointer ns) p = false
  reaches (pointer ms) (leaf y) p = false
  reaches (pointer ms) nil_pointer p = false
  reaches (pointer ms) (structure ns) p = false
  reaches (leaf x) w p = false
  reaches nil_pointer w p = false

  pub reaches_in : Members → Members → List ℕ → Bool
  reaches_in ms ns [] = false
  reaches_in end ns (i ∷ p) = false
  reaches_in (member f v ms) end (i ∷ p) = false
  reaches_in (member f v ms) (member g w ns) (zero ∷ p) =
      f.exported && (f.reloadable || reaches v w p)
  reaches_in (member f v ms) (member g w ns) (suc i ∷ p) = reaches_in ms ns (i ∷ p)

mutual
  unfolding apply_reloadable_struct

  leaf_at-apply_value :
      (v w : Value) (p : List ℕ)
      → leaf_at (apply_value v w) p ≡ (if reaches v w p then leaf_at w p else leaf_at v p)
  leaf_at-apply_value (leaf x) w p = refl
  leaf_at-apply_value nil_pointer w p = refl
  leaf_at-apply_value (structure ms) (structure ns) p = leaf_in-apply ms ns p
  leaf_at-apply_value (structure ms) (leaf y) p = refl
  leaf_at-apply_value (structure ms) nil_pointer p = refl
  leaf_at-apply_value (structure ms) (pointer ns) p = refl
  leaf_at-apply_value (pointer ms) (pointer ns) p = leaf_in-apply ms ns p
  leaf_at-apply_value (pointer ms) (leaf y) p = refl
  leaf_at-apply_value (pointer ms) nil_pointer p = refl
  leaf_at-apply_value (pointer ms) (structure ns) p = refl

  leaf_in-apply :
      (ms ns : Members) (p : List ℕ)
      → leaf_in (apply_reloadable_struct ms ns) p
        ≡ (if reaches_in ms ns p then leaf_in ns p else leaf_in ms p)
  leaf_in-apply ms ns [] = refl
  leaf_in-apply end ns (i ∷ p) = refl
  leaf_in-apply (member f v ms) end (i ∷ p) = refl
  leaf_in-apply (member f v ms) (member g w ns) (zero ∷ p) =
      let ih = leaf_at-apply_value v w p in ground (arith, ih)
  leaf_in-apply (member f v ms) (member g w ns) (suc i ∷ p) = leaf_in-apply ms ns (i ∷ p)

-- ApplyReloadable on two structs of one type: a leaf of the result is the source's if the reload reaches
-- its path, through exported fields up to one with the tag and through pointers that are set on both sides,
-- and the destination's otherwise.
pub leaf_in-apply_reloadable_struct :
    (ms ns : Members) (p : List ℕ)
    → leaf_in (apply_reloadable_struct ms ns) p
      ≡ (if reaches_in ms ns p then leaf_in ns p else leaf_in ms p)
leaf_in-apply_reloadable_struct = leaf_in-apply

-- No exported field on the path has the tag.
abbrev mutual
  pub is_tagged : Value → List ℕ → Bool
  is_tagged (structure ms) p = is_tagged_in ms p
  is_tagged (pointer ms) p = is_tagged_in ms p
  is_tagged (leaf x) p = false
  is_tagged nil_pointer p = false

  pub is_tagged_in : Members → List ℕ → Bool
  is_tagged_in ms [] = false
  is_tagged_in end (i ∷ p) = false
  is_tagged_in (member f v ms) (zero ∷ p) = (f.exported && f.reloadable) || is_tagged v p
  is_tagged_in (member f v ms) (suc i ∷ p) = is_tagged_in ms (i ∷ p)

mutual
  reaches-is_tagged : (v w : Value) (p : List ℕ) → is_tagged v p ≡ false → reaches v w p ≡ false
  reaches-is_tagged (leaf x) w p h = refl
  reaches-is_tagged nil_pointer w p h = refl
  reaches-is_tagged (structure ms) (structure ns) p h = reaches_in-is_tagged_in ms ns p h
  reaches-is_tagged (structure ms) (leaf y) p h = refl
  reaches-is_tagged (structure ms) nil_pointer p h = refl
  reaches-is_tagged (structure ms) (pointer ns) p h = refl
  reaches-is_tagged (pointer ms) (pointer ns) p h = reaches_in-is_tagged_in ms ns p h
  reaches-is_tagged (pointer ms) (leaf y) p h = refl
  reaches-is_tagged (pointer ms) nil_pointer p h = refl
  reaches-is_tagged (pointer ms) (structure ns) p h = refl

  reaches_in-is_tagged_in :
      (ms ns : Members) (p : List ℕ) → is_tagged_in ms p ≡ false → reaches_in ms ns p ≡ false
  reaches_in-is_tagged_in ms ns [] h = refl
  reaches_in-is_tagged_in end ns (i ∷ p) h = refl
  reaches_in-is_tagged_in (member f v ms) end (i ∷ p) h = refl
  reaches_in-is_tagged_in (member f v ms) (member g w ns) (zero ∷ p) h =
      ground (arith, reaches-is_tagged v w p)
  reaches_in-is_tagged_in (member f v ms) (member g w ns) (suc i ∷ p) h =
      reaches_in-is_tagged_in ms ns (i ∷ p) h

mutual
  unfolding apply_reloadable_struct

  is_tagged-apply_value :
      (v w : Value) (p : List ℕ) → is_tagged v p ≡ false → is_tagged (apply_value v w) p ≡ false
  is_tagged-apply_value (leaf x) w p h = refl
  is_tagged-apply_value nil_pointer w p h = refl
  is_tagged-apply_value (structure ms) (structure ns) p h = is_tagged_in-apply ms ns p h
  is_tagged-apply_value (structure ms) (leaf y) p h = h
  is_tagged-apply_value (structure ms) nil_pointer p h = h
  is_tagged-apply_value (structure ms) (pointer ns) p h = h
  is_tagged-apply_value (pointer ms) (pointer ns) p h = is_tagged_in-apply ms ns p h
  is_tagged-apply_value (pointer ms) (leaf y) p h = h
  is_tagged-apply_value (pointer ms) nil_pointer p h = h
  is_tagged-apply_value (pointer ms) (structure ns) p h = h

  pub is_tagged_in-apply :
      (ms ns : Members) (p : List ℕ)
      → is_tagged_in ms p ≡ false
      → is_tagged_in (apply_reloadable_struct ms ns) p ≡ false
  is_tagged_in-apply ms ns [] h = refl
  is_tagged_in-apply end ns (i ∷ p) h = refl
  is_tagged_in-apply (member f v ms) end (i ∷ p) h = h
  is_tagged_in-apply (member f v ms) (member g w ns) (zero ∷ p) h =
      ground (arith, is_tagged-apply_value v w p)
  is_tagged_in-apply (member f v ms) (member g w ns) (suc i ∷ p) h =
      is_tagged_in-apply ms ns (i ∷ p) h

-- A leaf without a tag on its path survives.
pub leaf_in-untagged :
    (ms ns : Members) (p : List ℕ)
    → is_tagged_in ms p ≡ false
    → leaf_in (apply_reloadable_struct ms ns) p ≡ leaf_in ms p
leaf_in-untagged ms ns p h =
    let e = leaf_in-apply_reloadable_struct ms ns p in rw (reaches_in-is_tagged_in ms ns p h) at e
