-- ===== src/Common/Splits.antt =====
-- Splitting a string at the first occurrence of a byte.
use Prim.Native.Nat.{ℕ, suc}
use mathlib.Core.Path.{◌≡◌, refl, ap, subst}
use mathlib.Core.Logic.{inl, inr}
use mathlib.Core.Bool.{true, false}
use mathlib.Core.Option.{some}
use mathlib.Core.List.{[], ◌∷◌, ◌++◌}
use platform_kit.Common.Tests.{◌==◌, Bool-cases, Option-cases, some-inj, ==_iff}
use platform_kit.Common.Lists.{length, take, drop, All}
use platform_kit.Common.Strings.{Str, index_byte}

-- A string as what stands before the first byte b, and after it.
abbrev pub SplitsAt : ℕ → Str → Str → Str → Type 0
SplitsAt b s prefix suffix = (s ≡ prefix ++ b ∷ suffix) × All (λ c. (c == b) ≡ false) prefix

pub index_byte-SplitsAt :
    (b : ℕ) (s : Str) (i : ℕ) → index_byte s b ≡ some i → SplitsAt b s (take i s) (drop (suc i) s)
unfolding index_byte
index_byte-SplitsAt b [] i e = cc
index_byte-SplitsAt b (c ∷ s) i e = elim (Bool-cases (c == b)) [
  | inl t ↦
      let z : 0 ≡ i = some-inj (rw (t, index_byte) at e) in
      subst (λ n. SplitsAt b (c ∷ s) (take n (c ∷ s)) (drop (suc n) (c ∷ s))) z
        (ap (λ d. d ∷ s) ((==_iff c b).0 t), tt)
  | inr f ↦ elim (Option-cases (index_byte s b)) [
    | inl n ↦ let e' = rw (f, n, index_byte) at e in cc
    | inr (j, q) ↦
        let z : suc j ≡ i = some-inj (rw (f, q, index_byte) at e) in
        let (h, a) = index_byte-SplitsAt b s j q in
        subst (λ n. SplitsAt b (c ∷ s) (take n (c ∷ s)) (drop (suc n) (c ∷ s))) z
          (ap (λ t. c ∷ t) h, (f, a))
  ]
]

pub SplitsAt-index_byte :
    (b : ℕ) (prefix suffix : Str)
    → All (λ c. (c == b) ≡ false) prefix
    → index_byte (prefix ++ b ∷ suffix) b ≡ some (length prefix)
unfolding index_byte
SplitsAt-index_byte b [] suffix a =
    let t : (b == b) ≡ true = (==_iff b b).1 refl in rw (t, index_byte) refl
SplitsAt-index_byte b (c ∷ prefix) suffix (f, a) =
    rw (f, SplitsAt-index_byte b prefix suffix a, index_byte) refl

pub take_prefix : (p r : Str) → take (length p) (p ++ r) ≡ p
take_prefix [] r = refl
take_prefix (c ∷ p) r = ap (λ t. c ∷ t) (take_prefix p r)

pub drop_prefix : (p : Str) (c : ℕ) (r : Str) → drop (suc (length p)) (p ++ c ∷ r) ≡ r
drop_prefix [] c r = refl
drop_prefix (d ∷ p) c r = drop_prefix p c r
