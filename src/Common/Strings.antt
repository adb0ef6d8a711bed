-- ===== src/Common/Strings.antt =====
-- A Go string is a sequence of bytes: a list of native numbers. The functions of the standard
-- library's `strings` package that the program calls.
use Prim.Native.Nat.{ℕ, zero, suc, ◌+◌, ◌-◌, ◌/◌, ◌%◌}
use Prim.Native.Char.{code}
use Prim.Native.String.{String}
use mathlib.Core.Path.{◌≡◌, refl, sym, ap, ◌∙◌}
use mathlib.Core.Logic.{◌↔◌}
use mathlib.Core.Bool.{Bool, true, false, ◌&&◌, ◌||◌, false≢true}
use mathlib.Core.Option.{Option, none, some}
use mathlib.Core.List.{List, [], ◌∷◌, ◌++◌}
use native.Mathlib.Omega.{arith}
use platform_kit.Common.Tests.{leb, ◌==◌, if◌then◌else◌}
use platform_kit.Common.Lists.{length, take, drop, is_empty, length-append}

abbrev pub Str : Type 0
Str = List ℕ

-- The bytes of an ASCII literal.
abbrev pub lit : String → Str
lit String.[] = []
lit (String.◌∷◌ c s) = code c ∷ lit s

unfoldable pub str_eq : Str → Str → Bool
str_eq [] [] = true
str_eq [] (y ∷ ys) = false
str_eq (x ∷ xs) [] = false
str_eq (x ∷ xs) (y ∷ ys) = (x == y) && str_eq xs ys

pub str_eq_iff : (s t : Str) → (str_eq s t ≡ true) ↔ (s ≡ t)
unfolding str_eq
str_eq_iff [] [] = ground arith
str_eq_iff [] (y ∷ ys) = ground arith
str_eq_iff (x ∷ xs) [] = ground arith
str_eq_iff (x ∷ xs) (y ∷ ys) = ground (arith, str_eq_iff xs ys)

pub str_eq_refl : (s : Str) → str_eq s s ≡ true
str_eq_refl s = (str_eq_iff s s).1 refl

-- strings.HasPrefix
unfoldable pub has_prefix : Str → Str → Bool
has_prefix s [] = true
has_prefix [] (p ∷ ps) = false
has_prefix (c ∷ s) (p ∷ ps) = (c == p) && has_prefix s ps

-- strings.HasSuffix
unfoldable pub has_suffix : Str → Str → Bool
has_suffix s t = leb (length t) (length s) && str_eq (drop (length s - length t) s) t

-- strings.Contains
unfoldable pub contains : Str → Str → Bool
contains [] t = is_empty t
contains (c ∷ s) t = has_prefix (c ∷ s) t || contains s t

-- strings.IndexByte; `none` stands for -1.
unfoldable pub index_byte : Str → ℕ → Option ℕ
index_byte [] b = none
index_byte (c ∷ s) b = elim (c == b) [
  | true ↦ some 0
  | false ↦ elim (index_byte s b) [ none ↦ none | some i ↦ some (suc i) ]
]

-- strings.Join
unfoldable pub join : List Str → Str → Str
join [] sep = []
join (s ∷ []) sep = s
join (s ∷ t ∷ more) sep = s ++ (sep ++ join (t ∷ more) sep)

pub has_prefix-append : (p r : Str) → has_prefix (p ++ r) p ≡ true
unfolding has_prefix
has_prefix-append [] [] = refl
has_prefix-append [] (c ∷ r) = refl
has_prefix-append (c ∷ p) r = ground (arith, has_prefix-append p r)

pub has_prefix-eq : (s p : Str) → has_prefix s p ≡ true → (r : Str) × (s ≡ p ++ r)
unfolding has_prefix
has_prefix-eq s [] h = (s, refl)
has_prefix-eq [] (p ∷ ps) h = absurd (false≢true h)
has_prefix-eq (c ∷ s) (p ∷ ps) h =
    let (r, e) = has_prefix-eq s ps (ground arith) in (r, ground arith)

pub has_prefix_iff : (s p : Str) → (has_prefix s p ≡ true) ↔ ((r : Str) × (s ≡ p ++ r))
has_prefix_iff s p = (has_prefix-eq s p, λ (r, e). rw e (has_prefix-append p r))

drop-length : (p r : Str) → drop (length p) (p ++ r) ≡ r
drop-length [] r = refl
drop-length (c ∷ p) r = drop-length p r

take-append-drop : (n : ℕ) (s : Str) → take n s ++ drop n s ≡ s
take-append-drop zero s = refl
take-append-drop (suc n) [] = refl
take-append-drop (suc n) (c ∷ s) = ap (λ t. c ∷ t) (take-append-drop n s)

has_suffix-append : (r t : Str) → has_suffix (r ++ t) t ≡ true
unfolding has_suffix
has_suffix-append r t =
    let e : length (r ++ t) - length t ≡ length r = omega (arith, length-append r t) in
    rw (e, drop-length r t, str_eq_refl t) (ground (arith, length-append r t))

has_suffix-eq : (s t : Str) → has_suffix s t ≡ true → (r : Str) × (s ≡ r ++ t)
unfolding has_suffix
has_suffix-eq s t h =
    let n = length s - length t in
    let e : drop n s ≡ t = (str_eq_iff (drop n s) t).0 (ground arith) in
    (take n s, sym (take-append-drop n s) ∙ ap (λ u. take n s ++ u) e)

pub has_suffix_iff : (s t : Str) → (has_suffix s t ≡ true) ↔ ((r : Str) × (s ≡ r ++ t))
has_suffix_iff s t = (has_suffix-eq s t, λ (r, e). rw e (has_suffix-append r t))

-- strconv.Itoa on a number that is not negative; the digits of n are at most n + 1.
unfoldable pub digits_from : ℕ → ℕ → Str → Str
digits_from zero n acc = acc
digits_from (suc f) n acc =
    let acc' = (b'0' + n % 10) ∷ acc in
    let rest = digits_from f (n / 10) acc' in if n / 10 == 0 then acc' else rest

unfoldable pub itoa : ℕ → Str
unfolding digits_from
itoa n = digits_from (suc n) n []

itoa_305 : itoa 305 ≡ lit "305"
unfolding itoa
itoa_305 = refl
