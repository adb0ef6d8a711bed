-- ===== src/Middleware/Cors/Origins.antt =====
-- Which origins a pattern allows.
use mathlib.Core.Bool.{false≢true}
use platform_kit.Common.{
  ℕ, suc, ◌+◌, ◌≤◌, ◌<◌, Bool, true, false, ◌&&◌, [], ◌∷◌, ◌++◌, ◌≡◌, refl, sym, ap, ◌∙◌, subst,
  inl, inr, ◌⊎◌, ◌↔◌, arith, leb, length, length-append, take, drop, Str, str_eq, str_eq_iff,
  index_byte, has_prefix, has_prefix_iff, has_suffix, has_suffix_iff, Bool-cases, Option-cases,
  if◌then◌else◌, if-both,
}
use platform_kit.Common.Splits.{
  SplitsAt, index_byte-SplitsAt, SplitsAt-index_byte, take_prefix, drop_prefix,
}
use platform_kit.Middleware.Cors.{match_origin, match_wildcard}

-- The pattern itself, or a pattern with a '*' that stands for one byte or more.
abbrev pub Allows : Str → Str → Type 0
Allows pattern origin =
    (pattern ≡ origin)
    ⊎ ((prefix : Str) × (suffix : Str) × (middle : Str) × SplitsAt b'*' pattern prefix suffix
        × (origin ≡ prefix ++ (middle ++ suffix))
        × (0 < length middle))

cons_head : (c d : ℕ) (s t : Str) → c ∷ s ≡ d ∷ t → c ≡ d
cons_head c d s t e = cc

cons_tail : (c d : ℕ) (s t : Str) → c ∷ s ≡ d ∷ t → s ≡ t
cons_tail c d s t e = cc

append_cancel :
    (p r q s : Str)
    → p ++ r ≡ q ++ s
    → length p ≤ length q
    → (m : Str) × (q ≡ p ++ m) × (r ≡ m ++ s)
append_cancel [] r q s e le = (q, refl, e)
append_cancel (c ∷ p) r [] s e le = absurd (not_below le)
  where
    not_below : suc (length p) ≤ 0 → ⊥
    not_below le = omega (arith, le)
append_cancel (c ∷ p) r (d ∷ q) s e le =
    let (m, h, k) = append_cancel p r q s (cons_tail c d _ _ e) (omega (arith, le)) in
    (m, cons_eq m (cons_head c d _ _ e) h, k)
  where
    cons_eq : (m : Str) → c ≡ d → q ≡ p ++ m → d ∷ q ≡ c ∷ (p ++ m)
    cons_eq m a b = cc

append_assoc : (p m s : Str) → (p ++ m) ++ s ≡ p ++ (m ++ s)
append_assoc [] m s = refl
append_assoc (c ∷ p) m s = ap (λ t. c ∷ t) (append_assoc p m s)

-- The three tests on an origin: what is left of it between the prefix and the suffix.
abbrev fits : (prefix suffix origin : Str) → Bool
fits prefix suffix origin =
    if leb (length origin) (length prefix + length suffix)
    then false
    else has_prefix origin prefix && has_suffix origin suffix

fits-middle :
    (prefix suffix origin : Str)
    → fits prefix suffix origin ≡ true
    → (middle : Str) × (origin ≡ prefix ++ (middle ++ suffix)) × (0 < length middle)
fits-middle prefix suffix origin h =
    let (r, e) = (has_prefix_iff origin prefix).0 (ground arith) in
    let (q, e') = (has_suffix_iff origin suffix).0 (ground arith) in
    let longer : length prefix + length suffix < length origin = ground arith in
    let l : length origin ≡ length q + length suffix = ap length e' ∙ length-append q suffix in
    let (m, a, b) = append_cancel prefix r q suffix (sym e ∙ e') (omega (arith, l, longer)) in
    let k : length q ≡ length prefix + length m = ap length a ∙ length-append prefix m in
    (m, e ∙ ap (λ t. prefix ++ t) b, omega (arith, l, k, longer))

middle-fits :
    (prefix suffix middle origin : Str)
    → origin ≡ prefix ++ (middle ++ suffix)
    → 0 < length middle
    → fits prefix suffix origin ≡ true
middle-fits prefix suffix middle origin e lt =
    let l = ap length e ∙ length-append prefix (middle ++ suffix) in
    let k = length-append middle suffix in
    let p : has_prefix origin prefix ≡ true =
      (has_prefix_iff origin prefix).1 (middle ++ suffix, e) in
    let s : has_suffix origin suffix ≡ true =
      (has_suffix_iff origin suffix).1
        (prefix ++ middle, e ∙ sym (append_assoc prefix middle suffix)) in
    ground arith

match-Allows : (pattern origin : Str) → match_origin pattern origin ≡ true → Allows pattern origin
unfolding match_origin
match-Allows pattern origin h = elim (Bool-cases (str_eq pattern origin)) [
  | inl t ↦ inl ((str_eq_iff pattern origin).0 t)
  | inr f ↦ elim (Option-cases (index_byte pattern b'*')) [
    | inl n ↦ absurd (false≢true (rw (f, n) at h))
    | inr (i, q) ↦
        let (middle, e, lt) =
          fits-middle (take i pattern) (drop (suc i) pattern) origin (rw (f, q) at h) in
        inr (
          take i pattern,
          drop (suc i) pattern,
          middle,
          index_byte-SplitsAt b'*' pattern i q,
          e,
          lt,
        )
  ]
]

Allows-wildcard :
    (pattern origin prefix suffix middle : Str)
    → SplitsAt b'*' pattern prefix suffix
    → origin ≡ prefix ++ (middle ++ suffix)
    → 0 < length middle
    → match_wildcard pattern origin (index_byte pattern b'*') ≡ true
Allows-wildcard pattern origin prefix suffix middle (e, a) o lt =
    subst (λ s. match_wildcard s origin (index_byte s b'*') ≡ true) (sym e)
      (rw
        (
          SplitsAt-index_byte b'*' prefix suffix a,
          take_prefix prefix (b'*' ∷ suffix),
          drop_prefix prefix b'*' suffix,
        )
        (middle-fits prefix suffix middle origin o lt))

-- A pattern matches an origin exactly if it is the origin, or if the origin is the pattern with its
-- first '*' replaced by one byte or more.
pub match_origin_iff :
    (pattern origin : Str) → (match_origin pattern origin ≡ true) ↔ Allows pattern origin
unfolding match_origin
match_origin_iff pattern origin = (
  match-Allows pattern origin,
  elim [
    | inl e ↦ let t = (str_eq_iff pattern origin).1 e in rw t refl
    | inr (prefix, suffix, middle, s, o, lt) ↦
        let w = Allows-wildcard pattern origin prefix suffix middle s o lt in
        if-both (λ b. b ≡ true) (str_eq pattern origin) _ _ (λ t. refl) (λ f. w)
  ],
)
