-- ===== src/Kafka/Event/Names.antt =====
-- The automaton of ValidateEventType against the regular expression.
use platform_kit.Common.{
  ℕ, suc, ◌+◌, ◌≤◌, Bool, true, [], ◌∷◌, ◌++◌, ◌≡◌, refl, ◌↔◌, inl, inr, ap, ◌∙◌, arith, ◌==◌, Str,
  Bool-cases,
}
use mathlib.Core.Bool.{false≢true}
use platform_kit.Kafka.Event.{
  is_lower, is_alnum, is_word, Mode, start, leading, after_dot, within, next, accepting, match_from,
  validate_event_type,
}
use platform_kit.Kafka.Event.Regexp.{
  Regexp, class, seq, star, Matches, one, both, done, more, dotted_segment, event_name_re,
}

abbrev words : Regexp
words = star (class is_word)

abbrev alnums : Regexp
alnums = star (class is_alnum)

-- A text of n dotted segments.
data Segments : ℕ → Str → Type 0 where
  nil : Segments 0 []
  cons :
      {n : ℕ} {w s u : Str}
      → Matches dotted_segment w
      → Segments n s
      → u ≡ w ++ s
      → Segments (suc n) u

abbrev Tail : ℕ → Str → Type 0
Tail k r = (n : ℕ) × Segments n r × (2 ≤ k + n)

-- What is left to read in each mode.
abbrev Rest : Mode → Str → Type 0
Rest start s = (w r : Str) × (s ≡ w ++ r) × Matches (seq (class is_lower) alnums) w × Tail 0 r
Rest leading s = (w r : Str) × (s ≡ w ++ r) × Matches alnums w × Tail 0 r
Rest (after_dot k) s =
    (w r : Str) × (s ≡ w ++ r) × Matches (seq (class is_lower) words) w × Tail k r
Rest (within k) s = (w r : Str) × (s ≡ w ++ r) × Matches words w × Tail k r

star_cons :
    (p : ℕ → Bool) (c : ℕ) (w : Str)
    → p c ≡ true
    → Matches (star (class p)) w
    → Matches (star (class p)) (c ∷ w)
star_cons p c w e m = more {s = c ∷ []} {t = w} (one e refl) m refl

class_cons :
    (p q : ℕ → Bool) (c : ℕ) (w : Str)
    → p c ≡ true
    → Matches (star (class q)) w
    → Matches (seq (class p) (star (class q))) (c ∷ w)
class_cons p q c w e m = both {s = c ∷ []} {t = w} (one e refl) m refl

-- A dot, and the segment after it.
Tail-dot : (k c : ℕ) (s : Str) → (c == b'.') ≡ true → Rest (after_dot (suc k)) s → Tail k (c ∷ s)
Tail-dot k c s e (w, r, es, m, (n, t, le)) = (
  suc n,
  cons {w = c ∷ w} {s = r} (both {s = c ∷ []} {t = w} (one e refl) m refl) t (ap (λ u. c ∷ u) es),
  omega arith,
)

match_from-Rest : (m : Mode) (s : Str) → match_from m s ≡ true → Rest m s
unfolding match_from next accepting
match_from-Rest start [] h = absurd (false≢true h)
match_from-Rest leading [] h = absurd (false≢true h)
match_from-Rest (after_dot k) [] h = absurd (false≢true h)
match_from-Rest (within k) [] h = ([], [], refl, done refl, (0, nil, ground arith))
match_from-Rest start (c ∷ s) h = elim (Bool-cases (is_lower c)) [
  | inl e ↦
      let (w, r, es, m, t) = match_from-Rest leading s (ground arith) in
      (c ∷ w, r, ap (λ u. c ∷ u) es, class_cons is_lower is_alnum c w e m, t)
  | inr e ↦ absurd (ground arith)
]
match_from-Rest leading (c ∷ s) h = elim (Bool-cases (is_alnum c)) [
  | inl e ↦
      let (w, r, es, m, t) = match_from-Rest leading s (ground arith) in
      (c ∷ w, r, ap (λ u. c ∷ u) es, star_cons is_alnum c w e m, t)
  | inr e ↦ elim (Bool-cases (c == b'.')) [
    | inl d ↦ (
      [],
      c ∷ s,
      refl,
      done refl,
      Tail-dot 0 c s d (match_from-Rest (after_dot 1) s (ground arith)),
    )
    | inr d ↦ absurd (ground arith)
  ]
]
match_from-Rest (after_dot k) (c ∷ s) h = elim (Bool-cases (is_lower c)) [
  | inl e ↦
      let (w, r, es, m, t) = match_from-Rest (within k) s (ground arith) in
      (c ∷ w, r, ap (λ u. c ∷ u) es, class_cons is_lower is_word c w e m, t)
  | inr e ↦ absurd (ground arith)
]
match_from-Rest (within k) (c ∷ s) h = elim (Bool-cases (is_word c)) [
  | inl e ↦
      let (w, r, es, m, t) = match_from-Rest (within k) s (ground arith) in
      (c ∷ w, r, ap (λ u. c ∷ u) es, star_cons is_word c w e m, t)
  | inr e ↦ elim (Bool-cases (c == b'.')) [
    | inl d ↦ (
      [],
      c ∷ s,
      refl,
      done refl,
      Tail-dot k c s d (match_from-Rest (after_dot (suc k)) s (ground arith)),
    )
    | inr d ↦ absurd (ground arith)
  ]
]

Segments-star : {n : ℕ} {s : Str} → Segments n s → Matches (star dotted_segment) s
Segments-star nil = done refl
Segments-star (cons m t e) = more m (Segments-star t) e

Segments-two :
    (n : ℕ) (s : Str)
    → 2 ≤ n
    → Segments n s
    → Matches (seq dotted_segment (seq dotted_segment (star dotted_segment))) s
Segments-two n s le (cons m (cons m' t e') e) = both m (both m' (Segments-star t) e') e
Segments-two n s le (cons m nil e) = absurd (omega arith)
Segments-two n s le nil = absurd (omega arith)

validate_event_type-Matches : (s : Str) → validate_event_type s ≡ true → Matches event_name_re s
unfolding validate_event_type
validate_event_type-Matches s h =
    let (w, r, e, m, (n, t, le)) = match_from-Rest start s h in
    both m (Segments-two n r (omega arith) t) e

alnums_run :
    {w : Str} (r : Str) → Matches alnums w → match_from leading (w ++ r) ≡ match_from leading r
unfolding match_from next
alnums_run r (done e) = rw e
alnums_run r (more (one p q) m e) = rw (e, q) (ground (arith, alnums_run r m))

words_run :
    {w : Str} (k : ℕ) (r : Str)
    → Matches words w
    → match_from (within k) (w ++ r) ≡ match_from (within k) r
unfolding match_from next
words_run k r (done e) = rw e
words_run k r (more (one p q) m e) = rw (e, q) (ground (arith, words_run k r m))

-- A byte cannot be both a dot and a letter.
dot_is : (c : ℕ) → (c == b'.') ≡ true → c ≡ b'.'
dot_is c h = ground arith

after_dot_run :
    {w : Str} (k : ℕ) (r : Str)
    → Matches (seq (class is_lower) words) w
    → match_from (after_dot k) (w ++ r) ≡ match_from (within k) r
unfolding match_from next
after_dot_run k r (both (one p q) m e) = rw (e, q) (ground (arith, words_run k r m))

segment_run :
    {w : Str} (k : ℕ) (r : Str)
    → Matches dotted_segment w
    → match_from (within k) (w ++ r) ≡ match_from (within (suc k)) r
unfolding match_from next is_word
segment_run k r (both (one p q) m e) = rw (e, q, dot_is _ p) (after_dot_run (suc k) r m)

first_segment_run :
    {w : Str} (r : Str)
    → Matches dotted_segment w
    → match_from leading (w ++ r) ≡ match_from (within 1) r
unfolding match_from next is_alnum
first_segment_run r (both (one p q) m e) = rw (e, q, dot_is _ p) (after_dot_run 1 r m)

segments_run :
    {w : Str} (k : ℕ) → 2 ≤ k → Matches (star dotted_segment) w → match_from (within k) w ≡ true
unfolding match_from accepting
segments_run k le (done e) = rw e (ground arith)
segments_run k le (more {t = t} m ms e) =
    rw e (segment_run k t m ∙ segments_run (suc k) (omega arith) ms)

validate_event_type_of_Matches : {s : Str} → Matches event_name_re s → validate_event_type s ≡ true
unfolding validate_event_type next
validate_event_type_of_Matches
      (both {t = rest}
        (both {t = w} (one p q) m e₁)
        (both {t = t} d (both {t = t'} d' ds e₄) e₃)
        e₂) =
    rw (e₂, e₁, q)
      (ground (
        arith,
        alnums_run rest m,
        ap (match_from leading) e₃,
        first_segment_run t d,
        ap (match_from (within 1)) e₄,
        segment_run 1 t' d',
        segments_run 2 (omega arith) ds,
      ))

-- ValidateEventType accepts exactly the texts that the regular expression `eventNameRe` matches.
pub validate_event_type_iff : (s : Str) → (validate_event_type s ≡ true) ↔ Matches event_name_re s
validate_event_type_iff s = (validate_event_type-Matches s, validate_event_type_of_Matches)
