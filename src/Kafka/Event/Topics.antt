-- ===== src/Kafka/Event/Topics.antt =====
-- splitEventParts, topicFromEventType and DomainOf on every shape of an event type.
pub mod Routing
use platform_kit.Common.{
  ℕ, suc, ◌+◌, ◌-◌, Bool, true, false, none, some, [], ◌∷◌, ◌++◌, ◌≡◌, refl, ◌⊎◌, inl, inr, ap, ◌∙◌,
  arith, ◌==◌, ==_iff, Str, All, length, drop, take, is_empty, if◌then◌else◌,
}
use platform_kit.Kafka.Event.{
  is_lower, is_alnum, is_word, find_dots, split_at, split_event_parts, dotted,
  topic_from_event_type, validate_event_type,
}
use platform_kit.Kafka.Event.Regexp.{
  class, star, Matches, one, both, done, more, dotted_segment, event_name_re,
}
use platform_kit.Kafka.Event.Names.{validate_event_type_iff}

abbrev pub NoDot : Str → Type 0
NoDot s = All (λ c. (c == b'.') ≡ false) s

find_dots-none : (i : ℕ) (s : Str) → NoDot s → find_dots i none s ≡ (none, none)
unfolding find_dots
find_dots-none i [] h = refl
find_dots-none i (c ∷ s) (h, hs) = rw h (find_dots-none (suc i) s hs)

find_dots-first :
    (i : ℕ) (d s : Str)
    → NoDot d
    → find_dots i none (d ++ b'.' ∷ s) ≡ find_dots (suc (i + length d)) (some (i + length d)) s
unfolding find_dots
find_dots-first i [] s h =
    let e : i ≡ i + 0 = omega arith in ap (λ k. find_dots (suc k) (some k) s) e
find_dots-first i (c ∷ d) s (h, hs) =
    let e : suc i + length d ≡ i + suc (length d) = omega arith in
    ap (λ b. find_dots (suc i) (if b then some i else none) (d ++ b'.' ∷ s)) h
    ∙ find_dots-first (suc i) d s hs
    ∙ ap (λ k. find_dots (suc k) (some k) s) e

find_dots-one : (i f : ℕ) (s : Str) → NoDot s → find_dots i (some f) s ≡ (some f, none)
unfolding find_dots
find_dots-one i f [] h = refl
find_dots-one i f (c ∷ s) (h, hs) = rw h (find_dots-one (suc i) f s hs)

find_dots-second :
    (i f : ℕ) (r s : Str)
    → NoDot r
    → find_dots i (some f) (r ++ b'.' ∷ s) ≡ (some f, some (i + length r))
unfolding find_dots
find_dots-second i f [] s h = ground arith
find_dots-second i f (c ∷ r) s (h, hs) =
    let e : suc i + length r ≡ i + suc (length r) = omega arith in
    rw h (find_dots-second (suc i) f r s hs ∙ ap (λ (k : ℕ). (some f, some k)) e)

take-append : (d s : Str) → take (length d) (d ++ s) ≡ d
take-append [] s = refl
take-append (c ∷ d) s = ap (λ t. c ∷ t) (take-append d s)

drop-append : (d : Str) (b : ℕ) (s : Str) → drop (suc (length d)) (d ++ b ∷ s) ≡ s
drop-append [] b s = refl
drop-append (c ∷ d) b s = drop-append d b s

-- No dot: the whole text is the domain.
split_event_parts-none : (s : Str) → NoDot s → split_event_parts s ≡ (s, [])
unfolding split_event_parts
split_event_parts-none s h = ap (split_at s) (find_dots-none 0 s h)

split_event_parts-one : (d r : Str) → NoDot d → NoDot r → split_event_parts (d ++ b'.' ∷ r) ≡ (d, r)
unfolding split_event_parts
split_event_parts-one d r h k =
    let e = find_dots-first 0 d r h ∙ find_dots-one (suc (0 + length d)) (0 + length d) r k in
    let z : 0 + length d ≡ length d = omega arith in
    ap (split_at (d ++ b'.' ∷ r)) e
    ∙ rw z (ground (arith, take-append d (b'.' ∷ r), drop-append d b'.' r))

split_event_parts-two :
    (d r t : Str) → NoDot d → NoDot r → split_event_parts (d ++ b'.' ∷ (r ++ b'.' ∷ t)) ≡ (d, r)
unfolding split_event_parts
split_event_parts-two d r t h k =
    let e =
      find_dots-first 0 d (r ++ b'.' ∷ t) h
      ∙ find_dots-second (suc (0 + length d)) (0 + length d) r t k in
    let z : 0 + length d ≡ length d = omega arith in
    let n : suc (length d) + length r - suc (length d) ≡ length r = omega arith in
    ap (split_at (d ++ b'.' ∷ (r ++ b'.' ∷ t))) e
    ∙ rw
        (
          z,
          n,
          drop-append d b'.' (r ++ b'.' ∷ t),
          take-append d (b'.' ∷ (r ++ b'.' ∷ t)),
          take-append r (b'.' ∷ t),
        )
        refl

lower_NoDot : (c : ℕ) → is_lower c ≡ true → (c == b'.') ≡ false
unfolding is_lower
lower_NoDot c h = ground arith

alnum_NoDot : (c : ℕ) → is_alnum c ≡ true → (c == b'.') ≡ false
unfolding is_alnum
alnum_NoDot c h = ground arith

word_NoDot : (c : ℕ) → is_word c ≡ true → (c == b'.') ≡ false
unfolding is_word
word_NoDot c h = ground arith

star-NoDot :
    (p : ℕ → Bool)
    → ((c : ℕ) → p c ≡ true → (c == b'.') ≡ false)
    → {w : Str} → Matches (star (class p)) w
    → NoDot w
star-NoDot p f (done e) = rw e tt
star-NoDot p f (more (one {c = c} q e) m e') = rw (e', e) (f c q, star-NoDot p f m)

-- A dotted segment is a dot and a nonempty text with no dot.
segment-shape :
    {s : Str} → Matches dotted_segment s → (h : ℕ) × (w : Str) × (s ≡ b'.' ∷ h ∷ w) × NoDot (h ∷ w)
segment-shape (both (one {c = c} p q) (both {t = w} (one {c = h} l q') m e') e) =
    (h, w, ground (arith, (==_iff c b'.').0 p), (lower_NoDot h l, star-NoDot is_word word_NoDot m))

star_segment-shape :
    {s : Str} → Matches (star dotted_segment) s → (s ≡ []) ⊎ ((t : Str) × (s ≡ b'.' ∷ t))
star_segment-shape (done e) = inl e
star_segment-shape (more {t = t} m ms e) =
    let (h, w, e', n) = segment-shape m in inr (h ∷ (w ++ t), ground arith)

-- A valid event type starts with a domain and a nonempty resource, closed by dots.
pub record IsSplit (s d r t : Str) : Type 0 where
  pub shape : s ≡ d ++ b'.' ∷ (r ++ b'.' ∷ t)
  pub domain : NoDot d
  pub resource : NoDot r
  pub nonempty : is_empty r ≡ false

pub valid-IsSplit : (s : Str) → validate_event_type s ≡ true → (d r t : Str) × IsSplit s d r t
valid-IsSplit s h = go ((validate_event_type_iff s).0 h)
  where
    go : {s : Str} → Matches event_name_re s → (d r t : Str) × IsSplit s d r t
    go
          (both {s = d}
            (both {t = w} (one {c = c} p q) m e₁)
            (both d₁ (both {t = t} d₂ ds e₄) e₃)
            e₂) =
        let (h₁, w₁, e₅, n₁) = segment-shape d₁ in
        let (h₂, w₂, e₆, n₂) = segment-shape d₂ in
        (
          d,
          h₁ ∷ w₁,
          h₂ ∷ (w₂ ++ t),
          record {
            shape = e₂ ∙ ap (λ u. d ++ u) (e₃ ∙ ground arith);
            domain = rw (e₁, q) (lower_NoDot c p, star-NoDot is_alnum alnum_NoDot m);
            resource = n₁;
            nonempty = refl;
          },
        )

split-IsSplit : {s d r t : Str} → IsSplit s d r t → split_event_parts s ≡ (d, r)
split-IsSplit {d} {r} {t} h =
    ap split_event_parts h.shape ∙ split_event_parts-two d r t h.domain h.resource

pub topic-IsSplit :
    (p : Str) {s d r t : Str} → IsSplit s d r t → topic_from_event_type p s ≡ dotted p (dotted d r)
unfolding topic_from_event_type
topic-IsSplit p h = rw (split-IsSplit h, h.nonempty) refl
