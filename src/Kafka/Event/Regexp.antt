-- ===== src/Kafka/Event/Regexp.antt =====
-- Regular expressions and the texts that they match; `event_name_re` is the pattern of `eventNameRe`.
use platform_kit.Common.{ℕ, Bool, true, ◌≡◌, [], ◌∷◌, ◌++◌, ◌==◌, Str}
use platform_kit.Kafka.Event.{is_lower, is_alnum, is_word}

pub data Regexp : Type 0 where
  class : (ℕ → Bool) → Regexp
  seq : Regexp → Regexp → Regexp
  star : Regexp → Regexp

pub data Matches : Regexp → Str → Type 0 where
  one : {p : ℕ → Bool} {c : ℕ} {s : Str} → p c ≡ true → s ≡ c ∷ [] → Matches (class p) s
  both : {r q : Regexp} {s t u : Str} → Matches r s → Matches q t → u ≡ s ++ t → Matches (seq r q) u
  done : {r : Regexp} {s : Str} → s ≡ [] → Matches (star r) s
  more :
      {r : Regexp} {s t u : Str}
      → Matches r s
      → Matches (star r) t
      → u ≡ s ++ t
      → Matches (star r) u

-- \.[a-z][a-z0-9_]*
abbrev pub dotted_segment : Regexp
dotted_segment = seq (class (λ c. c == b'.')) (seq (class is_lower) (star (class is_word)))

-- ^[a-z][a-z0-9]*(\.[a-z][a-z0-9_]*){2,}$
abbrev pub event_name_re : Regexp
event_name_re =
    seq (seq (class is_lower) (star (class is_alnum)))
      (seq dotted_segment (seq dotted_segment (star dotted_segment)))
