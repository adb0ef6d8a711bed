-- ===== src/Kafka/Event.antt =====
-- kafka/event.go: event names, topics and the CloudEvent envelope.
pub mod Regexp
pub mod Names
pub mod Topics
use platform_kit.Common.{
  ℕ, zero, suc, ◌+◌, ◌-◌, Bool, true, false, ◌&&◌, ◌||◌, Option, none, some, List, [], ◌∷◌, ◌++◌,
  leb, ltb, ◌==◌, if◌then◌else◌, Str, lit, take, drop, is_empty, Dict,
}

-- The classes [a-z], [a-z0-9] and [a-z0-9_] of `eventNameRe`.
unfoldable pub is_lower : ℕ → Bool
is_lower c = leb b'a' c && leb c b'z'

unfoldable pub is_alnum : ℕ → Bool
unfolding is_lower
is_alnum c = is_lower c || leb b'0' c && leb c b'9'

unfoldable pub is_word : ℕ → Bool
unfolding is_alnum
is_word c = is_alnum c || c == b'_'

-- Where a run of `eventNameRe` stands: before or inside the first segment, or before or inside the
-- k-th dotted one.
pub data Mode : Type 0 where
  start : Mode
  leading : Mode
  after_dot : ℕ → Mode
  within : ℕ → Mode

unfoldable pub next : Mode → ℕ → Option Mode
unfolding is_lower is_alnum is_word
next start c = if is_lower c then some leading else none
next leading c = if is_alnum c then some leading else if c == b'.' then some (after_dot 1) else none
next (after_dot k) c = if is_lower c then some (within k) else none
next (within k) c =
    if is_word c then some (within k) else if c == b'.' then some (after_dot (suc k)) else none

unfoldable pub accepting : Mode → Bool
accepting start = false
accepting leading = false
accepting (after_dot k) = false
accepting (within k) = leb 2 k

unfoldable pub match_from : Mode → Str → Bool
unfolding next accepting
match_from m [] = accepting m
match_from m (c ∷ s) = elim (next m c) [ none ↦ false | some m' ↦ match_from m' s ]

-- ValidateEventType: does it return nil?
unfoldable pub validate_event_type : Str → Bool
unfolding match_from
validate_event_type s = match_from start s

-- The loop of splitEventParts over positions: the first and the second dot.
unfoldable pub find_dots : ℕ → Option ℕ → Str → Option ℕ × Option ℕ
find_dots i first [] = (first, none)
find_dots i none (c ∷ s) = find_dots (suc i) (if c == b'.' then some i else none) s
find_dots i (some f) (c ∷ s) =
    let rest = find_dots (suc i) (some f) s in if c == b'.' then (some f, some i) else rest

-- s[a:b]
abbrev pub slice : Str → ℕ → ℕ → Str
slice s a b = take (b - a) (drop a s)

abbrev pub split_at : Str → Option ℕ × Option ℕ → Str × Str
split_at s (none, second) = (s, [])
split_at s (some f, none) = (take f s, drop (suc f) s)
split_at s (some f, some g) = (take f s, slice s (suc f) g)

unfoldable pub split_event_parts : Str → Str × Str
unfolding find_dots
split_event_parts s = split_at s (find_dots 0 none s)

-- fmt.Sprintf("%s.%s", a, b)
abbrev pub dotted : Str → Str → Str
dotted a b = a ++ b'.' ∷ b

unfoldable pub topic_from_event_type : Str → Str → Str
unfolding split_event_parts
topic_from_event_type prefix event_type =
    let (domain, resource) = split_event_parts event_type in
    if is_empty resource then dotted prefix event_type else dotted prefix (dotted domain resource)
