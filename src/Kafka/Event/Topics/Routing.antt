-- ===== src/Kafka/Event/Topics/Routing.antt =====
-- Which events share a topic.
use platform_kit.Common.{true, [], ◌∷◌, ◌++◌, ◌≡◌, refl, ◌↔◌, sym, ap, ◌∙◌, arith, Str}
use platform_kit.Kafka.Event.{split_event_parts, dotted, topic_from_event_type, validate_event_type}
use platform_kit.Kafka.Event.Topics.{NoDot, IsSplit, valid-IsSplit, split-IsSplit, topic-IsSplit}

append_cancel : (p s t : Str) → p ++ s ≡ p ++ t → s ≡ t
append_cancel [] s t e = e
append_cancel (c ∷ p) s t e = append_cancel p s t (cc)

-- A text is cut at its first dot in one way.
dotted_cancel : (d e s t : Str) → NoDot d → NoDot e → dotted d s ≡ dotted e t → (d ≡ e) × (s ≡ t)
dotted_cancel [] [] s t h k q = (refl, cc)
dotted_cancel [] (c ∷ e) s t h (k, _) q = absurd (ground arith)
dotted_cancel (c ∷ d) [] s t (h, _) k q = absurd (ground arith)
dotted_cancel (c ∷ d) (c' ∷ e) s t (_, h) (_, k) q =
    let (p, r) = dotted_cancel d e s t h k (cc) in (ground arith, r)

-- For a valid event type, splitEventParts returns the two leading segments of the type, neither of
-- which holds a dot, the second not empty, and topicFromEventType returns the prefix and those two
-- joined by dots.
pub topic_of_valid :
    (prefix s : Str)
    → validate_event_type s ≡ true
    → (d r t : Str) × IsSplit s d r t
      × (split_event_parts s ≡ (d, r))
      × (topic_from_event_type prefix s ≡ dotted prefix (dotted d r))
topic_of_valid prefix s h =
    let (d, r, t, i) = valid-IsSplit s h in (d, r, t, i, split-IsSplit i, topic-IsSplit prefix i)

-- Two valid event types go to one topic exactly when splitEventParts gives the same domain and
-- resource for both, whatever the prefix.
pub topic-eq_iff :
    (prefix a b : Str)
    → validate_event_type a ≡ true
    → validate_event_type b ≡ true
    → (topic_from_event_type prefix a ≡ topic_from_event_type prefix b)
      ↔ (split_event_parts a ≡ split_event_parts b)
topic-eq_iff prefix a b va vb =
    let (d, r, t, i) = valid-IsSplit a va in
    let (d', r', t', i') = valid-IsSplit b vb in
    let same = λ (e : topic_from_event_type prefix a ≡ topic_from_event_type prefix b).
      dotted_cancel d d' r r' i.domain i'.domain (
        cc (
          append_cancel prefix _ _ (sym (topic-IsSplit prefix i) ∙ e ∙ topic-IsSplit prefix i'))) in
    (
      λ e. split-IsSplit i ∙ (λ j. ((same e).0 j, (same e).1 j)) ∙ sym (split-IsSplit i'),
      λ e.
          let q : (d, r) ≡ (d', r') = sym (split-IsSplit i) ∙ e ∙ split-IsSplit i' in
          topic-IsSplit prefix i
          ∙ ap (λ u. dotted prefix (dotted u.0 u.1)) q
          ∙ sym (topic-IsSplit prefix i'),
    )
