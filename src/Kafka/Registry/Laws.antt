-- ===== src/Kafka/Registry/Laws.antt =====
-- What the registry holds after its operations, and its listings.
use mathlib.Core.List.{Perm}
use mathlib.Core.Bool.{false≢true}
use platform_kit.Common.{
  true, false, some, List, [], ◌∷◌, ◌≡◌, refl, ap, sym, subst, ◌∙◌, inl, inr, ◌⊎◌, ◌↔◌, arith, Str,
  str_eq, str_eq_iff, insert, lookup-insert, insert-IsDistinct, IsDistinct, Dict, All, In,
  Bool-cases, if◌then◌else◌, is_empty,
}
use platform_kit.Common.Sort.{sort_by-Perm, sort_by-IsSorted, sort_by-In, IsSorted}
use platform_kit.Kafka.Event.{validate_event_type, topic_from_event_type}
use platform_kit.Kafka.Registry.{
  RegisteredEvent, Registry, lookup_event, values, all_events, registered, register_extension_event,
  seen_topics, keys, known_topics, or_sentiae,
}

-- Every entry stands under its own type, which is valid and has a schema; no key stands twice.
abbrev pub IsSound : RegisteredEvent → Type 0
IsSound e = (validate_event_type e.type ≡ true) × (is_empty e.schema ≡ false)

abbrev pub IsRegistry : Registry → Type 0
IsRegistry r = All (λ p. (p.0 ≡ p.1.type) × IsSound p.1) r × IsDistinct r

pub All-insert :
    {V : Type 0} (P : Str × V → Type 0) (k : Str) (v : V) (d : Dict V)
    → P (k, v)
    → All P d
    → All P (insert k v d)
unfolding insert
All-insert P k v [] p h = (p, tt)
All-insert P k v ((j, w) ∷ d) p (h, hs) = elim (Bool-cases (str_eq j k)) [
  | inl t ↦ rw t (subst (λ i. P (i, v)) (sym ((str_eq_iff j k).0 t)) p, hs)
  | inr f ↦ rw f (h, All-insert P k v d p hs)
]

valid_nonempty : (t : Str) → validate_event_type t ≡ true → is_empty t ≡ false
unfolding validate_event_type
valid_nonempty [] h = absurd (false≢true h)
valid_nonempty (c ∷ t) h = refl

-- RegisterExtensionEvent succeeds exactly if the type is valid and the schema is not empty, and the
-- registry is then the old one with the event stored under its type.
pub register_extension_event_iff :
    (e : RegisteredEvent) (r r' : Registry)
    → (register_extension_event e r ≡ registered r') ↔ (IsSound e × (r' ≡ insert e.type e r))
unfolding register_extension_event
register_extension_event_iff e r r' = (
  λ h. ((ground arith, ground arith), ground arith),
  λ ((v, s), q). rw (q, valid_nonempty e.type v, v, s) refl,
)

-- A successful RegisterExtensionEvent keeps the registry well formed; LookupEvent then finds the
-- event under its type and what it found before under any other.
pub register_extension_event-IsRegistry :
    (e : RegisteredEvent) (r r' : Registry)
    → IsRegistry r
    → register_extension_event e r ≡ registered r'
    → IsRegistry r'
      × ((t : Str) → lookup_event r' t ≡ (if str_eq e.type t then some e else lookup_event r t))
register_extension_event-IsRegistry e r r' (h, d) p =
    let (sound, q) = (register_extension_event_iff e r r').0 p in
    subst
      (λ x.
        IsRegistry x
        × ((t : Str) → lookup_event x t ≡ (if str_eq e.type t then some e else lookup_event r t)))
      (sym q)
      (
        (
          All-insert (λ p. (p.0 ≡ p.1.type) × IsSound p.1) e.type e r (refl, sound) h,
          insert-IsDistinct e.type e r d,
        ),
        λ t. lookup-insert e.type t e r,
      )

-- AllEvents lists every registered event once, in the byte order of their types.
pub all_events-Perm :
    (r : Registry) → Perm (all_events r) (values r) × IsSorted (λ e. e.type) (all_events r)
unfolding all_events
all_events-Perm r = (sort_by-Perm _ (values r), sort_by-IsSorted _ (values r))

keys-insert :
    (t k : Str) (u : Unit {0}) (d : Dict (Unit {0}))
    → In t (keys (insert k u d)) ↔ (In t (keys d) ⊎ (t ≡ k))
unfolding insert
keys-insert t k u [] =
    (elim [ inl e ↦ inr e | inr m ↦ elim m [ ] ], elim [ inl m ↦ elim m [ ] | inr e ↦ inl e ])
keys-insert t k u ((j, w) ∷ d) = elim (Bool-cases (str_eq j k)) [
  | inl s ↦ rw s (λ m. inl m, elim [ inl m ↦ m | inr e ↦ inl (e ∙ sym ((str_eq_iff j k).0 s)) ])
  | inr s ↦
      let (to, from) = keys-insert t k u d in
      rw s (
        elim [ inl e ↦ inl (inl e) | inr m ↦ elim (to m) [ inl n ↦ inl (inr n) | inr e ↦ inr e ] ],
        elim [
          | inl m ↦ elim m [ inl e ↦ inl e | inr n ↦ inr (from (inl n)) ]
          | inr e ↦ inr (from (inr e))
        ],
      )
]

abbrev pub TopicOf : Str → Str → List RegisteredEvent → Type 0
TopicOf prefix t es = (e : RegisteredEvent) × In e es × (t ≡ topic_from_event_type prefix e.type)

-- A topic has been seen exactly if it was seen before or is the topic of one of the events.
seen_topics_iff :
    (prefix t : Str) (es : List RegisteredEvent) (seen : Dict (Unit {0}))
    → In t (keys (seen_topics prefix es seen)) ↔ (In t (keys seen) ⊎ TopicOf prefix t es)
unfolding seen_topics
seen_topics_iff prefix t [] seen = (λ m. inl m, elim [ inl m ↦ m | inr (e, m, q) ↦ elim m [ ] ])
seen_topics_iff prefix t (e ∷ es) seen =
    let topic = topic_from_event_type prefix e.type in
    let (to, from) = seen_topics_iff prefix t es (insert topic tt seen) in
    let (out, back) = keys-insert t topic tt seen in
    (
      λ m. elim (to m) [
        | inl n ↦ elim (out n) [ inl k ↦ inl k | inr q ↦ inr (e, inl refl, q) ]
        | inr (x, n, q) ↦ inr (x, inr n, q)
      ],
      elim [
        | inl n ↦ from (inl (back (inl n)))
        | inr (x, n, q) ↦ elim n [
          | inl p ↦ from (
              inl (
                back
                  (inr (q ∙ ap (λ (y : RegisteredEvent). topic_from_event_type prefix y.type) p))))
          | inr k ↦ from (inr (x, k, q))
        ]
      ],
    )

-- KnownTopics lists, in byte order, exactly the topics of the registered events under the prefix,
-- which is "sentiae" if none is given.
pub known_topics_iff :
    (r : Registry) (prefix t : Str)
    → (In t (known_topics r prefix) ↔ TopicOf (or_sentiae prefix) t (values r))
      × IsSorted (λ s. s) (known_topics r prefix)
unfolding known_topics
known_topics_iff r prefix t =
    let seen = seen_topics (or_sentiae prefix) (values r) [] in
    let (to, from) = seen_topics_iff (or_sentiae prefix) t (values r) [] in
    let (out, back) = sort_by-In (λ (s : Str). s) t (keys seen) in
    (
      (λ m. elim (to (out m)) [ inl n ↦ elim n [ ] | inr q ↦ q ], λ q. back (from (inr q))),
      sort_by-IsSorted (λ (s : Str). s) (keys seen),
    )
