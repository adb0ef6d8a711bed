-- ===== src/Tests/Events.antt =====
-- Event names, topics and the registry, at concrete event types.
use platform_kit.Common.{
  true, false, [], ◌∷◌, ◌≡◌, refl, ◌↔◌, lit, str_eq, insert, has_prefix, index_byte,
}
use platform_kit.Common.Sort.{sort_by}
use platform_kit.Kafka.Event.{validate_event_type, split_event_parts, topic_from_event_type}
use platform_kit.Kafka.Event.Regexp.{Matches, event_name_re}
use platform_kit.Kafka.Event.Names.{validate_event_type_iff}
use platform_kit.Kafka.Registry.{RegisteredEvent, Registry, known_topics, domain_of}
use platform_kit.Kafka.Dlq.{is_dlq_topic}

names :
    (validate_event_type (lit "canvas.debug.session.created") ≡ true)
    × (validate_event_type (lit "work.spec") ≡ false)
    × (validate_event_type (lit "Work.spec.created") ≡ false)
    × (validate_event_type (lit "work.spec.status_changed") ≡ true)
    × (validate_event_type (lit "work..created") ≡ false)
unfolding validate_event_type
names = (refl, refl, refl, refl, refl)

topics :
    (topic_from_event_type (lit "sentiae") (lit "identity.user.registered")
      ≡ lit "sentiae.identity.user")
    × (topic_from_event_type (lit "sentiae") (lit "ping") ≡ lit "sentiae.ping")
    × (split_event_parts (lit "a.b") ≡ (lit "a", lit "b"))
    × (domain_of (lit "work.spec.created") ≡ lit "work")
unfolding topic_from_event_type domain_of index_byte
topics = (refl, refl, refl, refl)

dlq_topics :
    (is_dlq_topic (lit "a.b.dlq") ≡ true) × (is_dlq_topic (lit "sentiae.work.spec") ≡ false)
unfolding is_dlq_topic str_eq has_prefix
dlq_topics = (refl, refl)

validate_event_type_iff_example :
    (validate_event_type (lit "work.spec.created") ≡ true)
    ↔ Matches event_name_re (lit "work.spec.created")
validate_event_type_iff_example = validate_event_type_iff (lit "work.spec.created")

abbrev created : RegisteredEvent
created = record {
  type = lit "work.spec.created";
  domain = lit "work";
  description = lit "A product spec was created";
  owner = lit "work-service";
  schema = lit "{}";
}

abbrev one_event : Registry
one_event = (lit "work.spec.created", created) ∷ []

listed_topics : known_topics one_event [] ≡ lit "sentiae.work.spec" ∷ []
unfolding known_topics topic_from_event_type insert sort_by
listed_topics = refl
