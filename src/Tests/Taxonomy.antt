-- ===== src/Tests/Taxonomy.antt =====
-- The table of registered events.
use platform_kit.Common.{refl, insert, ◌≡◌, length}
use platform_kit.Kafka.Event.{validate_event_type}
use platform_kit.Kafka.Registry.{RegisteredEvent, Registry, register_extension_event}
use platform_kit.Kafka.Registry.Laws.{IsRegistry}
use platform_kit.Kafka.Taxonomy.{initial_registry, registered_events}
use platform_kit.Kafka.Taxonomy.Entry.{entry, data_schema}
use platform_kit.Kafka.Taxonomy.Reachable.{initial, extended, Reachable-IsRegistry}
use mathlib.Core.List.{[]}

abbrev renamed : RegisteredEvent
renamed = entry "work.spec.renamed" "work" "A product spec was renamed" "work-service" [] ""

abbrev extended_registry : Registry
extended_registry = insert renamed.type renamed initial_registry

Reachable-IsRegistry_example : IsRegistry extended_registry
unfolding register_extension_event validate_event_type data_schema
Reachable-IsRegistry_example =
    Reachable-IsRegistry extended_registry
      (extended renamed initial_registry extended_registry initial refl)

table_length : length registered_events ≡ 339
table_length = refl
