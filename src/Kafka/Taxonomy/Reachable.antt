-- ===== src/Kafka/Taxonomy/Reachable.antt =====
-- The registries that a process can have: what `init` builds, changed by RegisterExtensionEvent.
use platform_kit.Common.{
  true, List, [], ◌∷◌, ◌≡◌, refl, arith, all, all-All, All, insert-IsDistinct,
}
use platform_kit.Kafka.Event.{validate_event_type}
use platform_kit.Kafka.Registry.{
  RegisteredEvent, Registry, register_all, register_extension_event, registered,
}
use platform_kit.Kafka.Registry.Laws.{
  IsRegistry, IsSound, All-insert, register_extension_event-IsRegistry,
}
use platform_kit.Kafka.Taxonomy.{registered_events, conversation_events, initial_registry}
use platform_kit.Kafka.Taxonomy.Entry.{is_sound, data_schema}

register_all-IsRegistry :
    (es : List RegisteredEvent) (r : Registry)
    → All (λ e. is_sound e ≡ true) es
    → IsRegistry r
    → IsRegistry (register_all es r)
unfolding register_all
register_all-IsRegistry [] r s h = h
register_all-IsRegistry (e ∷ es) r (s, ss) (h, d) = register_all-IsRegistry es _ ss (
  All-insert (λ p. (p.0 ≡ p.1.type) × IsSound p.1) e.type e r (refl, (ground arith, ground arith))
      h,
  insert-IsDistinct e.type e r d,
)

table_sound : all is_sound registered_events ≡ true
unfolding validate_event_type data_schema
table_sound = refl

conversation_sound : all is_sound conversation_events ≡ true
unfolding validate_event_type data_schema
conversation_sound = refl

initial_registry-IsRegistry : IsRegistry initial_registry
unfolding initial_registry
initial_registry-IsRegistry =
    register_all-IsRegistry conversation_events _
      (all-All is_sound conversation_events conversation_sound)
      (register_all-IsRegistry registered_events [] (all-All is_sound registered_events table_sound)
        (tt, tt))

pub data Reachable : Registry → Type 0 where
  initial : Reachable initial_registry
  extended :
      (e : RegisteredEvent) (r r' : Registry)
      → Reachable r
      → register_extension_event e r ≡ registered r'
      → Reachable r'

-- Whatever extension events a process registers, every entry of its registry stands under its own
-- type, no type stands twice, each type is a valid event name and each schema is not empty.
pub Reachable-IsRegistry : (r : Registry) → Reachable r → IsRegistry r
Reachable-IsRegistry r initial = initial_registry-IsRegistry
Reachable-IsRegistry r (extended e q r' h p) =
    (register_extension_event-IsRegistry e q r' (Reachable-IsRegistry q h) p).0
