-- ===== src/Kafka/Taxonomy/Absent.antt =====
-- kafka/event_taxonomy.go: names that the table does not hold.
use platform_kit.Common.{
  Bool, false, none, List, [], ◌∷◌, any, Str, str_eq, lookup, lookup-insert_miss, ◌≡◌, refl, ◌∙◌,
  arith,
}
use platform_kit.Kafka.Registry.{RegisteredEvent, Registry, register_all, lookup_event}
use platform_kit.Kafka.Taxonomy.{initial_registry, registered_events, conversation_events}

abbrev pub names : Str → List RegisteredEvent → Bool
names t = any (λ (e : RegisteredEvent). str_eq e.type t)

lookup-register_all :
    (t : Str) (es : List RegisteredEvent) (r : Registry)
    → names t es ≡ false
    → lookup t (register_all es r) ≡ lookup t r
unfolding register_all
lookup-register_all t [] r h = refl
lookup-register_all t (e ∷ es) r h =
    lookup-register_all t es _ (ground arith) ∙ lookup-insert_miss e.type t e r (ground arith)

-- An event that neither table names is not in the registry after the package's init functions.
pub lookup_event-absent :
    (t : Str)
    → names t registered_events ≡ false
    → names t conversation_events ≡ false
    → lookup_event initial_registry t ≡ none
unfolding initial_registry lookup
lookup_event-absent t h k =
    lookup-register_all t conversation_events (register_all registered_events []) k
    ∙ lookup-register_all t registered_events [] h
