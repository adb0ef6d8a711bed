-- ===== src/Kafka/Dlq/Lost.antt =====
-- kafka/dlq.go over kafka/publisher.go and the table of kafka/event_taxonomy.go: what becomes of dead letters.
use platform_kit.Common.{
  ℕ, Bool, true, false, Option, none, some, List, [], ◌∷◌, ◌++◌, ◌≡◌, ◌≢◌, refl, ◌∙◌, any, Str, lit,
  str_eq, str_eq_iff, has_suffix, has_suffix_iff, Bool-cases, if◌then◌else◌, inl, inr, arith, ℤ,
}
use platform_kit.Common.Json.{Fields}
use platform_kit.Kafka.Envelope.{EventData, Codec}
use platform_kit.Kafka.Registry.{RegisteredEvent, lookup_event}
use platform_kit.Kafka.Taxonomy.{initial_registry, registered_events, conversation_events}
use platform_kit.Kafka.Taxonomy.Absent.{names, lookup_event-absent}
use platform_kit.Kafka.Publisher.{PublisherConfig, Message, PublishError, State}
use platform_kit.Kafka.Publisher.Laws.{publish_unregistered}
use platform_kit.Kafka.Consumer.{FailedMessage, Failure}
use platform_kit.Kafka.Dlq.{send, as_handler, dead_data, dead_type}
use platform_kit.Kafka.Dlq.Laws.{kafka_publish}

abbrev pub default_suffix : Str
default_suffix = lit ".dlq"

abbrev ends_in : Str → List RegisteredEvent → Bool
ends_in suffix = any (λ (e : RegisteredEvent). has_suffix e.type suffix)

-- A table without a type of this ending does not name a type with it.
names-append :
    (suffix t : Str) (es : List RegisteredEvent)
    → ends_in suffix es ≡ false
    → names (t ++ suffix) es ≡ false
names-append suffix t [] h = refl
names-append suffix t (e ∷ es) h = elim (Bool-cases (str_eq e.type (t ++ suffix))) [
  | inl q ↦
      let ends : has_suffix e.type suffix ≡ true =
        (has_suffix_iff e.type suffix).1 (t, (str_eq_iff e.type (t ++ suffix)).0 q) in
      cc
  | inr n ↦ ground (arith, n, names-append suffix t es (ground arith))
]

registered-ends : ends_in default_suffix registered_events ≡ false
unfolding has_suffix str_eq
registered-ends = refl

conversation-ends : ends_in default_suffix conversation_events ≡ false
unfolding has_suffix str_eq
conversation-ends = refl

lookup_event-dead : (t : Str) → lookup_event initial_registry (t ++ default_suffix) ≡ none
lookup_event-dead t =
    lookup_event-absent (t ++ default_suffix)
      (names-append default_suffix t registered_events registered-ends)
      (names-append default_suffix t conversation_events conversation-ends)

module _ (codec : Codec) (ids : ℕ → Str) (now : ℕ) (generic : EventData → Option Fields)
    (write : List Message → Bool) (c : PublisherConfig) (zero_data : EventData)
    (error_text : Failure → Option Str) where
  -- A publisher with the registry that the package's init functions leave.
  abbrev pub publisher : Str → EventData → State → Option PublishError × State
  publisher = kafka_publish codec ids now initial_registry generic write c default_suffix

  -- The dead-letter function of AsHandler, for each message in turn.
  abbrev pub hand_over : List FailedMessage → State → State
  hand_over [] s = s
  hand_over (m ∷ ms) s =
      hand_over ms (as_handler (some publisher) default_suffix codec zero_data error_text m s)

  send_refused :
      (source t : Str) (d : EventData) (attempt : ℤ) (last_error : Option Str) (s : State)
      → c.disable_schema_validation ≡ false
      → let r = send (some publisher) default_suffix source t d attempt last_error s in
        (r.0 ≢ none) × (r.1.writes ≡ s.writes)
  unfolding send
  send_refused source t d attempt last_error s on =
      publish_unregistered codec ids now initial_registry generic write c (t ++ default_suffix)
        (dead_data source attempt last_error d) s on (lookup_event-dead t)

  hand_over-writes :
      (ms : List FailedMessage) (s : State)
      → c.disable_schema_validation ≡ false
      → (hand_over ms s).writes ≡ s.writes
  unfolding as_handler
  hand_over-writes [] s on = refl
  hand_over-writes (m ∷ ms) s on =
      let (event, ok) = codec.unmarshal_event m.original.value in
      let d = if ok then (codec.unmarshal_data event.payload).0 else zero_data in
      hand_over-writes ms _ on
      ∙ (send_refused m.original.topic
          (dead_type (some publisher) default_suffix m.event_type event.type) d m.retry_count
          (error_text m.last_error) s on).1

  -- With the default suffix, a publisher whose schema validation is on and the registry of the package's
  -- init functions, no dead letter is ever written: Send returns an error for every event type, registered
  -- or not, and however many failed messages a consumer hands to the function of AsHandler, the
  -- publisher writes none of them.
  pub dead_letters_lost :
      (ms : List FailedMessage) (s : State)
      → c.disable_schema_validation ≡ false
      → ((hand_over ms s).writes ≡ s.writes)
        × ((source t : Str) (d : EventData) (attempt : ℤ) (last_error : Option Str)
            → (send (some publisher) default_suffix source t d attempt last_error s).0 ≢ none)
  dead_letters_lost ms s on = (
    hand_over-writes ms s on,
    λ source t d attempt last_error. (send_refused source t d attempt last_error s on).0,
  )
