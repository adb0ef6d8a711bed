-- ===== src/Kafka/Dlq.antt =====
-- kafka/dlq.go: the dead-letter producer and the listing of a dead-letter topic. A publisher is a
-- function from a state to an error and a state. `log.Printf` is left out.
pub mod Laws
pub mod Lost
use platform_kit.Common.{
  ℕ, zero, suc, ◌+◌, ◌-◌, Bool, true, false, ◌||◌, Option, none, some, List, [], ◌∷◌, ◌++◌,
  if◌then◌else◌, Str, lit, is_empty, Dict, lookup, insert, itoa, has_suffix, contains, ℤ, pos,
  negsuc, pos_part, leb_ℤ, ltb,
}
use platform_kit.Common.Json.{Json, null, bool, num, str, arr, obj}
use platform_kit.Kafka.Envelope.{EventData, CloudEvent, Codec}
use platform_kit.Kafka.Publisher.{Header}
use platform_kit.Kafka.Consumer.{Fetched, FailedMessage, Failure}

-- NewDLQProducer's and AsHandler's defaults.
abbrev pub or_default : Str → Str → Str
or_default default s = if is_empty s then default else s

-- fmt.Sprintf("%d", attempt)
unfoldable pub decimal : ℤ → Str
unfolding itoa
decimal (pos n) = itoa n
decimal (negsuc n) = b'-' ∷ itoa (suc n)

abbrev metadata_of : Option (Dict Json) → Dict Json
metadata_of none = []
metadata_of (some m) = m

abbrev with_error : Option Str → Dict Json → Dict Json
with_error none m = m
with_error (some e) m = insert (lit "dlq_error") (str e) m

-- The metadata that Send publishes. Send writes them into the caller's map.
unfoldable pub dlq_metadata : Str → ℤ → Option Str → Option (Dict Json) → Dict Json
unfolding decimal
dlq_metadata source_topic attempt last_error metadata = with_error last_error (
    insert (lit "dlq_attempt") (str (decimal attempt))
      (insert (lit "dlq_source_topic") (str source_topic) (metadata_of metadata)))

-- The event data that Send publishes.
abbrev pub dead_data : Str → ℤ → Option Str → EventData → EventData
dead_data source_topic attempt last_error d = record d {
  metadata = some (dlq_metadata source_topic attempt last_error d.metadata);
}

module _ {S E : Type 0} (publisher : Option (Str → EventData → S → Option E × S))
    (suffix : Str) where
  unfoldable pub send : Str → Str → EventData → ℤ → Option Str → S → Option E × S
  unfolding dlq_metadata
  send source_topic event_type d attempt last_error s = elim publisher [
    | none ↦ (none, s)
    | some publish ↦ publish (event_type ++ suffix) (dead_data source_topic attempt last_error d) s
  ]

  -- The event type under which a failed message is dead-lettered.
  unfoldable pub dead_type : Str → Str → Str
  dead_type of_message of_event =
      let t = if is_empty of_message then of_event else of_message in
      if is_empty t then lit "unknown" else t

  -- The DeadLetterFunc of AsHandler. Error.Error of the last error is a parameter.
  module _ (codec : Codec) (zero_data : EventData) (error_text : Failure → Option Str) where
    unfoldable pub as_handler : FailedMessage → S → S
    unfolding send dead_type
    as_handler m s =
        let (event, ok) = codec.unmarshal_event m.original.value in
        let d = if ok then (codec.unmarshal_data event.payload).0 else zero_data in
        (send m.original.topic (dead_type m.event_type event.type) d m.retry_count
          (error_text m.last_error) s).1

unfoldable pub is_dlq_topic : Str → Bool
unfolding has_suffix contains
is_dlq_topic topic =
    has_suffix topic (lit ".dlq") || contains topic (lit ".dlq.") || has_suffix topic (lit "-dlq")
