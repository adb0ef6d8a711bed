-- ===== src/Kafka/Listing.antt =====
-- kafka/dlq.go: ListDLQ. The reader's results are a list: a message, a read that fails while the
-- caller's context is still alive (the deadline of one read), or one that fails because it is done.
pub mod Laws
use platform_kit.Common.{
  ℕ, zero, suc, Bool, true, false, not, Option, none, some, List, [], ◌∷◌, ◌++◌, map, take, length,
  ltb, if◌then◌else◌, Str, lit, is_empty, Dict, lookup, ℤ, pos, leb_ℤ, pos_part,
}
use platform_kit.Common.Json.{Json, null, bool, num, str, arr, obj}
use platform_kit.Kafka.Envelope.{EventData, CloudEvent, Codec}

pub record Letter : Type 0 where
  pub topic : Str
  pub partition : ℕ
  pub offset : ℕ
  pub time : ℕ
  pub value : Str

pub data Payload : Type 0 where
  raw_message : Str → Payload
  raw_text : Str → Payload

pub record DlqEntry : Type 0 where
  pub topic : Str
  pub partition : ℕ
  pub offset : ℕ
  pub time : ℕ
  pub event_type : Str
  pub event_id : Str
  pub source_topic : Str
  pub attempts : Str
  pub last_error : Str
  pub resource_type : Str
  pub resource_id : Str
  pub payload : Payload
  pub raw_metadata : Option (Dict Json)

pub data Attempt : Type 0 where
  letter : Letter → Attempt
  timed_out : Attempt
  context_done : Attempt

-- The text at a key: empty where it is missing or no string.
abbrev pub text_of : Option Json → Str
text_of none = []
text_of (some v) = elim v [ str s ↦ s | _ ↦ [] ]

unfoldable pub text_at : Str → Option (Dict Json) → Str
unfolding lookup
text_at k none = []
text_at k (some m) = text_of (lookup k m)

abbrev blank : Letter → DlqEntry
blank m = record {
  topic = m.topic;
  partition = m.partition;
  offset = m.offset;
  time = m.time;
  event_type = [];
  event_id = [];
  source_topic = [];
  attempts = [];
  last_error = [];
  resource_type = [];
  resource_id = [];
  payload = raw_text m.value;
  raw_metadata = none;
}

abbrev with_event : Letter → CloudEvent → DlqEntry
with_event m event = record (blank m) {
  event_type = event.type;
  event_id = event.id;
  payload = raw_message event.payload;
}

abbrev with_data : EventData → DlqEntry → DlqEntry
with_data d entry = record entry {
  resource_type = d.resource_type;
  resource_id = d.resource_id;
  raw_metadata = d.metadata;
  source_topic = text_at (lit "dlq_source_topic") d.metadata;
  attempts = text_at (lit "dlq_attempt") d.metadata;
  last_error = text_at (lit "dlq_error") d.metadata;
}

module _ (codec : Codec) where
  unfoldable pub entry_of : Letter → DlqEntry
  unfolding text_at
  entry_of m =
      let (event, ok) = codec.unmarshal_event m.value in
      let (d, decoded) = codec.unmarshal_data event.payload in
      if ok
      then (if decoded then with_data d (with_event m event) else with_event m event)
      else blank m

  -- The loop with room for `left` entries more: the entries, and whether the context's error comes
  -- with them.
  unfoldable pub list_loop : ℕ → List Attempt → List DlqEntry → List DlqEntry × Bool
  unfolding entry_of
  list_loop zero fs entries = (entries, false)
  list_loop (suc left) [] entries = (entries, false)
  list_loop (suc left) (letter m ∷ fs) entries = list_loop left fs (entries ++ entry_of m ∷ [])
  list_loop (suc left) (timed_out ∷ fs) entries = (entries, false)
  list_loop (suc left) (context_done ∷ fs) entries = (entries, true)

pub record ListConfig : Type 0 where
  pub brokers : List Str
  pub topic : Str
  pub max_entries : ℤ

pub data ListResult : Type 0 where
  brokers_required : ListResult
  topic_required : ListResult
  listed : List DlqEntry → (context_error : Bool) → ListResult

abbrev pub max_of : ℤ → ℕ
max_of n = if leb_ℤ n (pos 0) then 100 else pos_part n

unfoldable pub list_dlq : Codec → ListConfig → List Attempt → ListResult
unfolding list_loop
list_dlq codec c fs =
    if is_empty c.brokers
    then brokers_required
    else if is_empty c.topic
    then topic_required
    else (let (entries, failed) = list_loop codec (max_of c.max_entries) fs [] in
        listed entries failed)
