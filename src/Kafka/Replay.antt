-- ===== src/Kafka/Replay.antt =====
-- kafka/replay.go. The reader of segmentio/kafka-go is a parameter: whether its seek succeeds, and
-- what each round of the loop meets. A time of zero is unset; offsets of messages are not negative.
-- strings.EqualFold is a parameter too, since it folds all of Unicode.
pub mod Laws
use platform_kit.Common.{
  ℕ, suc, Bool, true, false, ◌&&◌, ◌||◌, not, Option, none, some, List, [], ◌∷◌, ◌++◌, leb, ltb,
  ◌==◌, if◌then◌else◌, any, Str, str_eq, is_empty, ℤ, pos, negsuc, leb_ℤ, ltb_ℤ, is_zero,
}
use platform_kit.Kafka.Envelope.{EventData, CloudEvent, Codec}

pub record ReplayConfig : Type 0 where
  pub brokers : List Str
  pub topic : Str
  pub start_offset : ℤ
  pub end_offset : ℤ
  pub start_time : ℕ
  pub end_time : ℕ
  pub event_types : List Str
  pub resource_id : Str
  pub handler : Option (CloudEvent → Option Str)

pub record ReplayStats : Type 0 where
  pub read : ℕ
  pub delivered : ℕ
  pub skipped : ℕ
  pub last_offset : ℕ

pub record Read : Type 0 where
  pub offset : ℕ
  pub time : ℕ
  pub value : Str

-- One round: the context is done before the read, or the read returns a message, fails with the
-- context done, or fails otherwise.
pub data Round : Type 0 where
  done : Round
  message : Read → Round
  cancelled : Round
  broken : Str → Round

pub data Seek : Type 0 where
  to_time : ℕ → Seek
  to_offset : ℤ → Seek

pub data Ending : Type 0 where
  brokers_required : Ending
  topic_required : Ending
  handler_required : Ending
  seek_failed : Seek → Ending
  context_done : Ending
  stopped : Ending
  end_reached : Ending
  read_failed : Str → Ending
  handler_failed : ℕ → Str → Ending
  running : Ending

-- What a run did: its statistics, the events that it gave to the handler and how it ended; `running`
-- when the rounds are used up.
pub record Run : Type 0 where
  pub stats : ReplayStats
  pub handled : List CloudEvent
  pub ending : Ending

abbrev pub no_stats : ReplayStats
no_stats = record { read = 0; delivered = 0; skipped = 0; last_offset = 0 }

-- kafka.FirstOffset is -2.
unfoldable pub seek_of : ReplayConfig → Seek
seek_of c =
    if not (c.start_time == 0)
    then to_time c.start_time
    else if is_zero c.start_offset
    then to_offset (negsuc 1)
    else to_offset c.start_offset

unfoldable pub past_end : ReplayConfig → Read → Bool
past_end c m =
    ltb_ℤ (pos 0) c.end_offset && leb_ℤ c.end_offset (pos m.offset)
    || not (c.end_time == 0) && ltb c.end_time m.time

abbrev pub skip : ReplayStats → ReplayStats
skip s = record s { skipped = suc s.skipped }

abbrev pub deliver : ReplayStats → ReplayStats
deliver s = record s { delivered = suc s.delivered }

abbrev pub count : Read → ReplayStats → ReplayStats
count m s = record s { read = suc s.read; last_offset = m.offset }

abbrev pub run_of : ReplayStats → List CloudEvent → Ending → Run
run_of s handled e = record { stats = s; handled = handled; ending = e }

module _ (codec : Codec) (equal_fold : Str → Str → Bool) (c : ReplayConfig) where
  -- Neither filter skips the event.
  unfoldable pub wanted : CloudEvent → Bool
  wanted event =
      (is_empty c.event_types || any (λ t. str_eq t event.type) c.event_types)
      && (is_empty c.resource_id
          || equal_fold (codec.unmarshal_data event.payload).0.resource_id c.resource_id)

  module _ (handler : CloudEvent → Option Str) where
    -- The end of a round, after the handler returned.
    abbrev pub after_handler :
        Read
        → ReplayStats
        → List CloudEvent
        → Option Str
        → (ReplayStats → List CloudEvent → Run)
        → Run
    after_handler m s handled none continue = continue (deliver s) handled
    after_handler m s handled (some e) continue = run_of s handled (handler_failed m.offset e)

    -- A message that is not past the end; `continue` is the rest of the loop.
    abbrev pub dispatch :
        Read → ReplayStats → List CloudEvent → (ReplayStats → List CloudEvent → Run) → Run
    dispatch m s handled continue =
        let (event, ok) = codec.unmarshal_event m.value in
        if ok && wanted event
        then after_handler m s (handled ++ event ∷ []) (handler event) continue
        else continue (skip s) handled

    unfoldable pub replay_loop : List Round → ReplayStats → List CloudEvent → Run
    unfolding wanted past_end
    replay_loop [] s handled = run_of s handled running
    replay_loop (done ∷ rs) s handled = run_of s handled context_done
    replay_loop (cancelled ∷ rs) s handled = run_of s handled stopped
    replay_loop (broken e ∷ rs) s handled = run_of s handled (read_failed e)
    replay_loop (message m ∷ rs) s handled =
        if past_end c m
        then run_of (count m s) handled end_reached
        else dispatch m (count m s) handled (λ t h. replay_loop rs t h)

  abbrev pub start : (Seek → Bool) → List Round → Option (CloudEvent → Option Str) → Run
  start seek rounds none = run_of no_stats [] handler_required
  start seek rounds (some handler) =
      if seek (seek_of c)
      then replay_loop handler rounds no_stats []
      else run_of no_stats [] (seek_failed (seek_of c))

  unfoldable pub replay : (Seek → Bool) → List Round → Run
  unfolding replay_loop seek_of
  replay seek rounds =
      if is_empty c.brokers
      then run_of no_stats [] brokers_required
      else if is_empty c.topic
      then run_of no_stats [] topic_required
      else start seek rounds c.handler
