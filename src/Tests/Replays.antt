-- ===== src/Tests/Replays.antt =====
-- A replay run, and a listing of a dead-letter topic.
use platform_kit.Common.{true, none, some, List, [], ◌∷◌, ◌≡◌, refl, lit, str_eq, pos}
use platform_kit.Kafka.Replay.{ReplayConfig, Round, message, replay, done, end_reached}
use platform_kit.Kafka.Replay.Laws.{Accounted, replay-Accounted}
use platform_kit.Kafka.Listing.{Letter, Attempt, letter, context_done, ListConfig}
use platform_kit.Tests.Flow.{codec}

abbrev config : ReplayConfig
config = record {
  brokers = lit "localhost:9092" ∷ [];
  topic = lit "sentiae.a.b";
  start_offset = pos 0;
  end_offset = pos 9;
  start_time = 0;
  end_time = 0;
  event_types = [];
  resource_id = [];
  handler = some (λ e. none);
}

abbrev reads : List Round
reads =
    message (record { offset = 4; time = 1; value = 1 ∷ [] })
    ∷ message (record { offset = 5; time = 1; value = 0 ∷ [] })
    ∷ message (record { offset = 9; time = 2; value = 1 ∷ [] })
    ∷ done
    ∷ []

replay-Accounted_example :
    Accounted codec str_eq config (replay codec str_eq config (λ s. true) reads)
replay-Accounted_example = replay-Accounted codec str_eq config (λ s. true) reads

stats :
    ((replay codec str_eq config (λ s. true) reads).stats
      ≡ record { read = 3; delivered = 1; skipped = 1; last_offset = 9 })
    × ((replay codec str_eq config (λ s. true) reads).ending ≡ end_reached)
unfolding replay
stats = (refl, refl)

abbrev one : Letter
one = record { topic = lit "t.dlq"; partition = 0; offset = 3; time = 1; value = 1 ∷ [] }

abbrev attempts : List Attempt
attempts = letter one ∷ letter one ∷ context_done ∷ []

abbrev listing : ListConfig
listing = record { brokers = lit "localhost:9092" ∷ []; topic = lit "t.dlq"; max_entries = pos 5 }
