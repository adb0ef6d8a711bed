-- ===== src/Kafka/Consumer/Topics.antt =====
-- kafka/consumer.go: Start and the goroutines of its topics. A topic's goroutine takes the results of its
-- reader in turn; the goroutines interleave as the scheduler chooses, and share the health map, the schema
-- cache, the handlers and the dead-letter function. A step is the handling of one result: what the
-- goroutines share is behind mutexes, and each health entry belongs to one topic.
pub mod Laws
pub mod Ends
pub mod Completion
pub mod Counters
use platform_kit.Common.{
  ℕ, suc, ◌+◌, Bool, true, false, List, [], ◌∷◌, if◌then◌else◌, Str, str_eq, Dict, lookup, ◌≡◌,
  Option, none, some,
}
use platform_kit.Kafka.Envelope.{Codec}
use platform_kit.Kafka.Registry.{Registry}
use platform_kit.Kafka.Consumer.{
  ConsumerConfig, Handler, Fetched, State, Fetch, message, fetch_failed, cancelled, process,
}

-- The shared state, and what each topic's reader has still to return.
pub record System : Type 0 where
  pub shared : State
  pub queues : Str → List Fetch

abbrev pub with_queue : Str → List Fetch → (Str → List Fetch) → Str → List Fetch
with_queue topic fs queues t = if str_eq topic t then fs else queues t

-- What the goroutine has still to read after it: nothing once the context is cancelled.
abbrev pub rest_after : Fetch → List Fetch → List Fetch
rest_after (message m now) fs = fs
rest_after fetch_failed fs = fs
rest_after cancelled fs = []

module _ (codec : Codec) (r : Registry) (handlers : Dict Handler) (c : ConsumerConfig) where
  -- One round of consumeTopic's loop.
  unfoldable pub round : Str → Fetch → State → State
  unfolding process
  round topic (message m now) s = process codec r handlers c topic m now s
  round topic fetch_failed s = s
  round topic cancelled s = s

  pub data Step (s : System) : System → Type 0 where
    turn :
        (topic : Str) (f : Fetch) (fs : List Fetch)
        → s.queues topic ≡ f ∷ fs
        → Step s (record {
          shared = round topic f s.shared;
          queues = with_queue topic (rest_after f fs) s.queues;
        })

  pub data Reach (s : System) : System → Type 0 where
    here : Reach s s
    next : {t u : System} → Reach s t → Step t u → Reach s u
