-- ===== src/Kafka/Consumer/Topics/Completion.antt =====
-- kafka/consumer.go, Start: how the goroutines of its topics end.
use platform_kit.Common.{List, [], ◌∷◌, Str, Dict, ◌≡◌}
use platform_kit.Kafka.Envelope.{Codec}
use platform_kit.Kafka.Registry.{Registry}
use platform_kit.Kafka.Consumer.{ConsumerConfig, Handler, Fetch}
use platform_kit.Kafka.Consumer.Topics.{System, Reach, here, next}

-- No reader has a result left: every goroutine has returned.
abbrev pub IsDone : System → Type 0
IsDone s = (t : Str) → s.queues t ≡ []

pub record Ready (queues : Str → List Fetch) : Type 0 where
  pub topic : Str
  pub result : Fetch
  pub others : List Fetch
  pub is_next : queues topic ≡ result ∷ others

module _ (codec : Codec) (r : Registry) (handlers : Dict Handler) (c : ConsumerConfig)
    (ts : List Str) where
  Reach-trans :
      {s t u : System}
      → Reach codec r handlers c s t
      → Reach codec r handlers c t u
      → Reach codec r handlers c s u
  Reach-trans p here = p
  Reach-trans p (next q st) = next (Reach-trans p q) st
