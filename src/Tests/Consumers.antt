-- ===== src/Tests/Consumers.antt =====
-- Two topics of one consumer: one gets a message that its handler takes at the third call, the other one
-- that does not decode.
use platform_kit.Common.{
  ◌≤◌, none, some, List, [], ◌∷◌, ◌≡◌, ◌↔◌, refl, Str, lit, pos, lookup, str_eq, inl, inr, arith,
  Dict, In, if◌then◌else◌, str_eq_iff, Bool-cases,
}
use platform_kit.Kafka.Consumer.{Handler, Fetched, Fetch, message, cancelled, State, TopicHealth}
use platform_kit.Kafka.Consumer.Client.{KafkaConsumer, health}
use platform_kit.Kafka.Consumer.Fate.{failed_of}
use platform_kit.Kafka.Consumer.Topics.{System, with_queue, round, turn, Reach, here, next}
use platform_kit.Kafka.Consumer.Topics.Laws.{IsRouted, account, Reach-account}
use platform_kit.Kafka.Consumer.Topics.Counters.{health_account, Reach-health_account}
use platform_kit.Kafka.Healthz.{healthz_handler, consumers_healthz_handler}
use platform_kit.Kafka.Healthz.Laws.{IsDegraded, consumers_healthz_handler_iff}
use platform_kit.Kafka.Healthz.Forever.{healthz_handler_forever}
use platform_kit.Tests.Flow.{codec, registry, flaky, config, msg}

abbrev handlers : Dict Handler
handlers = (lit "a.b.c", flaky) ∷ []

abbrev main : Str
main = lit "sentiae.a.b"

abbrev other : Str
other = lit "sentiae.x.y"

abbrev ill : Fetched
ill = record { topic = other; partition = 0; offset = 9; key = []; value = 0 ∷ []; headers = [] }

-- One message has failed on the main topic.
abbrev once : TopicHealth
once = record {
  topic = main;
  group_id = lit "g";
  last_offset = 3;
  last_event_type = lit "a.b.c";
  last_processed = 1;
  messages_ok = 7;
  messages_failed = 1;
  lag = pos 0;
}

abbrev begun : State
begun = record { health = (main, once) ∷ []; cache = []; calls = 0; dead = []; committed = [] }

abbrev queue_of : Str → List Fetch
queue_of t =
    if str_eq main t
    then message (msg 4) 2 ∷ cancelled ∷ []
    else if str_eq other t
    then message ill 3 ∷ []
    else []

abbrev first : System
first = record { shared = begun; queues = queue_of }

abbrev second : System
second = record {
  shared = round codec registry handlers config other (message ill 3) begun;
  queues = with_queue other [] queue_of;
}

abbrev third : System
third = record {
  shared = round codec registry handlers config main (message (msg 4) 2) second.shared;
  queues = with_queue main (cancelled ∷ []) second.queues;
}

reached : Reach codec registry handlers config first third
unfolding str_eq
reached =
    next (next here (turn other (message ill 3) [] refl))
      (turn main (message (msg 4) 2) (cancelled ∷ []) refl)

routed : IsRouted first
routed t = elim (Bool-cases (str_eq main t)) [
  | inl e ↦ rw e ((str_eq_iff main t).0 e, (tt, tt))
  | inr f ↦ elim (Bool-cases (str_eq other t)) [
    | inl e ↦ rw (f, e) ((str_eq_iff other t).0 e, tt)
    | inr g ↦ rw (f, g) tt
  ]
]

abbrev topics : List Str
topics = main ∷ other ∷ []

Reach-account_example :
    account codec registry handlers config main third
    ≡ account codec registry handlers config main first
Reach-account_example = Reach-account codec registry handlers config main routed reached

Reach-health_account_example :
    (health_account codec registry handlers config main third
      ≡ health_account codec registry handlers config main first)
    × (failed_of (lookup main first.shared.health) ≤ failed_of (lookup main third.shared.health))
Reach-health_account_example = Reach-health_account codec registry handlers config main reached

abbrev running : KafkaConsumer
running = record { config = config; handlers = handlers; readers = []; state = begun }

healthz_handler_forever_example :
    (healthz_handler registry (some (record running { state = third.shared })) (lit "svc") 50).0
    ≡ 503
unfolding lookup str_eq
healthz_handler_forever_example =
    healthz_handler_forever codec registry running first third main (lit "svc") 50 refl
      (omega arith) reached

consumers_healthz_handler_iff_example :
    ((consumers_healthz_handler (lit "svc") (none ∷ some running ∷ []) 50).0 ≡ 503) ↔ (
      (k : KafkaConsumer) × In (some k) (none ∷ some running ∷ [])
      × ((h : TopicHealth) × In h (health k) × IsDegraded h))
consumers_healthz_handler_iff_example =
    consumers_healthz_handler_iff (lit "svc") (none ∷ some running ∷ []) 50
