-- ===== src/Kafka/Consumer/Client.antt =====
-- kafka/consumer.go: the operations of KafkaConsumer around the loops. Opening a reader is a parameter.
use platform_kit.Common.{
  Option, none, some, List, [], ◌∷◌, ◌++◌, map, if◌then◌else◌, Str, str_eq, is_empty, Dict, insert,
  ℤ,
}
use platform_kit.Kafka.Consumer.{ConsumerConfig, Handler, State, Fetch, TopicHealth}
use platform_kit.Kafka.Consumer.Topics.{System}

-- A reader: its topic, what Lag answers, what its Close returns, and what it has still to return.
pub record Reader : Type 0 where
  pub topic : Str
  pub lag : ℤ
  pub close : Option Str
  pub results : List Fetch

pub record KafkaConsumer : Type 0 where
  pub config : ConsumerConfig
  pub handlers : Dict Handler
  pub readers : List Reader
  pub state : State

-- The consumer that NewConsumer returns for a checked configuration.
abbrev pub fresh_consumer : ConsumerConfig → KafkaConsumer
fresh_consumer c = record {
  config = c;
  handlers = [];
  readers = [];
  state = record { health = []; cache = []; calls = 0; dead = []; committed = [] };
}

unfoldable pub subscribe : Str → Handler → KafkaConsumer → KafkaConsumer
subscribe event_type handler k = record k { handlers = insert event_type handler k.handlers }

unfoldable pub subscribed_types : KafkaConsumer → List Str
subscribed_types k = map (λ (h : Str × Handler). h.0) k.handlers

-- The loop over the readers: the first of the topic gives its lag.
abbrev pub with_lag : List Reader → TopicHealth → TopicHealth
with_lag [] h = h
with_lag (r ∷ rs) h =
    let rest = with_lag rs h in if str_eq r.topic h.topic then record h { lag = r.lag } else rest

unfoldable pub health : KafkaConsumer → List TopicHealth
health k = map (λ (h : Str × TopicHealth). with_lag k.readers h.1) k.state.health

-- Start, until the goroutines run: one reader is opened for each listed topic, in order, and kept. The
-- opened readers are returned too, each with its goroutine.
unfoldable pub start_readers :
    (open_reader : ConsumerConfig → Str → Reader) → KafkaConsumer → KafkaConsumer × List Reader
start_readers open_reader k =
    let opened = map (open_reader k.config) k.config.topics in
    (record k { readers = k.readers ++ opened }, opened)

abbrev results_of : List Reader → Str → List Fetch
results_of [] t = []
results_of (r ∷ rs) t = let rest = results_of rs t in if str_eq r.topic t then r.results else rest

-- The goroutines of the opened readers as a system, whose queues go by topic. It stands for Start where
-- the listed topics are distinct: a topic that is listed twice has two readers, and the system keeps the
-- results of the first alone.
unfoldable pub system_of : State → List Reader → System
system_of s opened = record { shared = s; queues = results_of opened }

abbrev close_errors : List Reader → List Str
close_errors [] = []
close_errors (r ∷ rs) =
    let rest = close_errors rs in elim r.close [ none ↦ rest | some e ↦ e ∷ rest ]

-- Close: the errors of the readers, none if there are none.
unfoldable pub close : KafkaConsumer → Option (List Str) × KafkaConsumer
close k =
    let errs = close_errors k.readers in
    (if is_empty errs then none else some errs, record k { readers = [] })
