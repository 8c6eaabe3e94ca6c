-- ===== src/Producer.antt =====
-- etl/infrastructure/kafka/producer.py with `serialize` of kafka/serializer.py. `produce` only puts
-- a message into the queue of the client library; what becomes of it there is in Queue.antt.
pub mod Attempts
pub mod Queue
use nyc_taxi.Base.{pos, negsuc, ℕ, ◌+◌, String, false, Option, none, some, List, [], ◌∷◌, ◌++◌}
use nyc_taxi.Python.{
  Float, finite, str, list, Items, nil, cons, Dict, empty, entry, get_or, concat, Error,
  value_error, type_error, Result, ok, err, ◌>>=◌, ◌>>◌, Runtime,
}
use nyc_taxi.Json.{JsonModule, dumps}
use nyc_taxi.Retry.{retry}
use nyc_taxi.DeadLetter.Publisher.{is_kafka_error}

-- The json module, what the n-th `produce` raises, and `*` on floats.
pub record Client : Type 0 where
  pub runtime : Runtime
  pub json : JsonModule
  pub produce : ℕ → Option Error
  pub times : Float → Float → Float

-- What `produce` enqueued, in order, as (key, value), where the key None is "", and the seconds slept.
pub record Taken : Type 0 where
  pub enqueued : List (String × String)
  pub produce_calls : ℕ
  pub sleeps : List Float

abbrev pub keys : Dict → Items
keys empty = nil
keys (entry k v d) = cons (str k) (keys d)

module _ (c : Client) where
  abbrev pub cannot_serialise : String → Dict → Error
  cannot_serialise m d = value_error (
      concat (
        "Cannot serialise Kafka message: "
        ∷ m
        ∷ ". Message keys: "
        ∷ c.runtime.text_of (list (keys d))
        ∷ []))

  -- `KafkaSerializer.serialize`
  unfoldable pub serialize : Dict → Result String
  serialize d = raised_again (dumps c.runtime c.json d)
    where
      raised_again : Result String → Result String
      raised_again (err (type_error m)) = err (cannot_serialise m d)
      raised_again (err (value_error m)) = err (cannot_serialise m d)
      raised_again r = r

  -- Key and value of a message.
  unfoldable pub encoded : Dict → Result (String × String)
  encoded d = do value ← serialize d; ok (c.runtime.text_of (get_or "trip_id" (str "") d), value)

  abbrev pub answered : String × String → Option Error → Taken → Result (Unit {0}) × Taken
  answered kv none s =
      (ok tt, record s { enqueued = s.enqueued ++ kv ∷ []; produce_calls = s.produce_calls + 1 })
  answered kv (some e) s = (err e, record s { produce_calls = s.produce_calls + 1 })

  abbrev pub produce_encoded : Result (String × String) → Taken → Result (Unit {0}) × Taken
  produce_encoded (ok kv) s = answered kv (c.produce s.produce_calls) s
  produce_encoded (err e) s = (err e, s)

  -- One attempt: the loop over the messages.
  unfoldable pub publish_all : List Dict → Taken → Result (Unit {0}) × Taken
  publish_all [] s = (ok tt, s)
  publish_all (m ∷ ms) s =
      let (result, t) = produce_encoded (encoded m) s in
      elim result [ ok u ↦ publish_all ms t | err e ↦ (err e, t) ]

  abbrev pub slept : Float → Taken → Taken
  slept delay s = record s { sleeps = s.sleeps ++ delay ∷ [] }

  -- `RetryConfig.KAFKA_PUBLISH`
  abbrev pub max_attempts : ℕ
  max_attempts = 5

  abbrev pub first_delay : Float
  first_delay = finite false 1 (negsuc 0)

  abbrev pub backoff : Float
  backoff = finite false 2 (pos 0)

  -- `publish_batch` under its decorator.
  unfoldable pub publish_batch : List Dict → Taken → Result (Option (Unit {0})) × Taken
  unfolding retry publish_all
  publish_batch ms s =
      retry is_kafka_error c.times slept backoff (publish_all ms) max_attempts first_delay s
