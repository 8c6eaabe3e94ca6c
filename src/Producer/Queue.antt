-- ===== src/Producer/Queue.antt =====
-- etl/infrastructure/kafka/producer.py with the queue of the client library: what `produce` took is
-- delivered, or fails, later, and `poll` and `flush` call `_delivery_callback` with the outcome.
pub mod Reports
pub mod Drained
use nyc_taxi.Base.{length, ℕ, zero, suc, ◌+◌, String, Option, none, some, List, [], ◌∷◌, ◌++◌}
use nyc_taxi.Python.{Float, Dict, Error, Result, ok, err}
use nyc_taxi.Retry.{retry}
use nyc_taxi.DeadLetter.Publisher.{is_kafka_error}
use nyc_taxi.Producer.{Client, Taken, encoded, answered, slept, max_attempts, first_delay, backoff}

abbrev pub KeyValue : Type 0
KeyValue = String × String

-- What was taken into the queue so far, with the counters; what waits in the queue; what was
-- delivered; and what `_delivery_callback` logged as failed.
pub record Buffered : Type 0 where
  pub taken : Taken
  pub queue : List KeyValue
  pub delivered : List KeyValue
  pub failed : List KeyValue
  pub polls : ℕ

-- A delivery report: the place of its message in the queue, and the error, if any.
abbrev pub Report : Type 0
Report = ℕ × Option Error

abbrev in_front : KeyValue → Option (KeyValue × List KeyValue) → Option (KeyValue × List KeyValue)
in_front m none = none
in_front m (some (n, rest)) = some (n, m ∷ rest)

-- The message at a place, and the queue without it.
unfoldable pub take_at : ℕ → List KeyValue → Option (KeyValue × List KeyValue)
take_at i [] = none
take_at zero (m ∷ queue) = some (m, queue)
take_at (suc i) (m ∷ queue) = in_front m (take_at i queue)

-- `_delivery_callback`
unfoldable pub delivery_callback : Option Error → KeyValue → Buffered → Buffered
delivery_callback none m s = record s { delivered = s.delivered ++ m ∷ [] }
delivery_callback (some e) m s = record s { failed = s.failed ++ m ∷ [] }

abbrev pub reported : Option Error → Option (KeyValue × List KeyValue) → Buffered → Buffered
reported error none s = s
reported error (some (m, rest)) s = delivery_callback error m (record s { queue = rest })

unfoldable pub serve : List Report → Buffered → Buffered
unfolding take_at delivery_callback
serve [] s = s
serve ((i, error) ∷ reports) s = serve reports (reported error (take_at i s.queue) s)

-- The reports that the n-th `poll` or `flush` of the client library serves.
module _ (c : Client) (reports : ℕ → List Report) where
  unfoldable pub poll : Buffered → Buffered
  unfolding serve
  poll s = serve (reports s.polls) (record s { polls = s.polls + 1 })

  -- What the client's `produce` answered, and the `poll(0)` behind it.
  abbrev pub taken_in : KeyValue → Option Error → Buffered → Result (Unit {0}) × Buffered
  taken_in m none s =
      (ok tt, poll (record s { taken = (answered c m none s.taken).1; queue = s.queue ++ m ∷ [] }))
  taken_in m (some e) s = (err e, record s { taken = (answered c m (some e) s.taken).1 })

  abbrev pub take_encoded : Result KeyValue → Buffered → Result (Unit {0}) × Buffered
  take_encoded (ok m) s = taken_in m (c.produce s.taken.produce_calls) s
  take_encoded (err e) s = (err e, s)

  -- One attempt, with the last `poll(0)`.
  unfoldable pub publish_polled : List Dict → Buffered → Result (Unit {0}) × Buffered
  unfolding poll
  publish_polled [] s = (ok tt, poll s)
  publish_polled (m ∷ ms) s =
      let (result, t) = take_encoded (encoded c m) s in
      elim result [ ok u ↦ publish_polled ms t | err e ↦ (err e, t) ]

  abbrev pub slept_buffered : Float → Buffered → Buffered
  slept_buffered delay s = record s { taken = slept c delay s.taken }

  -- `publish_batch` under its decorator.
  unfoldable pub publish_buffered : List Dict → Buffered → Result (Option (Unit {0})) × Buffered
  unfolding retry publish_polled
  publish_buffered ms s =
      retry is_kafka_error c.times slept_buffered (backoff c) (publish_polled ms) (max_attempts c)
        (first_delay c) s

  -- `flush`: it returns how many messages are still in the queue, and the callers ignore that.
  unfoldable pub flush : Buffered → ℕ × Buffered
  unfolding poll
  flush s = let t = poll s in (length t.queue, t)
