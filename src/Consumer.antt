-- ===== src/Consumer.antt =====
-- The consumer process: etl/runtime/batching.py, etl/infrastructure/kafka/consumer.py with
-- `deserialize` of kafka/serializer.py, and the loop of etl/entrypoints/consumer.py. An event is one
-- turn of the polling loop, so a list of events is the process up to some moment.
pub mod Persistence
pub mod Accepted
pub mod Limit
pub mod Endings
pub mod Accumulator
pub mod Order
pub mod Restarts
use nyc_taxi.Base.{
  leb, if◌then◌else◌, length, ℕ, ◌+◌, ◌-◌, String, Bool, true, false, ◌||◌, Option, none, some,
  List, [], ◌∷◌, ◌++◌, str_eq,
}
use nyc_taxi.Python.{Dict, Value, null, Error, value_error, type_error, Result, ok, err}
use nyc_taxi.Json.{JsonModule, loads}

-- What `poll` returned. A message is given by its value, where "" is no value.
pub data Poll : Type 0 where
  no_message : Poll
  partition_eof : Poll
  fatal : Error → Poll
  non_fatal : Poll
  message : String → Poll

-- One turn: whether a signal had set the flag, what `poll` returned, and the clock, which never
-- goes back, in nanoseconds when `should_flush` and when `flush` read it.
pub record Event : Type 0 where
  pub signalled : Bool
  pub polled : Poll
  pub checked_at : ℕ
  pub flushed_at : ℕ

-- The json module; what the n-th insert (with its retries), of these rows, and the n-th commit raise,
-- if anything.
pub record Ports : Type 0 where
  pub json : JsonModule
  pub insert : ℕ → List Dict → Option Error
  pub commit : ℕ → Option Error
  pub max_size : ℕ
  pub max_wait : ℕ
  pub batch_id : ℕ → String

pub record AccumulatedBatch : Type 0 where
  pub rows : List Dict
  pub batch_id : String

-- The BatchAccumulator, of which `flushes` counts the ids drawn; the flag as `request_shutdown` sets
-- it; the messages received, and those of them that the committed offset is behind; the rows of the
-- inserts that returned, and the counters of `main`.
pub record State : Type 0 where
  pub rows : List Dict
  pub last_flush_at : ℕ
  pub flushes : ℕ
  pub requested : Bool
  pub received : List String
  pub committed : List String
  pub inserted : List Dict
  pub inserts : ℕ
  pub commits : ℕ
  pub persisted_total : ℕ
  pub total_batches : ℕ
  pub total_rows : ℕ

abbrev pub started : ℕ → State
started now = record {
  rows = [];
  last_flush_at = now;
  flushes = 0;
  requested = false;
  received = [];
  committed = [];
  inserted = [];
  inserts = 0;
  commits = 0;
  persisted_total = 0;
  total_batches = 0;
  total_rows = 0;
}

-- `except (UnicodeDecodeError, ValueError, TypeError): return None`
unfoldable pub none_if_undecodable : Result Dict → Result (Option Dict)
none_if_undecodable (err (value_error m)) = ok none
none_if_undecodable (err (type_error m)) = ok none
none_if_undecodable (err e) = err e
none_if_undecodable (ok d) = ok (some d)

-- A message that carries no row adds nothing.
abbrev pub row_of : Option Dict → List Dict
row_of none = []
row_of (some d) = d ∷ []

-- How the loop stands: it goes on, ended by the flag, or was left by an exception.
pub data Progress : Type 0 where
  running : Progress
  finished : Progress
  raised : Error → Progress

module _ (p : Ports) where
  -- `KafkaSerializer.deserialize`
  unfoldable pub deserialize : String → Result (Option Dict)
  unfolding none_if_undecodable
  deserialize value = if str_eq value "" then ok none else none_if_undecodable (loads p.json value)

  -- `should_flush`
  unfoldable pub should_flush : ℕ → State → Bool
  should_flush now s = leb p.max_size (length s.rows) || leb p.max_wait (now - s.last_flush_at)

  -- `flush`
  unfoldable pub flush : ℕ → State → AccumulatedBatch × State
  flush now s = (
    record { rows = s.rows; batch_id = p.batch_id s.flushes },
    record s { rows = []; last_flush_at = now; flushes = s.flushes + 1 },
  )

  -- `KafkaConsumerAdapter.commit`: what was polled so far is behind the offset.
  unfoldable pub commit_offsets : State → Option Error × State
  commit_offsets s = answered (p.commit s.commits)
    where
      answered : Option Error → Option Error × State
      answered none = (none, record s { committed = s.received; commits = s.commits + 1 })
      answered (some e) = (some e, record s { commits = s.commits + 1 })

  abbrev pub after_commit : ℕ → Option Error × State → State
  after_commit size (none, s) = record s {
    total_batches = s.total_batches + 1;
    total_rows = s.total_rows + size;
  }
  after_commit size (some e, s) = record s { requested = true }

  abbrev pub after_insert : AccumulatedBatch → Option Error → State → State
  after_insert b none s =
      let size = length b.rows in
      after_commit size (
        commit_offsets (record s {
          inserted = s.inserted ++ b.rows;
          inserts = s.inserts + 1;
          persisted_total = s.persisted_total + size;
        }))
  after_insert b (some e) s = record s { inserts = s.inserts + 1; requested = true }

  -- The body of the loop of `main`: any exception is caught and sets the flag.
  unfoldable pub persist : AccumulatedBatch → State → State
  unfolding commit_offsets
  persist b s = after_insert b (p.insert s.inserts b.rows) s

  -- `batch = flush()`, and the batch is yielded unless it is empty.
  unfoldable pub flush_and_yield : ℕ → State → State
  unfolding flush persist
  flush_and_yield now s = let (b, t) = flush now s in yielded b t
    where
      yielded : AccumulatedBatch → State → State
      yielded b t = elim b.rows [ [] ↦ t | v ∷ vs ↦ persist b t ]

  -- The `finally` of `consume_batches`.
  unfoldable pub flush_pending : ℕ → State → State
  unfolding flush_and_yield
  flush_pending now s = elim s.rows [ [] ↦ s | v ∷ vs ↦ flush_and_yield now s ]

  abbrev pub added : State → Result (Option Dict) → Progress × State
  added s (ok v) = (running, record s { rows = s.rows ++ row_of v })
  added s (err e) = (raised e, s)

  -- A turn as far as `should_flush`: `_handle_error` raises for a fatal error only.
  unfoldable pub receive : Poll → State → Progress × State
  unfolding deserialize
  receive no_message s = (running, s)
  receive partition_eof s = (running, s)
  receive non_fatal s = (running, s)
  receive (fatal e) s = (raised e, s)
  receive (message value) s =
      added (record s { received = s.received ++ value ∷ [] }) (deserialize value)

  abbrev pub flushed_if_due : Event → Progress × State → Progress × State
  flushed_if_due e (running, s) =
      (running, if should_flush e.checked_at s then flush_and_yield e.flushed_at s else s)
  flushed_if_due e (finished, s) = (finished, s)
  flushed_if_due e (raised x, s) = (raised x, flush_pending e.flushed_at s)

  -- One turn of the loop of `consume_batches`.
  unfoldable pub turn : Event → State → Progress × State
  unfolding receive should_flush flush_pending
  turn e s =
      if s.requested || e.signalled
      then (finished, flush_pending e.flushed_at s)
      else flushed_if_due e (receive e.polled s)

  -- The process on these events: once the loop is left it takes no more turns.
  unfoldable pub consume : List Event → Progress × State → Progress × State
  unfolding turn
  consume [] s = s
  consume (e ∷ es) (running, s) = consume es (turn e s)
  consume (e ∷ es) (finished, s) = (finished, s)
  consume (e ∷ es) (raised x, s) = (raised x, s)
