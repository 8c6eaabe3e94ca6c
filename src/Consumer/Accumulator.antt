-- ===== src/Consumer/Accumulator.antt =====
-- The BatchAccumulator of etl/runtime/batching.py as an object of its own, which the state of the consumer
-- holds. The clock is an argument, in the unit of `max_wait`.
use mathlib.Core.List.{append_assoc, append-nil}
use nyc_taxi.Base.{
  leb, length, ℕ, ◌+◌, ◌-◌, String, ◌≡◌, refl, sym, ap, ◌∙◌, Bool, ◌||◌, List, [], ◌∷◌, ◌++◌,
}
use nyc_taxi.Python.{Dict}
use nyc_taxi.Consumer

pub record BatchAccumulator : Type 0 where
  pub max_size : ℕ
  pub max_wait : ℕ
  pub rows : List Dict
  pub last_flush_at : ℕ
  pub current_batch_id : String

-- `add_many`, and `add` of one row.
unfoldable pub add_many : List Dict → BatchAccumulator → BatchAccumulator
add_many rows a = record a { rows = a.rows ++ rows }

abbrev pub add : Dict → BatchAccumulator → BatchAccumulator
add row a = record a { rows = a.rows ++ row ∷ [] }

-- `pending_count`
abbrev pub pending_count : BatchAccumulator → ℕ
pending_count a = length a.rows

abbrev pub seconds_since_last_flush : ℕ → BatchAccumulator → ℕ
seconds_since_last_flush now a = now - a.last_flush_at

abbrev pub size_threshold_reached : BatchAccumulator → Bool
size_threshold_reached a = leb a.max_size (length a.rows)

abbrev pub timeout_reached : ℕ → BatchAccumulator → Bool
timeout_reached now a = leb a.max_wait (seconds_since_last_flush now a)

-- `flush`, with the id that `_new_batch_id` draws.
unfoldable pub flush : String → ℕ → BatchAccumulator → Consumer.AccumulatedBatch × BatchAccumulator
flush new_id now a = (
  record { rows = a.rows; batch_id = a.current_batch_id },
  record a { rows = []; last_flush_at = now; current_batch_id = new_id },
)

-- The accumulator of the consumer's state.
abbrev pub view : Consumer.Ports → Consumer.State → BatchAccumulator
view p s = record {
  max_size = p.max_size;
  max_wait = p.max_wait;
  rows = s.rows;
  last_flush_at = s.last_flush_at;
  current_batch_id = p.batch_id s.flushes;
}

-- The consumer asks its accumulator whether to flush, and flushes it.
pub flush-view :
    (p : Consumer.Ports) (now : ℕ) (s : Consumer.State)
    → (Consumer.should_flush p now s
        ≡ (size_threshold_reached (view p s) || timeout_reached now (view p s)))
      × ((Consumer.flush p now s).0 ≡ (flush (p.batch_id (s.flushes + 1)) now (view p s)).0)
      × (view p (Consumer.flush p now s).1 ≡ (flush (p.batch_id (s.flushes + 1)) now (view p s)).1)
unfolding flush Consumer.should_flush Consumer.flush
flush-view p now s = (refl, refl, refl)

-- What is done to an accumulator.
pub data Operation : Type 0 where
  adding : List Dict → Operation
  flushing : String → ℕ → Operation

unfoldable pub perform :
    List Operation → BatchAccumulator → List Consumer.AccumulatedBatch × BatchAccumulator
unfolding add_many flush
perform [] a = ([], a)
perform (adding rows ∷ ops) a = perform ops (add_many rows a)
perform (flushing id now ∷ ops) a =
    let (batch, b) = flush id now a in let (batches, c) = perform ops b in (batch ∷ batches, c)

abbrev pub rows_added : List Operation → List Dict
rows_added [] = []
rows_added (adding rows ∷ ops) = rows ++ rows_added ops
rows_added (flushing id now ∷ ops) = rows_added ops

abbrev pub rows_flushed : List Consumer.AccumulatedBatch → List Dict
rows_flushed [] = []
rows_flushed (b ∷ bs) = b.rows ++ rows_flushed bs

-- Whatever is added and whenever it is flushed: the rows of the batches and then those that wait are the
-- rows that waited at first and then those added, in their order and each once.
pub perform-rows :
    (ops : List Operation) (a : BatchAccumulator)
    → let (batches, b) = perform ops a in rows_flushed batches ++ b.rows ≡ a.rows ++ rows_added ops
unfolding perform
perform-rows [] a = sym (append-nil a.rows)
perform-rows (adding rows ∷ ops) a =
    perform-rows ops (add_many rows a) ∙ append_assoc a.rows rows (rows_added ops)
perform-rows (flushing id now ∷ ops) a =
    let (batches, c) = perform ops (flush id now a).1 in
    append_assoc a.rows (rows_flushed batches) c.rows
    ∙ ap (λ l. a.rows ++ l) (perform-rows ops (flush id now a).1)
