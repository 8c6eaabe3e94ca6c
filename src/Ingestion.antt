-- ===== src/Ingestion.antt =====
-- etl/application: the use cases of the producer (ingestion_service.py, process_batch.py and
-- process_trip.py) over their ports.
pub mod Balance
pub mod Shutdown
pub mod Single
pub mod Summary
use nyc_taxi.Base.{
  length, ℤ, pos, ℕ, ◌+◌, String, Bool, true, false, Option, none, some, List, [], ◌∷◌, ◌++◌, map,
}
use nyc_taxi.Python.{
  Datetime, Dict, Error, domain_error, error_type, Result, ok, err, ◌>>=◌, ◌>>◌, Runtime,
  error_message,
}
use nyc_taxi.Trip.Model.{Zone, Trip, to_dict}
use nyc_taxi.Trip.Events.{ProcessingStage, InvalidTripDetected, from_exception}
use nyc_taxi.Trip.Service.{Clock, Context, process_batch}
use nyc_taxi.Validation.{Pydantic, validate_batch}
use nyc_taxi.DeadLetter.{DeadLetterStage, DeadLetterRecord, from_invalid_event}

-- The collaborators of a run. The broker answers the n-th `publish_batch` (with its retries) by an
-- exception or none; `shutdown` is what the n-th look at the flag sees; batch n has its own ids and
-- times. `dead_letter` is what the n-th record raises that is sent to the dead letter service, whose
-- publisher lets an exception of the encoder through.
pub record Ports : Type 0 where
  pub runtime : Runtime
  pub pydantic : Pydantic
  pub get_by_id : ℤ → Result Zone
  pub source_file : String
  pub correlation_id : ℕ → String
  pub clock : ℕ → Clock
  pub failed_at : Datetime
  pub publish : ℕ → Option Error
  pub dead_letter : ℕ → Option Error
  pub shutdown : ℕ → Bool

-- The summary, with all that was handed to the publisher and to the dead letter service by calls that
-- returned.
pub record Run : Type 0 where
  pub total_batches : ℕ
  pub total_rows : ℕ
  pub total_valid : ℕ
  pub total_invalid : ℕ
  pub total_schema_rejected : ℕ
  pub published : List Dict
  pub sent : List DeadLetterRecord
  pub publish_calls : ℕ
  pub send_calls : ℕ
  pub flushes : ℕ

abbrev pub fresh_run : Run
fresh_run = record {
  total_batches = 0;
  total_rows = 0;
  total_valid = 0;
  total_invalid = 0;
  total_schema_rejected = 0;
  published = [];
  sent = [];
  publish_calls = 0;
  send_calls = 0;
  flushes = 0;
}

-- What was done stays done when a call raises.
abbrev pub Step : Type 0
Step = Result (Unit {0}) × Run

abbrev pub and_then : Step → (Run → Step) → Step
and_then (ok u, s) f = f s
and_then (err e, s) f = (err e, s)

-- `[DeadLetterRecord.from_invalid_event(event) for event in events]`
unfoldable pub dead_letters :
    Runtime → Datetime → List InvalidTripDetected → Result (List DeadLetterRecord)
dead_letters rt at [] = ok []
dead_letters rt at (e ∷ es) = do
  r ← from_invalid_event rt at e
  rs ← dead_letters rt at es
  ok (r ∷ rs)

module _ (raises : ℕ → Option Error) where
  -- `send` of the dead letter service
  unfoldable pub send_record : DeadLetterRecord → Run → Step
  send_record r s = answered (raises s.send_calls)
    where
      answered : Option Error → Step
      answered none = (ok tt, record s { sent = s.sent ++ r ∷ []; send_calls = s.send_calls + 1 })
      answered (some e) = (err e, record s { send_calls = s.send_calls + 1 })

  -- `send_batch`, and the loop over the rows that the schema rejects: one after the other.
  unfoldable pub send_records : List DeadLetterRecord → Run → Step
  unfolding send_record
  send_records [] s = (ok tt, s)
  send_records (r ∷ rs) s = and_then (send_record r s) (send_records rs)

module _ (p : Ports) where
  -- The record of a row that the schema rejects.
  unfoldable pub schema_record : String → Dict × String → DeadLetterRecord
  schema_record batch_id (row, error) = record {
    original_record = row;
    error_message = error;
    error_type = "SchemaValidationError";
    stage = DeadLetterStage.validation;
    batch_id = batch_id;
    source_file = p.source_file;
    trip_id = none;
    failed_at = p.failed_at;
    retry_count = pos 0;
  }

  -- `if valid_trips: self._publisher.publish_batch(...)`
  unfoldable pub publish_trips : List Trip → Run → Step
  publish_trips [] s = (ok tt, s)
  publish_trips (t ∷ ts) s = answered (p.publish s.publish_calls)
    where
      answered : Option Error → Step
      answered none = (
        ok tt,
        record s {
          published = s.published ++ map (to_dict p.runtime) (t ∷ ts);
          publish_calls = s.publish_calls + 1;
        },
      )
      answered (some e) = (err e, record s { publish_calls = s.publish_calls + 1 })

  abbrev pub send_all : Result (List DeadLetterRecord) → Run → Step
  send_all (ok rs) s = send_records p.dead_letter rs s
  send_all (err e) s = (err e, s)

  -- `if invalid_events: self._dead_letter_service.send_batch(...)`
  unfoldable pub reject_events : List InvalidTripDetected → Run → Step
  unfolding dead_letters send_records
  reject_events events s = send_all (dead_letters p.runtime p.failed_at events) s

  abbrev pub context_of : ℕ → Context
  context_of i = record {
    runtime = p.runtime;
    get_by_id = p.get_by_id;
    clock = p.clock i;
    batch_id = p.correlation_id i;
    source_file = p.source_file;
  }

  -- Steps 2 to 4 on the rows that the schema accepts; `ProcessBatchUseCase.handle` is the same code.
  unfoldable pub handle_batch : ℕ → List Dict → Run → Step
  handle_batch i rows s =
      let (trips, events) = process_batch (context_of i) rows in
      let counted = record s {
        total_valid = s.total_valid + length trips;
        total_invalid = s.total_invalid + length events;
      } in
      and_then (publish_trips trips counted) (reject_events events)

  abbrev pub after_schema : ℕ → Result (List Dict × List (Dict × String)) → Run → Step
  after_schema i (err e) s = (err e, s)
  after_schema i (ok (valid, invalid)) s =
      and_then
        (send_records p.dead_letter (map (schema_record (p.correlation_id i)) invalid)
          (record s { total_schema_rejected = s.total_schema_rejected + length invalid }))
        (handle_batch i valid)

  -- `IngestionService._process_batch` on batch `i`.
  unfoldable pub ingest_batch : ℕ → List Dict → Run → Step
  ingest_batch i rows s =
      after_schema i (validate_batch p.runtime p.pydantic rows)
        (record s { total_batches = s.total_batches + 1; total_rows = s.total_rows + length rows })

  -- The loop of `run`, from batch `i` on.
  unfoldable pub run_from : ℕ → List (List Dict) → Run → Step
  run_from i [] s = (ok tt, s)
  run_from i (rows ∷ batches) s = elim (p.shutdown i) [
    | true ↦ (ok tt, s)
    | false ↦ and_then (ingest_batch i rows s) (run_from (i + 1) batches)
  ]

  abbrev pub flushed : Step → Step
  flushed (r, s) = (r, record s { flushes = s.flushes + 1 })

  -- `IngestionService.run` with a reader that raises nothing: the `finally` flushes the publisher on
  -- every path.
  unfoldable pub run : List (List Dict) → Step
  unfolding run_from
  run batches = flushed (run_from 0 batches fresh_run)

-- `ProcessTripResult`: exactly one of a trip and an event.
pub data TripResult : Type 0 where
  valid : Trip → TripResult
  invalid : InvalidTripDetected → TripResult

-- `ProcessTripUseCase.handle`; the last branch is the defensive one.
unfoldable pub process_trip : Context → Dict → TripResult
process_trip c raw = first (process_batch c (raw ∷ []))
  where
    first : List Trip × List InvalidTripDetected → TripResult
    first (t ∷ ts, events) = valid t
    first ([], e ∷ events) = invalid e
    first ([], []) = invalid (
        from_exception c.runtime (domain_error "No result returned from domain service")
          ProcessingStage.parsing raw c.batch_id c.source_file none (c.clock.detected_at 0))
