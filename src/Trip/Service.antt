-- ===== src/Trip/Service.antt =====
-- etl/domain/trip/services.py and enrichers.py: the pipeline from raw rows to trips and events.
mod Build
pub mod Facts
pub mod Accounting
pub mod Sound
pub mod Rejected
pub mod Replayed
unfoldable pub use Build.*
use nyc_taxi.Base.{if◌then◌else◌, ℤ, ℕ, ◌+◌, ◌*◌, String, Option, none, some, List, [], ◌∷◌, ◌++◌}
use nyc_taxi.Python.{
  Datetime, Dict, concat, Error, is_domain_error, error_type, Result, ok, err, ◌>>=◌, ◌>>◌, Runtime,
  error_message,
}
use nyc_taxi.Trip.Model.{Zone, Trip, enrich_zones, to_dict}
use nyc_taxi.Trip.Events.{
  parsing, deduplication, InvalidTripDetected, from_exception, stage_from_exception,
}
use nyc_taxi.Trip.Normalizer.{normalize}
use nyc_taxi.Trip.Validator.{validate}
use nyc_taxi.Trip.Deduplicator.{deduplicate}

-- What `datetime.now(UTC)` returns, by the row or the duplicate that it is called for.
pub record Clock : Type 0 where
  pub ingested_at : ℕ → Datetime
  pub now : ℕ → ℤ
  pub detected_at : ℕ → Datetime
  pub duplicate_at : ℕ → Datetime

-- The collaborators of a TripDomainService, and the arguments of one `process_batch`.
pub record Context : Type 0 where
  pub runtime : Runtime
  pub get_by_id : ℤ → Result Zone
  pub clock : Clock
  pub batch_id : String
  pub source_file : String

-- `TripEnricher.enrich`
unfoldable pub enrich : (ℤ → Result Zone) → Trip → Result Trip
unfolding enrich_zones
enrich get_by_id t = do
  pickup ← get_by_id t.pickup_location_id
  dropoff ← get_by_id t.dropoff_location_id
  ok (enrich_zones t pickup dropoff)

-- What the body of the loop does with a row.
pub data Outcome : Type 0 where
  accepted : Trip → Outcome
  rejected : InvalidTripDetected → Outcome

module _ (c : Context) where
  -- The two `except` clauses: a DomainError keeps its stage and the id of the trip, if it was
  -- built; any other exception is a parsing failure without an id.
  unfoldable pub event_of : ℕ → Dict → Option String → Error → InvalidTripDetected
  unfolding from_exception
  event_of i raw trip_id exc =
      let at = c.clock.detected_at i in
      if is_domain_error exc
      then from_exception c.runtime exc (stage_from_exception exc) raw c.batch_id c.source_file
          trip_id at
      else from_exception c.runtime exc parsing raw c.batch_id c.source_file none at

  -- Normalise and parse.
  unfoldable pub parsed_trip : ℕ → Dict → Result Trip
  parsed_trip i raw = do
    normalised ← normalize c.runtime raw
    build_trip c.runtime normalised c.batch_id c.source_file (c.clock.ingested_at i)

  -- Enrich and validate; the trip as `enrich` left it.
  unfoldable pub checked_trip : ℕ → Trip → Result Trip
  checked_trip i t = do
    enriched ← enrich c.get_by_id t
    validate c.runtime (c.clock.now i) enriched
    ok enriched

  abbrev pub settle : ℕ → Dict → Option String → Result Trip → Outcome
  settle i raw trip_id (ok t) = accepted t
  settle i raw trip_id (err e) = rejected (event_of i raw trip_id e)

  abbrev pub settle_parsed : ℕ → Dict → Result Trip → Outcome
  settle_parsed i raw (ok t) = settle i raw (some t.trip_id) (checked_trip i t)
  settle_parsed i raw (err e) = rejected (event_of i raw none e)

  -- The body of the loop over the rows.
  unfoldable pub process_row : ℕ → Dict → Outcome
  process_row i raw = settle_parsed i raw (parsed_trip i raw)

  abbrev pub collect :
      Outcome → List Trip × List InvalidTripDetected → List Trip × List InvalidTripDetected
  collect (accepted t) (trips, events) = (t ∷ trips, events)
  collect (rejected e) (trips, events) = (trips, e ∷ events)

  -- The loop: row `i` and those behind it.
  unfoldable pub process_rows : ℕ → List Dict → List Trip × List InvalidTripDetected
  process_rows i [] = ([], [])
  process_rows i (raw ∷ rows) = collect (process_row i raw) (process_rows (i + 1) rows)

  unfoldable pub duplicate_event : ℕ → Trip → InvalidTripDetected
  duplicate_event j dup = record {
    stage = deduplication;
    error_message = concat ("Duplicate trip_id within batch: " ∷ dup.trip_id ∷ []);
    error_type = "WithinBatchDuplicate";
    original_record = to_dict c.runtime dup;
    batch_id = c.batch_id;
    source_file = c.source_file;
    trip_id = some dup.trip_id;
    occurred_at = c.clock.duplicate_at j;
  }

  unfoldable pub duplicate_events : ℕ → List Trip → List InvalidTripDetected
  unfolding duplicate_event
  duplicate_events j [] = []
  duplicate_events j (dup ∷ dups) = duplicate_event j dup ∷ duplicate_events (j + 1) dups

  unfoldable pub process_batch : List Dict → List Trip × List InvalidTripDetected
  unfolding process_rows duplicate_events
  process_batch rows =
      let (valid, invalid) = process_rows 0 rows in
      let (unique, duplicates) = deduplicate valid in
      (unique, invalid ++ duplicate_events 0 duplicates)
