-- ===== src/Trip/Events.antt =====
-- etl/domain/trip/events.py: the event of a rejected row.
use nyc_taxi.Base.{String, Option}
use nyc_taxi.Python.{
  error_message as message_of, error_type as type_of, Datetime, Dict, Error, invalid_trip_duration,
  negative_money, invalid_passenger_count, invalid_pickup_datetime, zone_not_found,
  trip_parse_error, Runtime,
}

pub data ProcessingStage : Type 0 where
  parsing normalization enrichment validation deduplication persist : ProcessingStage

-- The events of a trip that goes on; nothing in the pipeline makes them.
pub record TripCreated : Type 0 where
  pub trip_id : String
  pub vendor_id : String
  pub batch_id : String
  pub source_file : String
  pub occurred_at : Datetime

pub record TripEnriched : Type 0 where
  pub trip_id : String
  pub batch_id : String
  pub pickup_zone : String
  pub dropoff_zone : String
  pub pickup_borough : String
  pub dropoff_borough : String
  pub occurred_at : Datetime

pub record TripValidated : Type 0 where
  pub trip_id : String
  pub batch_id : String
  pub occurred_at : Datetime

pub record InvalidTripDetected : Type 0 where
  pub stage : ProcessingStage
  pub error_message : String
  pub error_type : String
  pub original_record : Dict
  pub batch_id : String
  pub source_file : String
  pub trip_id : Option String
  pub occurred_at : Datetime

-- `InvalidTripDetected.from_exception`; `at` is the default of `occurred_at`.
unfoldable pub from_exception :
    Runtime
    → Error
    → ProcessingStage
    → Dict
    → String
    → String
    → Option String
    → Datetime
    → InvalidTripDetected
from_exception rt exc stage original batch_id source_file trip_id at = record {
  stage = stage;
  error_message = message_of rt exc;
  error_type = type_of exc;
  original_record = original;
  batch_id = batch_id;
  source_file = source_file;
  trip_id = trip_id;
  occurred_at = at;
}

-- `_stage_from_exception` (etl/domain/trip/services.py), on a DomainError.
unfoldable pub stage_from_exception : Error → ProcessingStage
stage_from_exception (trip_parse_error f v r) = parsing
stage_from_exception (zone_not_found i) = enrichment
stage_from_exception (invalid_trip_duration s) = validation
stage_from_exception (invalid_passenger_count c) = validation
stage_from_exception (invalid_pickup_datetime d r) = validation
stage_from_exception (negative_money f a) = validation
stage_from_exception e = parsing
