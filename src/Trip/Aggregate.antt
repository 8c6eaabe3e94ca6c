-- ===== src/Trip/Aggregate.antt =====
-- TripAggregate and Location of etl/domain/trip/models.py, which nothing in the pipeline makes.
use nyc_taxi.Base.{length, ◌==◌, if◌then◌else◌, ℕ, ℤ, pos, String, Bool, false, not, List, str_eq}
use nyc_taxi.Python.{Float, finite, Dict}
use nyc_taxi.Trip.Model.{Trip}

pub record Location : Type 0 where
  pub location_id : ℤ
  pub zone : String
  pub borough : String

-- `Location.unknown`
unfoldable pub unknown_location : ℤ → Location
unknown_location id = record { location_id = id; zone = "Unknown"; borough = "Unknown" }

-- `Location.is_known`
unfoldable pub is_known : Location → Bool
is_known l = not (str_eq l.zone "Unknown")

pub record TripAggregate : Type 0 where
  pub batch_id : String
  pub source_file : String
  pub raw_row_count : ℕ
  pub valid_trips : List Trip
  pub invalid_records : List Dict

abbrev pub valid_count : TripAggregate → ℕ
valid_count a = length a.valid_trips

abbrev pub invalid_count : TripAggregate → ℕ
invalid_count a = length a.invalid_records

-- `TripAggregate.reject_rate`; division is given.
unfoldable pub aggregate_reject_rate : (ℕ → ℕ → Float) → TripAggregate → Float
aggregate_reject_rate divide a =
    if a.raw_row_count == 0
    then finite false 0 (pos 0)
    else divide (invalid_count a) a.raw_row_count
