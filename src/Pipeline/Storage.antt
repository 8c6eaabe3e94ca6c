-- ===== src/Pipeline/Storage.antt =====
-- The consumer process with its repository: `trip_repository.save_batch_from_dicts(batch.rows)` of
-- etl/entrypoints/consumer.py, on the ClickHouse client that `_build_trip_repository` is given.
use nyc_taxi.Base.{All, pos, negsuc, ℕ, ◌^◌, ◌<◌, String, ◌≡◌, Option, none, some, List, []}
use nyc_taxi.Python.{Value, null, int, Dict, get_or, Error, ok, err, Runtime}
use nyc_taxi.ClickHouse.{ArrowType, uint, Table, Driver, Server, Called, save_batch_from_dicts}

-- What a call raised, if anything.
abbrev pub raised_by : Called → Option Error
raised_by (ok rows, s) = none
raised_by (err e, s) = some e

abbrev pub no_statements : Server
no_statements = record { executed = []; calls = 0; sleeps = [] }

-- The n-th insert of a process, by what the driver answers during it.
unfoldable pub storing : Runtime → (ℕ → Driver) → ℕ → List Dict → Option Error
unfolding save_batch_from_dicts
storing rt drivers n rows = raised_by (save_batch_from_dicts (drivers n) rt rows no_statements)

-- An integer is within the width of its column.
abbrev pub InRange : ArrowType → Value → Type 0
InRange (uint bits) (int (pos n)) = n < 2 ^ bits
InRange (uint bits) (int (negsuc n)) = ⊥
InRange t v = Unit

-- pyarrow raises for an integer that is too large for its column, or negative in an unsigned one.
abbrev pub RefusesOverflow : Driver → Type 0
RefusesOverflow o =
    (schema : List (String × ArrowType)) (rows : List Dict) (table : Table)
    → o.from_pylist schema rows ≡ ok table
    → All (λ row. All (λ f. InRange f.1 (get_or f.0 null row)) schema) rows

-- The location ids of a row that is not yet coerced.
abbrev pub HasLocations : Dict → Type 0
HasLocations row =
    InRange (uint 16) (get_or "pickup_location_id" null row)
    × InRange (uint 16) (get_or "dropoff_location_id" null row)
