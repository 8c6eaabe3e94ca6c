-- ===== src/ClickHouse.antt =====
-- etl/infrastructure/clickhouse: `ClickHouseClient` (client.py), `ColumnarInserter` (inserter.py) and
-- `ClickHouseTripRepository` (repository.py). The driver and pyarrow are parameters.
pub mod Rows
pub mod Insert
pub mod Batch
pub mod Client
use nyc_taxi.Base.{
  if◌then◌else◌, ℤ, pos, ℕ, ◌+◌, String, Bool, false, Option, none, some, List, [], ◌∷◌, ◌++◌, map,
}
use nyc_taxi.Python.{
  Float, finite, Datetime, Value, null, int, str, decimal, datetime, Dict, get_or, set, Error,
  other, Result, ok, err, ◌>>=◌, ◌>>◌, Runtime, to_int, to_float,
}
use nyc_taxi.Retry.{retry}
use nyc_taxi.Trip.Model.{Trip, to_dict}
use nyc_taxi.Timestamp.{assume_utc, parse_timestamp}

-- The types of the Arrow schema, with their widths in bits; timestamps are in microseconds and UTC.
pub data ArrowType : Type 0 where
  string : ArrowType
  timestamp : ArrowType
  uint : ℕ → ArrowType
  float : ℕ → ArrowType

-- `TRIPS_ARROW_SCHEMA`
abbrev pub trips_arrow_schema : List (String × ArrowType)
trips_arrow_schema =
    ("trip_id", ArrowType.string)
    ∷ ("vendor_id", ArrowType.string)
    ∷ ("pickup_datetime", timestamp)
    ∷ ("dropoff_datetime", timestamp)
    ∷ ("trip_duration_seconds", uint 32)
    ∷ ("passenger_count", uint 8)
    ∷ ("trip_distance", ArrowType.float 32)
    ∷ ("pickup_location_id", uint 16)
    ∷ ("dropoff_location_id", uint 16)
    ∷ ("pickup_zone", ArrowType.string)
    ∷ ("dropoff_zone", ArrowType.string)
    ∷ ("pickup_borough", ArrowType.string)
    ∷ ("dropoff_borough", ArrowType.string)
    ∷ ("fare_amount", ArrowType.float 64)
    ∷ ("extra", ArrowType.float 64)
    ∷ ("mta_tax", ArrowType.float 64)
    ∷ ("tip_amount", ArrowType.float 64)
    ∷ ("tolls_amount", ArrowType.float 64)
    ∷ ("improvement_surcharge", ArrowType.float 64)
    ∷ ("congestion_surcharge", ArrowType.float 64)
    ∷ ("airport_fee", ArrowType.float 64)
    ∷ ("total_amount", ArrowType.float 64)
    ∷ ("payment_type", ArrowType.string)
    ∷ ("rate_code", ArrowType.string)
    ∷ ("store_and_fwd_flag", ArrowType.string)
    ∷ ("ingested_at", timestamp)
    ∷ ("batch_id", ArrowType.string)
    ∷ ("source_file", ArrowType.string)
    ∷ []

abbrev pub money_fields : List String
money_fields =
    "fare_amount" ∷ "extra" ∷ "mta_tax" ∷ "tip_amount" ∷ "tolls_amount" ∷ "improvement_surcharge"
    ∷ "congestion_surcharge" ∷ "airport_fee" ∷ "total_amount" ∷ []

abbrev pub dt_fields : List String
dt_fields = "pickup_datetime" ∷ "dropoff_datetime" ∷ "ingested_at" ∷ []

-- `coerced[field] = convert(coerced.get(field))`, for each of the fields.
unfoldable pub coerce_fields : (Value → Result Value) → List String → Dict → Result Dict
unfolding get_or set
coerce_fields convert [] d = ok d
coerce_fields convert (f ∷ fs) d = do
  v ← convert (get_or f null d)
  coerce_fields convert fs (set f v d)

module _ (rt : Runtime) where
  -- `float(v) if v is not None else 0.0`
  unfoldable pub float_or_zero : Value → Result Value
  unfolding to_float
  float_or_zero null = ok (Value.float (finite false 0 (pos 0)))
  float_or_zero (decimal d) = ok (Value.float (rt.float_of_decimal d))
  float_or_zero v = do x ← to_float rt v; ok (Value.float x)

  abbrev pub or_null : Option Datetime → Value
  or_null none = null
  or_null (some d) = datetime d

  abbrev pub in_utc : Value → Value
  in_utc (datetime d) = datetime (assume_utc d)
  in_utc v = v

  -- The body of the loop over the datetime fields.
  unfoldable pub datetime_or_null : Value → Result Value
  unfolding assume_utc
  datetime_or_null (str s) = do d ← parse_timestamp rt (str s); ok (in_utc (or_null d))
  datetime_or_null v = ok (in_utc v)

  -- `int(v) if v is not None else 0`
  unfoldable pub int_or_zero : Value → Result Value
  unfolding to_int
  int_or_zero null = ok (int (pos 0))
  int_or_zero v = do n ← to_int rt v; ok (int n)

  -- `_coerce_row`
  unfoldable pub coerce_row : Dict → Result Dict
  unfolding coerce_fields float_or_zero datetime_or_null int_or_zero
  coerce_row row = do
    coerced ← coerce_fields float_or_zero money_fields row
    coerced ← coerce_fields datetime_or_null dt_fields coerced
    coerce_fields int_or_zero ("passenger_count" ∷ []) coerced

  unfoldable pub coerce_rows : List Dict → Result (List Dict)
  coerce_rows [] = ok []
  coerce_rows (row ∷ rows) = do
    coerced ← coerce_row row
    rest ← coerce_rows rows
    ok (coerced ∷ rest)

-- The columns of a table by name, in order.
abbrev pub Table : Type 0
Table = List (String × List Value)

abbrev pub Rows : Type 0
Rows = List (List Value)

-- What is taken from pyarrow and from clickhouse_driver: the reading of dicts by a schema, with
-- `to_pylist` on each column; what the n-th `execute` gives, and whether the server executed its
-- statement all the same when it raises; which exceptions are ClickHouseError or OSError; `*` on floats.
pub record Driver : Type 0 where
  pub from_pylist : List (String × ArrowType) → List Dict → Result Table
  pub answer : ℕ → Result Rows
  pub lands : ℕ → Bool
  pub is_clickhouse_error : Error → Bool
  pub times : Float → Float → Float

-- The statements that the server executed, with their columns, the calls made, and the seconds slept.
pub record Server : Type 0 where
  pub executed : List (String × List (List Value))
  pub calls : ℕ
  pub sleeps : List Float

-- A call under `@retry`; the Option is `none` where the loop would end without an answer.
abbrev pub Called : Type 0
Called = Result (Option Rows) × Server

module _ (o : Driver) where
  abbrev pub slept : Float → Server → Server
  slept delay s = record s { sleeps = s.sleeps ++ delay ∷ [] }

  abbrev pub answered : String → List (List Value) → Result Rows → Server → Result Rows × Server
  answered query columns (ok rows) s =
      (ok rows, record s { executed = s.executed ++ (query, columns) ∷ []; calls = s.calls + 1 })
  answered query columns (err e) s = (
    err e,
    record s {
      executed = s.executed ++ (if o.lands s.calls then (query, columns) ∷ [] else []);
      calls = s.calls + 1;
    },
  )

  -- One call of the driver; one that times out may have been executed.
  unfoldable pub execute_once : String → List (List Value) → Server → Result Rows × Server
  execute_once query columns s = answered query columns (o.answer s.calls) s

  -- `RetryConfig.CLICKHOUSE_INSERT`
  abbrev pub insert_attempts : ℕ
  insert_attempts = 3

  -- `RetryConfig.HEALTH_CHECK`
  abbrev pub ping_attempts : ℕ
  ping_attempts = 5

  abbrev pub one_second : Float
  one_second = finite false 1 (pos 0)

  abbrev pub two_seconds : Float
  two_seconds = finite false 2 (pos 0)

  -- `ClickHouseClient.execute`
  unfoldable pub execute : String → List (List Value) → Server → Called
  unfolding retry execute_once
  execute query columns s =
      retry o.is_clickhouse_error o.times slept two_seconds (execute_once query columns)
        insert_attempts one_second s

  -- `ClickHouseClient.ping`
  unfoldable pub ping : Server → Called
  unfolding retry execute_once
  ping s =
      retry o.is_clickhouse_error o.times slept one_second (execute_once "SELECT 1" [])
        ping_attempts two_seconds s

  abbrev pub execute_columns : Result Table → Server → Called
  execute_columns (ok table) s = execute "INSERT INTO taxi.trips VALUES" (map (λ c. c.1) table) s
  execute_columns (err e) s = (err e, s)

  -- `ColumnarInserter.insert`
  unfoldable pub insert : Runtime → List Dict → Server → Called
  unfolding coerce_rows execute
  insert rt [] s = (ok none, s)
  insert rt (row ∷ rows) s =
      execute_columns
        (do coerced ← coerce_rows rt (row ∷ rows); o.from_pylist trips_arrow_schema coerced) s

  -- `save_batch_from_dicts`
  unfoldable pub save_batch_from_dicts : Runtime → List Dict → Server → Called
  unfolding insert
  save_batch_from_dicts rt [] s = (ok none, s)
  save_batch_from_dicts rt (row ∷ rows) s = insert rt (row ∷ rows) s

  -- `save_batch`
  unfoldable pub save_batch : Runtime → List Trip → Server → Called
  unfolding insert
  save_batch rt [] s = (ok none, s)
  save_batch rt (t ∷ trips) s = insert rt (map (to_dict rt) (t ∷ trips)) s

  abbrev pub first_cell : Runtime → Option Rows → Result ℤ
  first_cell rt none = ok (pos 0)
  first_cell rt (some []) = ok (pos 0)
  first_cell rt (some ([] ∷ rows)) = err (other "IndexError" "list index out of range")
  first_cell rt (some ((v ∷ row) ∷ rows)) = to_int rt v

  -- `count`
  unfoldable pub count : Runtime → Server → Result ℤ × Server
  unfolding execute
  count rt s =
      let (result, t) = execute "SELECT count() FROM taxi.trips FINAL" [] s in
      (do rows ← result; first_cell rt rows, t)
