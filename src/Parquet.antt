-- ===== src/Parquet.antt =====
-- etl/infrastructure/storage/parquet_reader.py. The file as pyarrow gives it is a parameter.
pub mod Names
pub mod Rows
use nyc_taxi.Base.{
  ◌==◌, if◌then◌else◌, get_elem?, ℕ, zero, suc, String, Bool, false, ◌||◌, not, Option, none, some,
  List, [], ◌∷◌, str_eq,
}
use nyc_taxi.Python.{
  Value, Dict, empty, entry, set, concat, Error, value_error, other, Result, ok, err, raise_if,
  or_raise, ◌>>=◌, ◌>>◌,
}

-- A path, and whether there is a file at it.
pub record FilePath : Type 0 where
  pub text : String
  pub name : String
  pub suffix : String
  pub exists : Bool

-- What `get_settings` holds for the reader.
pub record EtlSettings : Type 0 where
  pub parquet_file_path : FilePath
  pub parquet_batch_size : ℕ

pub record ParquetReader : Type 0 where
  pub path : FilePath
  pub batch_size : ℕ
  pub source_file : String

-- A record batch, as `to_pydict` gives it.
pub record RecordBatch : Type 0 where
  pub columnar : List (String × List Value)
  pub num_rows : ℕ

-- An open Parquet file: the names in its schema, and what `iter_batches` yields for a size and some
-- columns until it ends or raises.
pub record ParquetFile : Type 0 where
  pub names : List String
  pub batches : ℕ → List String → List RecordBatch × Option Error

-- `REQUIRED_COLUMNS`
abbrev pub required_columns : List String
required_columns =
    "VendorID" ∷ "tpep_pickup_datetime" ∷ "tpep_dropoff_datetime" ∷ "passenger_count"
    ∷ "trip_distance" ∷ "RatecodeID" ∷ "store_and_fwd_flag" ∷ "PULocationID" ∷ "DOLocationID"
    ∷ "payment_type" ∷ "fare_amount" ∷ "extra" ∷ "mta_tax" ∷ "tip_amount" ∷ "tolls_amount"
    ∷ "improvement_surcharge" ∷ "congestion_surcharge" ∷ "airport_fee" ∷ "total_amount" ∷ []

-- `COLUMN_RENAME_MAP`
abbrev pub column_rename_map : List (String × String)
column_rename_map =
    ("VendorID", "vendor_id")
    ∷ ("tpep_pickup_datetime", "pickup_datetime")
    ∷ ("tpep_dropoff_datetime", "dropoff_datetime")
    ∷ ("RatecodeID", "rate_code_id")
    ∷ ("PULocationID", "pickup_location_id")
    ∷ ("DOLocationID", "dropoff_location_id")
    ∷ []

abbrev pub lookup_name : String → List (String × String) → String
lookup_name k [] = k
lookup_name k ((from, to) ∷ names) = if str_eq from k then to else lookup_name k names

-- `COLUMN_RENAME_MAP.get(k, k)`
unfoldable pub new_name : String → String
new_name k = lookup_name k column_rename_map

-- `_validate_path`
unfoldable pub validate_path : FilePath → Result (Unit {0})
validate_path path = do
  raise_if (not path.exists)
      (other "FileNotFoundError" (concat ("Parquet file not found: " ∷ path.text ∷ [])))
  raise_if (not (str_eq path.suffix ".parquet"))
      (value_error (concat ("Expected .parquet file, got: " ∷ path.suffix ∷ [])))

abbrev or_else {ℓ} : {A : Type ℓ} → Option A → A → A
or_else none a = a
or_else (some b) a = b

-- `ParquetReader.__init__`: a size of 0 and an empty name count as not given.
unfoldable pub new_reader :
    EtlSettings → Option FilePath → Option ℕ → Option String → Result ParquetReader
unfolding validate_path
new_reader settings path batch_size source_file =
    let chosen = or_else path settings.parquet_file_path in
    let size = or_else batch_size 0 in
    let name = or_else source_file "" in
    do
      validate_path chosen
      ok (record {
        path = chosen;
        batch_size = if size == 0 then settings.parquet_batch_size else size;
        source_file = if str_eq name "" then chosen.name else name;
      })

abbrev pub contains : String → List String → Bool
contains name [] = false
contains name (n ∷ names) = str_eq n name || contains name names

-- The loop of `_available_columns`.
unfoldable pub available_among : List String → List String → List String
available_among names [] = []
available_among names (col ∷ cols) =
    if contains col names then col ∷ available_among names cols else available_among names cols

-- `_available_columns`
unfoldable pub available_columns : List String → List String
unfolding available_among
available_columns names = available_among names required_columns

-- `{col: columnar[col][i] for col in columnar}`, onto the entries made so far.
unfoldable pub row_at : ℕ → List (String × List Value) → Dict → Result Dict
unfolding set
row_at i [] made = ok made
row_at i ((col, vs) ∷ columnar) made = do
  v ← or_raise (other "IndexError" "list index out of range") (get_elem? vs i)
  row_at i columnar (set col v made)

unfoldable pub rename_onto : Dict → Dict → Dict
unfolding set new_name
rename_onto empty made = made
rename_onto (entry k v row) made = rename_onto row (set (new_name k) v made)

-- `_rename_columns`
unfoldable pub rename_columns : Dict → Dict
unfolding rename_onto
rename_columns row = rename_onto row empty

-- The loop of `_batch_to_dicts`: so many rows from the `i`-th on.
unfoldable pub rows_from : ℕ → ℕ → List (String × List Value) → Result (List Dict)
unfolding row_at rename_columns
rows_from zero i columnar = ok []
rows_from (suc n) i columnar = do
  row ← row_at i columnar empty
  rest ← rows_from n (suc i) columnar
  ok (rename_columns row ∷ rest)

-- `_batch_to_dicts`
unfoldable pub batch_to_dicts : RecordBatch → Result (List Dict)
unfolding rows_from
batch_to_dicts batch = rows_from batch.num_rows 0 batch.columnar

-- What a generator yielded, and what it raised in the end.
abbrev pub Yielded : Type 0
Yielded = List (List Dict) × Option Error

-- The loop of `iter_batches`.
unfoldable pub read_batches : List RecordBatch → Option Error → Yielded
unfolding batch_to_dicts
read_batches [] end = ([], end)
read_batches (batch ∷ batches) end =
    let rest = read_batches batches end in
    elim (batch_to_dicts batch) [ ok rows ↦ (rows ∷ rest.0, rest.1) | err e ↦ ([], some e) ]

-- `iter_batches`; opening the file may raise.
unfoldable pub iter_batches : ParquetReader → Result ParquetFile → Yielded
unfolding read_batches available_columns
iter_batches reader (err e) = ([], some e)
iter_batches reader (ok file) =
    let (batches, end) = file.batches reader.batch_size (available_columns file.names) in
    read_batches batches end
