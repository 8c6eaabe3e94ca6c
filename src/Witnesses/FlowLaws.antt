-- ===== src/Witnesses/FlowLaws.antt =====
-- Reading files and inserting at concrete inputs.
use mathlib.Core.List.{}
use nyc_taxi.Base.{
  arith, ◌==◌, if◌then◌else◌, pos, ◌-ℤ◌, ℕ, ◌≤◌, ◌≡◌, refl, true, false, none, some, [], ◌∷◌, map,
  arith,
}
use nyc_taxi.Python.{
  concat, Value, null, int, Dict, empty, entry, get_or, decimal_negative, instant, other, ok, err,
}
use nyc_taxi.Json.{}
use nyc_taxi.Samples.{ten, later, rt, context, trip}
use nyc_taxi.Samples.Document.{}
use nyc_taxi.Trip.Model.{Trip, to_dict}
use nyc_taxi.Trip.Validator.Rules.{ObeysRules}
use nyc_taxi.Timestamp.{assume_utc, parse_present, parse_timestamp}
use nyc_taxi.ClickHouse.Rows.{Fits, FitsSchema, ReadsIso, coerced_row-FitsSchema}
use nyc_taxi.ClickHouse.Batch.{IsStorable, SavesAll, save_batch-SavesAll}
use nyc_taxi.ClickHouse.{
  save_batch, save_batch_from_dicts, uint, ArrowType, coerce_row, Driver, Server,
}
use nyc_taxi.Parquet.{
  EtlSettings, new_reader, validate_path, ParquetReader, RecordBatch, ParquetFile, new_name,
  available_among, available_columns, iter_batches,
}
use nyc_taxi.Parquet.Rows.{iter_batches-transposed}
use nyc_taxi.Producer.{}
use nyc_taxi.Producer.Queue.{}
use nyc_taxi.Producer.Queue.Drained.{}
use nyc_taxi.Pipeline.{}
use nyc_taxi.Pipeline.Delivered.{}
use nyc_taxi.Retry.{}
use nyc_taxi.Consumer.{}
use nyc_taxi.Pipeline.Arrival.{}

-- A trip whose datetimes the sample runtime reads back.
abbrev pub written_trip : Trip
written_trip = record trip { ingested_at = ten }

iso_read : ReadsIso rt ten
unfolding parse_timestamp parse_present assume_utc
iso_read = refl

later_read : ReadsIso rt later
unfolding parse_timestamp parse_present assume_utc
later_read = refl

written_trip-ObeysRules : ObeysRules (context.clock.now 0) written_trip
unfolding ◌-ℤ◌ decimal_negative instant
written_trip-ObeysRules = record {
  positive_duration = omega arith;
  below_a_day = omega arith;
  some_passenger = omega arith;
  at_most_nine = omega arith;
  since_2009 = omega arith;
  not_in_future = omega arith;
  no_negative_money = (refl, (refl, (refl, (refl, (refl, (refl, (refl, (refl, (refl, tt)))))))));
}

coerced_row-FitsSchema_example :
    (coerced : Dict) × (coerce_row rt (to_dict rt written_trip) ≡ ok coerced) × FitsSchema coerced
coerced_row-FitsSchema_example =
    coerced_row-FitsSchema rt (context.clock.now 0) written_trip 132 1 iso_read later_read iso_read
      written_trip-ObeysRules refl (omega arith) refl (omega arith)

-- A server that executes the first call and does not answer it, and pyarrow on rows of the schema.
abbrev pub driver : Driver
driver = record {
  from_pylist =
      λ schema rows. ok (map (λ f. (f.0, map (λ coerced. get_or f.0 null coerced) rows)) schema);
  answer = λ n. if n == 0 then err (other "NetworkError" "refused") else ok [];
  lands = λ n. true;
  is_clickhouse_error = λ e. true;
  times = λ a b. a;
}

abbrev no_rows : Server
no_rows = record { executed = []; calls = 0; sleeps = [] }

abbrev pub as_it_is : ArrowType → Value → Value
as_it_is t v = v

pub written_trip-IsStorable : IsStorable rt written_trip
written_trip-IsStorable = record {
  now = context.clock.now 0;
  rules = written_trip-ObeysRules;
  pickup_reads = iso_read;
  dropoff_reads = later_read;
  ingested_reads = iso_read;
  pickup = 132;
  is_pickup = refl;
  below_pickup = omega arith;
  dropoff = 1;
  is_dropoff = refl;
  below_dropoff = omega arith;
}

save_batch-SavesAll_example :
    SavesAll rt driver as_it_is
      (λ rows fit. refl)
      (written_trip ∷ [])
      no_rows
      (save_batch driver rt (written_trip ∷ []) no_rows)
    × SavesAll rt driver as_it_is
        (λ rows fit. refl)
        (written_trip ∷ [])
        no_rows
        (save_batch_from_dicts driver rt (to_dict rt written_trip ∷ []) no_rows)
save_batch-SavesAll_example =
    save_batch-SavesAll rt driver as_it_is (λ rows fit. refl) written_trip [] no_rows
      (written_trip-IsStorable, tt)

-- A file with two of the columns, in batches of two rows.
abbrev two_rows : RecordBatch
two_rows = record {
  columnar = ("VendorID", int (pos 1) ∷ int (pos 2) ∷ []) ∷ ("extra", null ∷ null ∷ []) ∷ [];
  num_rows = 2;
}

abbrev parquet_file : ParquetFile
parquet_file = record {
  names = "extra" ∷ "VendorID" ∷ "comment" ∷ [];
  batches = λ size columns. (two_rows ∷ [], none);
}

abbrev reader : ParquetReader
reader = record {
  path = record {
    text = "trips.parquet";
    name = "trips.parquet";
    suffix = ".parquet";
    exists = true;
  };
  batch_size = 2;
  source_file = "trips.parquet";
}

abbrev row_of_vendor : ℕ → Dict
row_of_vendor id = entry "vendor_id" (int (pos id)) (entry "extra" null empty)

iter_batches-transposed_example :
    (iter_batches reader (ok parquet_file) ≡ ((row_of_vendor 1 ∷ row_of_vendor 2 ∷ []) ∷ [], none))
    × ((2 ≤ 2) × Unit {0})
unfolding available_columns available_among new_name
iter_batches-transposed_example =
    iter_batches-transposed reader parquet_file ((refl, (refl, (refl, tt)), omega arith), tt)

-- A size of 0 counts as not given, and a path at which there is no file is refused.
abbrev settings : EtlSettings
settings = record { parquet_file_path = reader.path; parquet_batch_size = 1000 }

default_size : new_reader settings none (some 0) none ≡ ok (record reader { batch_size = 1000 })
unfolding new_reader validate_path
default_size = refl

no_file :
    new_reader settings (some (record reader.path { exists = false })) none none
    ≡ err (other "FileNotFoundError" "Parquet file not found: trips.parquet")
unfolding new_reader validate_path concat
no_file = refl

-- The first location id that the table cannot hold.
wide_location : ¬ Fits (uint 16) (int (pos 65_536))
wide_location h = omega (arith, h)
