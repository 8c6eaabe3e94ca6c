-- ===== src/Witnesses/FileLaws.antt =====
-- A producer process on a file of two rows, of which the schema accepts neither.
use nyc_taxi.Base.{ℕ, pos, String, refl, true, Option, none, List, [], ◌∷◌, arith}
use nyc_taxi.Python.{int, Error, ok, set, get?, to_int, error_message, concat, join}
use nyc_taxi.Samples.{rt, ports}
use nyc_taxi.Lifecycle.{Action, Calls, producer_main, startup, attempt, attempt_if}
use nyc_taxi.Parquet.{
  EtlSettings, RecordBatch, ParquetFile, available_among, available_columns, new_reader,
  validate_path, iter_batches, read_batches, batch_to_dicts, rows_from, row_at, rename_columns,
  rename_onto, new_name,
}
use nyc_taxi.Topics.{default_topics, ensure_topics_exist, absent, new_topic, await_futures}
use nyc_taxi.Trip.Deduplicator.{deduplicate}
use nyc_taxi.Trip.Service.{process_batch}
use nyc_taxi.Ingestion.{Run, ingest_batch, handle_batch, publish_trips, reject_events, dead_letters}
use nyc_taxi.Validation.{
  validate_batch, validate_raw, check_location, location_id_positive, is_value_error,
}
use nyc_taxi.Topics.Laws.{AllExist}
use nyc_taxi.Ingestion.Shutdown.{undisturbed}
use nyc_taxi.Pipeline.Process.{main, produce, run_reader, read_from}
use nyc_taxi.Pipeline.Process.Reading.{HandsOn}
use nyc_taxi.Pipeline.Process.Complete.{main-HandsOn}
use nyc_taxi.Witnesses.ProcessLaws.{racing, racing-IsAdmin}

abbrev settings : EtlSettings
settings = record {
  parquet_file_path = record {
    text = "trips.parquet";
    name = "trips.parquet";
    suffix = ".parquet";
    exists = true;
  };
  parquet_batch_size = 1;
}

-- A location of 0, which does not exist.
abbrev one_row : RecordBatch
one_row = record { columnar = ("PULocationID", int (pos 0) ∷ []) ∷ []; num_rows = 1 }

abbrev file : ParquetFile
file = record {
  names = "PULocationID" ∷ [];
  batches = λ size columns. (one_row ∷ one_row ∷ [], none);
}

abbrev nothing_raised : Action → Option Error
nothing_raised a = none

abbrev produced : (ℕ × Calls) × (Run × List String)
produced =
    main (undisturbed (ports 1)) settings (ok file) none racing nothing_raised
      ("nyc-taxi-trips" ∷ [])

main-HandsOn_example :
    AllExist rt racing (λ b. b) racing-IsAdmin default_topics produced.1.1
    × HandsOn (2, none) produced.1.0
unfolding available_columns available_among main produce ensure_topics_exist absent new_topic
    await_futures new_reader validate_path iter_batches read_batches batch_to_dicts rows_from row_at
    rename_columns rename_onto new_name set run_reader read_from ingest_batch handle_batch
    process_batch publish_trips reject_events dead_letters producer_main startup attempt attempt_if
    validate_batch validate_raw check_location location_id_positive is_value_error get? to_int
    error_message concat join deduplicate
main-HandsOn_example =
    main-HandsOn nothing_raised (undisturbed (ports 1)) settings file none (λ n. refl) racing
      (λ b. b) racing-IsAdmin ("nyc-taxi-trips" ∷ [])
      ((refl, (refl, tt), omega arith), ((refl, (refl, tt), omega arith), tt)) refl
