-- ===== src/Pipeline/Process.antt =====
-- `main` of etl/entrypoints/producer.py with what it calls: the topics, the reader, the ingestion
-- service, and the start and stop around them.
pub mod Complete
pub mod Reading
use nyc_taxi.Base.{ℕ, ◌+◌, true, false, Option, none, some, List, [], ◌∷◌}
use nyc_taxi.Python.{Dict, Error, Result, ok, err}
use nyc_taxi.Topics.{AdminClient, ensure_topics_exist}
use nyc_taxi.Parquet.{EtlSettings, ParquetReader, ParquetFile, new_reader, Yielded, iter_batches}
use nyc_taxi.Ingestion.{Ports, Run, fresh_run, Step, and_then, ingest_batch, flushed}
use nyc_taxi.Lifecycle.{
  Action, Calls, Ending, AppComponents, completed, failed, startup, producer_main,
}

-- What a reader without more batches raises, if anything.
abbrev exhausted : Option Error → Run → Step
exhausted none s = (ok tt, s)
exhausted (some e) s = (err e, s)

module _ (p : Ports) where
  -- The loop of `IngestionService.run` over what a reader yields. The flag is looked at when a batch
  -- has come.
  unfoldable pub read_from : ℕ → List (List Dict) → Option Error → Run → Step
  read_from i [] end s = exhausted end s
  read_from i (rows ∷ batches) end s = elim (p.shutdown i) [
    | true ↦ (ok tt, s)
    | false ↦ and_then (ingest_batch p i rows s) (read_from (i + 1) batches end)
  ]

  -- `IngestionService.run`
  unfoldable pub run_reader : Yielded → Step
  unfolding read_from
  run_reader (batches, end) = flushed p (read_from 0 batches end fresh_run)

abbrev pub ended_by : Result (Unit {0}) → Ending
ended_by (ok u) = completed
ended_by (err e) = failed e

-- The settings of the reader, what opening the file gives, and what the making of the dead letter
-- service raises, if anything: it makes a directory and a client.
module _ (p : Ports) (settings : EtlSettings) (opened : Result ParquetFile)
    (unmade : Option Error) where
  abbrev pub run_on : Result ParquetReader → Ending × Run
  run_on (err e) = (failed e, fresh_run)
  run_on (ok reader) =
      let (r, s) =
        run_reader (record p { source_file = reader.source_file }) (iter_batches reader opened) in
      (ended_by r, s)

  abbrev pub with_service : Option Error → Ending × Run
  with_service (some e) = (failed e, fresh_run)
  with_service none = run_on (
      new_reader settings (some settings.parquet_file_path) (some settings.parquet_batch_size) none)

  abbrev pub with_topics : Result (Unit {0}) → Ending × Run
  with_topics (err e) = (failed e, fresh_run)
  with_topics (ok u) = with_service unmade

  module _ {ℓ} {Broker : Type ℓ} (admin : AdminClient Broker) where
    -- The `try` of `main` behind `startup`.
    unfoldable pub produce : Broker → (Ending × Run) × Broker
    unfolding run_reader
    produce b =
        let (made, after) = ensure_topics_exist p.runtime admin [] b in (with_topics made, after)

    -- What there is when `startup` raised.
    abbrev pub if_started : Result AppComponents → Broker → Run × Broker
    if_started (ok c) b = let (work, after) = produce b in (work.1, after)
    if_started (err e) b = (fresh_run, b)

    -- `main`: its exit code and calls, and what the ingestion and the broker have come to.
    unfoldable pub main : (Action → Option Error) → Broker → (ℕ × Calls) × (Run × Broker)
    unfolding produce
    main raises b =
        (producer_main raises (produce b).0.0, if_started (startup raises "producer" []).0 b)
