-- ===== src/Pipeline/Process/Complete.antt =====
-- A producer process that exits with 0 has handed on the whole file.
use nyc_taxi.Base.{
  ◌==◌, if◌then◌else◌, String, Bool, true, All, ℕ, ◌+◌, ◌≡◌, refl, sym, ap, ◌∙◌, subst, false,
  Option, none, some, List, [], ◌∷◌, map, arith,
}
use nyc_taxi.Python.{Error, Result, ok, err, >>=-elim, ok-injective}
use nyc_taxi.Trip.Model.{}
use nyc_taxi.Trip.Events.{}
use nyc_taxi.Trip.Service.{}
use nyc_taxi.Validation.{}
use nyc_taxi.DeadLetter.{}
use nyc_taxi.Ingestion.{Ports, Run, Step}
use nyc_taxi.Ingestion.Balance.{OnOk}
use nyc_taxi.Parquet.{
  EtlSettings, FilePath, ParquetReader, ParquetFile, RecordBatch, available_columns, validate_path,
  new_reader, iter_batches,
}
use nyc_taxi.Parquet.Rows.{
  IsAsAsked, transposed_rows, length-transposed_rows, iter_batches-transposed,
}
use nyc_taxi.Topics.{default_topics, AdminClient, ensure_topics_exist}
use nyc_taxi.Topics.Laws.{IsAdmin, AllExist, ensure_topics_exist-Made}
use nyc_taxi.Lifecycle.{Action, Started, exit_code}
use nyc_taxi.Lifecycle.Release.{IsEnd, main-IsEnd}
use nyc_taxi.Pipeline.Process.{
  run_reader, ended_by, run_on, with_service, with_topics, produce, if_started, main,
}
use nyc_taxi.Pipeline.Process.Reading.{total_length, HandsOn, run_reader-HandsOn}

abbrev pub rows_in : List RecordBatch → ℕ
rows_in [] = 0
rows_in (b ∷ batches) = b.num_rows + rows_in batches

rows_in-transposed :
    (batches : List RecordBatch)
    → total_length (map (λ b. transposed_rows b.num_rows 0 b.columnar) batches) ≡ rows_in batches
rows_in-transposed [] = refl
rows_in-transposed (b ∷ batches) =
    omega (arith, length-transposed_rows b.num_rows 0 b.columnar, rows_in-transposed batches)

same_branches : (b : Bool) (n : ℕ) → (if b then n else n) ≡ n
same_branches true n = refl
same_branches false n = refl

-- The size of the settings is the size of the reader, 0 or not.
new_reader-size :
    (settings : EtlSettings) (path : FilePath) (reader : ParquetReader)
    → new_reader settings (some path) (some settings.parquet_batch_size) none ≡ ok reader
    → reader.batch_size ≡ settings.parquet_batch_size
unfolding new_reader
new_reader-size settings path reader h = >>=-elim (validate_path path) _ h λ u _ made.
    ap (λ r. r.batch_size) (sym (ok-injective made))
    ∙ same_branches (settings.parquet_batch_size == 0) settings.parquet_batch_size

module _ (raises : Action → Option Error) (p : Ports) (settings : EtlSettings) (file : ParquetFile)
    (unmade : Option Error) (clear : (n : ℕ) → p.shutdown n ≡ false) where
  abbrev pub batches_of : ℕ → List RecordBatch × Option Error
  batches_of size = file.batches size (available_columns file.names)

  -- The rows of the file, and what pyarrow raises behind them.
  abbrev pub total_of : ℕ → ℕ × Option Error
  total_of size = (rows_in (batches_of size).0, (batches_of size).1)

  abbrev pub Documented : ℕ → Type 0
  Documented size = All (IsAsAsked size (available_columns file.names)) (batches_of size).0

  abbrev pub HandsOnFile : Run → Type 0
  HandsOnFile s = HandsOn (total_of settings.parquet_batch_size) s

  ended-HandsOn :
      (n : ℕ × Option Error) (m : Step)
      → OnOk (HandsOn n) m
      → exit_code raises (ended_by m.0) ≡ 0
      → HandsOn n m.1
  ended-HandsOn n (ok u, s) h left = h
  ended-HandsOn n (err e, s) h left = absurd (cc)

  run_on-HandsOn :
      (r : Result ParquetReader)
      → ((reader : ParquetReader) → r ≡ ok reader → reader.batch_size ≡ settings.parquet_batch_size)
      → Documented settings.parquet_batch_size
      → exit_code raises (run_on p settings (ok file) unmade r).0 ≡ 0
      → HandsOnFile (run_on p settings (ok file) unmade r).1
  run_on-HandsOn (err e) sized documented left = absurd (cc)
  run_on-HandsOn (ok reader) sized documented left =
      let size = sized reader refl in
      let read = iter_batches-transposed reader file (subst Documented (sym size) documented) in
      let p_named : Ports = record p { source_file = reader.source_file } in
      let counted : (
        total_length (iter_batches reader (ok file)).0,
        (iter_batches reader (ok file)).1,
      )
          ≡ total_of settings.parquet_batch_size =
        ap (λ y. (total_length y.0, y.1)) read.0
        ∙ ap (λ n. (n, (batches_of reader.batch_size).1))
            (rows_in-transposed (batches_of reader.batch_size).0)
        ∙ ap total_of size in
      subst (λ n. HandsOn n (run_reader p_named (iter_batches reader (ok file))).1) counted
        (ended-HandsOn _ _ (run_reader-HandsOn p_named (iter_batches reader (ok file)) clear) left)

  with_service-HandsOn :
      (o : Option Error)
      → Documented settings.parquet_batch_size
      → exit_code raises (with_service p settings (ok file) unmade o).0 ≡ 0
      → HandsOnFile (with_service p settings (ok file) unmade o).1
  with_service-HandsOn (some e) documented left = absurd (cc)
  with_service-HandsOn none documented left =
      run_on-HandsOn _ (new_reader-size settings settings.parquet_file_path) documented left

  module _ {ℓ} {Broker : Type ℓ} (admin : AdminClient Broker) (names : Broker → List String)
      (broker : IsAdmin admin names) where
    with_topics-HandsOn :
        (b after : Broker) (made : Result (Unit {0}))
        → ensure_topics_exist p.runtime admin [] b ≡ (made, after)
        → Documented settings.parquet_batch_size
        → exit_code raises (with_topics p settings (ok file) unmade made).0 ≡ 0
        → AllExist p.runtime admin names broker default_topics after
          × HandsOnFile (with_topics p settings (ok file) unmade made).1
    with_topics-HandsOn b after (err e) done documented left = absurd (cc)
    with_topics-HandsOn b after (ok u) done documented left = (
      ensure_topics_exist-Made p.runtime admin names broker [] b after done,
      with_service-HandsOn unmade documented left,
    )

    started-HandsOn :
        (b : Broker) (last : _) (started : Started) (end : _)
        → IsEnd raises last (produce p settings (ok file) unmade admin b).0.0 started end
        → end.0 ≡ 0
        → Documented settings.parquet_batch_size
        → let (run, after) = if_started p settings (ok file) unmade admin started.0 b in
          AllExist p.runtime admin names broker default_topics after × HandsOnFile run
    unfolding produce
    started-HandsOn b last (err e, calls) end h left documented = absurd (cc)
    started-HandsOn b last (ok c, calls) end h left documented =
        with_topics-HandsOn b _ _ refl documented (sym h.0 ∙ left)

    -- When a producer process that is not told to stop exits with 0, and pyarrow yields batches as it
    -- documents, then pyarrow raised nothing, the two default topics are on the broker, and the trips
    -- handed to the publisher, by calls that returned, and the records handed to the dead letter
    -- service are together as many as the rows of the file.
    pub main-HandsOn :
        (b : Broker)
        → Documented settings.parquet_batch_size
        → (main p settings (ok file) unmade admin raises b).0.0 ≡ 0
        → let (run, after) = (main p settings (ok file) unmade admin raises b).1 in
          AllExist p.runtime admin names broker default_topics after × HandsOnFile run
    unfolding main
    main-HandsOn b documented left =
        started-HandsOn b _ _ _
          (main-IsEnd raises (produce p settings (ok file) unmade admin b).0.0 false).0 left
          documented
