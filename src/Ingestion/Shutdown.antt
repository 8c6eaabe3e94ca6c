-- ===== src/Ingestion/Shutdown.antt =====
-- What a shutdown request, and a row that the schema check cannot handle, do to a run.
use nyc_taxi.Base.{
  zero, suc, take, ℕ, zero, suc, ◌+◌, ◌<◌, String, ◌≡◌, refl, true, false, some, List, [], ◌∷◌,
  ◌++◌, arith,
}
use nyc_taxi.Python.{null, Dict, get?, ok, err}
use nyc_taxi.Validation.{validate_batch}
use nyc_taxi.Validation.Schema.{int_of_null, validate_batch-null_location}
use nyc_taxi.Ingestion.{
  Ports, Run, fresh_run, Step, and_then, schema_record, publish_trips, reject_events, handle_batch,
  ingest_batch, run_from, run,
}

-- The same run with a flag that is never set.
abbrev pub undisturbed : Ports → Ports
undisturbed p = record p { shutdown = λ n. false }

module _ (p : Ports) where
  ingest_batch-undisturbed :
      (i : ℕ) (rows : List Dict) (s : Run)
      → ingest_batch (undisturbed p) i rows s ≡ ingest_batch p i rows s
  unfolding ingest_batch handle_batch publish_trips reject_events schema_record
  ingest_batch-undisturbed i rows s = refl

  and_then-cong :
      (m : Step) (f g : Run → Step) → ((s : Run) → f s ≡ g s) → and_then m f ≡ and_then m g
  and_then-cong (ok u, s) f g h = h s
  and_then-cong (err e, s) f g h = refl

  run_from-shutdown :
      (i k : ℕ) (batches : List (List Dict)) (s : Run)
      → ((j : ℕ) → j < k → p.shutdown (i + j) ≡ false)
      → p.shutdown (i + k) ≡ true
      → run_from p i batches s ≡ run_from (undisturbed p) i (take k batches) s
  unfolding run_from
  run_from-shutdown i zero [] s clear stop = refl
  run_from-shutdown i (suc k) [] s clear stop = refl
  run_from-shutdown i zero (rows ∷ batches) s clear stop =
      let here : i + 0 ≡ i = omega arith in rw (rw here at stop, run_from)
  run_from-shutdown i (suc k) (rows ∷ batches) s clear stop =
      let here : i + 0 ≡ i = omega arith in
      let next : i + suc k ≡ i + 1 + k = omega arith in
      rw (rw here at (clear 0 (omega arith)), run_from, ingest_batch-undisturbed i rows s)
        (and_then-cong (ingest_batch p i rows s) _ _ λ t.
          run_from-shutdown (i + 1) k batches t
            (λ j below.
              let moved : i + 1 + j ≡ i + suc j = omega arith in
              rw moved (clear (suc j) (omega arith)))
            (rw next at stop))

  -- When the flag is first seen at the k-th look, the run is, summary and effects alike, the
  -- undisturbed run over the first k batches: the batch in hand is finished and no later one begun.
  pub run-shutdown :
      (k : ℕ) (batches : List (List Dict))
      → ((j : ℕ) → j < k → p.shutdown j ≡ false)
      → p.shutdown k ≡ true
      → run p batches ≡ run (undisturbed p) (take k batches)
  unfolding run
  run-shutdown k batches clear stop =
      let zero_first : (j : ℕ) → 0 + j ≡ j = λ j. omega arith in
      rw (
        run_from-shutdown 0 k batches fresh_run (λ j below. rw (zero_first j) (clear j below))
          (rw (zero_first k) stop))

  -- A row with a null pickup location, behind rows that the schema check handles, ends the whole run
  -- with TypeError in the first batch: nothing is published and nothing is dead-lettered.
  pub run-null_location :
      (before : List Dict) (row : Dict) (rest : List Dict) (batches : List (List Dict))
      (r : List Dict × List (Dict × String))
      → p.shutdown 0 ≡ false
      → validate_batch p.runtime p.pydantic before ≡ ok r
      → get? "pickup_location_id" row ≡ some null
      → let ended = run p ((before ++ row ∷ rest) ∷ batches) in
        (ended.0 ≡ err int_of_null) × (ended.1.published ≡ []) × (ended.1.sent ≡ [])
  unfolding run ingest_batch run_from
  run-null_location before row rest batches r go valid null_there =
      let raised =
        validate_batch-null_location p.runtime p.pydantic before row rest r valid null_there in
      rw (go, run_from, raised) (refl, refl, refl)
