-- ===== src/Witnesses/RunLaws.antt =====
-- The theorems on validation, dead letters and runs, at concrete batches.
use nyc_taxi.Base.{
  ◌-ℤ◌, ℕ, zero, suc, ◌<◌, ◌⊎◌, inl, inr, String, ◌≡◌, refl, false, List, [], ◌∷◌, arith,
}
use nyc_taxi.Python.{
  Dict, get?, concat, join, error_type, Result, ok, err, Runtime, to_int, error_message,
}
use nyc_taxi.Json.{dumps}
use nyc_taxi.Samples.{
  rt, row, sample_fields, pydantic, null_row, negative_row, ports, dead_letter, outside, no_dlq,
}
use nyc_taxi.Validation.{
  Checked, absent, passed, failed, Pydantic, is_value_error, location_id_positive, check_location,
  dropoff_first, dropoff_after_pickup, validate_raw, validate_batch,
}
use nyc_taxi.Validation.Schema.{int_of_null}
use nyc_taxi.Validation.Sorted.{ReportsFailures, IsSorted, validate_batch-IsSorted}
use nyc_taxi.DeadLetter.{DeadLetterStage}
use nyc_taxi.DeadLetter.Publisher.{rejected_file_path, lines_of, is_kafka_error, send}
use nyc_taxi.DeadLetter.Publisher.Delivery.{send_lem}
use nyc_taxi.Ingestion.{run}
use nyc_taxi.Ingestion.Balance.{OnOk, IsBalanced, run-IsBalanced}
use nyc_taxi.Ingestion.Shutdown.{undisturbed, run-shutdown, run-null_location}

abbrev batch : List Dict
batch = row ∷ negative_row ∷ []

abbrev judged : List Dict × List (Dict × String)
judged = (row ∷ [], (negative_row, "location_id must be positive, got 0") ∷ [])

-- `validate_batch` with all that it calls.
run_schema : Runtime → Pydantic → List Dict → Result (List Dict × List (Dict × String))
unfolding validate_batch validate_raw check_location location_id_positive is_value_error
    dropoff_after_pickup dropoff_first get? to_int error_message concat join ◌-ℤ◌
run_schema = validate_batch

pydantic-ReportsFailures : ReportsFailures pydantic
pydantic-ReportsFailures row pickup dropoff m bad = reported pickup dropoff bad
  where
    reported :
        (a b : Checked)
        → (a ≡ failed m) ⊎ (b ≡ failed m)
        → (errors : List String) × (sample_fields row a b ≡ inl errors)
    reported (failed n) b h = (n ∷ [], refl)
    reported absent (failed n) h = (n ∷ [], refl)
    reported (passed i) (failed n) h = (n ∷ [], refl)
    reported absent absent (inl h) = absurd (cc (h))
    reported absent absent (inr h) = absurd (cc (h))
    reported absent (passed j) (inl h) = absurd (cc (h))
    reported absent (passed j) (inr h) = absurd (cc (h))
    reported (passed i) absent (inl h) = absurd (cc (h))
    reported (passed i) absent (inr h) = absurd (cc (h))
    reported (passed i) (passed j) (inl h) = absurd (cc (h))
    reported (passed i) (passed j) (inr h) = absurd (cc (h))

validate_batch-IsSorted_example : IsSorted rt pydantic batch judged
unfolding run_schema
validate_batch-IsSorted_example =
    validate_batch-IsSorted rt pydantic pydantic-ReportsFailures batch judged refl

-- The broker refuses the record, and the disk takes it.
send_lem_example :
    ((send rt outside dead_letter no_dlq).0 ≡ ok tt)
    × ((send rt outside dead_letter no_dlq).1.enqueued ≡ [])
    × (lines_of (rejected_file_path "batch") (send rt outside dead_letter no_dlq).1.files
        ≡ "line" ∷ [])
    × ((send rt outside dead_letter no_dlq).1.counted ≡ DeadLetterStage.validation ∷ [])
unfolding lines_of is_kafka_error error_type dumps
send_lem_example = send_lem rt outside dead_letter no_dlq "line" refl refl

run-IsBalanced_example : OnOk IsBalanced (run (ports 5) (batch ∷ []))
run-IsBalanced_example = run-IsBalanced (ports 5) (batch ∷ [])

below_one : (j : ℕ) → j < 1 → (ports 1).shutdown j ≡ false
below_one zero h = refl
below_one (suc j) h = absurd (omega arith)

run-shutdown_example : run (ports 1) (batch ∷ batch ∷ []) ≡ run (undisturbed (ports 1)) (batch ∷ [])
run-shutdown_example = run-shutdown (ports 1) 1 (batch ∷ batch ∷ []) below_one refl

run-null_location_example :
    let ended = run (ports 5) ((row ∷ null_row ∷ []) ∷ batch ∷ []) in
    (ended.0 ≡ err int_of_null) × (ended.1.published ≡ []) × (ended.1.sent ≡ [])
unfolding run_schema
run-null_location_example =
    run-null_location (ports 5) (row ∷ []) null_row [] (batch ∷ []) (row ∷ [], []) refl refl refl
