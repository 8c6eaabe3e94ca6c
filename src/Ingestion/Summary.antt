-- ===== src/Ingestion/Summary.antt =====
-- The rates and the dict of the summaries: IngestionSummary of ingestion_service.py, ProcessBatchResult
-- of process_batch.py and ReplayDlqResult of replay_dlq.py. Division and rounding of floats are given.
use nyc_taxi.Base.{
  length, ◌==◌, if◌then◌else◌, ℕ, ◌+◌, pos, String, ◌≡◌, false, Option, none, some, List, arith,
}
use nyc_taxi.Python.{
  Float, finite, Value, null, int, float, str, Datetime, Dict, empty, entry, Runtime, ok, err,
}
use nyc_taxi.Ingestion.{Ports, Run, Step, run}
use nyc_taxi.Ingestion.Balance.{OnOk, IsBalanced, run-IsBalanced}
use nyc_taxi.Replay

-- `part / whole`, and 0.0 of nothing.
unfoldable pub rate : (ℕ → ℕ → Float) → ℕ → ℕ → Float
rate divide part whole = if whole == 0 then finite false 0 (pos 0) else divide part whole

module _ (divide : ℕ → ℕ → Float) where
  -- `IngestionSummary.reject_rate`
  unfoldable pub reject_rate : Run → Float
  unfolding rate
  reject_rate s = rate divide (s.total_invalid + s.total_schema_rejected) s.total_rows

  -- `ProcessBatchResult.reject_rate`, with `total`.
  unfoldable pub batch_reject_rate : ℕ → ℕ → Float
  unfolding rate
  batch_reject_rate valid_count invalid_count =
      rate divide invalid_count (valid_count + invalid_count)

  -- `ReplayDlqResult.recovery_rate`
  unfoldable pub recovery_rate : Replay.State → Float
  unfolding rate
  recovery_rate s = rate divide s.recovered s.total_replayed

  abbrev pub time_or_null : Runtime → Option Datetime → Value
  time_or_null rt none = null
  time_or_null rt (some at) = str (rt.isoformat at)

  -- `IngestionSummary.as_dict`; `complete` sets the time of the end.
  unfoldable pub summary_dict :
      Runtime → (Float → Float) → String → Datetime → Option Datetime → Run → Dict
  unfolding reject_rate
  summary_dict rt round source_file started_at finished_at s =
      entry "source_file" (str source_file) (
        entry "total_batches" (int (pos s.total_batches)) (
          entry "total_rows" (int (pos s.total_rows)) (
            entry "total_valid" (int (pos s.total_valid)) (
              entry "total_invalid" (int (pos s.total_invalid)) (
                entry "total_schema_rejected" (int (pos s.total_schema_rejected)) (
                  entry "reject_rate" (float (round (reject_rate s))) (
                    entry "started_at" (str (rt.isoformat started_at))
                      (entry "finished_at" (time_or_null rt finished_at) empty))))))))

  rate-IsBalanced :
      (s : Run)
      → IsBalanced s
      → reject_rate s ≡ rate divide (length s.sent) (length s.published + length s.sent)
  unfolding reject_rate
  rate-IsBalanced s h =
      let part : s.total_invalid + s.total_schema_rejected ≡ length s.sent = omega arith in
      let whole : s.total_rows ≡ length s.published + length s.sent = omega arith in
      λ i. rate divide (part i) (whole i)

  -- When a run returns, its reject rate is the share of the dead letters in all that was handed on.
  pub reject_rate-run :
      (p : Ports) (batches : List (List Dict))
      → OnOk
          (λ s. reject_rate s ≡ rate divide (length s.sent) (length s.published + length s.sent))
          (run p batches)
  reject_rate-run p batches = returned (run p batches) (run-IsBalanced p batches)
    where
      returned :
          (m : Step)
          → OnOk IsBalanced m
          → OnOk
              (λ s.
                reject_rate s ≡ rate divide (length s.sent) (length s.published + length s.sent))
              m
      returned (ok u, s) h = rate-IsBalanced s h
      returned (err e, s) h = tt
