-- ===== src/Replay.antt =====
-- etl/application/ingestion/replay_dlq.py: dead letters on disk go through the pipeline again.
-- `iter_jsonl_gz` (etl/utils/compression.py) is lazy: a line is read when it is asked for, from what
-- the file holds by then. Each call of `write_jsonl_gz` adds a gzip member of its own.
pub mod Endless
pub mod Recovery
pub mod Record
pub mod Run
use nyc_taxi.Base.{
  str_eq, zero, suc, get_elem?, ℤ, pos, ◌+ℤ◌, ℕ, zero, suc, ◌+◌, String, Bool, true, false, Option,
  none, some, List, [], ◌∷◌, ◌++◌, map,
}
use nyc_taxi.Python.{
  Datetime, Value, null, int, str, dict, Dict, empty, get_or, concat, Error, value_error,
  error_type, Result, ok, err, ◌>>=◌, ◌>>◌, Runtime, to_int, error_message,
}
use nyc_taxi.Json.{loads}
use nyc_taxi.Trip.Model.{Zone, Trip, to_dict}
use nyc_taxi.Trip.Events.{InvalidTripDetected}
use nyc_taxi.Trip.Service.{Clock, Context, process_batch}
use nyc_taxi.DeadLetter.{DeadLetterStage, DeadLetterRecord, stage_of_value, processing_value}
use nyc_taxi.DeadLetter.Publisher.{Outside, Dlq, lines_of, send}

-- The collaborators: the n-th replayed record has its own id, times and answer of the broker.
pub record Ports : Type 0 where
  pub runtime : Runtime
  pub get_by_id : ℤ → Result Zone
  pub replay_batch_id : ℕ → String
  pub clock : ℕ → Clock
  pub failed_at : ℕ → Datetime
  pub publish : ℕ → Option Error
  pub outside : Outside
  -- line.strip()
  pub strip : String → String

-- `ReplayDlqResult`, with what was published and the dead letter publisher's state.
pub record State : Type 0 where
  pub total_replayed : ℕ
  pub recovered : ℕ
  pub still_invalid : ℕ
  pub published : List Dict
  pub dlq : Dlq

abbrev pub Step : Type 0
Step = Result Bool × State

abbrev pub dict_or_empty : Value → Dict
dict_or_empty (dict d) = d
dict_or_empty v = empty

module _ (p : Ports) where
  -- `cast(str, raw.get(key, default))`, which checks nothing: a value that is not a text goes on, here
  -- as its text.
  unfoldable pub text_field : String → String → Dict → String
  unfolding get_or
  text_field key default raw = text_of_value (get_or key (str default) raw)
    where
      text_of_value : Value → String
      text_of_value (str s) = s
      text_of_value v = p.runtime.text_of v

  unfoldable pub optional_field : String → Dict → Option String
  unfolding get_or
  optional_field key raw = read (get_or key null raw)
    where
      read : Value → Option String
      read null = none
      read (str s) = some s
      read v = some (p.runtime.text_of v)

  -- `DeadLetterStage(...)` of the field: only a text can be the value of a stage.
  unfoldable pub stage_field : Dict → Result DeadLetterStage
  unfolding get_or
  stage_field raw = read (get_or "stage" (str "parsing") raw)
    where
      read : Value → Result DeadLetterStage
      read (str s) = stage_of_value p.runtime s
      read v =
          err (value_error (concat (p.runtime.repr_of v ∷ " is not a valid DeadLetterStage" ∷ [])))

  -- The record that `_read_from_disk` yields for a line.
  unfoldable pub record_of : ℕ → Dict → Result DeadLetterRecord
  record_of n raw = do
    stage ← stage_field raw
    retries ← to_int p.runtime (get_or "retry_count" (int (pos 0)) raw)
    ok (record {
      original_record = dict_or_empty (get_or "original_record" (dict empty) raw);
      error_message = text_field "error_message" "" raw;
      error_type = text_field "error_type" "Unknown" raw;
      stage = stage;
      batch_id = text_field "batch_id" "" raw;
      source_file = text_field "source_file" "" raw;
      trip_id = optional_field "trip_id" raw;
      failed_at = p.failed_at n;
      retry_count = retries;
    })

  -- `iter_jsonl_gz` skips a line of white space.
  unfoldable pub is_blank : String → Bool
  is_blank line = str_eq (p.strip line) ""

  unfoldable pub read_line : ℕ → String → Result DeadLetterRecord
  unfolding record_of
  read_line n line = do raw ← loads p.outside.json (p.strip line); record_of n raw

  abbrev pub context_of : ℕ → DeadLetterRecord → Context
  context_of n r = record {
    runtime = p.runtime;
    get_by_id = p.get_by_id;
    clock = p.clock n;
    batch_id = p.replay_batch_id n;
    source_file = r.source_file;
  }

  -- The record that is sent again: its error is the new one, its retry count one higher.
  unfoldable pub updated : ℕ → DeadLetterRecord → InvalidTripDetected → Result DeadLetterRecord
  updated n r event = do
    stage ← stage_of_value p.runtime (processing_value event.stage)
    ok (record {
      original_record = r.original_record;
      error_message = event.error_message;
      error_type = event.error_type;
      stage = stage;
      batch_id = r.batch_id;
      source_file = r.source_file;
      trip_id = r.trip_id;
      failed_at = p.failed_at n;
      retry_count = r.retry_count +ℤ pos 1;
    })

  abbrev pub sent : Result (Unit {0}) × Dlq → State → Step
  sent (ok u, d) s = (ok false, record s { dlq = d })
  sent (err e, d) s = (err e, record s { dlq = d })

  abbrev pub send_updated : Result DeadLetterRecord → State → Step
  send_updated (ok r) s = sent (send p.runtime p.outside r s.dlq) s
  send_updated (err e) s = (err e, s)

  abbrev pub answered : Option Error → List Trip → State → Step
  answered none trips s =
      (ok true, record s { published = s.published ++ map (to_dict p.runtime) trips })
  answered (some e) trips s = (err e, s)

  abbrev pub judged : ℕ → DeadLetterRecord → List Trip × List InvalidTripDetected → State → Step
  judged n r (t ∷ ts, events) s = answered (p.publish n) (t ∷ ts) s
  judged n r ([], e ∷ events) s = send_updated (updated n r e) s
  judged n r ([], []) s = (ok false, s)

  -- `_replay_record` on the n-th record.
  unfoldable pub replay_record : ℕ → DeadLetterRecord → State → Step
  replay_record n r s = judged n r (process_batch (context_of n r) (r.original_record ∷ [])) s

  abbrev pub counted : Step → Step
  counted (ok true, s) = (ok true, record s { recovered = s.recovered + 1 })
  counted (ok false, s) = (ok false, record s { still_invalid = s.still_invalid + 1 })
  counted (err e, s) = (err e, s)

  -- The body of the loop of `handle`.
  unfoldable pub handle_record : DeadLetterRecord → State → Step
  unfolding replay_record
  handle_record r s =
      counted
        (replay_record s.total_replayed r (record s { total_replayed = s.total_replayed + 1 }))

  -- The loop over the lines of one file, from line `i` on; `none` when the fuel runs out. A blank line
  -- is skipped, one that cannot be read ends the file, and an exception of the body goes on to the caller.
  unfoldable pub replay_file : ℕ → String → ℕ → State → Option (Result (Unit {0}) × State)
  replay_file zero path i s = none
  replay_file (suc fuel) path i s = elim (get_elem? (lines_of path s.dlq.files) i) [
    | none ↦ some (ok tt, s)
    | some line ↦ elim (is_blank line) [
      | true ↦ replay_file fuel path (suc i) s
      | false ↦ elim (read_line s.total_replayed line) [
        | err e ↦ some (ok tt, s)
        | ok r ↦
            (let (result, t) = handle_record r s in
              elim result [ err e ↦ some (err e, t) | ok done ↦ replay_file fuel path (suc i) t ])
      ]
    ]
  ]
