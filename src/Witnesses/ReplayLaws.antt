-- ===== src/Witnesses/ReplayLaws.antt =====
-- Replaying a file of one line, whose record is refused again or recovers.
use nyc_taxi.Base.{arith, length, pos, ◌+ℤ◌, String, ◌≡◌, refl, none, some, List, [], arith}
use nyc_taxi.Python.{Value, dict, Dict, get?, ok}
use nyc_taxi.Json.{jsonable, jsonable_dict, dumps, loads}
use nyc_taxi.Json.RoundTrip.{DictHasUniqueKeys}
use nyc_taxi.Trip.Model.{Trip}
use nyc_taxi.Samples.{
  ten, rt, sample_zone, context, row, zero_row, trip, dead_letter, outside, line_of, read_back,
  one_line,
}
use nyc_taxi.Samples.Document.{document, dumps-document, document-ReadsBack}
use nyc_taxi.DeadLetter.{processing_value, stage_of_value, DeadLetterRecord, as_dict}
use nyc_taxi.DeadLetter.Publisher.{rejected_file_path, lines_of}
use nyc_taxi.Replay.{
  Ports, State, text_field, optional_field, stage_field, record_of, is_blank, read_line, updated,
  replay_file,
}
use nyc_taxi.Replay.Endless.{RefusesAgain, replay_file_endless}
use nyc_taxi.Replay.Recovery.{Recovers}
use nyc_taxi.Replay.Record.{read_line-dumps}
use nyc_taxi.Replay.Run.{disk, file_names, chosen_files, handle}
use nyc_taxi.Replay.Run.Recovery.{handle_recovers}
use nyc_taxi.Trip.Events.{ProcessingStage, InvalidTripDetected}
use nyc_taxi.Witnesses.TripTests.{run_batch}

abbrev replaying : Dict → Ports
replaying raw = record {
  runtime = rt;
  get_by_id = sample_zone;
  replay_batch_id = λ n. "replay";
  clock = λ n. context.clock;
  failed_at = λ n. ten;
  publish = λ n. none;
  outside = record {
    json = record { json_dumps = λ v. ok "line"; json_loads = λ s. ok (dict (line_of raw)) };
    produce = λ n. none;
    write = λ n. none;
  };
  strip = λ s. "line";
}

abbrev before : State
before = record {
  total_replayed = 0;
  recovered = 0;
  still_invalid = 0;
  published = [];
  dlq = one_line;
}

abbrev AnyLine : String → Type 0
AnyLine line = Unit

-- The event of `zero_row`, and what is sent back.
abbrev refusal : InvalidTripDetected
refusal = record {
  stage = ProcessingStage.validation;
  error_message = "Trip duration 0s is invalid. Must be > 0 and < 86400 (24 hours).";
  error_type = "InvalidTripDurationError";
  original_record = zero_row;
  batch_id = "replay";
  source_file = "";
  trip_id = some "VeriFone Inc.|2024-01-15T10:00:00+00:00|2024-01-15T10:00:00+00:00|132";
  occurred_at = context.clock.detected_at 0;
}

abbrev sent_back : DeadLetterRecord
sent_back = record (read_back zero_row) {
  error_message = refusal.error_message;
  error_type = refusal.error_type;
  retry_count = pos 1;
}

refuses_again : RefusesAgain (replaying zero_row) "batch.jsonl.gz" AnyLine
unfolding run_batch read_line is_blank dumps loads record_of text_field optional_field stage_field
    stage_of_value updated processing_value rejected_file_path ◌+ℤ◌
refuses_again n line h =
    (read_back zero_row, refusal, sent_back, "line", refl, refl, refl, refl, refl, refl, tt)

replay_file_endless_example : replay_file (replaying zero_row) 100 "batch.jsonl.gz" 0 before ≡ none
unfolding lines_of
replay_file_endless_example =
    replay_file_endless (replaying zero_row) "batch.jsonl.gz" AnyLine
      (record { broker = λ n. tt; disk = λ n. refl }) refuses_again 100 0 before (tt, tt)
      (omega arith)

abbrev recovered_trip : Trip
recovered_trip = record trip { batch_id = "replay"; source_file = "" }

recovers : Recovers (replaying row) AnyLine
unfolding run_batch read_line is_blank dumps loads record_of text_field optional_field stage_field
    stage_of_value
recovers n line h = (read_back row, recovered_trip, refl, refl, refl, refl)

abbrev written_record : Value
written_record = dict (jsonable_dict rt (as_dict rt dead_letter))

abbrev rereading : nyc_taxi.Replay.Ports
rereading = record (replaying row) { outside = record outside { json = document written_record } }

row-DictHasUniqueKeys : DictHasUniqueKeys row
unfolding get?
row-DictHasUniqueKeys = ground arith

abbrev same_order : List String → List String
same_order paths = paths

read_line-dumps_example :
    read_line rereading 0 "line"
    ≡ ok (record dead_letter { original_record = jsonable_dict rt row; failed_at = ten })
unfolding dumps jsonable
read_line-dumps_example =
    read_line-dumps rereading 0 dead_letter "line" (document-ReadsBack written_record)
      row-DictHasUniqueKeys refl (dumps-document written_record)

handle_recovers_example :
    (t : State) × (handle
        (replaying row)
        same_order
        2
        (record { source = disk; batch_id = none })
        before
      ≡ some (ok tt, t))
    × (t.total_replayed ≡ 1)
    × (t.recovered ≡ 1)
    × (t.still_invalid ≡ 0)
    × (length t.published ≡ 1)
    × (t.dlq ≡ one_line)
unfolding lines_of chosen_files file_names
handle_recovers_example =
    handle_recovers (replaying row) same_order AnyLine recovers 2 none before
      (((tt, tt), omega arith), tt)
