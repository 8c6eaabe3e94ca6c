-- ===== src/Witnesses/EnvironmentLaws.antt =====
-- The settings, the log and the correlation ids at concrete inputs.
use nyc_taxi.Base.{
  if◌then◌else◌, ℕ, ℤ, pos, String, ◌≡◌, refl, ap, true, inl, Option, none, some, [], ◌∷◌, arith,
  str_eq, subst,
}
use nyc_taxi.Python.{Value, int, str, dict, Dict, empty, entry, get?, other, ok}
use nyc_taxi.Json.{JsonModule, jsonable_dict, jsonable, dumps, loads}
use nyc_taxi.Samples.{rt, events, consumer}
use nyc_taxi.Samples.Document.{document, dumps-document, document-ReadsBack, document-WritesText}
use nyc_taxi.Json.Files.{write_jsonl_gz, read_jsonl_gz, Appends, write_jsonl_gz-Appends}
use nyc_taxi.Consumer.{running, started, consume}
use nyc_taxi.Settings.{Source, Settings, get_settings}
use mathlib.Core.Option
use nyc_taxi.Settings.{ge_le}
use nyc_taxi.Settings.Laws.{IsLevel, IsGoodInt, IsGoodLevel, InBounds}
use nyc_taxi.Settings.Environment.{IsGood, IsUsable, get_settings_iff}
use nyc_taxi.Settings.Process.{with_limits, HasFewRows, consume-with_limits}
use nyc_taxi.Observability.Correlation.{
  Context, Body, done, raising, look_up, within, run_body, get_correlation_id,
}
use nyc_taxi.Observability.Correlation.Scopes.{Agrees, scoped, run_body-Agrees}
use nyc_taxi.Observability.Logging.{LogRecord, Loggers, setup_logging, format, emit, log_entry}
use nyc_taxi.Observability.Logging.Lines.{extra, or_else, standard_field, loads-emit}

-- KAFKA_BATCH_SIZE=250 and LOG_LEVEL=debug
abbrev variable : String → Option String
variable alias =
    if str_eq alias "KAFKA_BATCH_SIZE"
    then some "250"
    else if str_eq alias "LOG_LEVEL"
    then some "debug"
    else none

abbrev environment : Source
environment = record {
  variable = variable;
  int_of = λ t. if str_eq t "250" then some (pos 250) else none;
  upper = λ t. if str_eq t "debug" then "DEBUG" else t;
}

-- The same variables at a time at which nothing reads as an int any more.
abbrev changed : Source
changed = record environment { int_of = λ t. none }

size-IsGood : IsGoodInt environment "KAFKA_BATCH_SIZE" (ge_le (pos 1) (pos 10_000))
size-IsGood t e =
    let same : "250" ≡ t = cc (e) in
    subst (λ u. (n : ℤ) × (environment.int_of u ≡ some n) × InBounds (ge_le (pos 1) (pos 10_000)) n)
      same (pos 250, refl, (omega arith, omega arith))

level-IsGood : IsGoodLevel environment
level-IsGood t e =
    let same : "debug" ≡ t = cc (e) in subst (λ u. IsLevel (environment.upper u)) same (inl refl)

environment-IsGood : IsGood environment
environment-IsGood = (
  record {
    timeout = λ t e. absurd (cc (e));
    retries = λ t e. absurd (cc (e));
    size = size-IsGood;
    wait = λ t e. absurd (cc (e));
  },
  record {
    port = λ t e. absurd (cc (e));
    async_insert = λ t e. absurd (cc (e));
    wait_for_async_insert = λ t e. absurd (cc (e));
  },
  record {
    prometheus_port_producer = λ t e. absurd (cc (e));
    prometheus_port_consumer = λ t e. absurd (cc (e));
    health_port = λ t e. absurd (cc (e));
    log_level = level-IsGood;
  },
  record { parquet_batch_size = λ t e. absurd (cc (e)) },
)

get_settings_iff_example :
    (v : Settings) × ((get_settings environment none).0 ≡ ok v)
    × IsUsable v
    × (get_settings changed (get_settings environment none).1 ≡ (ok v, some v))
get_settings_iff_example = (get_settings_iff environment changed).1 environment-IsGood

abbrev made : Settings
made = get_settings_iff_example.0

consume-with_limits_example :
    HasFewRows 10_000
      (consume (with_limits none none made.kafka (consumer true)) events (running, started 0))
consume-with_limits_example =
    consume-with_limits environment made (consumer true) 0 events get_settings_iff_example.1

abbrev no_context : Context
no_context = record { correlation_id = none; tokens = []; seen = []; drawn = 0 }

-- A block whose inner block, with an id of its own, raises.
abbrev nested : Body
nested =
    within (some "outer")
      (look_up "before"
        (within none (look_up "inside" (raising (other "ValueError" "bad row"))) done))
      (look_up "after" done)

run_body-Agrees_example :
    Agrees no_context
      (run_body (λ n. "uuid") nested no_context)
      (scoped (λ n. "uuid") nested (get_correlation_id no_context) 0)
run_body-Agrees_example = run_body-Agrees (λ n. "uuid") nested no_context

abbrev message_record : LogRecord
message_record = record {
  get_message = ok "Batch flushed";
  created = "2024-01-15T10:30:00+00:00";
  levelname = "INFO";
  name = "etl.infrastructure.kafka.consumer";
  exception = none;
  stack = some "Stack";
  attributes =
      entry "name" (str "etl.infrastructure.kafka.consumer")
        (entry "batch_id" (str "batch") (entry "rows" (int (pos 3)) empty));
}

abbrev loggers : Loggers
loggers = record { handlers = []; level = 30; levels = [] }

abbrev batch_context : Context
batch_context = record no_context { correlation_id = some "batch" }

abbrev line_value : Value
line_value = dict (jsonable_dict rt (log_entry message_record "Batch flushed"))

abbrev effective : Loggers → String → ℕ
effective l name = l.level

abbrev configured : Loggers
configured = setup_logging (λ t. t) (λ t. none) "INFO" loggers

written_line :
    emit effective rt (document line_value) configured batch_context 20 message_record
    ≡ ok "line" ∷ []
unfolding emit setup_logging format dumps jsonable
written_line = ap (λ r. r ∷ []) (dumps-document line_value)

loads-emit_example :
    (d : Dict) × (loads (document line_value) "line" ≡ ok d)
    × ((key : String)
        → get? key d
          ≡ Option.map (jsonable rt) (
              or_else
                (extra key message_record.attributes)
                (standard_field message_record "Batch flushed" key)))
unfolding get?
loads-emit_example =
    loads-emit effective (λ t. t) (λ t. none) "INFO" loggers rt (document line_value) batch_context
      20 message_record "Batch flushed" "line" (document-ReadsBack line_value)
      (refl, tt, (refl, tt, (refl, tt, tt))) refl written_line

-- A file with a blank line, to which one record is written before the next one is refused.
abbrev fine_record : Dict
fine_record = entry "rows" (int (pos 3)) empty

abbrev file_document : JsonModule
file_document = document (dict (jsonable_dict rt fine_record))

write_jsonl_gz-Appends_example :
    Appends rt file_document
      (λ s. s)
      "batch.jsonl.gz"
      (fine_record ∷ empty ∷ [])
      []
      (write_jsonl_gz rt file_document (fine_record ∷ empty ∷ []) ("" ∷ []))
unfolding read_jsonl_gz dumps get? jsonable
write_jsonl_gz-Appends_example =
    write_jsonl_gz-Appends rt file_document (λ s. s) "batch.jsonl.gz" (fine_record ∷ empty ∷ []) []
      ("" ∷ []) (document-ReadsBack (dict (jsonable_dict rt fine_record)))
      (λ d s wrote. (
        refl,
        document-WritesText (dict (jsonable_dict rt fine_record)) (jsonable rt (dict d)) s wrote,
      ))
      ((refl, tt, tt), (tt, tt)) refl
