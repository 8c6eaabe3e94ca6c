-- ===== src/Observability/Logging.antt =====
-- etl/observability/structured_logging.py: the JSON line of a log record, and what `setup_logging`
-- leaves at the root logger.
pub mod Lines
use text.Mathlib.Text.{starts_with}
use nyc_taxi.Base.{
  leb, if◌then◌else◌, ℕ, String, Bool, true, false, ◌&&◌, ◌||◌, not, Option, none, some, List, [],
  ◌∷◌, str_eq,
}
use nyc_taxi.Python.{str, Dict, empty, entry, set, Result, ◌>>=◌, ◌>>◌, Runtime}
use nyc_taxi.Json.{JsonModule, dumps}
use nyc_taxi.Observability.Correlation.{Context, filter_record}

-- `_STANDARD_LOG_FIELDS`
abbrev pub standard_log_fields : List String
standard_log_fields =
    "args" ∷ "created" ∷ "exc_info" ∷ "exc_text" ∷ "filename" ∷ "funcName" ∷ "levelname" ∷ "levelno"
    ∷ "lineno" ∷ "message" ∷ "module" ∷ "msecs" ∷ "msg" ∷ "name" ∷ "pathname" ∷ "process"
    ∷ "processName" ∷ "relativeCreated" ∷ "stack_info" ∷ "taskName" ∷ "thread" ∷ "threadName" ∷ []

abbrev pub is_standard : String → List String → Bool
is_standard key [] = false
is_standard key (f ∷ fs) = str_eq f key || is_standard key fs

-- The attributes of a record are its `__dict__`, with those of `extra`; the other fields are what the
-- formatter computes of it: `getMessage()`, the time in ISO format, `formatException` and
-- `formatStack`, `none` where `exc_info` or `stack_info` is empty.
pub record LogRecord : Type 0 where
  pub get_message : Result String
  pub created : String
  pub levelname : String
  pub name : String
  pub exception : Option String
  pub stack : Option String
  pub attributes : Dict

abbrev pub with_text : String → Option String → Dict → Dict
with_text key none d = d
with_text key (some t) d = set key (str t) d

-- The entries before those of `extra`.
unfoldable pub standard_entry : LogRecord → String → Dict
unfolding set
standard_entry r message = with_text "stack_info" r.stack (
    with_text "exception" r.exception (
      entry "timestamp" (str r.created) (
        entry "level" (str r.levelname)
          (entry "logger" (str r.name) (entry "message" (str message) empty)))))

-- `key not in _STANDARD_LOG_FIELDS and not key.startswith("_")`
unfoldable pub is_extra : String → Bool
is_extra key = not (is_standard key standard_log_fields) && not (starts_with key "_")

-- The loop over `record.__dict__.items()`
unfoldable pub add_extra : Dict → Dict → Dict
unfolding is_extra set
add_extra empty made = made
add_extra (entry key value rest) made =
    add_extra rest (if is_extra key then set key value made else made)

unfoldable pub log_entry : LogRecord → String → Dict
unfolding standard_entry add_extra
log_entry r message = add_extra r.attributes (standard_entry r message)

-- `JsonFormatter.format`
unfoldable pub format : Runtime → JsonModule → LogRecord → Result String
unfolding log_entry dumps
format rt j r = do message ← r.get_message; dumps rt j (log_entry r message)

-- A handler with this formatter, by whether a CorrelationFilter was added to it.
pub record Handler : Type 0 where
  pub has_filter : Bool

-- The handlers of the root logger, its level, and the levels set at other loggers, the last one first.
pub record Loggers : Type 0 where
  pub handlers : List Handler
  pub level : ℕ
  pub levels : List (String × ℕ)

abbrev pub or_info : Option ℕ → ℕ
or_info none = 20
or_info (some n) = n

-- `getattr(logging, level.upper(), logging.INFO)`, for the text in upper case; what attributes of other
-- names the module has is given.
unfoldable pub level_number : (String → Option ℕ) → String → ℕ
level_number attribute level =
    if str_eq level "DEBUG"
    then 10
    else if str_eq level "INFO"
    then 20
    else if str_eq level "WARNING"
    then 30
    else if str_eq level "ERROR"
    then 40
    else if str_eq level "CRITICAL"
    then 50
    else or_info (attribute level)

-- `logging.getLogger(name).setLevel(level)`
abbrev pub set_level : String → ℕ → Loggers → Loggers
set_level name level l = record l { levels = (name, level) ∷ l.levels }

-- `setup_logging`
unfoldable pub setup_logging : (String → String) → (String → Option ℕ) → String → Loggers → Loggers
unfolding level_number
setup_logging upper attribute level l =
    let root : Loggers = record l {
      handlers = record { has_filter = false } ∷ [];
      level = level_number attribute (upper level);
    } in
    set_level "uvicorn.access" 30 (
      set_level "urllib3" 30
        (set_level "clickhouse_driver" 30 (set_level "confluent_kafka" 30 root)))

-- `CorrelationFilter.filter` of a handler that has the filter: the record keeps what it sets.
abbrev pub filtered : Bool → Context → LogRecord → LogRecord
filtered false s r = r
filtered true s r = record r {
  attributes = with_text "correlation_id" (filter_record s none) r.attributes;
}

abbrev pub format_each :
    Runtime → JsonModule → Context → LogRecord → List Handler → List (Result String)
format_each rt j s r [] = []
format_each rt j s r (h ∷ hs) =
    let seen = filtered h.has_filter s r in format rt j seen ∷ format_each rt j s seen hs

-- What the handlers write of a record of this level, the one after the other, or what the formatter
-- raises; `effective` is `getEffectiveLevel` of the logger with a name.
unfoldable pub emit :
    (Loggers → String → ℕ)
    → Runtime
    → JsonModule
    → Loggers
    → Context
    → ℕ
    → LogRecord
    → List (Result String)
unfolding format set filter_record
emit effective rt j l s levelno r =
    if leb (effective l r.name) levelno then format_each rt j s r l.handlers else []
