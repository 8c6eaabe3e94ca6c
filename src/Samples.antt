-- ===== src/Samples.antt =====
-- Concrete runtimes, rows and trips for tests and witnesses.
pub mod Document
use nyc_taxi.Base.{
  leb, ◌==◌, if◌then◌else◌, ℤ, pos, negsuc, pos_part, eq_ℤ, ℕ, ◌*◌, String, ◌⊎◌, inl, inr, Bool,
  true, false, ◌&&◌, Option, none, some, List, [], ◌∷◌, str_eq,
}
use nyc_taxi.Python.{
  Float, finite, Decimal, Datetime, Value, null, int, float, str, decimal, datetime, dict, Dict,
  empty, entry, value_error, runtime_error, other, error_type, Result, ok, err, Runtime,
  error_message,
}
use nyc_taxi.Json.{JsonModule}
use nyc_taxi.Trip.Model.{Money, Zone, unknown_zone, Trip}
use nyc_taxi.Trip.Service.{Context}
use nyc_taxi.Trip.Events.{ProcessingStage, validation, InvalidTripDetected}
use nyc_taxi.Validation.{Checked, failed, Pydantic}
use nyc_taxi.Ingestion.{Ports}
use nyc_taxi.DeadLetter.{DeadLetterStage, DeadLetterRecord}
use nyc_taxi.DeadLetter.Publisher.{Outside, Dlq}
use nyc_taxi.Consumer
use nyc_taxi.Consumer.{Poll, no_message, message, Event}

abbrev pub utc : ℕ → Datetime
utc seconds = record { wall = pos (seconds * 1_000_000); offset = some (pos 0) }

-- 2024-01-15 10:00:00 and 10:12:30
abbrev pub ten : Datetime
ten = utc 1_705_312_800

abbrev pub later : Datetime
later = utc 1_705_313_550

abbrev pub sample_text : Value → String
sample_text null = "None"
sample_text (str s) = s
sample_text (int (pos n)) = if n == 132 then "132" else "0"
sample_text (float (finite b m e)) = if m == 25 then "12.5" else "0"
sample_text v = "0"

-- 12.50 as a Decimal, which is 25 / 2 as a float.
abbrev pub sample_decimal : String → Option Decimal
sample_decimal s =
    if str_eq s "0"
    then some (Decimal.finite false 0 (pos 0))
    else if str_eq s "12.5"
    then some (Decimal.finite false 125 (negsuc 0))
    else none

abbrev pub sample_float : Decimal → Float
sample_float (Decimal.finite b m e) =
    if m == 1250 then finite false 25 (negsuc 0) else finite false 0 (pos 0)
sample_float d = finite false 0 (pos 0)

abbrev pub sample_isoformat : Datetime → String
sample_isoformat d =
    if eq_ℤ d.wall ten.wall
    then "2024-01-15T10:00:00+00:00"
    else if eq_ℤ d.wall later.wall
    then "2024-01-15T10:12:30+00:00"
    else "2024-01-15T11:00:00+00:00"

abbrev pub sample_timestamp : Value → Option Datetime
sample_timestamp (str s) =
    if str_eq s "2024-01-15T10:00:00+00:00"
    then some ten
    else if str_eq s "2024-01-15T10:12:30+00:00"
    then some later
    else none
sample_timestamp v = none

abbrev pub sample_fromtimestamp : Value → Result Datetime
sample_fromtimestamp (int (pos n)) = ok (utc n)
sample_fromtimestamp v = err (value_error "year is out of range")

abbrev pub rt : Runtime
rt = record {
  text_of = sample_text;
  repr_of = sample_text;
  int_of_text = λ s. if str_eq s "3" then some (pos 3) else none;
  float_of_text = λ s. if str_eq s "0" then some (finite false 0 (pos 0)) else none;
  decimal_of_text = sample_decimal;
  float_of_int = λ n. some (finite false (pos_part n) (pos 0));
  float_of_decimal = sample_float;
  isoformat = sample_isoformat;
  sha256 = λ s. s;
  fromtimestamp_millis = sample_fromtimestamp;
  fromtimestamp = sample_fromtimestamp;
  isna = λ v. ok false;
  pd_timestamp = sample_timestamp;
}

abbrev pub sample_zone : ℤ → Result Zone
sample_zone n =
    if eq_ℤ n (pos 132)
    then ok (record {
      location_id = pos 132;
      borough = "Queens";
      zone = "JFK Airport";
      service_zone = "Airports";
    })
    else ok (unknown_zone n)

abbrev pub context : Context
context = record {
  runtime = rt;
  get_by_id = sample_zone;
  clock = record {
    ingested_at = λ i. utc 1_705_316_400;
    now = λ i. pos 1_705_316_400_000_000;
    detected_at = λ i. utc 1_705_316_400;
    duplicate_at = λ i. utc 1_705_316_400;
  };
  batch_id = "batch";
  source_file = "yellow.parquet";
}

abbrev row_between : Datetime → Datetime → Dict
row_between pickup dropoff = entry "vendor_id" (int (pos 2)) (
    entry "pickup_datetime" (datetime pickup) (
      entry "dropoff_datetime" (datetime dropoff) (
        entry "pickup_location_id" (int (pos 132)) (
          entry "dropoff_location_id" (int (pos 1)) (
            entry "trip_distance" (float (finite false 5 (negsuc 0)))
              (entry "fare_amount" (decimal (Decimal.finite false 1250 (negsuc 1))) empty))))))

abbrev pub row : Dict
row = row_between ten later

-- The dropoff is the pickup.
abbrev pub zero_row : Dict
zero_row = row_between ten ten

abbrev pub zero_money : Money
zero_money = record { amount = Decimal.finite false 0 (pos 0); field_name = "extra" }

abbrev pub vendor_label : String
vendor_label = "VeriFone Inc."

-- The trip of `row`.
abbrev pub trip : Trip
trip = record {
  trip_id = "VeriFone Inc.|2024-01-15T10:00:00+00:00|2024-01-15T10:12:30+00:00|132";
  vendor_id = vendor_label;
  pickup_datetime = ten;
  dropoff_datetime = later;
  passenger_count = pos 1;
  distance = record { miles = finite false 5 (negsuc 0) };
  duration = record { seconds = pos 750 };
  pickup_location_id = pos 132;
  dropoff_location_id = pos 1;
  payment = record {
    payment_type = "Unknown";
    fare_amount = record {
      amount = Decimal.finite false 1250 (negsuc 1);
      field_name = "fare_amount";
    };
    extra = record { amount = Decimal.finite false 0 (pos 0); field_name = "extra" };
    mta_tax = record { amount = Decimal.finite false 0 (pos 0); field_name = "mta_tax" };
    tip_amount = record { amount = Decimal.finite false 0 (pos 0); field_name = "tip_amount" };
    tolls_amount = record { amount = Decimal.finite false 0 (pos 0); field_name = "tolls_amount" };
    improvement_surcharge = record {
      amount = Decimal.finite false 0 (pos 0);
      field_name = "improvement_surcharge";
    };
    congestion_surcharge = record {
      amount = Decimal.finite false 0 (pos 0);
      field_name = "congestion_surcharge";
    };
    airport_fee = record { amount = Decimal.finite false 0 (pos 0); field_name = "airport_fee" };
    total_amount = record { amount = Decimal.finite false 0 (pos 0); field_name = "total_amount" };
  };
  rate_code = "Unknown";
  store_and_fwd_flag = "Unknown";
  batch_id = "batch";
  source_file = "yellow.parquet";
  pickup_zone = "JFK Airport";
  dropoff_zone = "Unknown";
  pickup_borough = "Queens";
  dropoff_borough = "Unknown";
  ingested_at = utc 1_705_316_400;
}

-- What `trip` becomes when its own `to_dict` is parsed.
abbrev pub reparsed : Trip
reparsed = record trip {
  trip_id = "Unknown|2024-01-15T10:00:00+00:00|2024-01-15T10:12:30+00:00|132";
  vendor_id = "Unknown";
  payment = record trip.payment {
    fare_amount = record {
      amount = Decimal.finite false 125 (negsuc 0);
      field_name = "fare_amount";
    };
  };
  pickup_zone = "Unknown";
  dropoff_zone = "Unknown";
  pickup_borough = "Unknown";
  dropoff_borough = "Unknown";
}

abbrev pub sample_fields : Dict → Checked → Checked → List String ⊎ (Datetime × Datetime)
sample_fields d (failed m) b = inl (m ∷ [])
sample_fields d a (failed m) = inl (m ∷ [])
sample_fields d a b = inr (ten, later)

abbrev pub pydantic : Pydantic
pydantic = record { validate_fields = sample_fields }

-- A row without a pickup location, and one with a location that does not exist.
abbrev pub null_row : Dict
null_row = entry "pickup_location_id" null empty

abbrev pub negative_row : Dict
negative_row = entry "pickup_location_id" (int (pos 0)) empty

-- A run whose broker refuses the second call, and whose flag is set from look `stop` on.
abbrev pub ports : ℕ → Ports
ports stop = record {
  runtime = rt;
  pydantic = pydantic;
  get_by_id = sample_zone;
  source_file = "yellow.parquet";
  correlation_id = λ i. "batch";
  clock = λ i. context.clock;
  failed_at = ten;
  publish = λ n. if n == 1 then some (runtime_error "broker is down") else none;
  dead_letter = λ n. none;
  shutdown = λ n. leb stop n;
}

abbrev pub event : InvalidTripDetected
event = record {
  stage = ProcessingStage.validation;
  error_message = "Passenger count 0 is invalid. Must be between 1 and 9.";
  error_type = "InvalidPassengerCountError";
  original_record = row;
  batch_id = "batch";
  source_file = "yellow.parquet";
  trip_id = some "id";
  occurred_at = ten;
}

abbrev pub dead_letter : DeadLetterRecord
dead_letter = record {
  original_record = row;
  error_message = "Passenger count 0 is invalid. Must be between 1 and 9.";
  error_type = "InvalidPassengerCountError";
  stage = DeadLetterStage.validation;
  batch_id = "batch";
  source_file = "yellow.parquet";
  trip_id = some "id";
  failed_at = ten;
  retry_count = pos 0;
}

-- Every dict is written as the same line, and that line is read as one dict.
abbrev pub json : JsonModule
json = record { json_dumps = λ v. ok "line"; json_loads = λ s. ok (dict empty) }

-- A broker that refuses the first call, beside a disk that works.
abbrev pub outside : Outside
outside = record {
  json = json;
  produce = λ n. if n == 0 then some (other "KafkaException" "queue full") else none;
  write = λ n. none;
}

abbrev pub unencodable : Outside
unencodable = record outside {
  json = record json { json_dumps = λ v. err (value_error "surrogates not allowed") };
}

abbrev pub no_dlq : Dlq
no_dlq = record { enqueued = []; files = []; produce_calls = 0; write_calls = 0; counted = [] }

-- A dead letter of `raw` as a line on disk holds it, and what is read from that line.
abbrev pub line_of : Dict → Dict
line_of raw =
    entry "original_record" (dict raw)
      (entry "stage" (str "validation") (entry "batch_id" (str "batch") empty))

abbrev pub read_back : Dict → DeadLetterRecord
read_back raw = record {
  original_record = raw;
  error_message = "";
  error_type = "Unknown";
  stage = DeadLetterStage.validation;
  batch_id = "batch";
  source_file = "";
  trip_id = none;
  failed_at = ten;
  retry_count = pos 0;
}

abbrev pub one_line : Dlq
one_line = record no_dlq { files = ("batch.jsonl.gz", "line" ∷ []) ∷ [] }

abbrev pub message_of : String → Dict
message_of id = entry "trip_id" (str id) empty

-- A consumer for batches of two, whose inserts from the second on fail if `broken`.
abbrev pub consumer : Bool → Consumer.Ports
consumer broken = record {
  json = record json {
    json_loads = λ s.
        if str_eq s "bad" then err (value_error "Expecting value") else ok (dict (message_of s));
  };
  insert = λ n rows. if broken && leb 1 n then some (runtime_error "table is gone") else none;
  commit = λ n. none;
  max_size = 2;
  max_wait = 10;
  batch_id = λ n. "batch";
}

abbrev pub event_with : Bool → Poll → Event
event_with signal poll = record {
  signalled = signal;
  polled = poll;
  checked_at = 0;
  flushed_at = 0;
}

abbrev pub events : List Event
events =
    event_with false (message "a")
    ∷ event_with false (message "bad")
    ∷ event_with false (message "b")
    ∷ event_with false no_message
    ∷ event_with false (message "c")
    ∷ event_with true no_message
    ∷ []
