-- ===== src/Settings.antt =====
-- etl/config/settings.py: the groups of settings, read from variables of the environment and of the
-- file .env; pydantic-settings merges these and gives a variable by its name.
pub mod Laws
pub mod Kafka
pub mod Groups
pub mod Environment
pub mod Process
use nyc_taxi.Base.{
  if◌then◌else◌, ℤ, pos, leb_ℤ, String, Bool, true, false, ◌&&◌, ◌||◌, Option, none, some, List, [],
  ◌∷◌, ◌++◌, str_eq,
}
use nyc_taxi.Python.{concat, join, value_error, other, Result, ok, err, ◌>>=◌, ◌>>◌}

-- What a field, or a whole group, gives: its value, or the variables that are refused, in order.
pub data Checked {ℓ} (A : Type ℓ) : Type ℓ where
  valid : A → Checked A
  invalid : List String → Checked A

-- A further field of a group: pydantic looks at all fields before it raises.
infixl 5 ◌⊛◌
unfoldable pub ◌⊛◌ {ℓ κ} : {A : Type ℓ} {B : Type κ} → Checked (A → B) → Checked A → Checked B
valid f ⊛ valid a = valid (f a)
valid f ⊛ invalid names = invalid names
invalid names ⊛ valid a = invalid names
invalid names ⊛ invalid more = invalid (names ++ more)

-- The variables that are set; how pydantic reads an int, `none` for a text that it refuses; and
-- `str.upper`.
pub record Source : Type 0 where
  pub variable : String → Option String
  pub int_of : String → Option ℤ
  pub upper : String → String

pub record KafkaSettings : Type 0 where
  pub bootstrap_servers : String
  pub topic : String
  pub dlq_topic : String
  pub consumer_group_id : String
  pub consumer_timeout_ms : ℤ
  pub producer_acks : String
  pub producer_retries : ℤ
  pub batch_size : ℤ
  pub batch_timeout_seconds : ℤ

pub record ClickHouseSettings : Type 0 where
  pub host : String
  pub port : ℤ
  pub database : String
  pub user : String
  pub password : String
  pub async_insert : ℤ
  pub wait_for_async_insert : ℤ

pub record MonitoringSettings : Type 0 where
  pub prometheus_port_producer : ℤ
  pub prometheus_port_consumer : ℤ
  pub health_port : ℤ
  pub log_level : String

pub record EtlSettings : Type 0 where
  pub parquet_file_path : String
  pub zone_lookup_path : String
  pub rejected_dir : String
  pub parquet_batch_size : ℤ

pub record Settings : Type 0 where
  pub kafka : KafkaSettings
  pub clickhouse : ClickHouseSettings
  pub monitoring : MonitoringSettings
  pub etl : EtlSettings

-- The keyword arguments `ge` and `le` of a field.
pub data Bounds : Type 0 where
  unbounded : Bounds
  ge : ℤ → Bounds
  ge_le : ℤ → ℤ → Bounds

abbrev pub in_bounds : Bounds → ℤ → Bool
in_bounds unbounded n = true
in_bounds (ge low) n = leb_ℤ low n
in_bounds (ge_le low high) n = leb_ℤ low n && leb_ℤ n high

-- The tuple `allowed`
abbrev pub allowed : List String
allowed = "DEBUG" ∷ "INFO" ∷ "WARNING" ∷ "ERROR" ∷ "CRITICAL" ∷ []

abbrev pub member : String → List String → Bool
member s [] = false
member s (t ∷ ts) = str_eq s t || member s ts

-- A group that has refused variables raises when it is made.
abbrev pub or_validation_error {ℓ} : {A : Type ℓ} → Checked A → Result A
or_validation_error (valid a) = ok a
or_validation_error (invalid names) = err (other "ValidationError" (join "\n" names))

module _ (s : Source) where
  -- A text field, or a path, which `coerce_path` gives by its text; a default is not validated.
  unfoldable pub text_field : String → String → Checked String
  text_field alias default = elim (s.variable alias) [ none ↦ valid default | some t ↦ valid t ]

  abbrev pub checked_int : String → Bounds → Option ℤ → Checked ℤ
  checked_int alias bounds none = invalid (alias ∷ [])
  checked_int alias bounds (some n) = if in_bounds bounds n then valid n else invalid (alias ∷ [])

  unfoldable pub int_field : String → Bounds → ℤ → Checked ℤ
  int_field alias bounds default = elim (s.variable alias) [
    | none ↦ valid default
    | some t ↦ checked_int alias bounds (s.int_of t)
  ]

  -- `validate_log_level`
  unfoldable pub validate_log_level : String → Result String
  unfolding concat join
  validate_log_level v =
      let upper = s.upper v in
      if member upper allowed
      then ok upper
      else err (
          value_error
            (concat ("LOG_LEVEL must be one of: " ∷ join ", " allowed ∷ ". Got '" ∷ v ∷ "'." ∷ [])))

  abbrev pub or_invalid : String → Result String → Checked String
  or_invalid alias (ok t) = valid t
  or_invalid alias (err e) = invalid (alias ∷ [])

  unfoldable pub log_level_field : Checked String
  unfolding validate_log_level
  log_level_field = elim (s.variable "LOG_LEVEL") [
    | none ↦ valid "INFO"
    | some t ↦ or_invalid "LOG_LEVEL" (validate_log_level t)
  ]

  -- `KafkaSettings()`
  unfoldable pub kafka_settings : Checked KafkaSettings
  unfolding text_field int_field
  kafka_settings =
      valid (λ servers topic dlq group timeout acks retries size wait. record {
        bootstrap_servers = servers;
        topic = topic;
        dlq_topic = dlq;
        consumer_group_id = group;
        consumer_timeout_ms = timeout;
        producer_acks = acks;
        producer_retries = retries;
        batch_size = size;
        batch_timeout_seconds = wait;
      })
      ⊛ text_field "KAFKA_BOOTSTRAP_SERVERS" "localhost:9092"
      ⊛ text_field "KAFKA_TOPIC" "nyc-taxi-trips"
      ⊛ text_field "KAFKA_DLQ_TOPIC" "nyc-taxi-trips-dlq"
      ⊛ text_field "KAFKA_CONSUMER_GROUP_ID" "nyc-taxi-etl-consumer"
      ⊛ int_field "KAFKA_CONSUMER_TIMEOUT_MS" (ge (pos 100)) (pos 5_000)
      ⊛ text_field "KAFKA_PRODUCER_ACKS" "all"
      ⊛ int_field "KAFKA_PRODUCER_RETRIES" (ge (pos 0)) (pos 5)
      ⊛ int_field "KAFKA_BATCH_SIZE" (ge_le (pos 1) (pos 10_000)) (pos 500)
      ⊛ int_field "KAFKA_BATCH_TIMEOUT_SECONDS" (ge (pos 1)) (pos 10)

  -- `ClickHouseSettings()`
  unfoldable pub clickhouse_settings : Checked ClickHouseSettings
  unfolding text_field int_field
  clickhouse_settings =
      valid (λ host port database user password async waits. record {
        host = host;
        port = port;
        database = database;
        user = user;
        password = password;
        async_insert = async;
        wait_for_async_insert = waits;
      })
      ⊛ text_field "CLICKHOUSE_HOST" "localhost"
      ⊛ int_field "CLICKHOUSE_PORT" unbounded (pos 9_000)
      ⊛ text_field "CLICKHOUSE_DB" "taxi"
      ⊛ text_field "CLICKHOUSE_USER" "default"
      ⊛ text_field "CLICKHOUSE_PASSWORD" ""
      ⊛ int_field "CLICKHOUSE_ASYNC_INSERT" unbounded (pos 1)
      ⊛ int_field "CLICKHOUSE_WAIT_FOR_ASYNC_INSERT" unbounded (pos 1)

  -- `MonitoringSettings()`
  unfoldable pub monitoring_settings : Checked MonitoringSettings
  unfolding int_field log_level_field
  monitoring_settings =
      valid (λ producer consumer health level. record {
        prometheus_port_producer = producer;
        prometheus_port_consumer = consumer;
        health_port = health;
        log_level = level;
      })
      ⊛ int_field "PROMETHEUS_PORT_PRODUCER" unbounded (pos 9_100)
      ⊛ int_field "PROMETHEUS_PORT_CONSUMER" unbounded (pos 9_101)
      ⊛ int_field "HEALTH_PORT" unbounded (pos 8_000)
      ⊛ log_level_field

  -- `ETLSettings()`
  unfoldable pub etl_settings : Checked EtlSettings
  unfolding text_field int_field
  etl_settings =
      valid (λ parquet zones rejected size. record {
        parquet_file_path = parquet;
        zone_lookup_path = zones;
        rejected_dir = rejected;
        parquet_batch_size = size;
      })
      ⊛ text_field "PARQUET_FILE_PATH" "data/raw/yellow_tripdata_2024-01.parquet"
      ⊛ text_field "ZONE_LOOKUP_PATH" "data/reference/taxi_zone_lookup.csv"
      ⊛ text_field "REJECTED_DIR" "data/rejected"
      ⊛ int_field "PARQUET_BATCH_SIZE" (ge_le (pos 1) (pos 100_000)) (pos 1_000)

  -- `Settings()`: each group is the default of its field, as no variable has the name of a group.
  unfoldable pub new_settings : Result Settings
  unfolding kafka_settings clickhouse_settings monitoring_settings etl_settings
  new_settings = do
    kafka ← or_validation_error kafka_settings
    clickhouse ← or_validation_error clickhouse_settings
    monitoring ← or_validation_error monitoring_settings
    etl ← or_validation_error etl_settings
    ok (record { kafka = kafka; clickhouse = clickhouse; monitoring = monitoring; etl = etl })

-- The cache of `get_settings`.
abbrev pub Cache : Type 0
Cache = Option Settings

abbrev pub remembered : Result Settings → Result Settings × Cache
remembered (ok s) = (ok s, some s)
remembered (err e) = (err e, none)

-- `get_settings`, at a moment at which the variables are these.
unfoldable pub get_settings : Source → Cache → Result Settings × Cache
unfolding new_settings
get_settings s (some known) = (ok known, some known)
get_settings s none = remembered (new_settings s)
