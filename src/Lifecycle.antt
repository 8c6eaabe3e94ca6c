-- ===== src/Lifecycle.antt =====
-- etl/runtime/lifecycle.py, and the frames of `main` of etl/entrypoints/producer.py and consumer.py.
-- The calls made so far are kept in a list, each with what it raised. An interrupt during the start
-- or the stop is left out.
pub mod Signals
pub mod Startup
pub mod Release
use nyc_taxi.Base.{
  if◌then◌else◌, ℕ, String, Bool, true, false, ◌||◌, Option, none, some, List, [], ◌∷◌, ◌++◌,
  str_eq,
}
use nyc_taxi.Python.{Error, runtime_error, Result, ok, err}

-- The calls that start something, and those that release it.
pub data Action : Type 0 where
  setup_logging setup_tracing : Action
  connect_clickhouse ping_clickhouse : Action
  load_zones : Action
  create_producer create_consumer : Action
  start_metrics : Action
  flush_producer close_consumer close_clickhouse stop_metrics stop_health : Action
  stop_lag_monitor : Action

abbrev pub Calls : Type 0
Calls = List (Action × Option Error)

-- Which components are not None.
pub record AppComponents : Type 0 where
  pub zone_repository : Bool
  pub clickhouse_client : Bool
  pub kafka_producer : Bool
  pub kafka_consumer : Bool
  pub metrics_server : Bool
  pub health_server : Bool

abbrev pub no_components : AppComponents
no_components = record {
  zone_repository = false;
  clickhouse_client = false;
  kafka_producer = false;
  kafka_consumer = false;
  metrics_server = false;
  health_server = false;
}

abbrev pub Started : Type 0
Started = Result AppComponents × Calls

-- How the work between `startup` and the `except` clauses ends.
pub data Ending : Type 0 where
  completed : Ending
  interrupted : Ending
  failed : Error → Ending

-- `mode in ("consumer", "both")`, and likewise for the producer
abbrev pub with_consumer : String → Bool
with_consumer mode = str_eq mode "consumer" || str_eq mode "both"

abbrev pub with_producer : String → Bool
with_producer mode = str_eq mode "producer" || str_eq mode "both"

-- What each call raises, if anything.
module _ (raises : Action → Option Error) where
  abbrev pub answered : Option Error → AppComponents → Result AppComponents
  answered none c = ok c
  answered (some e) c = err e

  -- A call that is made unless an exception came before, with what it sets when it returns.
  unfoldable pub attempt : Action → (AppComponents → AppComponents) → Started → Started
  attempt a update (err e, calls) = (err e, calls)
  attempt a update (ok c, calls) = (answered (raises a) (update c), calls ++ (a, raises a) ∷ [])

  unfoldable pub attempt_if : Bool → Action → (AppComponents → AppComponents) → Started → Started
  unfolding attempt
  attempt_if true a update s = attempt a update s
  attempt_if false a update s = s

  -- Steps 3 to 6 of `startup`.
  abbrev pub open_clickhouse : String → Started → Started
  open_clickhouse mode s =
      attempt_if (with_consumer mode) ping_clickhouse (λ c. c)
        (attempt_if (with_consumer mode) connect_clickhouse
          (λ c. record c { clickhouse_client = true }) s)

  abbrev pub open_zones : Started → Started
  open_zones s = attempt load_zones (λ c. record c { zone_repository = true }) s

  abbrev pub open_kafka : String → Started → Started
  open_kafka mode s =
      attempt_if (with_consumer mode) create_consumer (λ c. record c { kafka_consumer = true })
        (attempt_if (with_producer mode) create_producer (λ c. record c { kafka_producer = true })
          s)

  abbrev pub open_metrics : Started → Started
  open_metrics s = attempt start_metrics (λ c. record c { metrics_server = true }) s

  -- `startup`, after the settings are read.
  unfoldable pub startup : String → Calls → Started
  unfolding attempt attempt_if
  startup mode calls =
      let logged = attempt setup_logging (λ c. c) (ok no_components, calls) in
      let traced = attempt setup_tracing (λ c. c) logged in
      open_metrics (open_kafka mode (open_zones (open_clickhouse mode traced)))

  -- `try: ... except Exception`: what was raised goes to the log only.
  abbrev pub caught : Option Error → Result (Unit {0})
  caught none = ok tt
  caught (some e) = ok tt

  -- A step of `shutdown`, and the steps behind it.
  unfoldable pub release : Bool → Action → (Calls → Calls) → Calls → Calls
  release false a rest calls = rest calls
  release true a rest calls = elim (caught (raises a)) [
    | ok u ↦ rest (calls ++ (a, raises a) ∷ [])
    | err e ↦ calls ++ (a, raises a) ∷ []
  ]

  -- `shutdown`
  unfoldable pub shutdown : AppComponents → Calls → Calls
  unfolding release
  shutdown c = release c.kafka_producer flush_producer (
      release c.kafka_consumer close_consumer (
        release c.clickhouse_client close_clickhouse (
          release c.metrics_server stop_metrics
            (release c.health_server stop_health (λ calls. calls)))))

  -- The exit code: 1 after an exception, which `main` logs.
  abbrev pub exit_code : Ending → ℕ
  exit_code completed = 0
  exit_code interrupted = 0
  exit_code (failed e) = 1

  abbrev pub needed : Bool → String → Ending → Ending
  needed true message work = work
  needed false message work = failed (runtime_error message)

  abbrev pub run_producer : Ending → Started → ℕ × Calls
  run_producer work (err e, calls) = (1, calls)
  run_producer work (ok c, calls) = (
    exit_code (
        needed c.zone_repository "startup() did not initialize zone repository"
          (needed c.kafka_producer "startup() did not initialize Kafka producer" work)),
    shutdown c calls,
  )

  -- `main` of the producer: `work` is how the rest of the `try` ends, which makes the topics, reads
  -- the file and runs the ingestion.
  unfoldable pub producer_main : Ending → ℕ × Calls
  unfolding startup shutdown
  producer_main work = run_producer work (startup "producer" [])

  -- The `finally` behind the stop of the monitor: an exception of it leaves `main`, and what was
  -- started is not released.
  abbrev pub finished_by : Option Error → AppComponents → ℕ × Calls → ℕ × Calls
  finished_by none c (code, calls) = (code, shutdown c (calls ++ (stop_lag_monitor, none) ∷ []))
  finished_by (some e) c (code, calls) = (1, calls ++ (stop_lag_monitor, some e) ∷ [])

  -- The monitor, if there is one, is stopped first, outside of any `try`.
  abbrev pub stopped_monitor : Bool → AppComponents → ℕ × Calls → ℕ × Calls
  stopped_monitor false c (code, calls) = (code, shutdown c calls)
  stopped_monitor true c (code, calls) = finished_by (raises stop_lag_monitor) c (code, calls)

  abbrev pub run_consumer : Bool → Ending → Started → ℕ × Calls
  run_consumer monitored work (err e, calls) = (1, calls)
  run_consumer monitored work (ok c, calls) = stopped_monitor monitored c (
    exit_code (
        needed c.kafka_consumer "startup() did not initialize Kafka consumer"
          (needed c.clickhouse_client "startup() did not initialize ClickHouse client" work)),
    calls,
  )

  -- `main` of the consumer.
  unfoldable pub consumer_main : Bool → Ending → ℕ × Calls
  unfolding startup shutdown
  consumer_main monitored work = run_consumer monitored work (startup "consumer" [])
