-- ===== src/Lifecycle/Startup.antt =====
-- What `startup` has set when it returns, and that it releases nothing.
use nyc_taxi.Base.{
  if◌then◌else◌, All, All-append, String, ◌≡◌, refl, sym, ap, ◌∙◌, Bool, true, false, Option, none,
  some, [], ◌∷◌,
}
use nyc_taxi.Python.{Error, ok, err, ok-injective}
use nyc_taxi.Lifecycle.{
  Action, setup_logging, setup_tracing, connect_clickhouse, ping_clickhouse, load_zones,
  create_producer, create_consumer, start_metrics, flush_producer, close_consumer, close_clickhouse,
  stop_metrics, stop_health, Calls, AppComponents, no_components, Started, with_consumer,
  with_producer, answered, attempt, attempt_if, open_zones, open_metrics, startup,
}

-- What `startup` sets in a mode.
abbrev pub components_of : String → AppComponents
components_of mode = record {
  zone_repository = true;
  clickhouse_client = with_consumer mode;
  kafka_producer = with_producer mode;
  kafka_consumer = with_consumer mode;
  metrics_server = true;
  health_server = false;
}

abbrev pub releases : Action → Bool
releases flush_producer = true
releases close_consumer = true
releases close_clickhouse = true
releases stop_metrics = true
releases stop_health = true
releases a = false

-- None of the calls releases anything.
abbrev pub OnlyStarts : Calls → Type 0
OnlyStarts calls = All (λ call. releases call.0 ≡ false) calls

module _ (raises : Action → Option Error) where
  -- If the steps so far returned, they set this.
  abbrev pub Sets : AppComponents → Started → Type 0
  Sets c s = ((x : AppComponents) → s.0 ≡ ok x → x ≡ c) × OnlyStarts s.1

  attempt-Sets :
      (a : Action) (update : AppComponents → AppComponents) (c : AppComponents) (s : Started)
      → releases a ≡ false
      → Sets c s
      → Sets (update c) (attempt raises a update s)
  unfolding attempt
  attempt-Sets a update c (err e, calls) starts (sets, only) = (λ x h. absurd (cc), only)
  attempt-Sets a update c (ok d, calls) starts (sets, only) = (
    λ x h. called (raises a) x h,
    All-append (λ call. releases call.0 ≡ false) calls ((a, raises a) ∷ []) only (starts, tt),
  )
    where
      called :
          (o : Option Error) (x : AppComponents)
          → answered raises o (update d) ≡ ok x
          → x ≡ update c
      called none x h = sym (ok-injective h) ∙ ap update (sets d refl)
      called (some e) x h = absurd (cc)

  attempt_if-Sets :
      (b : Bool) (a : Action) (update : AppComponents → AppComponents) (c : AppComponents)
      (s : Started)
      → releases a ≡ false
      → Sets c s
      → Sets (if b then update c else c) (attempt_if raises b a update s)
  unfolding attempt_if
  attempt_if-Sets true a update c s starts h = attempt-Sets a update c s starts h
  attempt_if-Sets false a update c s starts h = h

  -- `startup` with the tests of its mode.
  abbrev steps : Bool → Bool → Calls → Started
  steps consumes produces calls =
      let begun =
        attempt raises setup_tracing (λ c. c)
          (attempt raises setup_logging (λ c. c) (ok no_components, calls)) in
      let stored =
        attempt_if raises consumes ping_clickhouse (λ c. c)
          (attempt_if raises consumes connect_clickhouse
            (λ c. record c { clickhouse_client = true }) begun) in
      open_metrics raises (
        attempt_if raises consumes create_consumer (λ c. record c { kafka_consumer = true })
          (attempt_if raises produces create_producer (λ c. record c { kafka_producer = true })
            (open_zones raises stored)))

  abbrev set_by : Bool → Bool → AppComponents
  set_by consumes produces = record {
    zone_repository = true;
    clickhouse_client = consumes;
    kafka_producer = produces;
    kafka_consumer = consumes;
    metrics_server = true;
    health_server = false;
  }

  steps-Sets :
      (consumes produces : Bool) → Sets (set_by consumes produces) (steps consumes produces [])
  unfolding attempt_if
  steps-Sets consumes produces = split consumes produces
    where
      begun-Sets : Sets no_components (
          attempt raises setup_tracing
            (λ c. c)
            (attempt raises setup_logging (λ c. c) (ok no_components, [])))
      begun-Sets =
          attempt-Sets setup_tracing (λ c. c) no_components _ refl
            (attempt-Sets setup_logging (λ c. c) no_components (ok no_components, []) refl
              (λ x h. sym (ok-injective h), tt))

      metrics-Sets :
          (c : AppComponents) (s : Started)
          → Sets c s
          → Sets (record c { metrics_server = true }) (open_metrics raises s)
      metrics-Sets c s h =
          attempt-Sets start_metrics (λ c. record c { metrics_server = true }) c s refl h

      zones-Sets :
          (c : AppComponents) (s : Started)
          → Sets c s
          → Sets (record c { zone_repository = true }) (open_zones raises s)
      zones-Sets c s h =
          attempt-Sets load_zones (λ c. record c { zone_repository = true }) c s refl h

      clickhouse-Sets :
          (c : AppComponents) (s : Started)
          → Sets c s
          → Sets
              (record c { clickhouse_client = true })
              (attempt raises ping_clickhouse
                (λ c. c)
                (attempt raises connect_clickhouse (λ c. record c { clickhouse_client = true }) s))
      clickhouse-Sets c s h =
          attempt-Sets ping_clickhouse (λ c. c) (record c { clickhouse_client = true }) _ refl
            (attempt-Sets connect_clickhouse (λ c. record c { clickhouse_client = true }) c s refl
              h)

      producer-Sets :
          (c : AppComponents) (s : Started)
          → Sets c s
          → Sets
              (record c { kafka_producer = true })
              (attempt raises create_producer (λ c. record c { kafka_producer = true }) s)
      producer-Sets c s h =
          attempt-Sets create_producer (λ c. record c { kafka_producer = true }) c s refl h

      consumer-Sets :
          (c : AppComponents) (s : Started)
          → Sets c s
          → Sets
              (record c { kafka_consumer = true })
              (attempt raises create_consumer (λ c. record c { kafka_consumer = true }) s)
      consumer-Sets c s h =
          attempt-Sets create_consumer (λ c. record c { kafka_consumer = true }) c s refl h

      split :
          (consumes produces : Bool) → Sets (set_by consumes produces) (steps consumes produces [])
      split true true =
          metrics-Sets _ _ (
            consumer-Sets _ _ (producer-Sets _ _ (zones-Sets _ _ (clickhouse-Sets _ _ begun-Sets))))
      split true false =
          metrics-Sets _ _ (consumer-Sets _ _ (zones-Sets _ _ (clickhouse-Sets _ _ begun-Sets)))
      split false true = metrics-Sets _ _ (producer-Sets _ _ (zones-Sets _ _ begun-Sets))
      split false false = metrics-Sets _ _ (zones-Sets _ _ begun-Sets)

  pub startup-Sets : (mode : String) → Sets (components_of mode) (startup raises mode [])
  unfolding startup
  startup-Sets mode = steps-Sets (with_consumer mode) (with_producer mode)
