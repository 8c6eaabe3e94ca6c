-- ===== src/Settings/Groups.antt =====
-- The groups of settings for ClickHouse and for monitoring; the child Etl has that for the pipeline.
pub mod Etl
use nyc_taxi.Base.{ℤ, pos, ◌≤ℤ◌, String, ◌≡◌, refl, sym, ◌∙◌, subst}
use nyc_taxi.Settings.{
  valid, ◌⊛◌, Source, ClickHouseSettings, MonitoringSettings, EtlSettings, unbounded, ge_le,
  text_field, int_field, log_level_field, clickhouse_settings, monitoring_settings, etl_settings,
}
use nyc_taxi.Settings.Laws.{
  IsValid, valid-injective, IsValid-parts, IsLevel, IsGoodInt, int_field-InBounds, int_field_iff,
  text_field-IsValid, IsGoodLevel, log_level_field-IsLevel, log_level_field_iff,
}
use nyc_taxi.Base.{arith}

pub record IsUsableMonitoring (m : MonitoringSettings) : Type 0 where
  pub log_level : IsLevel m.log_level

module _ (s : Source) where
  -- Each variable of the group that is set has a value that is accepted.
  pub record IsGoodClickHouse : Type 0 where
    pub port : IsGoodInt s "CLICKHOUSE_PORT" unbounded
    pub async_insert : IsGoodInt s "CLICKHOUSE_ASYNC_INSERT" unbounded
    pub wait_for_async_insert : IsGoodInt s "CLICKHOUSE_WAIT_FOR_ASYNC_INSERT" unbounded

  clickhouse_settings-built :
      (host : String) (port : ℤ) (database : String) (user : String) (password : String)
      (async_insert : ℤ) (wait_for_async_insert : ℤ)
      → text_field s "CLICKHOUSE_HOST" "localhost" ≡ valid host
      → int_field s "CLICKHOUSE_PORT" unbounded (pos 9_000) ≡ valid port
      → text_field s "CLICKHOUSE_DB" "taxi" ≡ valid database
      → text_field s "CLICKHOUSE_USER" "default" ≡ valid user
      → text_field s "CLICKHOUSE_PASSWORD" "" ≡ valid password
      → int_field s "CLICKHOUSE_ASYNC_INSERT" unbounded (pos 1) ≡ valid async_insert
      → int_field s "CLICKHOUSE_WAIT_FOR_ASYNC_INSERT" unbounded (pos 1)
        ≡ valid wait_for_async_insert
      → clickhouse_settings s
        ≡ valid (record {
          host = host;
          port = port;
          database = database;
          user = user;
          password = password;
          async_insert = async_insert;
          wait_for_async_insert = wait_for_async_insert;
        })
  unfolding clickhouse_settings ◌⊛◌
  clickhouse_settings-built host port database user password async_insert wait_for_async_insert e0
        e1 e2 e3 e4 e5 e6 =
      rw (e0, e1, e2, e3, e4, e5, e6) refl

  pub clickhouse_settings-valid :
      (v : ClickHouseSettings) → clickhouse_settings s ≡ valid v → IsGoodClickHouse
  unfolding clickhouse_settings
  clickhouse_settings-valid v h =
      let (h6, (wait_for_async_insert, e6)) = IsValid-parts _ _ (v, h) in
      let (h5, (async_insert, e5)) = IsValid-parts _ _ h6 in
      let (h4, (password, e4)) = IsValid-parts _ _ h5 in
      let (h3, (user, e3)) = IsValid-parts _ _ h4 in
      let (h2, (database, e2)) = IsValid-parts _ _ h3 in
      let (h1, (port, e1)) = IsValid-parts _ _ h2 in
      let (h0, (host, e0)) = IsValid-parts _ _ h1 in
      record {
        port = (int_field_iff s "CLICKHOUSE_PORT" unbounded (pos 9_000)).0 (port, e1);
        async_insert =
            (int_field_iff s "CLICKHOUSE_ASYNC_INSERT" unbounded (pos 1)).0 (async_insert, e5);
        wait_for_async_insert =
            (int_field_iff s "CLICKHOUSE_WAIT_FOR_ASYNC_INSERT" unbounded (pos 1)).0
              (wait_for_async_insert, e6);
      }

  pub clickhouse_settings-made : IsGoodClickHouse → IsValid (clickhouse_settings s)
  clickhouse_settings-made good =
      let (host, e0) = text_field-IsValid s "CLICKHOUSE_HOST" "localhost" in
      let (port, e1) = (int_field_iff s "CLICKHOUSE_PORT" unbounded (pos 9_000)).1 good.port in
      let (database, e2) = text_field-IsValid s "CLICKHOUSE_DB" "taxi" in
      let (user, e3) = text_field-IsValid s "CLICKHOUSE_USER" "default" in
      let (password, e4) = text_field-IsValid s "CLICKHOUSE_PASSWORD" "" in
      let (async_insert, e5) =
        (int_field_iff s "CLICKHOUSE_ASYNC_INSERT" unbounded (pos 1)).1 good.async_insert in
      let (wait_for_async_insert, e6) =
        (int_field_iff s "CLICKHOUSE_WAIT_FOR_ASYNC_INSERT" unbounded (pos 1)).1
          good.wait_for_async_insert in
      (
        _,
        clickhouse_settings-built host port database user password async_insert
            wait_for_async_insert e0 e1 e2 e3 e4 e5 e6,
      )

  pub record IsGoodMonitoring : Type 0 where
    pub prometheus_port_producer : IsGoodInt s "PROMETHEUS_PORT_PRODUCER" unbounded
    pub prometheus_port_consumer : IsGoodInt s "PROMETHEUS_PORT_CONSUMER" unbounded
    pub health_port : IsGoodInt s "HEALTH_PORT" unbounded
    pub log_level : IsGoodLevel s

  monitoring_settings-built :
      (prometheus_port_producer : ℤ) (prometheus_port_consumer : ℤ) (health_port : ℤ)
      (log_level : String)
      → int_field s "PROMETHEUS_PORT_PRODUCER" unbounded (pos 9_100)
        ≡ valid prometheus_port_producer
      → int_field s "PROMETHEUS_PORT_CONSUMER" unbounded (pos 9_101)
        ≡ valid prometheus_port_consumer
      → int_field s "HEALTH_PORT" unbounded (pos 8_000) ≡ valid health_port
      → log_level_field s ≡ valid log_level
      → monitoring_settings s
        ≡ valid (record {
          prometheus_port_producer = prometheus_port_producer;
          prometheus_port_consumer = prometheus_port_consumer;
          health_port = health_port;
          log_level = log_level;
        })
  unfolding monitoring_settings ◌⊛◌
  monitoring_settings-built prometheus_port_producer prometheus_port_consumer health_port log_level
        e0 e1 e2 e3 =
      rw (e0, e1, e2, e3) refl

  pub monitoring_settings-valid :
      (v : MonitoringSettings)
      → monitoring_settings s ≡ valid v
      → IsGoodMonitoring × IsUsableMonitoring v
  unfolding monitoring_settings
  monitoring_settings-valid v h =
      let (h3, (log_level, e3)) = IsValid-parts _ _ (v, h) in
      let (h2, (health_port, e2)) = IsValid-parts _ _ h3 in
      let (h1, (prometheus_port_consumer, e1)) = IsValid-parts _ _ h2 in
      let (h0, (prometheus_port_producer, e0)) = IsValid-parts _ _ h1 in
      let same : record {
        prometheus_port_producer = prometheus_port_producer;
        prometheus_port_consumer = prometheus_port_consumer;
        health_port = health_port;
        log_level = log_level;
      }
          ≡ v =
        valid-injective (
          sym (
            monitoring_settings-built prometheus_port_producer prometheus_port_consumer health_port
              log_level e0 e1 e2 e3)
          ∙ h) in
      (
        record {
          prometheus_port_producer =
              (int_field_iff s "PROMETHEUS_PORT_PRODUCER" unbounded (pos 9_100)).0
                (prometheus_port_producer, e0);
          prometheus_port_consumer =
              (int_field_iff s "PROMETHEUS_PORT_CONSUMER" unbounded (pos 9_101)).0
                (prometheus_port_consumer, e1);
          health_port = (int_field_iff s "HEALTH_PORT" unbounded (pos 8_000)).0 (health_port, e2);
          log_level = (log_level_field_iff s).0 (log_level, e3);
        },
        subst IsUsableMonitoring same
            (record { log_level = log_level_field-IsLevel s log_level e3 }),
      )

  pub monitoring_settings-made : IsGoodMonitoring → IsValid (monitoring_settings s)
  monitoring_settings-made good =
      let (prometheus_port_producer, e0) =
        (int_field_iff s "PROMETHEUS_PORT_PRODUCER" unbounded (pos 9_100)).1
          good.prometheus_port_producer in
      let (prometheus_port_consumer, e1) =
        (int_field_iff s "PROMETHEUS_PORT_CONSUMER" unbounded (pos 9_101)).1
          good.prometheus_port_consumer in
      let (health_port, e2) =
        (int_field_iff s "HEALTH_PORT" unbounded (pos 8_000)).1 good.health_port in
      let (log_level, e3) = (log_level_field_iff s).1 good.log_level in
      (
        _,
        monitoring_settings-built prometheus_port_producer prometheus_port_consumer health_port
            log_level e0 e1 e2 e3,
      )
