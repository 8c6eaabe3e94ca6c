-- ===== src/Monitoring.antt =====
-- etl/infrastructure/monitoring: the health report (health.py) and the lag of the consumer group
-- (kafka_lag.py). What the clients answer is given.
pub mod Laws
pub mod Endpoint
pub mod Polling
pub mod Server
use nyc_taxi.Base.{
  if◌then◌else◌, ℤ, pos, negsuc, ◌+ℤ◌, ◌-ℤ◌, ltb_ℤ, String, Bool, true, false, ◌||◌, List, [], ◌∷◌,
  str_eq,
}
use nyc_taxi.Python.{Error, error_type, Result, ok, err, Runtime, error_message}

pub data HealthStatus : Type 0 where
  healthy : HealthStatus
  degraded : HealthStatus
  down : HealthStatus

pub record ComponentHealth : Type 0 where
  pub name : String
  pub status : HealthStatus
  pub detail : String

abbrev pub is_down : HealthStatus → Bool
is_down down = true
is_down v = false

abbrev pub is_degraded : HealthStatus → Bool
is_degraded degraded = true
is_degraded v = false

-- `status in statuses`, for the test of a status.
unfoldable pub any_status : (HealthStatus → Bool) → List ComponentHealth → Bool
any_status test [] = false
any_status test (c ∷ cs) = test c.status || any_status test cs

-- `HealthReport.overall`
unfoldable pub overall : List ComponentHealth → HealthStatus
unfolding any_status
overall cs =
    if any_status is_down cs then down else if any_status is_degraded cs then degraded else healthy

-- A client that is not configured, or what its call raised or returned.
pub data Answer : Type 0 where
  not_configured : Answer
  raised : Error → Answer
  answered : String → Answer

-- `_check_clickhouse` (with an empty detail) and `_check_kafka`
unfoldable pub check_component : Runtime → String → String → Answer → ComponentHealth
check_component rt name missing not_configured = record {
  name = name;
  status = degraded;
  detail = missing;
}
check_component rt name missing (raised e) = record {
  name = name;
  status = down;
  detail = error_message rt e;
}
check_component rt name missing (answered detail) = record {
  name = name;
  status = healthy;
  detail = detail;
}

-- `HealthChecker.check`
unfoldable pub check : Runtime → Answer → Answer → List ComponentHealth
unfolding check_component
check rt clickhouse kafka =
    check_component rt "clickhouse" "client not configured" clickhouse
    ∷ check_component rt "kafka" "bootstrap servers not configured" kafka
    ∷ []

pub record PartitionLag : Type 0 where
  pub topic : String
  pub partition : ℤ
  pub current_offset : ℤ
  pub committed_offset : ℤ

-- `PartitionLag.lag`
unfoldable pub lag : PartitionLag → ℤ
lag p =
    if ltb_ℤ p.committed_offset (pos 0)
    then p.current_offset
    else (let d = p.current_offset -ℤ p.committed_offset in if ltb_ℤ (pos 0) d then d else pos 0)

-- `sum(p.lag for p in lags)`, which is also `total_lag`
unfoldable pub total_lag : List PartitionLag → ℤ
unfolding lag
total_lag [] = pos 0
total_lag (p ∷ ps) = lag p +ℤ total_lag ps

-- The lags of the last successful poll, and the gauge.
pub record Monitor : Type 0 where
  pub partition_lags : List PartitionLag
  pub gauge : ℤ

-- `KafkaLagMonitor.poll`, given what `_fetch_partition_lags` returns or raises.
unfoldable pub poll : Result (List PartitionLag) → Monitor → Result ℤ × Monitor
poll (ok lags) m = (ok (total_lag lags), record { partition_lags = lags; gauge = total_lag lags })
poll (err e) m = (if str_eq (error_type e) "KafkaException" then ok (negsuc 0) else err e, m)
