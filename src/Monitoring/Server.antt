-- ===== src/Monitoring/Server.antt =====
-- etl/entrypoints/health_server.py: the checker that the requests share, the endpoints, and `main`.
use nyc_taxi.Base.{
  if◌then◌else◌, ℕ, String, ◌≡◌, refl, ◌≢◌, Bool, true, false, Option, none, some, arith, ap, ◌∙◌,
  str_eq,
}
use nyc_taxi.Python.{Error, Dict, empty, entry, str, Result, ok, err, ok-injective, Runtime}
use nyc_taxi.Settings.{Source, Settings, Cache, get_settings}
use nyc_taxi.Monitoring.{
  Answer, not_configured, raised, answered, check, check_component, overall, any_status,
}
use nyc_taxi.Monitoring.Endpoint.{health, report_dict}

-- A HealthChecker: whether it has a client of ClickHouse, and the servers of Kafka.
pub record Checker : Type 0 where
  pub has_client : Bool
  pub kafka_servers : String

-- `_checker`, and the cache of the settings.
pub record App : Type 0 where
  pub checker : Option Checker
  pub cache : Cache

-- What a request meets: the variables of the environment, what `ClickHouseClient(...)` and `ping` raise, if
-- anything, and the detail that the topics of Kafka give.
pub record World : Type 0 where
  pub source : Source
  pub client_raises : Option Error
  pub ping_raises : Option Error
  pub topics : Result String

abbrev pub is_made : Option Error → Bool
is_made none = true
is_made (some e) = false

abbrev pub checker_with : Option Error → Result Settings × Cache → Result Checker × App
checker_with client_raises (err e, cache) = (err e, record { checker = none; cache = cache })
checker_with client_raises (ok v, cache) =
    let made : Checker = record {
      has_client = is_made client_raises;
      kafka_servers = v.kafka.bootstrap_servers;
    } in
    (ok made, record { checker = some made; cache = cache })

abbrev pub checker_or_new : World → Option Checker → Cache → Result Checker × App
checker_or_new w (some c) cache = (ok c, record { checker = some c; cache = cache })
checker_or_new w none cache = checker_with w.client_raises (get_settings w.source cache)

-- `_get_checker`
unfoldable pub get_checker : World → App → Result Checker × App
unfolding get_settings
get_checker w a = checker_or_new w a.checker a.cache

abbrev pub pinged : Option Error → Answer
pinged none = answered ""
pinged (some e) = raised e

abbrev pub listed : Result String → Answer
listed (ok detail) = answered detail
listed (err e) = raised e

abbrev pub clickhouse_answer : Checker → World → Answer
clickhouse_answer c w = if c.has_client then pinged w.ping_raises else not_configured

abbrev pub kafka_answer : Checker → World → Answer
kafka_answer c w = if str_eq c.kafka_servers "" then not_configured else listed w.topics

abbrev pub respond : Runtime → World → Result Checker × App → Result (Dict × ℕ) × App
respond rt w (ok c, a) = (ok (health rt (clickhouse_answer c w) (kafka_answer c w)), a)
respond rt w (err e, a) = (err e, a)

-- `GET /health`, with the checker that it gets.
unfoldable pub get_health : Runtime → World → App → Result (Dict × ℕ) × App
unfolding get_checker health
get_health rt w a = respond rt w (get_checker w a)

-- `GET /ready`
unfoldable pub ready : Dict × ℕ
ready = (entry "status" (str "ready") empty, 200)

abbrev pub exit_of : Option Error → ℕ
exit_of none = 0
exit_of (some e) = 1

-- `main`: the exit code, by what `uvicorn.run` raises; an exception of `get_settings` is not caught.
unfoldable pub main : Source → Cache → Option Error → Result ℕ
unfolding get_settings
main source cache run_raises = elim (get_settings source cache).0 [
  | ok v ↦ ok (exit_of run_raises)
  | err e ↦ err e
]

not_configured-ne-ok : (rt : Runtime) (kafka : Answer) → (health rt not_configured kafka).1 ≢ 200
unfolding health check check_component report_dict overall any_status
not_configured-ne-ok rt not_configured h = absurd (omega (arith, h))
not_configured-ne-ok rt (raised e) h = absurd (omega (arith, h))
not_configured-ne-ok rt (answered k) h = absurd (omega (arith, h))

-- When ClickHouseClient raised at the request that made the checker, the client is never made again: no
-- later request is answered with 200, whatever it meets, and the checker stays.
pub get_health-stale :
    (rt : Runtime) (w : World) (a : App) (c : Checker) (body : Dict) (code : ℕ)
    → a.checker ≡ some c
    → c.has_client ≡ false
    → (get_health rt w a).0 ≡ ok (body, code)
    → (code ≢ 200) × ((get_health rt w a).1.checker ≡ some c)
unfolding get_health get_checker
get_health-stale rt w a c body code made without returned =
    let response : health rt (clickhouse_answer c w) (kafka_answer c w) ≡ (body, code) =
      ok-injective (rw (made, get_health) at returned) in
    let unseen : health rt not_configured (kafka_answer c w) ≡ (body, code) =
      rw without at response in
    (
      λ fine. not_configured-ne-ok rt (kafka_answer c w) (ap (λ r. r.1) unseen ∙ fine),
      rw (made, get_health) refl,
    )
