-- ===== src/Monitoring/Endpoint.antt =====
-- `HealthReport.as_dict` of health.py, and the responses of etl/entrypoints/health_server.py.
use nyc_taxi.Base.{◌==◌, if◌then◌else◌, ℕ, String, ◌≡◌, refl, some, List, [], ◌∷◌}
use nyc_taxi.Python.{str, dict, Dict, empty, entry, get?, set, Runtime}
use nyc_taxi.Monitoring.{
  HealthStatus, healthy, degraded, down, ComponentHealth, any_status, overall, Answer,
  not_configured, raised, answered, check_component, check,
}

-- The values of the enumeration.
abbrev pub status_value : HealthStatus → String
status_value healthy = "ok"
status_value degraded = "degraded"
status_value down = "down"

-- The dict of the components by name, onto the entries made so far.
unfoldable pub components_dict : List ComponentHealth → Dict → Dict
unfolding set
components_dict [] made = made
components_dict (c ∷ cs) made = components_dict cs (
    set c.name
      (dict (entry "status" (str (status_value c.status)) (entry "detail" (str c.detail) empty)))
      made)

-- `HealthReport.as_dict`
unfoldable pub report_dict : List ComponentHealth → Dict
unfolding overall components_dict
report_dict cs =
    entry "status" (str (status_value (overall cs)))
      (entry "components" (dict (components_dict cs empty)) empty)

-- `status_code_map`
abbrev pub status_code : HealthStatus → ℕ
status_code healthy = 200
status_code degraded = 207
status_code down = 503

-- `GET /health`: the body and the status code.
unfoldable pub health : Runtime → Answer → Answer → Dict × ℕ
unfolding check report_dict overall
health rt clickhouse kafka =
    let report = check rt clickhouse kafka in (report_dict report, status_code (overall report))

-- What the documentation of the endpoint says of two components.
abbrev pub documented_code : Answer → Answer → ℕ
documented_code (raised e) kafka = 503
documented_code clickhouse (raised e) = 503
documented_code (answered c) (answered k) = 200
documented_code clickhouse kafka = 207

abbrev pub documented_status : ℕ → String
documented_status n = if n == 200 then "ok" else if n == 207 then "degraded" else "down"

-- The answer to `GET /health` is 503 with the status "down" when a component raised, 200 with "ok" when
-- both answered, and else 207 with "degraded".
pub health_lem :
    (rt : Runtime) (clickhouse kafka : Answer)
    → let response = health rt clickhouse kafka in
      (response.1 ≡ documented_code clickhouse kafka)
      × (get? "status" response.0
          ≡ some (str (documented_status (documented_code clickhouse kafka))))
unfolding health check check_component report_dict overall any_status get?
health_lem rt not_configured not_configured = (refl, refl)
health_lem rt not_configured (raised e) = (refl, refl)
health_lem rt not_configured (answered k) = (refl, refl)
health_lem rt (raised e) not_configured = (refl, refl)
health_lem rt (raised e) (raised f) = (refl, refl)
health_lem rt (raised e) (answered k) = (refl, refl)
health_lem rt (answered c) not_configured = (refl, refl)
health_lem rt (answered c) (raised e) = (refl, refl)
health_lem rt (answered c) (answered k) = (refl, refl)
