-- ===== src/Settings/Environment.antt =====
-- The environments from which `get_settings` returns, and what it returns.
use nyc_taxi.Base.{◌≡◌, refl, ap, subst, ◌↔◌, none, some}
use nyc_taxi.Python.{Result, ok, err, >>=-elim, ok-injective}
use nyc_taxi.Settings.{
  Checked, valid, invalid, Source, Settings, or_validation_error, kafka_settings,
  clickhouse_settings, monitoring_settings, etl_settings, new_settings, remembered, get_settings,
}
use nyc_taxi.Settings.Kafka.{IsUsableKafka, IsGoodKafka, kafka_settings-valid, kafka_settings-made}
use nyc_taxi.Settings.Groups.{
  IsUsableMonitoring, IsGoodClickHouse, clickhouse_settings-valid, clickhouse_settings-made,
  IsGoodMonitoring, monitoring_settings-valid, monitoring_settings-made,
}
use nyc_taxi.Settings.Groups.Etl.{IsUsableEtl, IsGoodEtl, etl_settings-valid, etl_settings-made}

-- Each variable that is set has a value that is accepted: the integers are integers within their
-- bounds, and the log level is one of the five in any case of letters.
abbrev pub IsGood : Source → Type 0
IsGood s = IsGoodKafka s × IsGoodClickHouse s × IsGoodMonitoring s × IsGoodEtl s

abbrev pub IsUsable : Settings → Type 0
IsUsable v = IsUsableKafka v.kafka × IsUsableMonitoring v.monitoring × IsUsableEtl v.etl

or_validation_error-ok {ℓ} :
    {A : Type ℓ} (c : Checked A) (a : A) → or_validation_error c ≡ ok a → c ≡ valid a
or_validation_error-ok (valid b) a h = ap valid (ok-injective h)
or_validation_error-ok (invalid names) a h = absurd (cc (h))

new_settings-IsUsable : (s : Source) (v : Settings) → new_settings s ≡ ok v → IsGood s × IsUsable v
unfolding new_settings
new_settings-IsUsable s v h =
    >>=-elim (or_validation_error (kafka_settings s)) _ h λ kafka of_kafka after.
      >>=-elim (or_validation_error (clickhouse_settings s)) _ after
        λ clickhouse of_clickhouse more.
          >>=-elim (or_validation_error (monitoring_settings s)) _ more
            λ monitoring of_monitoring rest.
              >>=-elim (or_validation_error (etl_settings s)) _ rest λ etl of_etl made.
                let (k, usable_k) =
                  kafka_settings-valid s kafka
                    (or_validation_error-ok (kafka_settings s) kafka of_kafka) in
                let c =
                  clickhouse_settings-valid s clickhouse
                    (or_validation_error-ok (clickhouse_settings s) clickhouse of_clickhouse) in
                let (m, usable_m) =
                  monitoring_settings-valid s monitoring
                    (or_validation_error-ok (monitoring_settings s) monitoring of_monitoring) in
                let (e, usable_e) =
                  etl_settings-valid s etl (or_validation_error-ok (etl_settings s) etl of_etl) in
                ((k, c, m, e), subst IsUsable (ok-injective made) (usable_k, usable_m, usable_e))

new_settings-made : (s : Source) → IsGood s → (v : Settings) × (new_settings s ≡ ok v)
unfolding new_settings
new_settings-made s (k, c, m, e) =
    let (kafka, of_kafka) = kafka_settings-made s k in
    let (clickhouse, of_clickhouse) = clickhouse_settings-made s c in
    let (monitoring, of_monitoring) = monitoring_settings-made s m in
    let (etl, of_etl) = etl_settings-made s e in
    (
      record { kafka = kafka; clickhouse = clickhouse; monitoring = monitoring; etl = etl },
      rw (of_kafka, of_clickhouse, of_monitoring, of_etl) refl,
    )

remembered-ok : (r : Result Settings) (v : Settings) → (remembered r).0 ≡ ok v → r ≡ ok v
remembered-ok (ok w) v h = h
remembered-ok (err e) v h = absurd (cc (h))

-- When the first call of `get_settings` returns, the settings have their sizes and times within their
-- bounds and one of the five log levels, and a later call returns the same, whatever the variables are
-- then.
pub get_settings-IsUsable :
    (s later : Source) (v : Settings)
    → (get_settings s none).0 ≡ ok v
    → IsUsable v × (get_settings later (get_settings s none).1 ≡ (ok v, some v))
unfolding get_settings
get_settings-IsUsable s later v h =
    let made : new_settings s ≡ ok v = remembered-ok (new_settings s) v h in
    ((new_settings-IsUsable s v made).1, rw made refl)

-- The first call of `get_settings` returns just when each variable that is set has a value that is
-- accepted; and then what it returns has its sizes and times within their bounds and one of the five
-- log levels, and a later call returns the same, whatever the variables are then.
pub get_settings_iff :
    (s later : Source)
    → ((v : Settings) × ((get_settings s none).0 ≡ ok v)
        × IsUsable v
        × (get_settings later (get_settings s none).1 ≡ (ok v, some v)))
      ↔ IsGood s
unfolding get_settings
get_settings_iff s later = (
  λ (v, h, usable, again). (new_settings-IsUsable s v (remembered-ok (new_settings s) v h)).0,
  λ good.
      let (v, made) = new_settings-made s good in
      let returned : (get_settings s none).0 ≡ ok v = rw made refl in
      let (usable, again) = get_settings-IsUsable s later v returned in
      (v, returned, usable, again),
)
