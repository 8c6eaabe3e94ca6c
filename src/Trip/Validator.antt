-- ===== src/Trip/Validator.antt =====
-- etl/domain/trip/validators.py: the business rules, in the order of the source.
pub mod Rules
use nyc_taxi.Base.{ℤ, pos, ◌-ℤ◌, ltb_ℤ, leb_ℤ, String, ◌||◌, List, [], ◌∷◌}
use nyc_taxi.Python.{
  instant, invalid_trip_duration, negative_money, invalid_passenger_count, invalid_pickup_datetime,
  Result, ok, ◌>>=◌, ◌>>◌, raise_if, Runtime,
}
use nyc_taxi.Trip.Model.{Money, Payment, Trip, is_negative}

-- datetime(2009, 1, 1, tzinfo=UTC) in microseconds since the epoch.
abbrev pub tlc_min_date : ℤ
tlc_min_date = pos 1_230_768_000_000_000

abbrev pub max_trip_duration_seconds : ℤ
max_trip_duration_seconds = pos 86_400

abbrev pub min_passenger_count : ℤ
min_passenger_count = pos 1

abbrev pub max_passenger_count : ℤ
max_passenger_count = pos 9

-- One day, in microseconds.
abbrev pub tolerance : ℤ
tolerance = pos 86_400_000_000

unfoldable pub validate_duration : Trip → Result (Unit {0})
validate_duration t =
    let seconds = t.duration.seconds in
    raise_if (leb_ℤ seconds (pos 0) || leb_ℤ max_trip_duration_seconds seconds)
      (invalid_trip_duration seconds)

unfoldable pub validate_passenger_count : Trip → Result (Unit {0})
validate_passenger_count t =
    let count = t.passenger_count in
    raise_if (ltb_ℤ count min_passenger_count || ltb_ℤ max_passenger_count count)
      (invalid_passenger_count count)

-- `now` is what `datetime.now(UTC)` returns.
unfoldable pub validate_pickup_datetime : ℤ → Trip → Result (Unit {0})
validate_pickup_datetime now t = do
  let pickup = instant t.pickup_datetime
  raise_if (ltb_ℤ pickup tlc_min_date)
      (invalid_pickup_datetime t.pickup_datetime "before TLC minimum date 2009-01-01")
  raise_if (ltb_ℤ tolerance (pickup -ℤ now))
      (invalid_pickup_datetime t.pickup_datetime "is in the future")

abbrev pub money_components : Payment → List (String × Money)
money_components p =
    ("fare_amount", p.fare_amount)
    ∷ ("extra", p.extra)
    ∷ ("mta_tax", p.mta_tax)
    ∷ ("tip_amount", p.tip_amount)
    ∷ ("tolls_amount", p.tolls_amount)
    ∷ ("improvement_surcharge", p.improvement_surcharge)
    ∷ ("congestion_surcharge", p.congestion_surcharge)
    ∷ ("airport_fee", p.airport_fee)
    ∷ ("total_amount", p.total_amount)
    ∷ []

-- The loop of `_validate_money`.
unfoldable pub check_money : Runtime → List (String × Money) → Result (Unit {0})
check_money rt [] = ok tt
check_money rt ((name, money) ∷ rest) = do
  negative ← is_negative money.amount
  raise_if negative (negative_money name (rt.float_of_decimal money.amount))
  check_money rt rest

unfoldable pub validate_money : Runtime → Trip → Result (Unit {0})
unfolding check_money
validate_money rt t = check_money rt (money_components t.payment)

unfoldable pub validate : Runtime → ℤ → Trip → Result (Unit {0})
validate rt now t = do
  validate_duration t
  validate_passenger_count t
  validate_pickup_datetime now t
  validate_money rt t
