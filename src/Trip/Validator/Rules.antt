-- ===== src/Trip/Validator/Rules.antt =====
-- What a trip that `validate` lets through satisfies, and what it raises otherwise.
use nyc_taxi.Base.{
  All, ℤ, pos, ◌-ℤ◌, ◌≤ℤ◌, ◌<ℤ◌, String, ◌≡◌, refl, ◌↔◌, false, some, List, [], ◌∷◌, arith,
}
use nyc_taxi.Python.{decimal_negative, instant, ok, Runtime}
use nyc_taxi.Trip.Model.{Money, Trip, is_negative}
use nyc_taxi.Trip.Validator.{
  tlc_min_date, tolerance, validate_duration, validate_passenger_count, validate_pickup_datetime,
  money_components, check_money, validate_money, validate,
}

abbrev pub NoneNegative : List (String × Money) → Type 0
NoneNegative = All (λ m. decimal_negative m.1.amount ≡ some false)

-- The business rules, for the time `now`.
pub record ObeysRules (now : ℤ) (t : Trip) : Type 0 where
  pub positive_duration : pos 0 <ℤ t.duration.seconds
  pub below_a_day : t.duration.seconds <ℤ pos 86_400
  pub some_passenger : pos 1 ≤ℤ t.passenger_count
  pub at_most_nine : t.passenger_count ≤ℤ pos 9
  pub since_2009 : tlc_min_date ≤ℤ instant t.pickup_datetime
  pub not_in_future : instant t.pickup_datetime -ℤ now ≤ℤ tolerance
  pub no_negative_money : NoneNegative (money_components t.payment)

validate_duration_sound :
    (t : Trip)
    → validate_duration t ≡ ok tt
    → (pos 0 <ℤ t.duration.seconds) × (t.duration.seconds <ℤ pos 86_400)
unfolding validate_duration
validate_duration_sound t h = ground arith

validate_passenger_count_sound :
    (t : Trip)
    → validate_passenger_count t ≡ ok tt
    → (pos 1 ≤ℤ t.passenger_count) × (t.passenger_count ≤ℤ pos 9)
unfolding validate_passenger_count
validate_passenger_count_sound t h = ground arith

validate_pickup_datetime_sound :
    (now : ℤ) (t : Trip)
    → validate_pickup_datetime now t ≡ ok tt
    → (tlc_min_date ≤ℤ instant t.pickup_datetime) × (instant t.pickup_datetime -ℤ now ≤ℤ tolerance)
unfolding validate_pickup_datetime
validate_pickup_datetime_sound now t h = ground arith

pub check_money_sound :
    (rt : Runtime) (ms : List (String × Money)) → check_money rt ms ≡ ok tt → NoneNegative ms
unfolding check_money is_negative
check_money_sound rt [] h = tt
check_money_sound rt ((name, m) ∷ ms) h = ground (arith, check_money_sound rt ms)

pub check_money_complete :
    (rt : Runtime) (ms : List (String × Money)) → NoneNegative ms → check_money rt ms ≡ ok tt
unfolding check_money is_negative
check_money_complete rt [] h = refl
check_money_complete rt ((name, m) ∷ ms) h = rw h.0 (check_money_complete rt ms h.1)

-- The checks that passed, when all did.
validate-parts :
    (rt : Runtime) (now : ℤ) (t : Trip)
    → validate rt now t ≡ ok tt
    → (validate_duration t ≡ ok tt)
      × (validate_passenger_count t ≡ ok tt)
      × (validate_pickup_datetime now t ≡ ok tt)
      × (validate_money rt t ≡ ok tt)
unfolding validate
validate-parts rt now t h = ground arith

validate_sound : (rt : Runtime) (now : ℤ) (t : Trip) → validate rt now t ≡ ok tt → ObeysRules now t
unfolding validate_money
validate_sound rt now t h =
    let (d, p, w, m) = validate-parts rt now t h in
    let ds = validate_duration_sound t d in
    let ps = validate_passenger_count_sound t p in
    let ws = validate_pickup_datetime_sound now t w in
    record {
      positive_duration = ds.0;
      below_a_day = ds.1;
      some_passenger = ps.0;
      at_most_nine = ps.1;
      since_2009 = ws.0;
      not_in_future = ws.1;
      no_negative_money = check_money_sound rt (money_components t.payment) m;
    }

validate_duration_complete :
    (t : Trip)
    → pos 0 <ℤ t.duration.seconds
    → t.duration.seconds <ℤ pos 86_400
    → validate_duration t ≡ ok tt
unfolding validate_duration
validate_duration_complete t h k = ground arith

validate_passenger_count_complete :
    (t : Trip)
    → pos 1 ≤ℤ t.passenger_count
    → t.passenger_count ≤ℤ pos 9
    → validate_passenger_count t ≡ ok tt
unfolding validate_passenger_count
validate_passenger_count_complete t h k = ground arith

validate_pickup_datetime_complete :
    (now : ℤ) (t : Trip)
    → tlc_min_date ≤ℤ instant t.pickup_datetime
    → instant t.pickup_datetime -ℤ now ≤ℤ tolerance
    → validate_pickup_datetime now t ≡ ok tt
unfolding validate_pickup_datetime
validate_pickup_datetime_complete now t h k = ground arith

validate_complete :
    (rt : Runtime) (now : ℤ) (t : Trip) → ObeysRules now t → validate rt now t ≡ ok tt
unfolding validate validate_money
validate_complete rt now t r =
    rw
      (
        validate_duration_complete t r.positive_duration r.below_a_day,
        validate_passenger_count_complete t r.some_passenger r.at_most_nine,
        validate_pickup_datetime_complete now t r.since_2009 r.not_in_future,
      )
      (check_money_complete rt (money_components t.payment) r.no_negative_money)

-- `validate` returns exactly on the trips that obey the business rules: a duration above 0 s and
-- below 86400 s, 1 to 9 passengers, a pickup not before 2009-01-01 UTC and at most a day ahead of
-- `now`, and no amount that is negative or not a number.
pub validate_iff :
    (rt : Runtime) (now : ℤ) (t : Trip) → (validate rt now t ≡ ok tt) ↔ ObeysRules now t
validate_iff rt now t = (validate_sound rt now t, validate_complete rt now t)
