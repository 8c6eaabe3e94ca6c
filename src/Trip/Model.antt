-- ===== src/Trip/Model.antt =====
-- etl/domain/trip/models.py: the value objects, Zone and Trip.
use nyc_taxi.Base.{
  if◌then◌else◌, ℤ, pos, negsuc, sub_ℕ, ◌-ℤ◌, ◌+◌, ◌/◌, String, Bool, false, Option, none, some, [],
  ◌∷◌,
}
use nyc_taxi.Python.{
  ◌>>=◌, ◌>>◌, Float, finite, Decimal, Datetime, Value, null, int, float, str, decimal, Dict, empty,
  entry, get_or, float_negative, decimal_negative, truthy, concat, negative_money, trip_parse_error,
  value_error, type_error, invalid_operation, Result, ok, err, raise_if, or_raise, Runtime,
}

pub record Money : Type 0 where
  pub amount : Decimal
  pub field_name : String

pub record Distance : Type 0 where
  pub miles : Float

pub record Duration : Type 0 where
  pub seconds : ℤ

pub record Payment : Type 0 where
  pub payment_type : String
  pub fare_amount : Money
  pub extra : Money
  pub mta_tax : Money
  pub tip_amount : Money
  pub tolls_amount : Money
  pub improvement_surcharge : Money
  pub congestion_surcharge : Money
  pub airport_fee : Money
  pub total_amount : Money

pub record Zone : Type 0 where
  pub location_id : ℤ
  pub borough : String
  pub zone : String
  pub service_zone : String

-- `Zone.unknown`
unfoldable pub unknown_zone : ℤ → Zone
unknown_zone location_id = record {
  location_id = location_id;
  borough = "Unknown";
  zone = "Unknown";
  service_zone = "Unknown";
}

pub record Trip : Type 0 where
  pub trip_id : String
  pub vendor_id : String
  pub pickup_datetime : Datetime
  pub dropoff_datetime : Datetime
  pub passenger_count : ℤ
  pub distance : Distance
  pub duration : Duration
  pub pickup_location_id : ℤ
  pub dropoff_location_id : ℤ
  pub payment : Payment
  pub rate_code : String
  pub store_and_fwd_flag : String
  pub batch_id : String
  pub source_file : String
  pub pickup_zone : String
  pub dropoff_zone : String
  pub pickup_borough : String
  pub dropoff_borough : String
  pub ingested_at : Datetime

-- `Trip.enrich_zones`
unfoldable pub enrich_zones : Trip → Zone → Zone → Trip
enrich_zones t pickup dropoff = record t {
  pickup_zone = pickup.zone;
  pickup_borough = pickup.borough;
  dropoff_zone = dropoff.zone;
  dropoff_borough = dropoff.borough;
}

-- `int(timedelta.total_seconds())` drops the fraction, towards 0.
abbrev pub whole_seconds : ℤ → ℤ
whole_seconds (pos n) = pos (n / 1_000_000)
whole_seconds (negsuc n) = sub_ℕ 0 ((n + 1) / 1_000_000)

-- Python refuses to subtract a naive from an aware datetime.
unfoldable pub subtract : Datetime → Datetime → Result ℤ
subtract a b = both a.offset b.offset
  where
    both : Option ℤ → Option ℤ → Result ℤ
    both none none = ok (a.wall -ℤ b.wall)
    both (some o) (some p) = ok (a.wall -ℤ o -ℤ (b.wall -ℤ p))
    both _ _ = err (type_error "can't subtract offset-naive and offset-aware datetimes")

-- `Duration.between`
unfoldable pub between : Datetime → Datetime → Result Duration
unfolding subtract
between pickup dropoff = do
  delta ← subtract dropoff pickup
  ok (record { seconds = whole_seconds delta })

-- `self.amount < Decimal("0")`
unfoldable pub is_negative : Decimal → Result Bool
unfolding decimal_negative
is_negative d = or_raise invalid_operation (decimal_negative d)

module _ (rt : Runtime) where
  -- `Money.__post_init__`
  unfoldable pub new_money : Decimal → String → Result Money
  unfolding is_negative
  new_money amount field = do
    negative ← is_negative amount
    raise_if negative (negative_money field (rt.float_of_decimal amount))
    ok (record { amount = amount; field_name = field })

  -- The Decimal that `Money.of` makes of its argument.
  unfoldable pub decimal_of : Value → String → Result Decimal
  decimal_of (decimal d) field = ok d
  decimal_of v field =
      or_raise (trip_parse_error field v "not a valid decimal") (rt.decimal_of_text (rt.text_of v))

  unfoldable pub money_of : Value → String → Result Money
  unfolding new_money decimal_of
  money_of v field = do d ← decimal_of v field; new_money d field

  -- `Distance.of`
  unfoldable pub distance_of : Option Float → Result Distance
  unfolding float_negative
  distance_of none = ok (record { miles = finite false 0 (pos 0) })
  distance_of (some x) = do
    raise_if (float_negative x)
        (value_error (concat ("Distance cannot be negative, got " ∷ rt.text_of (float x) ∷ [])))
    ok (record { miles = x })

  -- `raw.get(key) or 0`
  abbrev pub amount_value : String → Dict → Value
  amount_value key raw = let v = get_or key null raw in if truthy v then v else int (pos 0)

  -- `_money` of `Payment.from_raw`
  unfoldable pub payment_money : Dict → String → Result Money
  unfolding truthy get_or
  payment_money raw key = money_of (amount_value key raw) key

  -- `Payment.from_raw`
  unfoldable pub payment_from_raw : Dict → Result Payment
  payment_from_raw raw = do
    fare ← payment_money raw "fare_amount"
    extra_amount ← payment_money raw "extra"
    mta ← payment_money raw "mta_tax"
    tip ← payment_money raw "tip_amount"
    tolls ← payment_money raw "tolls_amount"
    improvement ← payment_money raw "improvement_surcharge"
    congestion ← payment_money raw "congestion_surcharge"
    airport ← payment_money raw "airport_fee"
    total ← payment_money raw "total_amount"
    ok (record {
      payment_type = rt.text_of (get_or "payment_type" (str "Unknown") raw);
      fare_amount = fare;
      extra = extra_amount;
      mta_tax = mta;
      tip_amount = tip;
      tolls_amount = tolls;
      improvement_surcharge = improvement;
      congestion_surcharge = congestion;
      airport_fee = airport;
      total_amount = total;
    })

  -- `float(money)`
  abbrev pub money_value : Money → Value
  money_value m = float (rt.float_of_decimal m.amount)

  -- `Trip.to_dict`
  unfoldable pub to_dict : Trip → Dict
  to_dict t =
      let p = t.payment in
      entry "trip_id" (str t.trip_id) (
        entry "vendor_id" (str t.vendor_id) (
          entry "pickup_datetime" (str (rt.isoformat t.pickup_datetime)) (
            entry "dropoff_datetime" (str (rt.isoformat t.dropoff_datetime)) (
              entry "trip_duration_seconds" (int t.duration.seconds) (
                entry "passenger_count" (int t.passenger_count) (
                  entry "trip_distance" (float t.distance.miles) (
                    entry "pickup_location_id" (int t.pickup_location_id) (
                      entry "dropoff_location_id" (int t.dropoff_location_id) (
                        entry "pickup_zone" (str t.pickup_zone) (
                          entry "dropoff_zone" (str t.dropoff_zone) (
                            entry "pickup_borough" (str t.pickup_borough) (
                              entry "dropoff_borough" (str t.dropoff_borough) (
                                entry "fare_amount" (money_value p.fare_amount) (
                                  entry "extra" (money_value p.extra) (
                                    entry "mta_tax" (money_value p.mta_tax) (
                                      entry "tip_amount" (money_value p.tip_amount) (
                                        entry "tolls_amount" (money_value p.tolls_amount) (
                                          entry "improvement_surcharge"
                                            (money_value p.improvement_surcharge)
                                            (entry "congestion_surcharge"
                                              (money_value p.congestion_surcharge)
                                              (entry "airport_fee" (money_value p.airport_fee) (
                                                entry "total_amount" (money_value p.total_amount) (
                                                  entry "payment_type" (str p.payment_type) (
                                                    entry "rate_code" (str t.rate_code) (
                                                      entry "store_and_fwd_flag"
                                                        (str t.store_and_fwd_flag)
                                                        (entry "ingested_at"
                                                          (str (rt.isoformat t.ingested_at))
                                                          (entry "batch_id" (str t.batch_id) (
                                                            entry "source_file" (str t.source_file)
                                                            empty)))))))))))))))))))))))))))
