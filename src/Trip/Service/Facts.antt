-- ===== src/Trip/Service/Facts.antt =====
-- What holds of every trip that `_build_trip` returns.
use nyc_taxi.Base.{refl, subst, pos, String, ◌≡◌, false, Option, some, arith}
use nyc_taxi.Python.{
  >>=-elim, ok-injective, Float, Decimal, Datetime, null, int, str, Dict, get_or, decimal_negative,
  ok, >>=-parts, Runtime,
}
use nyc_taxi.Trip.Model.{
  Money, Payment, Trip, between, new_money, decimal_of, money_of, distance_of, amount_value,
  payment_money, payment_from_raw,
}
use nyc_taxi.Trip.Validator.{money_components, validate_money}
use nyc_taxi.Trip.Validator.Rules.{NoneNegative, check_money_complete}
use nyc_taxi.Trip.Deduplicator.{generate_trip_id}
use nyc_taxi.Trip.Service.Build.{
  parse_datetime, read_int, read_float, location_ids, as_parse_error, build_trip,
}

module _ (rt : Runtime) where
  new_money_sound :
      (d : Decimal) (f : String) (m : Money)
      → new_money rt d f ≡ ok m
      → decimal_negative m.amount ≡ some false
  unfolding new_money
  new_money_sound d f m h = ground arith

  payment_money_sound :
      (raw : Dict) (key : String) (m : Money)
      → payment_money rt raw key ≡ ok m
      → decimal_negative m.amount ≡ some false
  unfolding payment_money money_of
  payment_money_sound raw key m h =
      let (d, _, made) = >>=-parts (decimal_of rt (amount_value rt key raw) key) _ h in
      new_money_sound d key m made

  payment_from_raw_sound :
      (raw : Dict) (p : Payment)
      → payment_from_raw rt raw ≡ ok p
      → NoneNegative (money_components p)
  unfolding payment_from_raw
  payment_from_raw_sound raw p h = >>=-elim (payment_money rt raw "fare_amount") _ h λ a₁ e₁ h₁.
      >>=-elim (payment_money rt raw "extra") _ h₁ λ a₂ e₂ h₂.
        >>=-elim (payment_money rt raw "mta_tax") _ h₂ λ a₃ e₃ h₃.
          >>=-elim (payment_money rt raw "tip_amount") _ h₃ λ a₄ e₄ h₄.
            >>=-elim (payment_money rt raw "tolls_amount") _ h₄ λ a₅ e₅ h₅.
              >>=-elim (payment_money rt raw "improvement_surcharge") _ h₅ λ a₆ e₆ h₆.
                >>=-elim (payment_money rt raw "congestion_surcharge") _ h₆ λ a₇ e₇ h₇.
                  >>=-elim (payment_money rt raw "airport_fee") _ h₇ λ a₈ e₈ h₈.
                    >>=-elim (payment_money rt raw "total_amount") _ h₈ λ a₉ e₉ h₉.
                      subst (λ (q : Payment). NoneNegative (money_components q)) (ok-injective h₉)
                        (
                          payment_money_sound raw "fare_amount" a₁ e₁,
                          (
                            payment_money_sound raw "extra" a₂ e₂,
                            (
                              payment_money_sound raw "mta_tax" a₃ e₃,
                              (
                                payment_money_sound raw "tip_amount" a₄ e₄,
                                (
                                  payment_money_sound raw "tolls_amount" a₅ e₅,
                                  (
                                    payment_money_sound raw "improvement_surcharge" a₆ e₆,
                                    (
                                      payment_money_sound raw "congestion_surcharge" a₇ e₇,
                                      (
                                        payment_money_sound raw "airport_fee" a₈ e₈,
                                        (payment_money_sound raw "total_amount" a₉ e₉, tt),
                                      ),
                                    ),
                                  ),
                                ),
                              ),
                            ),
                          ),
                        )

  -- Each part of the trip is what `_build_trip` reads in the normalised row under its key.
  pub record IsBuilt (d : Dict) (batch_id source_file : String) (t : Trip) : Type 0 where
    pub pickup_read :
        parse_datetime rt (get_or "pickup_datetime" null d) "pickup_datetime" ≡ ok t.pickup_datetime
    pub dropoff_read :
        parse_datetime rt (get_or "dropoff_datetime" null d) "dropoff_datetime"
        ≡ ok t.dropoff_datetime
    pub ids_read :
        as_parse_error rt d (location_ids rt d) ≡ ok (t.pickup_location_id, t.dropoff_location_id)
    pub passengers_read :
        read_int rt (get_or "passenger_count" (int (pos 1)) d) ≡ ok t.passenger_count
    pub distance_read :
        (x : Option Float) × (read_float rt (get_or "trip_distance" null d) ≡ ok x)
        × (distance_of rt x ≡ ok t.distance)
    pub lasted : between t.pickup_datetime t.dropoff_datetime ≡ ok t.duration
    pub paid : payment_from_raw rt d ≡ ok t.payment
    pub hashed :
        t.trip_id
        ≡ generate_trip_id rt
            (rt.text_of (get_or "vendor_id" (str "") d))
            t.pickup_datetime
            t.dropoff_datetime
            t.pickup_location_id
    pub vendor : t.vendor_id ≡ rt.text_of (get_or "vendor_id" (str "Unknown") d)
    pub rate : t.rate_code ≡ rt.text_of (get_or "rate_code" (str "Unknown") d)
    pub flag : t.store_and_fwd_flag ≡ rt.text_of (get_or "store_and_fwd_flag" (str "Unknown") d)
    pub batch : t.batch_id ≡ batch_id
    pub source : t.source_file ≡ source_file

  pub build_trip-IsBuilt :
      (d : Dict) (batch_id source_file : String) (at : Datetime) (t : Trip)
      → build_trip rt d batch_id source_file at ≡ ok t
      → IsBuilt d batch_id source_file t
  unfolding build_trip
  build_trip-IsBuilt d batch_id source_file at t h =
      >>=-elim (parse_datetime rt (get_or "pickup_datetime" null d) "pickup_datetime") _ h
        λ p ep h₁.
          >>=-elim (parse_datetime rt (get_or "dropoff_datetime" null d) "dropoff_datetime") _ h₁
            λ q eq h₂. >>=-elim (as_parse_error rt d (location_ids rt d)) _ h₂ λ i ei h₃.
              >>=-elim (read_int rt (get_or "passenger_count" (int (pos 1)) d)) _ h₃ λ n en h₄.
                >>=-elim (read_float rt (get_or "trip_distance" null d)) _ h₄ λ x ex h₅.
                  >>=-elim (distance_of rt x) _ h₅ λ m em h₆. >>=-elim (between p q) _ h₆ λ s es h₇.
                    >>=-elim (payment_from_raw rt d) _ h₇ λ y ey h₈.
                      subst (IsBuilt d batch_id source_file) (ok-injective h₈) (record {
                        pickup_read = ep;
                        dropoff_read = eq;
                        ids_read = ei;
                        passengers_read = en;
                        distance_read = (x, ex, em);
                        lasted = es;
                        paid = ey;
                        hashed = refl;
                        vendor = refl;
                        rate = refl;
                        flag = refl;
                        batch = refl;
                        source = refl;
                      })

  -- The money check of `TripValidator` never fails on a trip that `_build_trip` returns: an amount
  -- below zero, or not a number, has stopped it before.
  pub validate_money-build_trip :
      (d : Dict) (batch_id source_file : String) (at : Datetime) (t : Trip)
      → build_trip rt d batch_id source_file at ≡ ok t
      → validate_money rt t ≡ ok tt
  unfolding validate_money
  validate_money-build_trip d batch_id source_file at t h =
      check_money_complete rt (money_components t.payment)
        (payment_from_raw_sound d t.payment (build_trip-IsBuilt d batch_id source_file at t h).paid)
