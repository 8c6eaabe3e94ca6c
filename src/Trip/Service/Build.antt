-- ===== src/Trip/Service/Build.antt =====
-- `_build_trip` and its helpers (etl/domain/trip/services.py).
use nyc_taxi.Base.{ℤ, pos, String, Option, none, some, [], ◌∷◌}
use nyc_taxi.Python.{
  Float, Datetime, Value, null, bool, int, float, str, Dict, get?, get_or, concat, trip_parse_error,
  value_error, key_error, type_error, Result, ok, err, ◌>>=◌, or_raise, Runtime, to_int, to_float,
  error_message,
}
use nyc_taxi.Timestamp.{parse_timestamp}
use nyc_taxi.Trip.Model.{Trip, between, distance_of, payment_from_raw}
use nyc_taxi.Trip.Deduplicator.{generate_trip_id}

-- `except (TypeError, ValueError) as exc: raise ValueError(message) from exc`
unfoldable pub as_value_error {ℓ} : {A : Type ℓ} → String → Result A → Result A
as_value_error m (err (type_error n)) = err (value_error m)
as_value_error m (err (value_error n)) = err (value_error m)
as_value_error m r = r

-- `except (TypeError, ValueError): return None`
unfoldable pub none_if_unreadable {ℓ} : {A : Type ℓ} → Result A → Result (Option A)
none_if_unreadable (ok a) = ok (some a)
none_if_unreadable (err (type_error n)) = ok none
none_if_unreadable (err (value_error n)) = ok none
none_if_unreadable (err e) = err e

module _ (rt : Runtime) where
  -- `_parse_datetime`
  unfoldable pub parse_datetime : Value → String → Result Datetime
  parse_datetime v field_name = do
    parsed ← parse_timestamp rt v
    or_raise (trip_parse_error field_name v "cannot convert to datetime") parsed

  abbrev pub not_an_int : Value → String
  not_an_int v = concat ("cannot convert " ∷ rt.repr_of v ∷ " to int" ∷ [])

  -- `_to_int`
  unfoldable pub read_int : Value → Result ℤ
  unfolding as_value_error
  read_int (bool b) = as_value_error (not_an_int (bool b)) (to_int rt (bool b))
  read_int (int n) = as_value_error (not_an_int (int n)) (to_int rt (int n))
  read_int (float x) = as_value_error (not_an_int (float x)) (to_int rt (float x))
  read_int (str s) = as_value_error (not_an_int (str s)) (to_int rt (str s))
  read_int v = err (value_error (not_an_int v))

  -- `_to_float`
  unfoldable pub read_float : Value → Result (Option Float)
  unfolding none_if_unreadable
  read_float (bool b) = none_if_unreadable (to_float rt (bool b))
  read_float (int n) = none_if_unreadable (to_float rt (int n))
  read_float (float x) = none_if_unreadable (to_float rt (float x))
  read_float (str s) = none_if_unreadable (to_float rt (str s))
  read_float v = ok none

  -- `normalised[key]`
  unfoldable pub required : String → Dict → Result Value
  unfolding get?
  required key d = or_raise (key_error key) (get? key d)

  -- `except (KeyError, ValueError) as exc: raise TripParseError("location_id", ...) from exc`
  unfoldable pub as_parse_error {ℓ} : {A : Type ℓ} → Dict → Result A → Result A
  as_parse_error d (err (key_error k)) = err (
      trip_parse_error "location_id" (get_or "pickup_location_id" null d)
        (error_message rt (key_error k)))
  as_parse_error d (err (value_error m)) =
      err (trip_parse_error "location_id" (get_or "pickup_location_id" null d) m)
  as_parse_error d r = r

  -- The body of that `try`.
  unfoldable pub location_ids : Dict → Result (ℤ × ℤ)
  unfolding read_int required
  location_ids d = do
    pickup ← read_int (← required "pickup_location_id" d)
    dropoff ← read_int (← required "dropoff_location_id" d)
    ok (pickup, dropoff)

  -- `_build_trip`; `at` is the default of `ingested_at`.
  unfoldable pub build_trip : Dict → String → String → Datetime → Result Trip
  build_trip d batch_id source_file at = do
    pickup ← parse_datetime (get_or "pickup_datetime" null d) "pickup_datetime"
    dropoff ← parse_datetime (get_or "dropoff_datetime" null d) "dropoff_datetime"
    ids ← as_parse_error d (location_ids d)
    passengers ← read_int (get_or "passenger_count" (int (pos 1)) d)
    distance ← distance_of rt (← read_float (get_or "trip_distance" null d))
    duration ← between pickup dropoff
    payment ← payment_from_raw rt d
    ok (record {
      trip_id =
          generate_trip_id rt (rt.text_of (get_or "vendor_id" (str "") d)) pickup dropoff ids.0;
      vendor_id = rt.text_of (get_or "vendor_id" (str "Unknown") d);
      pickup_datetime = pickup;
      dropoff_datetime = dropoff;
      passenger_count = passengers;
      distance = distance;
      duration = duration;
      pickup_location_id = ids.0;
      dropoff_location_id = ids.1;
      payment = payment;
      rate_code = rt.text_of (get_or "rate_code" (str "Unknown") d);
      store_and_fwd_flag = rt.text_of (get_or "store_and_fwd_flag" (str "Unknown") d);
      batch_id = batch_id;
      source_file = source_file;
      pickup_zone = "Unknown";
      dropoff_zone = "Unknown";
      pickup_borough = "Unknown";
      dropoff_borough = "Unknown";
      ingested_at = at;
    })
