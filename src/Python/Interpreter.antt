-- ===== src/Python/Interpreter.antt =====
-- What the program takes from the interpreter and from pandas and does not implement: how numbers
-- and texts are read and written, SHA-256, and the parsing of timestamps. `none` is the exception
-- that the comment names.
use nyc_taxi.Base.{String, Bool, true, false, Option, [], ◌∷◌, ℤ, pos}
use nyc_taxi.Python.Data.{
  Value, bool, int, float, str, decimal, datetime, signed, scaled, Float, nan, infinity, finite,
  Decimal, Datetime, truncated,
}
use nyc_taxi.Python.Exceptions.{
  Error, domain_error, invalid_trip_duration, negative_money, invalid_passenger_count,
  invalid_pickup_datetime, zone_not_found, trip_parse_error, value_error, key_error, overflow_error,
  type_error, runtime_error, invalid_operation, other, Result, ok, err, or_raise, concat,
}

pub record Runtime : Type 0 where
  -- str(v), repr(v)
  pub text_of : Value → String
  pub repr_of : Value → String
  -- int(s), float(s), Decimal(s): ValueError, ValueError, InvalidOperation
  pub int_of_text : String → Option ℤ
  pub float_of_text : String → Option Float
  pub decimal_of_text : String → Option Decimal
  -- float(n): OverflowError
  pub float_of_int : ℤ → Option Float
  -- float(d)
  pub float_of_decimal : Decimal → Float
  pub isoformat : Datetime → String
  -- hashlib.sha256(s.encode("utf-8")).hexdigest()
  pub sha256 : String → String
  -- datetime.fromtimestamp(v / 1000, tz=UTC), datetime.fromtimestamp(v, tz=UTC) on an int or float
  pub fromtimestamp_millis : Value → Result Datetime
  pub fromtimestamp : Value → Result Datetime
  -- the test `if pd.isna(v)`
  pub isna : Value → Result Bool
  -- pd.Timestamp(v).to_pydatetime(): `none` where it raises or is NaT
  pub pd_timestamp : Value → Option Datetime

module _ (rt : Runtime) where
  -- `int(v)`; a bool is an int.
  unfoldable pub to_int : Value → Result ℤ
  unfolding truncated
  to_int (bool true) = ok (pos 1)
  to_int (bool false) = ok (pos 0)
  to_int (int n) = ok n
  to_int (float nan) = err (value_error "cannot convert float NaN to integer")
  to_int (float (infinity s)) = err (overflow_error "cannot convert float infinity to integer")
  to_int (float (finite s m e)) = ok (truncated s m e)
  to_int (str s) =
      or_raise
        (value_error
          (concat ("invalid literal for int() with base 10: " ∷ rt.repr_of (str s) ∷ [])))
        (rt.int_of_text s)
  to_int (decimal Decimal.nan) = err (value_error "cannot convert NaN to integer")
  to_int (decimal (Decimal.infinity s)) = err (overflow_error "cannot convert Infinity to integer")
  to_int (decimal (Decimal.finite s m e)) = ok (signed s (scaled 10 m e))
  to_int v =
      err (type_error "int() argument must be a string, a bytes-like object or a real number")

  -- `float(v)` where `v` is an int, a float or a str.
  unfoldable pub to_float : Value → Result Float
  to_float (bool true) = ok (finite false 1 (pos 0))
  to_float (bool false) = ok (finite false 0 (pos 0))
  to_float (int n) =
      or_raise (overflow_error "int too large to convert to float") (rt.float_of_int n)
  to_float (float x) = ok x
  to_float (str s) =
      or_raise
        (value_error (concat ("could not convert string to float: " ∷ rt.repr_of (str s) ∷ [])))
        (rt.float_of_text s)
  to_float v = err (type_error "float() argument must be a string or a real number")

  -- `str(exc)`
  unfoldable pub error_message : Error → String
  error_message (domain_error m) = m
  error_message (invalid_trip_duration s) = concat (
      "Trip duration "
      ∷ rt.text_of (int s)
      ∷ "s is invalid. Must be > 0 and < 86400 (24 hours)."
      ∷ [])
  error_message (negative_money f a) = concat (
      "Fare field '"
      ∷ f
      ∷ "' has negative value "
      ∷ rt.text_of (float a)
      ∷ ". All monetary amounts must be >= 0."
      ∷ [])
  error_message (invalid_passenger_count c) =
      concat
        ("Passenger count " ∷ rt.text_of (int c) ∷ " is invalid. Must be between 1 and 9." ∷ [])
  error_message (invalid_pickup_datetime d r) =
      concat ("Pickup datetime '" ∷ rt.text_of (datetime d) ∷ "' is invalid: " ∷ r ∷ [])
  error_message (zone_not_found i) =
      concat ("Zone not found for location_id=" ∷ rt.text_of (int i) ∷ "." ∷ [])
  error_message (trip_parse_error f v r) =
      concat ("Cannot parse field '" ∷ f ∷ "' with value '" ∷ rt.text_of v ∷ "': " ∷ r ∷ [])
  error_message (value_error m) = m
  error_message (key_error k) = rt.repr_of (str k)
  error_message (overflow_error m) = m
  error_message (type_error m) = m
  error_message (runtime_error m) = m
  error_message invalid_operation = "[<class 'decimal.InvalidOperation'>]"
  error_message (other n m) = m
