-- ===== src/Trip/Normalizer.antt =====
-- etl/domain/trip/normalizers.py: TLC codes to labels, and defaults for missing fields.
pub mod Fields
pub mod Totality
use nyc_taxi.Base.{
  String, Option, none, some, List, [], ◌∷◌, ℤ, pos, eq_ℤ, ltb_ℤ, str_eq, if◌then◌else◌,
}
use nyc_taxi.Python.{
  Runtime, Value, null, bool, int, float, str, Dict, get_or, set, Result, ok, err, value_error,
  type_error, ◌>>=◌, to_int, or_raise,
}

abbrev pub unknown_label : String
unknown_label = "Unknown"

abbrev pub vendor_map : List (ℤ × String)
vendor_map = (pos 1, "Creative Mobile Technologies") ∷ (pos 2, "VeriFone Inc.") ∷ []

abbrev pub payment_type_map : List (ℤ × String)
payment_type_map =
    (pos 1, "Credit card")
    ∷ (pos 2, "Cash")
    ∷ (pos 3, "No charge")
    ∷ (pos 4, "Dispute")
    ∷ (pos 5, "Unknown")
    ∷ (pos 6, "Voided trip")
    ∷ []

abbrev pub rate_code_map : List (ℤ × String)
rate_code_map =
    (pos 1, "Standard")
    ∷ (pos 2, "JFK")
    ∷ (pos 3, "Newark")
    ∷ (pos 4, "Nassau or Westchester")
    ∷ (pos 5, "Negotiated fare")
    ∷ (pos 6, "Group ride")
    ∷ []

abbrev pub store_and_fwd_map : List (String × String)
store_and_fwd_map = ("Y", "Yes") ∷ ("N", "No") ∷ ("y", "Yes") ∷ ("n", "No") ∷ []

-- `table.get(code, UNKNOWN_LABEL)`
unfoldable pub label : List (ℤ × String) → ℤ → String
label [] code = unknown_label
label ((k, s) ∷ table) code = if eq_ℤ k code then s else label table code

unfoldable pub text_label : List (String × String) → String → String
text_label [] t = unknown_label
text_label ((k, s) ∷ table) t = if str_eq k t then s else text_label table t

-- `try: ... except (TypeError, ValueError): return None`; any other exception goes on.
unfoldable pub caught {ℓ} : {A : Type ℓ} → Result A → Result (Option A)
caught (ok a) = ok (some a)
caught (err (value_error m)) = ok none
caught (err (type_error m)) = ok none
caught (err e) = err e

-- `code is None` gives the label of an unknown code.
abbrev pub label_of : List (ℤ × String) → Option ℤ → String
label_of table none = unknown_label
label_of table (some code) = label table code

-- The passenger count of a code that was read: 1 where it is missing or not positive.
unfoldable pub counted : Option ℤ → ℤ
counted none = pos 1
counted (some n) = if ltb_ℤ (pos 0) n then n else pos 1

module _ (rt : Runtime) where
  -- `TripNormalizer._to_int`
  unfoldable pub code_of : Value → Result (Option ℤ)
  unfolding caught
  code_of (bool b) = caught (to_int rt (bool b))
  code_of (int n) = caught (to_int rt (int n))
  code_of (float x) = caught (to_int rt (float x))
  code_of (str s) = caught (to_int rt (str s))
  code_of v = ok none

  unfoldable pub normalise_vendor : Value → Result String
  normalise_vendor v = do code ← code_of v; ok (label_of vendor_map code)

  unfoldable pub normalise_payment_type : Value → Result String
  normalise_payment_type v = do code ← code_of v; ok (label_of payment_type_map code)

  -- `int(float(str(value)))`
  abbrev rate_code : Value → Result ℤ
  rate_code v = do
    x ← or_raise (value_error "could not convert string to float") (rt.float_of_text (rt.text_of v))
    to_int rt (float x)

  unfoldable pub normalise_rate_code : Value → Result String
  unfolding caught
  normalise_rate_code v = do code ← caught (rate_code v); ok (label_of rate_code_map code)

  unfoldable pub normalise_passenger_count : Value → Result ℤ
  normalise_passenger_count null = ok (pos 1)
  normalise_passenger_count v = do code ← code_of v; ok (counted code)

  unfoldable pub normalise_store_and_fwd : Value → String
  unfolding text_label
  normalise_store_and_fwd null = unknown_label
  normalise_store_and_fwd v = text_label store_and_fwd_map (rt.text_of v)

  unfoldable pub normalize : Dict → Result Dict
  normalize raw = do
    vendor ← normalise_vendor (get_or "vendor_id" null raw)
    payment ← normalise_payment_type (get_or "payment_type" null raw)
    rate ← normalise_rate_code (get_or "rate_code_id" null raw)
    passengers ← normalise_passenger_count (get_or "passenger_count" null raw)
    ok (
        set "store_and_fwd_flag"
          (str (normalise_store_and_fwd (get_or "store_and_fwd_flag" null raw)))
          (set "passenger_count" (int passengers) (
            set "rate_code" (str rate)
              (set "payment_type" (str payment) (set "vendor_id" (str vendor) raw)))))
