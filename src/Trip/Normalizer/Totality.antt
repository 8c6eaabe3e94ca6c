-- ===== src/Trip/Normalizer/Totality.antt =====
-- When `normalize` returns, and what it raises otherwise.
use nyc_taxi.Base.{
  Option-cases, ℤ, pos, String, ◌≡◌, refl, ◌≢◌, inl, inr, Bool, true, false, Option, none, some,
  arith,
}
use nyc_taxi.Python.{
  truncated, set, Float, nan, infinity, finite, Value, null, bool, int, float, str, decimal,
  datetime, list, dict, Dict, get_or, overflow_error, ok, err, Runtime, to_int,
}
use nyc_taxi.Trip.Normalizer.{
  code_of, normalise_vendor, normalise_payment_type, normalise_rate_code, normalise_passenger_count,
  normalise_store_and_fwd, normalize, label_of, vendor_map, payment_type_map, rate_code_map,
  counted,
}

abbrev pub NotInfinite : Value → Type 0
NotInfinite v = (s : Bool) → v ≢ float (infinity s)

module _ (rt : Runtime) where
  -- Only an infinite float makes `int()` raise what `_to_int` does not catch.
  code_of-total : (v : Value) → NotInfinite v → (o : Option ℤ) × (code_of rt v ≡ ok o)
  unfolding code_of to_int
  code_of-total null h = (none, refl)
  code_of-total (bool true) h = (some (pos 1), refl)
  code_of-total (bool false) h = (some (pos 0), refl)
  code_of-total (int n) h = (some n, refl)
  code_of-total (float nan) h = (none, refl)
  code_of-total (float (infinity s)) h = absurd (h s refl)
  code_of-total (float (finite s m e)) h = (some _, refl)
  code_of-total (str s) h = elim (Option-cases (rt.int_of_text s)) [
    | inl missing ↦ (none, ground arith)
    | inr (n, e) ↦ (some n, ground arith)
  ]
  code_of-total (decimal d) h = (none, refl)
  code_of-total (datetime d) h = (none, refl)
  code_of-total (list vs) h = (none, refl)
  code_of-total (dict d) h = (none, refl)

  -- `float(str(value))` is not infinite.
  abbrev pub RateNotInfinite : Value → Type 0
  RateNotInfinite v = (s : Bool) → rt.float_of_text (rt.text_of v) ≢ some (infinity s)

  rate-total : (v : Value) → RateNotInfinite v → (l : String) × (normalise_rate_code rt v ≡ ok l)
  unfolding normalise_rate_code to_int
  rate-total v h = read (rt.float_of_text (rt.text_of v)) refl
    where
      read :
          (o : Option Float)
          → rt.float_of_text (rt.text_of v) ≡ o
          → (l : String) × (normalise_rate_code rt v ≡ ok l)
      read none e = ("Unknown", rw e refl)
      read (some nan) e = ("Unknown", rw e refl)
      read (some (infinity s)) e = absurd (h s e)
      read (some (finite s m x)) e = (label_of rate_code_map (some (truncated s m x)), rw e refl)

  passengers-total : (v : Value) → NotInfinite v → (n : ℤ) × (normalise_passenger_count rt v ≡ ok n)
  unfolding normalise_passenger_count
  passengers-total null h = (pos 1, refl)
  passengers-total v h = let (o, e) = code_of-total v h in (counted o, rw e)

  -- `normalize` returns a row for every raw row in which vendor_id, payment_type and
  -- passenger_count are not infinite floats and rate_code_id does not read as one; whatever else
  -- these fields hold, nothing is raised.
  pub normalize_total :
      (raw : Dict)
      → NotInfinite (get_or "vendor_id" null raw)
      → NotInfinite (get_or "payment_type" null raw)
      → NotInfinite (get_or "passenger_count" null raw)
      → RateNotInfinite (get_or "rate_code_id" null raw)
      → (d : Dict) × (normalize rt raw ≡ ok d)
  unfolding normalize normalise_vendor normalise_payment_type
  normalize_total raw hv hp hn hr =
      let (v, ev) = code_of-total (get_or "vendor_id" null raw) hv in
      let (p, ep) = code_of-total (get_or "payment_type" null raw) hp in
      let (r, er) = rate-total (get_or "rate_code_id" null raw) hr in
      let (n, en) = passengers-total (get_or "passenger_count" null raw) hn in
      (
        set "store_and_fwd_flag"
            (str (normalise_store_and_fwd rt (get_or "store_and_fwd_flag" null raw)))
            (set "passenger_count" (int n) (
              set "rate_code" (str r) (
                set "payment_type" (str (label_of payment_type_map p))
                  (set "vendor_id" (str (label_of vendor_map v)) raw)))),
        rw (ev, ep, er, en) refl,
      )

  -- An infinite vendor_id makes `normalize` raise OverflowError, which `_to_int` does not catch.
  pub normalize-infinite_vendor :
      (raw : Dict) (s : Bool)
      → get_or "vendor_id" null raw ≡ float (infinity s)
      → normalize rt raw ≡ err (overflow_error "cannot convert float infinity to integer")
  unfolding normalize normalise_vendor code_of to_int
  normalize-infinite_vendor raw s h = rw h
