-- ===== src/Trip/Normalizer/Fields.antt =====
-- The fields that `normalize` writes, and those that it leaves alone.
use nyc_taxi.Base.{ℤ, pos, ◌≤ℤ◌, String, ◌≡◌, ◌≢◌, Option, none, some, arith, eq_iff}
use nyc_taxi.Python.{
  Value, null, int, str, Dict, get?, get_or, set, Result, ok, err, ◌>>=◌, >>=-parts, Runtime,
  get?-set,
}
use nyc_taxi.Trip.Normalizer.{
  normalise_vendor, normalise_payment_type, normalise_rate_code, normalise_passenger_count,
  normalise_store_and_fwd, normalize, code_of, counted,
}

-- `normalise_passenger_count` never gives less than one passenger.
counted_pos : (o : Option ℤ) → pos 1 ≤ℤ counted o
unfolding counted
counted_pos none = omega arith
counted_pos (some n) = ground arith

module _ (rt : Runtime) where
  normalise_passenger_count_pos :
      (v : Value) (n : ℤ) → normalise_passenger_count rt v ≡ ok n → pos 1 ≤ℤ n
  unfolding normalise_passenger_count
  normalise_passenger_count_pos null n h = ground arith
  normalise_passenger_count_pos v n h = counted_case (code_of rt v) h
    where
      counted_case : (r : Result (Option ℤ)) → (r >>= λ code. ok (counted code)) ≡ ok n → pos 1 ≤ℤ n
      counted_case (ok o) e = ground (arith, counted_pos o, e)
      counted_case (err x) e = cc

  -- What a normalised row holds under the five normalised keys, and that no other key changes.
  pub record IsNormalised (raw d : Dict) : Type 0 where
    pub vendor : String
    pub payment : String
    pub rate : String
    pub passengers : ℤ
    pub vendor_read : normalise_vendor rt (get_or "vendor_id" null raw) ≡ ok vendor
    pub payment_read : normalise_payment_type rt (get_or "payment_type" null raw) ≡ ok payment
    pub rate_read : normalise_rate_code rt (get_or "rate_code_id" null raw) ≡ ok rate
    pub passengers_read :
        normalise_passenger_count rt (get_or "passenger_count" null raw) ≡ ok passengers
    pub written :
        d
        ≡ set "store_and_fwd_flag"
            (str (normalise_store_and_fwd rt (get_or "store_and_fwd_flag" null raw)))
            (set "passenger_count" (int passengers) (
              set "rate_code"
                (str rate)
                (set "payment_type" (str payment) (set "vendor_id" (str vendor) raw))))

  pub normalize-IsNormalised : (raw d : Dict) → normalize rt raw ≡ ok d → IsNormalised raw d
  unfolding normalize
  normalize-IsNormalised raw d h =
      let (v, hv, h₁) = >>=-parts (normalise_vendor rt (get_or "vendor_id" null raw)) _ h in
      let (p, hp, h₂) =
        >>=-parts (normalise_payment_type rt (get_or "payment_type" null raw)) _ h₁ in
      let (r, hr, h₃) = >>=-parts (normalise_rate_code rt (get_or "rate_code_id" null raw)) _ h₂ in
      let (n, hn, h₄) =
        >>=-parts (normalise_passenger_count rt (get_or "passenger_count" null raw)) _ h₃ in
      record {
        vendor = v;
        payment = p;
        rate = r;
        passengers = n;
        vendor_read = hv;
        payment_read = hp;
        rate_read = hr;
        passengers_read = hn;
        written = cc;
      }

  pub get?-normalised-vendor :
      {raw d : Dict} (n : IsNormalised raw d) → get? "vendor_id" d ≡ some (str n.vendor)
  get?-normalised-vendor n = rw n.written (simp get?-set)

  pub get?-normalised-passengers :
      {raw d : Dict} (n : IsNormalised raw d) → get? "passenger_count" d ≡ some (int n.passengers)
  get?-normalised-passengers n = rw n.written (simp get?-set)

  -- Of a row that `normalize` accepts, every key but the five normalised ones keeps its value, the
  -- passenger count is an int of at least 1, and vendor, payment type, rate code and flag are texts.
  pub normalize_fields :
      (raw d : Dict)
      → normalize rt raw ≡ ok d
      → ((n : ℤ) × (get? "passenger_count" d ≡ some (int n)) × (pos 1 ≤ℤ n))
        × ((v : String) × (get? "vendor_id" d ≡ some (str v)))
        × ((v : String) × (get? "payment_type" d ≡ some (str v)))
        × ((v : String) × (get? "rate_code" d ≡ some (str v)))
        × ((v : String) × (get? "store_and_fwd_flag" d ≡ some (str v)))
        × ((k : String)
            → k ≢ "vendor_id"
            → k ≢ "payment_type"
            → k ≢ "rate_code"
            → k ≢ "passenger_count"
            → k ≢ "store_and_fwd_flag"
            → get? k d ≡ get? k raw)
  normalize_fields raw d h =
      let n = normalize-IsNormalised raw d h in
      (
        (
          n.passengers,
          get?-normalised-passengers n,
          normalise_passenger_count_pos (get_or "passenger_count" null raw) n.passengers
              n.passengers_read,
        ),
        (n.vendor, get?-normalised-vendor n),
        (n.payment, rw n.written (simp get?-set)),
        (n.rate, rw n.written (simp get?-set)),
        (
          normalise_store_and_fwd rt (get_or "store_and_fwd_flag" null raw),
          rw n.written (simp get?-set),
        ),
        λ k a b c e f. rw n.written (
            simp get?-set (
              ground (
                arith,
                eq_iff "vendor_id" k,
                eq_iff "payment_type" k,
                eq_iff "rate_code" k,
                eq_iff "passenger_count" k,
                eq_iff "store_and_fwd_flag" k,
              ))),
      )
