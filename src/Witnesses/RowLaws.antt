-- ===== src/Witnesses/RowLaws.antt =====
-- The theorems on the rows, at concrete rows.
use nyc_taxi.Base.{ℤ, pos, ◌≤ℤ◌, String, ◌≡◌, refl, ◌≢◌, some}
use nyc_taxi.Python.{int, str, Dict, get?, set, ok}
use nyc_taxi.Trip.Normalizer.{normalize}
use nyc_taxi.Samples.{rt, row, vendor_label}
use nyc_taxi.Trip.Normalizer.Fields.{normalize_fields}
use nyc_taxi.Trip.Normalizer.Totality.{normalize_total}
use nyc_taxi.Witnesses.TripTests.{run_batch}

-- `row` after `normalize`.
abbrev normalised_row : Dict
normalised_row = set "store_and_fwd_flag" (str "Unknown") (
    set "passenger_count" (int (pos 1)) (
      set "rate_code" (str "Unknown")
        (set "payment_type" (str "Unknown") (set "vendor_id" (str vendor_label) row))))

normalize_fields_example :
    ((n : ℤ) × (get? "passenger_count" normalised_row ≡ some (int n)) × (pos 1 ≤ℤ n))
    × ((v : String) × (get? "vendor_id" normalised_row ≡ some (str v)))
    × ((v : String) × (get? "payment_type" normalised_row ≡ some (str v)))
    × ((v : String) × (get? "rate_code" normalised_row ≡ some (str v)))
    × ((v : String) × (get? "store_and_fwd_flag" normalised_row ≡ some (str v)))
    × ((k : String)
        → k ≢ "vendor_id"
        → k ≢ "payment_type"
        → k ≢ "rate_code"
        → k ≢ "passenger_count"
        → k ≢ "store_and_fwd_flag"
        → get? k normalised_row ≡ get? k row)
unfolding run_batch
normalize_fields_example = normalize_fields rt row normalised_row refl

normalize_total_example : (d : Dict) × (normalize rt row ≡ ok d)
unfolding run_batch
normalize_total_example = normalize_total rt row (λ s e. cc) (λ s e. cc) (λ s e. cc) (λ s e. cc)
