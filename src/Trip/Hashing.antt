-- ===== src/Trip/Hashing.antt =====
-- etl/utils/hashing.py, beside the copy of it in etl/domain/trip/deduplicator.py.
use Prim.Native.String.{slice}
use nyc_taxi.Base.{ap, ℤ, String, ◌≡◌, refl, List, [], ◌∷◌, map}
use nyc_taxi.Python.{Datetime, Value, int, str, join, Runtime}
use nyc_taxi.Trip.Deduplicator.{generate_trip_id}
use nyc_taxi.Trip.Deduplicator

abbrev pub texts : Runtime → List Value → List String
texts rt values = map rt.text_of values

-- `hash_fields`
unfoldable pub hash_fields : Runtime → List Value → String
unfolding join
hash_fields rt values = rt.sha256 (join "|" (texts rt values))

-- `hash_trip`
unfoldable pub hash_trip : Runtime → String → Datetime → Datetime → ℤ → String
unfolding hash_fields
hash_trip rt vendor_id pickup dropoff pickup_location_id = hash_fields rt (
    str vendor_id
    ∷ str (rt.isoformat pickup)
    ∷ str (rt.isoformat dropoff)
    ∷ int pickup_location_id
    ∷ [])

-- `hash_batch`: the first 16 of the hexadecimal digits.
unfoldable pub hash_batch : Runtime → String → String → ℤ → String
unfolding hash_fields
hash_batch rt batch_id source_file sequence =
    slice (hash_fields rt (str batch_id ∷ str source_file ∷ int sequence ∷ [])) 0 16

-- `str(s)` is `s` for a str.
abbrev pub KeepsText : Runtime → Type 0
KeepsText rt = (s : String) → rt.text_of (str s) ≡ s

-- The two copies give the same id for the same natural key.
pub hash_trip-generate_trip_id :
    (rt : Runtime) (vendor_id : String) (pickup dropoff : Datetime) (pickup_location_id : ℤ)
    → KeepsText rt
    → hash_trip rt vendor_id pickup dropoff pickup_location_id
      ≡ generate_trip_id rt vendor_id pickup dropoff pickup_location_id
unfolding hash_trip hash_fields generate_trip_id nyc_taxi.Trip.Deduplicator.hash_fields
hash_trip-generate_trip_id rt vendor_id pickup dropoff pickup_location_id keeps =
    ap (λ fields. rt.sha256 (join "|" fields)) same
  where
    same :
        texts rt (
          str vendor_id
          ∷ str (rt.isoformat pickup)
          ∷ str (rt.isoformat dropoff)
          ∷ int pickup_location_id
          ∷ [])
        ≡ vendor_id
          ∷ rt.isoformat pickup
          ∷ rt.isoformat dropoff
          ∷ rt.text_of (int pickup_location_id)
          ∷ []
    same = rw (keeps vendor_id, keeps (rt.isoformat pickup), keeps (rt.isoformat dropoff)) refl
