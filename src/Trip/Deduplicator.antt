-- ===== src/Trip/Deduplicator.antt =====
-- etl/domain/trip/deduplicator.py: the trip id, and the split of a batch
-- into first occurrences and duplicates.
pub mod Split
use nyc_taxi.Base.{if◌then◌else◌, ℤ, String, Bool, true, false, List, [], ◌∷◌, str_eq}
use nyc_taxi.Python.{Datetime, int, join, Runtime}
use nyc_taxi.Trip.Model.{Trip}

-- `hash_fields`: SHA-256 of the fields joined by a bar.
unfoldable pub hash_fields : Runtime → List String → String
unfolding join
hash_fields rt values = rt.sha256 (join "|" values)

-- `generate_trip_id`
unfoldable pub generate_trip_id : Runtime → String → Datetime → Datetime → ℤ → String
unfolding hash_fields
generate_trip_id rt vendor_id pickup dropoff pickup_location_id = hash_fields rt (
    vendor_id
    ∷ rt.isoformat pickup
    ∷ rt.isoformat dropoff
    ∷ rt.text_of (int pickup_location_id)
    ∷ [])

-- `s in seen`
unfoldable pub seen_before : String → List String → Bool
seen_before s [] = false
seen_before s (t ∷ seen) = if str_eq s t then true else seen_before s seen

-- The loop of `deduplicate`: (unique, duplicates).
unfoldable pub deduplicate_from : List String → List Trip → List Trip × List Trip
unfolding seen_before
deduplicate_from seen [] = ([], [])
deduplicate_from seen (t ∷ trips) = elim (seen_before t.trip_id seen) [
  | true ↦ let (unique, duplicates) = deduplicate_from seen trips in (unique, t ∷ duplicates)
  | false ↦
      let (unique, duplicates) = deduplicate_from (t.trip_id ∷ seen) trips in
      (t ∷ unique, duplicates)
]

unfoldable pub deduplicate : List Trip → List Trip × List Trip
unfolding deduplicate_from
deduplicate trips = deduplicate_from [] trips
