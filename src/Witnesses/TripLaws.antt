-- ===== src/Witnesses/TripLaws.antt =====
-- The theorems on the trip pipeline, at concrete rows and trips.
use nyc_taxi.Base.{All, pos, ◌≡◌, refl, ◌↔◌, List, [], ◌∷◌}
use nyc_taxi.Python.{Dict, ok}
use nyc_taxi.Trip.Model.{to_dict}
use nyc_taxi.Trip.Service.{process_batch}
use nyc_taxi.Trip.Validator.{validate}
use nyc_taxi.Trip.Deduplicator.{generate_trip_id, deduplicate}
use nyc_taxi.Samples.{ten, later, rt, context, row, zero_row, trip, reparsed}
use nyc_taxi.Trip.Deduplicator.Split.{IsDistinct, IsMerge, Covered, deduplicate_split}
use nyc_taxi.Trip.Validator.Rules.{ObeysRules, validate_iff}
use nyc_taxi.Trip.Service.Sound.{IsSound, process_batch-IsSound}
use nyc_taxi.Trip.Service.Replayed.{parsed_trip-to_dict}
use nyc_taxi.Witnesses.TripTests.{run_batch}
use nyc_taxi.Ingestion.{}
use nyc_taxi.Ingestion.Single.{}

abbrev twice : List Dict
twice = row ∷ zero_row ∷ row ∷ []

deduplicate_split_example :
    IsDistinct [] (deduplicate (trip ∷ trip ∷ [])).0
    × IsMerge
        (deduplicate (trip ∷ trip ∷ [])).0
        (deduplicate (trip ∷ trip ∷ [])).1
        (trip ∷ trip ∷ [])
    × Covered [] (deduplicate (trip ∷ trip ∷ [])).0 (deduplicate (trip ∷ trip ∷ [])).1
deduplicate_split_example = deduplicate_split (trip ∷ trip ∷ [])

validate_iff_example :
    (validate rt (context.clock.now 0) trip ≡ ok tt) ↔ ObeysRules (context.clock.now 0) trip
validate_iff_example = validate_iff rt (context.clock.now 0) trip

process_batch-IsSound_example :
    All (IsSound context 0 twice) (process_batch context twice).0
    × IsDistinct [] (process_batch context twice).0
process_batch-IsSound_example = process_batch-IsSound context twice

parsed_trip-to_dict_example :
    (reparsed.vendor_id ≡ "Unknown")
    × (reparsed.trip_id ≡ generate_trip_id rt "Unknown" ten later (pos 132))
unfolding run_batch to_dict
parsed_trip-to_dict_example = parsed_trip-to_dict context 0 trip reparsed refl (λ s. refl) refl
