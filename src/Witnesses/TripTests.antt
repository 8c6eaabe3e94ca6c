-- ===== src/Witnesses/TripTests.antt =====
-- The trip pipeline on a small batch.
use nyc_taxi.Base.{length, ◌-ℤ◌, ◌+◌, ◌≡◌, refl, List, [], ◌∷◌, map}
use nyc_taxi.Python.{
  Dict, get?, get_or, set, float_negative, decimal_negative, truthy, instant, concat, join,
  is_domain_error, error_type, to_int, to_float, error_message,
}
use nyc_taxi.Timestamp.{parse_timestamp}
use nyc_taxi.Trip.Model.{
  unknown_zone, Trip, between, is_negative, money_of, distance_of, payment_money, payment_from_raw,
}
use nyc_taxi.Trip.Events.{InvalidTripDetected, stage_from_exception}
use nyc_taxi.Trip.Service.{
  parse_datetime, read_int, read_float, as_parse_error, location_ids, build_trip, Context, enrich,
  accepted, event_of, parsed_trip, checked_trip, process_row, duplicate_event, process_batch,
}
use nyc_taxi.Trip.Normalizer.{
  label, counted, code_of, normalise_vendor, normalise_payment_type, normalise_rate_code,
  normalise_passenger_count, normalise_store_and_fwd, normalize,
}
use nyc_taxi.Trip.Validator.{
  validate_duration, validate_passenger_count, validate_pickup_datetime, validate_money, validate,
}
use nyc_taxi.Trip.Deduplicator.{generate_trip_id, deduplicate}
use nyc_taxi.Samples.{context, row, zero_row, trip}
use nyc_taxi.Trip.Service.Accounting.{process_batch_accounts}

-- `process_batch` with all that it calls.
unfoldable pub run_batch : Context → List Dict → List Trip × List InvalidTripDetected
unfolding process_batch process_row parsed_trip checked_trip normalize normalise_vendor
    normalise_payment_type code_of normalise_rate_code normalise_passenger_count
    normalise_store_and_fwd counted label build_trip parse_datetime read_int read_float location_ids
    as_parse_error parse_timestamp payment_from_raw payment_money money_of distance_of between
    generate_trip_id enrich validate validate_duration validate_passenger_count
    validate_pickup_datetime validate_money is_negative to_int to_float get_or get? set instant ◌-ℤ◌
    truthy float_negative decimal_negative join deduplicate unknown_zone event_of is_domain_error
    stage_from_exception error_message error_type concat duplicate_event
run_batch = process_batch

process_row-row : process_row context 0 row ≡ accepted trip
unfolding run_batch
process_row-row = refl

process_batch-sample :
    (map (λ (t : Trip). t.trip_id) (process_batch context (row ∷ zero_row ∷ row ∷ [])).0
      ≡ trip.trip_id ∷ [])
    × (map
          (λ (e : InvalidTripDetected). e.error_type)
          (process_batch context (row ∷ zero_row ∷ row ∷ [])).1
        ≡ "InvalidTripDurationError" ∷ "WithinBatchDuplicate" ∷ [])
unfolding run_batch
process_batch-sample = (refl, refl)

process_batch_accounts_example :
    length (process_batch context (row ∷ zero_row ∷ row ∷ [])).0
      + length (process_batch context (row ∷ zero_row ∷ row ∷ [])).1
    ≡ 3
process_batch_accounts_example = process_batch_accounts context (row ∷ zero_row ∷ row ∷ [])
