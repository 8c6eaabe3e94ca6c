-- ===== src/Trip/Service/Replayed.antt =====
-- What becomes of a duplicate that was dead-lettered as `to_dict` of its trip and is run through the
-- pipeline again.
use nyc_taxi.Base.{ℕ, String, ◌≡◌, refl, none}
use nyc_taxi.Python.{null, str, get_or, ok, >>=-elim, Runtime, to_int, get_or-of_get?}
use nyc_taxi.Trip.Model.{Trip, to_dict}
use nyc_taxi.Trip.Deduplicator.{generate_trip_id}
use nyc_taxi.Trip.Normalizer.{normalize, normalise_vendor, code_of}
use nyc_taxi.Trip.Normalizer.Fields.{normalize-IsNormalised, get?-normalised-vendor}
use nyc_taxi.Trip.Service.Facts.{build_trip-IsBuilt}
use nyc_taxi.Trip.Service.{Context, parsed_trip}

module _ (rt : Runtime) where
  vendor-to_dict : (t : Trip) → get_or "vendor_id" null (to_dict rt t) ≡ str t.vendor_id
  unfolding to_dict get_or
  vendor-to_dict t = refl

  normalise_vendor-label :
      (s : String) → rt.int_of_text s ≡ none → normalise_vendor rt (str s) ≡ ok "Unknown"
  unfolding normalise_vendor code_of to_int
  normalise_vendor-label s h = rw h

module _ (c : Context) where
  open c use {runtime}

  -- When the raw row of a duplicate is `to_dict` of its trip, its vendor label does not read as an
  -- int and str() leaves texts alone, a trip parsed from it has the vendor "Unknown", and the hash
  -- of "Unknown", and not of the label, as its id.
  pub parsed_trip-to_dict :
      (i : ℕ) (t t' : Trip)
      → runtime.int_of_text t.vendor_id ≡ none
      → ((s : String) → runtime.text_of (str s) ≡ s)
      → parsed_trip c i (to_dict runtime t) ≡ ok t'
      → (t'.vendor_id ≡ "Unknown")
        × (t'.trip_id
            ≡ generate_trip_id runtime "Unknown" t'.pickup_datetime t'.dropoff_datetime
                t'.pickup_location_id)
  unfolding parsed_trip
  parsed_trip-to_dict i t t' label text h =
      >>=-elim (normalize runtime (to_dict runtime t)) _ h λ d ed h₁.
        let b =
          build_trip-IsBuilt runtime d c.batch_id c.source_file (c.clock.ingested_at i) t' h₁ in
        let n = normalize-IsNormalised runtime (to_dict runtime t) d ed in
        let v = get?-normalised-vendor runtime n in
        let unknown : n.vendor ≡ "Unknown" = cc (
          n.vendor_read,
          vendor-to_dict runtime t,
          normalise_vendor-label runtime t.vendor_id label,
        ) in
        (
          cc (b.vendor, text "Unknown", unknown, get_or-of_get? "vendor_id" (str "Unknown") _ d v),
          cc (b.hashed, text "Unknown", unknown, get_or-of_get? "vendor_id" (str "") _ d v),
        )
