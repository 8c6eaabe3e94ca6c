-- ===== src/Zones/Enrichment.antt =====
-- etl/application/services/enrichment_service.py, with `enrich_batch` of etl/domain/trip/enrichers.py,
-- over the repository of zones. The trips are changed in place: their list is the state.
use nyc_taxi.Base.{
  ℤ, String, ◌≡◌, refl, ap, ◌∙◌, subst, not, Option, none, some, List, [], ◌∷◌, map,
}
use nyc_taxi.Python.{Dict, runtime_error, Result, ok, err, raise_if}
use nyc_taxi.Trip.Model.{Zone, Trip, enrich_zones}
use nyc_taxi.Trip.Service.{enrich}
use nyc_taxi.Zones.{Text, ZoneRepository, load_rows, stored, load, or_unknown, get_by_id}
use nyc_taxi.Zones.Lookup.{last_zone, get_by_id-load}

-- `TripEnricher.enrich_batch`: what an exception comes to is left as it was, with all behind it.
unfoldable pub enrich_batch : (ℤ → Result Zone) → List Trip → Result (Unit {0}) × List Trip
unfolding enrich
enrich_batch get_zone [] = (ok tt, [])
enrich_batch get_zone (t ∷ trips) =
    let rest = enrich_batch get_zone trips in
    elim (enrich get_zone t) [
      | ok enriched ↦ (rest.0, enriched ∷ rest.1)
      | err e ↦ (err e, t ∷ trips)
    ]

-- `ensure_loaded`
unfoldable pub ensure_loaded : ZoneRepository → Result (Unit {0})
ensure_loaded r = raise_if (not r.loaded) (
    runtime_error
      "ZoneRepository is not loaded. Call zone_repository.load() during startup sequence.")

-- `reload`: a repository that has no `load` stays as it is.
unfoldable pub reload :
    Option (ZoneRepository → Result (Unit {0}) × ZoneRepository)
    → ZoneRepository
    → Result (Unit {0}) × ZoneRepository
reload none r = (ok tt, r)
reload (some method) r = method r

module _ (x : Text) where
  -- The trip with the labels of the last rows for its two ids.
  abbrev pub labelled : List Dict → Trip → Trip
  labelled rows t =
      enrich_zones t (or_unknown t.pickup_location_id (last_zone x t.pickup_location_id rows))
        (or_unknown t.dropoff_location_id (last_zone x t.dropoff_location_id rows))

  module _ (path : String) (rows : List Dict) (r loaded : ZoneRepository)
      (load_returned : load x path (some rows) r ≡ (ok tt, loaded)) where
    enrich-labelled : (t : Trip) → enrich (get_by_id loaded) t ≡ ok (labelled rows t)
    unfolding enrich
    enrich-labelled t =
        rw
          (
            get_by_id-load x path rows r loaded t.pickup_location_id load_returned,
            get_by_id-load x path rows r loaded t.dropoff_location_id load_returned,
          )
          refl

    enrich_batch-labelled :
        (trips : List Trip)
        → enrich_batch (get_by_id loaded) trips ≡ (ok tt, map (labelled rows) trips)
    unfolding enrich_batch
    enrich_batch-labelled [] = refl
    enrich_batch-labelled (t ∷ trips) =
        rw (enrich_batch, enrich-labelled t, enrich_batch-labelled trips) refl

    labelled-labelled :
        (trips : List Trip)
        → map (labelled rows) (map (labelled rows) trips) ≡ map (labelled rows) trips
    unfolding enrich_zones
    labelled-labelled [] = refl
    labelled-labelled (t ∷ trips) = ap (λ l. labelled rows t ∷ l) (labelled-labelled trips)

    load-loaded : ensure_loaded loaded ≡ ok tt
    unfolding load ensure_loaded
    load-loaded = is_stored (load_rows x rows []) load_returned
      where
        is_stored :
            (l : Result (List (ℤ × Zone)))
            → stored x l r ≡ (ok tt, loaded)
            → ensure_loaded loaded ≡ ok tt
        is_stored (ok zones) h = subst (λ q. ensure_loaded q ≡ ok tt) (ap (λ q. q.1) h) refl
        is_stored (err e) h = absurd (cc (ap (λ q. q.0) h))

    -- After a load that returns, `ensure_loaded` returns, and `enrich_batch` returns and gives every trip
    -- the labels of the last row of the file for each of its two ids, or those of the unknown zone; to
    -- enrich the trips again changes nothing.
    pub enrich_batch-load :
        (trips : List Trip)
        → (ensure_loaded loaded ≡ ok tt)
          × (enrich_batch (get_by_id loaded) trips ≡ (ok tt, map (labelled rows) trips))
          × (enrich_batch (get_by_id loaded) (map (labelled rows) trips)
              ≡ (ok tt, map (labelled rows) trips))
    enrich_batch-load trips = (
      load-loaded,
      enrich_batch-labelled trips,
      enrich_batch-labelled (map (labelled rows) trips)
          ∙ ap (λ l. (ok tt, l)) (labelled-labelled trips),
    )
