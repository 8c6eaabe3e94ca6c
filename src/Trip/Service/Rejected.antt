-- ===== src/Trip/Service/Rejected.antt =====
-- What holds of every event that comes out of a batch.
use nyc_taxi.Base.{suc, get_elem?, ℕ, suc, ◌+◌, String, ◌≡◌, ◌⊎◌, true, some, List}
use nyc_taxi.Python.{Dict, ok}
use nyc_taxi.Trip.Model.{Trip, to_dict}
use nyc_taxi.Trip.Events.{parsing, enrichment, validation, deduplication, InvalidTripDetected}
use nyc_taxi.Trip.Deduplicator.{seen_before}
use nyc_taxi.Trip.Deduplicator.Split.{ids}
use nyc_taxi.Trip.Service.{Context, parsed_trip}

module _ (c : Context) where
  -- The event of row `i`: it holds the raw row, its batch and its file, the stage is one of the
  -- first three that can fail, and an id is that of the trip that was built from the row.
  pub record IsFaithful (i : ℕ) (raw : Dict) (e : InvalidTripDetected) : Type 0 where
    pub original : e.original_record ≡ raw
    pub batch : e.batch_id ≡ c.batch_id
    pub source : e.source_file ≡ c.source_file
    pub stage : (e.stage ≡ parsing) ⊎ (e.stage ≡ enrichment) ⊎ (e.stage ≡ validation)
    pub built :
        (id : String)
        → e.trip_id ≡ some id
        → (t : Trip) × (parsed_trip c i raw ≡ ok t) × (t.trip_id ≡ id)

  -- The event of a row of `rows`, the first of which has index `i`.
  abbrev pub FromRow : ℕ → List Dict → InvalidTripDetected → Type 0
  FromRow i rows e =
      (j : ℕ) × (raw : Dict) × (get_elem? rows j ≡ some raw) × IsFaithful (i + j) raw e

  -- The event of a duplicate of one of `unique`.
  abbrev pub FromDuplicate : List Trip → InvalidTripDetected → Type 0
  FromDuplicate unique e =
      (t : Trip) × (e.stage ≡ deduplication)
      × (e.trip_id ≡ some t.trip_id)
      × (e.original_record ≡ to_dict c.runtime t)
      × (seen_before t.trip_id (ids unique) ≡ true)
