-- ===== src/Zones.antt =====
-- etl/infrastructure/storage/zone_lookup.py: the zones by location id, from the rows that
-- csv.DictReader yields. A field that a short row lacks is there as None.
pub mod Lookup
pub mod Enrichment
use nyc_taxi.Base.{
  ℕ, length, if◌then◌else◌, ℤ, eq_ℤ, String, Bool, true, Option, none, some, List, [], ◌∷◌,
}
use nyc_taxi.Python.{
  Value, str, Dict, entry, get?, get_or, concat, value_error, runtime_error, other, Result, ok, err,
  ◌>>=◌, ◌>>◌, Runtime, to_int,
}
use nyc_taxi.Trip.Model.{Zone, unknown_zone}

-- `s.strip()`, beside the interpreter.
pub record Text : Type 0 where
  pub runtime : Runtime
  pub strip : String → String

-- The dict `_zones` and the flag `_loaded`.
pub record ZoneRepository : Type 0 where
  pub zones : List (ℤ × Zone)
  pub loaded : Bool

unfoldable pub find_zone : ℤ → List (ℤ × Zone) → Option Zone
find_zone n [] = none
find_zone n ((m, z) ∷ zones) = if eq_ℤ m n then some z else find_zone n zones

-- `zones[location_id] = zone`
unfoldable pub set_zone : ℤ → Zone → List (ℤ × Zone) → List (ℤ × Zone)
set_zone n z [] = (n, z) ∷ []
set_zone n z ((m, w) ∷ zones) = if eq_ℤ m n then (m, z) ∷ zones else (m, w) ∷ set_zone n z zones

module _ (x : Text) where
  -- `int(row["LocationID"])`, where `none` is a row that is skipped.
  unfoldable pub location_of : Dict → Result (Option ℤ)
  location_of row = elim (get? "LocationID" row) [
    | none ↦ ok none
    | some v ↦ skipped (to_int x.runtime v)
  ]
    where
      skipped : Result ℤ → Result (Option ℤ)
      skipped (ok n) = ok (some n)
      skipped (err (value_error m)) = ok none
      skipped (err e) = err e

  -- `row.get(key, "Unknown").strip()`
  unfoldable pub stripped_field : String → Dict → Result String
  stripped_field key row = stripped (get_or key (str "Unknown") row)
    where
      stripped : Value → Result String
      stripped (str s) = ok (x.strip s)
      stripped v = err (other "AttributeError" "'NoneType' object has no attribute 'strip'")

  -- The key and the zone that a row adds, if it adds one.
  unfoldable pub zone_of : Dict → Result (Option (ℤ × Zone))
  zone_of row = location_of row >>= built
    where
      built : Option ℤ → Result (Option (ℤ × Zone))
      built none = ok none
      built (some n) = do
        borough ← stripped_field "Borough" row
        zone ← stripped_field "Zone" row
        service_zone ← stripped_field "service_zone" row
        ok (
            some (
              n,
              record {
                location_id = n;
                borough = borough;
                zone = zone;
                service_zone = service_zone;
              },
            ))

  abbrev pub added_zone : Option (ℤ × Zone) → List (ℤ × Zone) → List (ℤ × Zone)
  added_zone none zones = zones
  added_zone (some (n, z)) zones = set_zone n z zones

  -- The loop of `load`.
  unfoldable pub load_rows : List Dict → List (ℤ × Zone) → Result (List (ℤ × Zone))
  unfolding zone_of set_zone
  load_rows [] zones = ok zones
  load_rows (row ∷ rows) zones = do found ← zone_of row; load_rows rows (added_zone found zones)

  abbrev pub stored : Result (List (ℤ × Zone)) → ZoneRepository → Result (Unit {0}) × ZoneRepository
  stored (ok zones) r = (ok tt, record { zones = zones; loaded = true })
  stored (err e) r = (err e, r)

  -- `load`, on the rows of the file if it exists.
  unfoldable pub load :
      String → Option (List Dict) → ZoneRepository → Result (Unit {0}) × ZoneRepository
  unfolding load_rows
  load path none r =
      (err (other "FileNotFoundError" (concat ("Zone lookup CSV not found: " ∷ path ∷ []))), r)
  load path (some rows) r = stored (load_rows rows []) r

abbrev pub or_unknown : ℤ → Option Zone → Zone
or_unknown n none = unknown_zone n
or_unknown n (some z) = z

-- `get_by_id`
unfoldable pub get_by_id : ZoneRepository → ℤ → Result Zone
unfolding find_zone
get_by_id r n =
    if r.loaded
    then ok (or_unknown n (find_zone n r.zones))
    else err (
        runtime_error
          "CsvZoneRepository.load() must be called before get_by_id(). Check the startup sequence in runtime/lifecycle.py.")

-- `load_all`
unfoldable pub load_all : ZoneRepository → Result (List (ℤ × Zone))
load_all r =
    if r.loaded
    then ok r.zones
    else err (runtime_error "CsvZoneRepository.load() must be called before load_all().")

-- `zone_count`
abbrev pub zone_count : ZoneRepository → ℕ
zone_count r = length r.zones
