-- ===== src/Zones/Lookup.antt =====
-- What a loaded repository answers.
use nyc_taxi.Base.{
  if◌then◌else◌, Bool-cases, ℤ, eq_ℤ, eq_ℤ_iff, String, ◌≡◌, refl, sym, ap, ◌∙◌, subst, inl, inr,
  Bool, true, false, Option, none, some, List, [], ◌∷◌,
}
use nyc_taxi.Python.{Dict, Result, ok, err, >>=-elim, ok-injective}
use nyc_taxi.Trip.Model.{Zone, Trip, enrich_zones}
use nyc_taxi.Zones.{
  Text, ZoneRepository, find_zone, set_zone, zone_of, added_zone, load_rows, stored, load,
  or_unknown, get_by_id,
}
use nyc_taxi.Trip.Service.{enrich}

module _ (x : Text) where
  abbrev pub or_earlier : Option Zone → Option Zone → Option Zone
  or_earlier none earlier = earlier
  or_earlier (some z) earlier = some z

  -- The zone that a row gives for an id.
  abbrev pub zone_for : ℤ → Result (Option (ℤ × Zone)) → Option Zone
  zone_for n (ok (some (m, z))) = if eq_ℤ m n then some z else none
  zone_for n (ok none) = none
  zone_for n (err e) = none

  -- The zone of the last row for an id.
  unfoldable pub last_zone : ℤ → List Dict → Option Zone
  last_zone n [] = none
  last_zone n (row ∷ rows) = or_earlier (last_zone n rows) (zone_for n (zone_of x row))

  eq_ℤ-swap : (k m n : ℤ) → eq_ℤ k m ≡ true → eq_ℤ k n ≡ eq_ℤ m n
  eq_ℤ-swap k m n h = let same : k ≡ m = (eq_ℤ_iff k m).0 h in rw same refl

  find_zone-set_zone :
      (n m : ℤ) (z : Zone) (zones : List (ℤ × Zone))
      → find_zone n (set_zone m z zones) ≡ (if eq_ℤ m n then some z else find_zone n zones)
  unfolding find_zone set_zone
  find_zone-set_zone n m z [] = refl
  find_zone-set_zone n m z ((k, w) ∷ zones) = elim (Bool-cases (eq_ℤ k m)) [
    | inl same ↦
        let swap : eq_ℤ k n ≡ eq_ℤ m n = eq_ℤ-swap k m n same in
        rw (same, swap) (both (eq_ℤ m n) (some z) (some w) (find_zone n zones))
    | inr differ ↦
        rw differ (apart (eq_ℤ k n) refl (eq_ℤ m n) refl differ (find_zone-set_zone n m z zones))
  ]
    where
      both :
          (b : Bool) (s t u : Option Zone)
          → (if b then s else u) ≡ (if b then s else (if b then t else u))
      both true s t u = refl
      both false s t u = refl

      apart :
          (a : Bool)
          → eq_ℤ k n ≡ a
          → (b : Bool) → eq_ℤ m n ≡ b
          → eq_ℤ k m ≡ false
          → find_zone n (set_zone m z zones) ≡ (if eq_ℤ m n then some z else find_zone n zones)
          → (if eq_ℤ k n then some w else find_zone n (set_zone m z zones))
            ≡ (if eq_ℤ m n then some z else (if eq_ℤ k n then some w else find_zone n zones))
      apart true ek true em differ rest =
          let same : k ≡ m = (eq_ℤ_iff k n).0 ek ∙ sym ((eq_ℤ_iff m n).0 em) in
          absurd (cc (differ, (eq_ℤ_iff k m).1 same))
      apart true ek false em differ rest = rw (ek, em) refl
      apart false ek b em differ rest = rw ek rest

  or_earlier-added :
      (n : ℤ) (later : Option Zone) (found : Option (ℤ × Zone)) (zones : List (ℤ × Zone))
      → or_earlier later (find_zone n (added_zone x found zones))
        ≡ or_earlier (or_earlier later (zone_for n (ok found))) (find_zone n zones)
  or_earlier-added n (some w) found zones = refl
  or_earlier-added n none none zones = refl
  or_earlier-added n none (some (m, z)) zones =
      find_zone-set_zone n m z zones ∙ either_way (eq_ℤ m n) (find_zone n zones)
    where
      either_way :
          (b : Bool) (u : Option Zone)
          → (if b then some z else u) ≡ or_earlier (if b then some z else none) u
      either_way true u = refl
      either_way false u = refl

  load_rows-last_zone :
      (n : ℤ) (rows : List Dict) (zones loaded : List (ℤ × Zone))
      → load_rows x rows zones ≡ ok loaded
      → find_zone n loaded ≡ or_earlier (last_zone n rows) (find_zone n zones)
  unfolding load_rows last_zone
  load_rows-last_zone n [] zones loaded h = ap (find_zone n) (sym (ok-injective h))
  load_rows-last_zone n (row ∷ rows) zones loaded h = >>=-elim (zone_of x row) _ h λ found e h₁.
      rw e (
        load_rows-last_zone n rows (added_zone x found zones) loaded h₁
        ∙ or_earlier-added n (last_zone n rows) found zones)

  -- After a load that returns, `get_by_id` answers every id, with the zone of the last row of the file
  -- for that id, and with the unknown zone if there is no such row.
  pub get_by_id-load :
      (path : String) (rows : List Dict) (r loaded : ZoneRepository) (n : ℤ)
      → load x path (some rows) r ≡ (ok tt, loaded)
      → get_by_id loaded n ≡ ok (or_unknown n (last_zone n rows))
  unfolding load get_by_id
  get_by_id-load path rows r loaded n h = answered (load_rows x rows []) refl h
    where
      first : (o : Option Zone) → or_earlier o none ≡ o
      first none = refl
      first (some z) = refl

      answered :
          (l : Result (List (ℤ × Zone)))
          → load_rows x rows [] ≡ l
          → stored x l r ≡ (ok tt, loaded)
          → get_by_id loaded n ≡ ok (or_unknown n (last_zone n rows))
      answered (ok zones) e k =
          subst (λ q. get_by_id q n ≡ ok (or_unknown n (last_zone n rows))) (ap (λ q. q.1) k)
            (ap (λ o. ok (or_unknown n o))
              (load_rows-last_zone n rows [] zones e ∙ first (last_zone n rows)))
      answered (err f) e k = absurd (cc (ap (λ q. q.0) k))

-- With a loaded repository `enrich` returns for every trip: no row fails at the enrichment stage.
pub enrich-loaded :
    (r : ZoneRepository) (t : Trip)
    → r.loaded ≡ true
    → enrich (get_by_id r) t
      ≡ ok (
          enrich_zones t
            (or_unknown t.pickup_location_id (find_zone t.pickup_location_id r.zones))
            (or_unknown t.dropoff_location_id (find_zone t.dropoff_location_id r.zones)))
unfolding enrich get_by_id
enrich-loaded r t h = rw h refl
