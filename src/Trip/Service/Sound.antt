-- ===== src/Trip/Service/Sound.antt =====
-- What holds of every trip and every event that comes out of a batch.
use nyc_taxi.Base.{
  get_elem?, suc, arith, All, ℕ, ◌+◌, String, ◌≡◌, refl, subst, Option, some, List, [], ◌∷◌,
}
use nyc_taxi.Python.{str, Dict, Result, ok, err, >>=-elim, ok-injective, get_or-of_get?}
use nyc_taxi.Trip.Model.{Trip, enrich_zones, between}
use nyc_taxi.Trip.Events.{InvalidTripDetected}
use nyc_taxi.Trip.Deduplicator.{generate_trip_id}
use nyc_taxi.Trip.Normalizer.Fields.{normalize-IsNormalised, get?-normalised-vendor}
use nyc_taxi.Trip.Normalizer.{normalize}
use nyc_taxi.Trip.Validator.{validate}
use nyc_taxi.Trip.Validator.Rules.{ObeysRules, validate_iff}
use nyc_taxi.Trip.Deduplicator.Split.{IsDistinct, deduplicate_split, All-IsMerge}
use nyc_taxi.Trip.Service.Facts.{IsBuilt, build_trip-IsBuilt}
use nyc_taxi.Trip.Service.{
  Context, Outcome, accepted, rejected, enrich, parsed_trip, checked_trip, settle, settle_parsed,
  collect, process_row, process_rows, process_batch,
}

module _ (c : Context) where
  -- The trip is that of a row of the batch, whose check was the `checked_at`-th and which stands in
  -- `rows`, which the batch has from the `first`-th row on. All it holds was read from this row after
  -- its normalisation, it carries the batch and file, lasts from its pickup to its dropoff, and obeys
  -- the business rules at the time its row was checked; its id is the hash of its own natural key.
  pub record IsSound (first : ℕ) (rows : List Dict) (t : Trip) : Type 0 where
    pub row : ℕ
    pub raw : Dict
    pub in_batch : get_elem? rows row ≡ some raw
    pub normalised : Dict
    pub is_normalised : normalize c.runtime raw ≡ ok normalised
    pub built : IsBuilt c.runtime normalised c.batch_id c.source_file t
    pub checked_at : ℕ
    pub counted : checked_at ≡ first + row
    pub rules : ObeysRules (c.clock.now checked_at) t
    pub lasted : between t.pickup_datetime t.dropoff_datetime ≡ ok t.duration
    pub hashed :
        t.trip_id
        ≡ generate_trip_id c.runtime t.vendor_id t.pickup_datetime t.dropoff_datetime
            t.pickup_location_id

  abbrev IsBuiltFrom : Dict → Trip → Type 0
  IsBuiltFrom d t = IsBuilt c.runtime d c.batch_id c.source_file t

  -- Enrichment keeps what was read from the row.
  checked_trip-lem :
      (i : ℕ) (d : Dict) (t u : Trip)
      → IsBuiltFrom d t
      → checked_trip c i t ≡ ok u
      → IsBuiltFrom d u × ObeysRules (c.clock.now i) u
  unfolding checked_trip enrich enrich_zones
  checked_trip-lem i d t u b h = >>=-elim (enrich c.get_by_id t) _ h λ e ee h₁.
      >>=-elim (validate c.runtime (c.clock.now i) e) _ h₁ λ _ ev h₂.
        >>=-elim (c.get_by_id t.pickup_location_id) _ ee λ p _ e₁.
          >>=-elim (c.get_by_id t.dropoff_location_id) _ e₁ λ q _ e₂.
            subst (λ (v : Trip). IsBuiltFrom d v × ObeysRules (c.clock.now i) v) (ok-injective h₂)
              (
                subst (IsBuiltFrom d) (ok-injective e₂) (record {
                  pickup_read = b.pickup_read;
                  dropoff_read = b.dropoff_read;
                  ids_read = b.ids_read;
                  passengers_read = b.passengers_read;
                  distance_read = b.distance_read;
                  lasted = b.lasted;
                  paid = b.paid;
                  hashed = b.hashed;
                  vendor = b.vendor;
                  rate = b.rate;
                  flag = b.flag;
                  batch = b.batch;
                  source = b.source;
                }),
                (validate_iff c.runtime (c.clock.now i) e).0 ev,
              )

  -- What the row of a parsed trip gave.
  abbrev IsParsed : Dict → Trip → Type 0
  IsParsed raw t = (d : Dict) × (normalize c.runtime raw ≡ ok d) × IsBuiltFrom d t

  parsed_trip-IsParsed :
      (i : ℕ) (raw : Dict) (t : Trip) → parsed_trip c i raw ≡ ok t → IsParsed raw t
  unfolding parsed_trip
  parsed_trip-IsParsed i raw t h = >>=-elim (normalize c.runtime raw) _ h λ d ed h₁.
      (d, ed, build_trip-IsBuilt c.runtime d c.batch_id c.source_file (c.clock.ingested_at i) t h₁)

  built-IsSound :
      (i : ℕ) (raw : Dict) (rows : List Dict) (u : Trip)
      → (d : Dict) → normalize c.runtime raw ≡ ok d
      → IsBuiltFrom d u × ObeysRules (c.clock.now i) u
      → IsSound i (raw ∷ rows) u
  built-IsSound i raw rows u d ed (b, r) =
      let v = get?-normalised-vendor c.runtime (normalize-IsNormalised c.runtime raw d ed) in
      record {
        row = 0;
        raw = raw;
        in_batch = refl;
        normalised = d;
        is_normalised = ed;
        built = b;
        checked_at = i;
        counted = omega arith;
        rules = r;
        lasted = b.lasted;
        hashed = cc (
          b.hashed,
          b.vendor,
          get_or-of_get? "vendor_id" (str "") _ d v,
          get_or-of_get? "vendor_id" (str "Unknown") _ d v,
        );
      }

  settle-IsSound :
      (i : ℕ) (raw : Dict) (rows : List Dict) (t u : Trip) (id : Option String) (r : Result Trip)
      → checked_trip c i t ≡ r
      → IsParsed raw t
      → settle c i raw id r ≡ accepted u
      → IsSound i (raw ∷ rows) u
  settle-IsSound i raw rows t u id (ok v) e (d, ed, b) h =
      built-IsSound i raw rows u d ed (checked_trip-lem i d t u b (cc))
  settle-IsSound i raw rows t u id (err x) e p h = absurd (cc)

  settle_parsed-IsSound :
      (i : ℕ) (raw : Dict) (rows : List Dict) (u : Trip) (r : Result Trip)
      → parsed_trip c i raw ≡ r
      → settle_parsed c i raw r ≡ accepted u
      → IsSound i (raw ∷ rows) u
  settle_parsed-IsSound i raw rows u (ok t) e h =
      settle-IsSound i raw rows t u (some t.trip_id) (checked_trip c i t) refl
        (parsed_trip-IsParsed i raw t e) h
  settle_parsed-IsSound i raw rows u (err x) e h = absurd (cc)

  process_row-IsSound :
      (i : ℕ) (raw : Dict) (rows : List Dict) (u : Trip)
      → process_row c i raw ≡ accepted u
      → IsSound i (raw ∷ rows) u
  unfolding process_row
  process_row-IsSound i raw rows u = settle_parsed-IsSound i raw rows u (parsed_trip c i raw) refl

  collect-All :
      {P : Trip → Type 0} (o : Outcome) (r : List Trip × List InvalidTripDetected)
      → ((u : Trip) → o ≡ accepted u → P u)
      → All P r.0
      → All P (collect c o r).0
  collect-All (accepted t) (ts, es) h k = (h t refl, k)
  collect-All (rejected e) (ts, es) h k = k

  -- The same trip, where one more row stands in front.
  behind-IsSound :
      (i : ℕ) (raw : Dict) (rows : List Dict) (t : Trip)
      → IsSound (i + 1) rows t
      → IsSound i (raw ∷ rows) t
  behind-IsSound i raw rows t h = record {
    row = suc h.row;
    raw = h.raw;
    in_batch = h.in_batch;
    normalised = h.normalised;
    is_normalised = h.is_normalised;
    built = h.built;
    checked_at = h.checked_at;
    counted = omega (arith, h.counted);
    rules = h.rules;
    lasted = h.lasted;
    hashed = h.hashed;
  }

  All-behind :
      (i : ℕ) (raw : Dict) (rows : List Dict) (ts : List Trip)
      → All (IsSound (i + 1) rows) ts
      → All (IsSound i (raw ∷ rows)) ts
  All-behind i raw rows [] h = tt
  All-behind i raw rows (t ∷ ts) (h, k) =
      (behind-IsSound i raw rows t h, All-behind i raw rows ts k)

  process_rows-IsSound : (i : ℕ) (rows : List Dict) → All (IsSound i rows) (process_rows c i rows).0
  unfolding process_rows
  process_rows-IsSound i [] = tt
  process_rows-IsSound i (raw ∷ rows) =
      let rest = process_rows c (i + 1) rows in
      collect-All (process_row c i raw) rest (process_row-IsSound i raw rows)
        (All-behind i raw rows rest.0 (process_rows-IsSound (i + 1) rows))

  -- For every batch of raw rows: each trip that comes out is that of a row of the batch: its
  -- datetimes, locations, passengers, distance, payment, vendor and codes are what `_build_trip` reads
  -- in this row after its normalisation; it obeys the business rules at the time this row was checked,
  -- carries the batch and file it came from, lasts from its pickup to its dropoff, and has the hash
  -- of its own vendor, pickup, dropoff and location as its id. No two trips have the same id.
  pub process_batch-IsSound :
      (rows : List Dict)
      → All (IsSound 0 rows) (process_batch c rows).0 × IsDistinct [] (process_batch c rows).0
  unfolding process_batch
  process_batch-IsSound rows =
      let trips = (process_rows c 0 rows).0 in
      let split = deduplicate_split trips in
      ((All-IsMerge (IsSound 0 rows) split.1 (process_rows-IsSound 0 rows)).0, split.0)
