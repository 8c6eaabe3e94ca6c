-- ===== src/ClickHouse/Batch.antt =====
-- What `ClickHouseTripRepository` writes for a batch of trips.
use nyc_taxi.Base.{All, ℤ, pos, ℕ, ◌<◌, ◌≡◌, refl, sym, ◌∙◌, subst, List, [], ◌∷◌, map}
use nyc_taxi.Python.{Value, ok, ok-injective, Runtime}
use nyc_taxi.Trip.Model.{Trip, to_dict}
use nyc_taxi.Trip.Validator.Rules.{ObeysRules}
use nyc_taxi.ClickHouse.{
  ArrowType, coerce_row, coerce_rows, Driver, Server, Called, save_batch_from_dicts, save_batch,
}
use nyc_taxi.ClickHouse.Rows.{
  FitsSchema, ReadsIso, with_datetimes, coerce_row-to_dict, coerced_row-FitsSchema,
}
use nyc_taxi.ClickHouse.Insert.{IsExecuted, ReadsRows, columns_of, insert-IsExecuted}

module _ (rt : Runtime) where
  -- A trip that obeys the business rules, whose datetimes are read back, and whose location ids are
  -- numbers that the table can hold.
  pub record IsStorable (t : Trip) : Type 0 where
    pub now : ℤ
    pub rules : ObeysRules now t
    pub pickup_reads : ReadsIso rt t.pickup_datetime
    pub dropoff_reads : ReadsIso rt t.dropoff_datetime
    pub ingested_reads : ReadsIso rt t.ingested_at
    pub pickup : ℕ
    pub is_pickup : t.pickup_location_id ≡ pos pickup
    pub below_pickup : pickup < 65_536
    pub dropoff : ℕ
    pub is_dropoff : t.dropoff_location_id ≡ pos dropoff
    pub below_dropoff : dropoff < 65_536

  stored_row :
      (t : Trip)
      → IsStorable t
      → (coerce_row rt (to_dict rt t) ≡ ok (with_datetimes rt t)) × FitsSchema (with_datetimes rt t)
  stored_row t h =
      let made = coerce_row-to_dict rt t h.pickup_reads h.dropoff_reads h.ingested_reads in
      let (row, coerced, fits) =
        coerced_row-FitsSchema rt h.now t h.pickup h.dropoff h.pickup_reads h.dropoff_reads
          h.ingested_reads h.rules h.is_pickup h.below_pickup h.is_dropoff h.below_dropoff in
      (made, subst FitsSchema (ok-injective (sym coerced ∙ made)) fits)

  pub stored_rows :
      (trips : List Trip)
      → All IsStorable trips
      → (coerce_rows rt (map (to_dict rt) trips) ≡ ok (map (with_datetimes rt) trips))
        × All FitsSchema (map (with_datetimes rt) trips)
  unfolding coerce_rows
  stored_rows [] h = (refl, tt)
  stored_rows (t ∷ trips) (h, rest) =
      let (made, fits) = stored_row t h in
      let (all_made, all_fit) = stored_rows trips rest in
      (rw (coerce_rows, made, all_made) refl, (fits, all_fit))

  module _ (o : Driver) (stored : ArrowType → Value → Value) (reads : ReadsRows o stored) where
    -- The rows of the trips, as they are in the table.
    abbrev pub SavesAll : List Trip → Server → Called → Type 0
    SavesAll trips s end =
        IsExecuted o 3 "INSERT INTO taxi.trips VALUES"
          (columns_of o stored (map (with_datetimes rt) trips)) s end

    -- A batch of at least one trip that the table can hold, saved from the trips or from their dicts, is
    -- one insert statement of all rows of `to_dict` with their datetimes read back, column by column. When
    -- the call returns, the statement was executed by the call that was answered, and at most once
    -- more by each of at most two calls before it, which failed but may have been executed; when it
    -- raises, at most once by each of at most three calls, all of which failed. Nothing else is executed.
    pub save_batch-SavesAll :
        (t : Trip) (trips : List Trip) (s : Server)
        → All IsStorable (t ∷ trips)
        → SavesAll (t ∷ trips) s (save_batch o rt (t ∷ trips) s)
          × SavesAll (t ∷ trips) s (save_batch_from_dicts o rt (map (to_dict rt) (t ∷ trips)) s)
    unfolding save_batch save_batch_from_dicts
    save_batch-SavesAll t trips s h =
        let (made, fits) = stored_rows (t ∷ trips) h in
        let saved =
          insert-IsExecuted o stored rt (to_dict rt t) (map (to_dict rt) trips)
            (map (with_datetimes rt) (t ∷ trips)) s reads made fits in
        (saved, saved)
