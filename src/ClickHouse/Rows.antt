-- ===== src/ClickHouse/Rows.antt =====
-- What `_coerce_row` makes of the row of a trip.
use nyc_taxi.Trip.Validator.Rules.{ObeysRules}
use nyc_taxi.Base.{
  negsuc, ◌≤◌, ◌≤ℤ◌, ◌<ℤ◌, subst, sym, arith, ℕ, All, ℤ, pos, ◌^◌, ◌<◌, ◌≡◌, refl, some, [], ◌∷◌,
}
use nyc_taxi.Python.{
  Datetime, Value, null, int, str, datetime, Dict, get?, get_or, set, ok, Runtime, to_int, to_float,
}
use nyc_taxi.Trip.Model.{Trip, to_dict}
use nyc_taxi.Timestamp.{assume_utc, parse_timestamp}
use nyc_taxi.ClickHouse.{
  ArrowType, timestamp, uint, trips_arrow_schema, money_fields, dt_fields, coerce_fields,
  float_or_zero, datetime_or_null, int_or_zero, coerce_row,
}

-- What pyarrow documents to be taken for a type.
abbrev pub Fits : ArrowType → Value → Type 0
Fits ArrowType.string (str s) = Unit
Fits timestamp (datetime d) = (o : ℤ) × (d.offset ≡ some o)
Fits (uint bits) (int (pos n)) = n < 2 ^ bits
Fits (ArrowType.float bits) (Value.float x) = Unit
Fits t v = ⊥

-- Each column of the schema is there, with a value of its type.
abbrev pub FitsSchema : Dict → Type 0
FitsSchema d = All (λ f. Fits f.1 (get_or f.0 null d)) trips_arrow_schema

uint-Fits :
    (bits bound : ℕ) (n : ℤ)
    → pos 0 ≤ℤ n
    → n <ℤ pos bound
    → bound ≤ 2 ^ bits
    → Fits (uint bits) (int n)
uint-Fits bits bound (pos n) least below wide = omega (arith, below, wide)
uint-Fits bits bound (negsuc n) least below wide = absurd (omega (arith, least))

assume_utc-Fits : (d : Datetime) → Fits timestamp (datetime (assume_utc d))
unfolding assume_utc
assume_utc-Fits d = (_, refl)

module _ (rt : Runtime) where
  -- The text that `isoformat` wrote for the datetime is read back, and taken to be UTC if it has no
  -- offset.
  abbrev pub ReadsIso : Datetime → Type 0
  ReadsIso d = parse_timestamp rt (str (rt.isoformat d)) ≡ ok (some (assume_utc d))

  -- The row of a trip with its three datetimes in place of their texts.
  abbrev pub with_datetimes : Trip → Dict
  with_datetimes t = set "ingested_at" (datetime (assume_utc t.ingested_at)) (
      set "dropoff_datetime" (datetime (assume_utc t.dropoff_datetime))
        (set "pickup_datetime" (datetime (assume_utc t.pickup_datetime)) (to_dict rt t)))

  coerce_money :
      (t : Trip) → coerce_fields (float_or_zero rt) money_fields (to_dict rt t) ≡ ok (to_dict rt t)
  unfolding coerce_fields float_or_zero to_float get_or get? set to_dict
  coerce_money t = refl

  assume_utc-assume_utc : (d : Datetime) → assume_utc (assume_utc d) ≡ assume_utc d
  unfolding assume_utc
  assume_utc-assume_utc d = refl

  coerce_datetimes :
      (t : Trip)
      → ReadsIso t.pickup_datetime
      → ReadsIso t.dropoff_datetime
      → ReadsIso t.ingested_at
      → coerce_fields (datetime_or_null rt) dt_fields (to_dict rt t) ≡ ok (with_datetimes t)
  unfolding coerce_fields datetime_or_null get_or get? set to_dict assume_utc
  coerce_datetimes t pickup dropoff ingested = rw (pickup, dropoff, ingested) refl

  coerce_passengers :
      (t : Trip)
      → coerce_fields (int_or_zero rt) ("passenger_count" ∷ []) (with_datetimes t)
        ≡ ok (with_datetimes t)
  unfolding coerce_fields int_or_zero to_int get_or get? set to_dict
  coerce_passengers t = refl

  -- A trip whose datetimes are read back is written with these datetimes in place of their texts, and
  -- is otherwise unchanged.
  pub coerce_row-to_dict :
      (t : Trip)
      → ReadsIso t.pickup_datetime
      → ReadsIso t.dropoff_datetime
      → ReadsIso t.ingested_at
      → coerce_row rt (to_dict rt t) ≡ ok (with_datetimes t)
  unfolding coerce_row
  coerce_row-to_dict t pickup dropoff ingested =
      rw (coerce_money t, coerce_datetimes t pickup dropoff ingested) (coerce_passengers t)

  -- A trip that obeys the business rules, whose datetimes are read back and whose locations are
  -- numbers below 65536, has a value of the right type in every column of the table.
  pub coerced_row-FitsSchema :
      (now : ℤ) (t : Trip) (pickup dropoff : ℕ)
      → ReadsIso t.pickup_datetime
      → ReadsIso t.dropoff_datetime
      → ReadsIso t.ingested_at
      → ObeysRules now t
      → t.pickup_location_id ≡ pos pickup
      → pickup < 65_536
      → t.dropoff_location_id ≡ pos dropoff
      → dropoff < 65_536
      → (row : Dict) × (coerce_row rt (to_dict rt t) ≡ ok row) × FitsSchema row
  unfolding get_or get? set to_dict assume_utc
  coerced_row-FitsSchema now t pickup dropoff p d i rules at_pickup below_pickup at_dropoff
        below_dropoff =
      let began = assume_utc-Fits t.pickup_datetime in
      let ended = assume_utc-Fits t.dropoff_datetime in
      let taken = assume_utc-Fits t.ingested_at in
      let lasted =
        uint-Fits 32 86_400 t.duration.seconds (omega (arith, rules.positive_duration))
          rules.below_a_day (omega arith) in
      let carried =
        uint-Fits 8 10 t.passenger_count (omega (arith, rules.some_passenger))
          (omega (arith, rules.at_most_nine)) (omega arith) in
      let from_zone : Fits (uint 16) (int t.pickup_location_id) =
        subst (λ z. Fits (uint 16) (int z)) (sym at_pickup) below_pickup in
      let to_zone : Fits (uint 16) (int t.dropoff_location_id) =
        subst (λ z. Fits (uint 16) (int z)) (sym at_dropoff) below_dropoff in
      (with_datetimes t, coerce_row-to_dict t p d i, ground arith)
