-- ===== src/Pipeline/Overflow.antt =====
-- A location id that the table cannot hold: the location columns of
-- etl/infrastructure/clickhouse/inserter.py are uint16.
use nyc_taxi.Base.{
  All, All-map, String, ◌≡◌, refl, sym, ap, ◌∙◌, subst, false, none, List, [], ◌∷◌, arith, str_eq,
}
use nyc_taxi.Python.{
  Value, null, Dict, get_or, set, Result, ok, err, ◌>>=◌, >>=-elim, ok-injective, Runtime, get?-set,
}
use nyc_taxi.ClickHouse.{
  uint, trips_arrow_schema, money_fields, dt_fields, coerce_fields, float_or_zero, datetime_or_null,
  int_or_zero, coerce_row, coerce_rows, Table, Driver, Server, execute_columns, insert,
  save_batch_from_dicts,
}
use nyc_taxi.Pipeline.Storage.{raised_by, InRange, RefusesOverflow, HasLocations}

get_or-set_other :
    (f key : String) (v : Value) (d : Dict)
    → str_eq f key ≡ false
    → get_or key null (set f v d) ≡ get_or key null d
unfolding get_or
get_or-set_other f key v d differ = rw (get?-set f key v d, differ) refl

get_or-coerce_fields :
    (convert : Value → Result Value) (fields : List String) (key : String) (d c : Dict)
    → All (λ f. str_eq f key ≡ false) fields
    → coerce_fields convert fields d ≡ ok c
    → get_or key null c ≡ get_or key null d
unfolding coerce_fields
get_or-coerce_fields convert [] key d c differ made = ap (get_or key null) (sym (ok-injective made))
get_or-coerce_fields convert (f ∷ fields) key d c (differ, others) made =
    >>=-elim (convert (get_or f null d)) _ made λ v converted rest.
      get_or-coerce_fields convert fields key (set f v d) c others rest
      ∙ get_or-set_other f key v d differ

module _ (rt : Runtime) where
  get_or-coerce_row :
      (key : String) (row c : Dict)
      → All (λ f. str_eq f key ≡ false) money_fields
      → All (λ f. str_eq f key ≡ false) dt_fields
      → str_eq "passenger_count" key ≡ false
      → coerce_row rt row ≡ ok c
      → get_or key null c ≡ get_or key null row
  unfolding coerce_row
  get_or-coerce_row key row c no_money no_datetime no_passengers made =
      >>=-elim (coerce_fields (float_or_zero rt) money_fields row) _ made λ a first rest.
        >>=-elim (coerce_fields (datetime_or_null rt) dt_fields a) _ rest λ b second last.
          get_or-coerce_fields (int_or_zero rt) ("passenger_count" ∷ []) key b c (no_passengers, tt)
            last
          ∙ get_or-coerce_fields (datetime_or_null rt) dt_fields key a b no_datetime second
          ∙ get_or-coerce_fields (float_or_zero rt) money_fields key row a no_money first

  coerced-HasLocations :
      (row c : Dict) → coerce_row rt row ≡ ok c → HasLocations c → HasLocations row
  coerced-HasLocations row c made (pickup, dropoff) = (
    subst (InRange (uint 16))
        (get_or-coerce_row "pickup_location_id" row c (ground arith) (ground arith) refl made)
        pickup,
    subst (InRange (uint 16))
        (get_or-coerce_row "dropoff_location_id" row c (ground arith) (ground arith) refl made)
        dropoff,
  )

  coerced_rows-HasLocations :
      (rows cs : List Dict)
      → coerce_rows rt rows ≡ ok cs
      → All HasLocations cs
      → All HasLocations rows
  unfolding coerce_rows
  coerced_rows-HasLocations [] cs made h = tt
  coerced_rows-HasLocations (row ∷ rows) cs made h =
      >>=-elim (coerce_row rt row) _ made λ c first rest.
        >>=-elim (coerce_rows rt rows) _ rest λ others next last.
          let both : All HasLocations (c ∷ others) =
            subst (All HasLocations) (sym (ok-injective last)) h in
          (
            coerced-HasLocations row c first both.0,
            coerced_rows-HasLocations rows others next both.1,
          )

  schema-HasLocations :
      (row : Dict)
      → All (λ f. InRange f.1 (get_or f.0 null row)) trips_arrow_schema
      → HasLocations row
  schema-HasLocations row h = ground (arith, h)

  module _ (o : Driver) (refuses : RefusesOverflow o) where
    execute_columns-ok :
        (r : Result Table) (s : Server)
        → raised_by (execute_columns o r s) ≡ none
        → (table : Table) × (r ≡ ok table)
    execute_columns-ok (ok table) s h = (table, refl)
    execute_columns-ok (err e) s h = absurd (cc (h))

    -- When a batch is saved, the location ids of all its rows are in range.
    pub saved-HasLocations :
        (rows : List Dict) (s : Server)
        → raised_by (save_batch_from_dicts o rt rows s) ≡ none
        → All HasLocations rows
    unfolding save_batch_from_dicts insert
    saved-HasLocations [] s h = tt
    saved-HasLocations (row ∷ rows) s h =
        let (table, made) =
          execute_columns-ok
            (coerce_rows rt (row ∷ rows) >>= λ cs. o.from_pylist trips_arrow_schema cs) s h in
        >>=-elim (coerce_rows rt (row ∷ rows)) _ made λ cs coerced read.
          coerced_rows-HasLocations (row ∷ rows) cs coerced
            (All-map schema-HasLocations cs (refuses trips_arrow_schema cs table read))
