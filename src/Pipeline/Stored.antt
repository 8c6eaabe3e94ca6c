-- ===== src/Pipeline/Stored.antt =====
-- The consumer process on rows that the table can hold, with a server that recovers between attempts.
use nyc_taxi.Base.{
  ◌==◌, All, ℕ, zero, suc, ◌+◌, String, ◌≡◌, refl, ap, ◌∙◌, ◌⊎◌, inl, inr, true, ◌&&◌, not, none,
  List, [], ◌∷◌, map, arith,
}
use nyc_taxi.Python.{Float, Value, Dict, Error, ok, err, Runtime}
use nyc_taxi.ClickHouse.{
  ArrowType, Rows, Driver, Server, slept, execute_once, one_second, two_seconds, execute, insert,
  save_batch_from_dicts,
}
use nyc_taxi.Retry.{retry}
use nyc_taxi.Trip.Model.{Trip, to_dict}
use nyc_taxi.ClickHouse.Rows.{with_datetimes}
use nyc_taxi.ClickHouse.Insert.{ReadsRows, columns_of}
use nyc_taxi.ClickHouse.Batch.{IsStorable, stored_rows}
use nyc_taxi.Consumer.{Event, Ports, started, running, consume}
use nyc_taxi.Consumer.Endings.{Brings, AllPersisted, consume-AllPersisted_of_good}
use nyc_taxi.Pipeline.Storage.{raised_by, no_statements, storing}

-- One of the next calls, as many as the number, is answered, and before it the server only refuses
-- calls with errors that are tried again.
abbrev pub Recovers : Driver → ℕ → ℕ → Type 0
Recovers o zero call = ⊥
Recovers o (suc n) call =
    ((answer : Rows) × (o.answer call ≡ ok answer))
    ⊎ ((e : Error) × (o.answer call ≡ err e)
        × (o.is_clickhouse_error e ≡ true)
        × Recovers o n (call + 1))

retry-Recovers :
    (o : Driver) (n : ℕ) (backoff delay : Float) (query : String) (columns : List (List Value))
    (s : Server)
    → Recovers o n s.calls
    → raised_by (
        retry o.is_clickhouse_error o.times
          (slept o)
          backoff
          (execute_once o query columns)
          n
          delay
          s)
      ≡ none
unfolding retry execute_once
retry-Recovers o zero backoff delay query columns s h = absurd h
retry-Recovers o (suc n) backoff delay query columns s (inl (answer, given)) =
    rw (retry, given) refl
retry-Recovers o (suc zero) backoff delay query columns s (inr (e, failed, caught, h)) = absurd h
retry-Recovers o (suc (suc n)) backoff delay query columns s (inr (e, failed, caught, h)) =
    let t : Server = slept o delay (execute_once o query columns s).1 in
    let after : raised_by (
          retry o.is_clickhouse_error o.times (slept o) backoff (execute_once o query columns)
            (suc n) (o.times delay backoff) t)
        ≡ none =
      retry-Recovers o (suc n) backoff (o.times delay backoff) query columns t (rw failed h) in
    let again : (o.is_clickhouse_error e && not (suc n == 0)) ≡ true = rw caught (ground arith) in
    rw (retry, failed, again) after

module _ (rt : Runtime) where
  -- The row of a trip that the table can hold.
  abbrev pub IsTripRow : Dict → Type 0
  IsTripRow row = (t : Trip) × (row ≡ to_dict rt t) × IsStorable rt t

  trips_of :
      (rows : List Dict)
      → All IsTripRow rows
      → (trips : List Trip) × (rows ≡ map (to_dict rt) trips) × All (IsStorable rt) trips
  trips_of [] h = ([], refl, tt)
  trips_of (row ∷ rows) ((t, made, storable), h) =
      let (trips, all_made, all_storable) = trips_of rows h in
      (t ∷ trips, rw (made, all_made) refl, (storable, all_storable))

  module _ (o : Driver) (stored : ArrowType → Value → Value) (reads : ReadsRows o stored)
      (recovers : Recovers o 3 0) where
    insert-of_trips :
        (t : Trip) (trips : List Trip)
        → All (IsStorable rt) (t ∷ trips)
        → raised_by (save_batch_from_dicts o rt (map (to_dict rt) (t ∷ trips)) no_statements) ≡ none
    unfolding save_batch_from_dicts insert execute
    insert-of_trips t trips h =
        let (made, fits) = stored_rows rt (t ∷ trips) h in
        rw (made, reads (map (with_datetimes rt) (t ∷ trips)) fits)
          (retry-Recovers o 3 (two_seconds o) (one_second o) "INSERT INTO taxi.trips VALUES"
            (columns_of o stored (map (with_datetimes rt) (t ∷ trips))) no_statements recovers)

    saved-of_trips :
        (trips : List Trip)
        → All (IsStorable rt) trips
        → raised_by (save_batch_from_dicts o rt (map (to_dict rt) trips) no_statements) ≡ none
    unfolding save_batch_from_dicts
    saved-of_trips [] h = refl
    saved-of_trips (t ∷ trips) h = insert-of_trips t trips h

    saved-IsTripRow :
        (rows : List Dict)
        → All IsTripRow rows
        → raised_by (save_batch_from_dicts o rt rows no_statements) ≡ none
    saved-IsTripRow rows h =
        let (trips, made, storable) = trips_of rows h in rw made (saved-of_trips trips storable)

  -- When the consumer inserts by its repository, whose server answers one of the three attempts at each
  -- insert, the commits return, and each message carries the row of a trip that the table can hold or
  -- no row, then, for a process whose loop was left, the inserts that returned were of every row that
  -- it received, in order and each once, and it has committed an offset behind all of them.
  pub consume-storing :
      (p : Ports) (drivers : ℕ → Driver) (stored : ArrowType → Value → Value) (now : ℕ)
      (es : List Event)
      → p.insert ≡ storing rt drivers
      → ((n : ℕ) → p.commit n ≡ none)
      → ((n : ℕ) → ReadsRows (drivers n) stored)
      → ((n : ℕ) → Recovers (drivers n) 3 0)
      → All (λ e. Brings p IsTripRow e.polled) es
      → AllPersisted p (consume p es (running, started now))
  unfolding storing
  consume-storing p drivers stored now es same commits reads recovers good =
      consume-AllPersisted_of_good p IsTripRow now es
        (
          λ n rows fine.
              ap (λ f. f n rows) same
              ∙ saved-IsTripRow (drivers n) stored (reads n) (recovers n) rows fine,
          commits,
        )
        good
