-- ===== src/ClickHouse/Insert.antt =====
-- What an insert of a batch leaves at the server.
use mathlib.Core.List.{append_assoc}
use nyc_taxi.ClickHouse.Rows.{FitsSchema}
use nyc_taxi.Base.{
  ◌⊎◌, false, All, map, some, zero, Bool-cases, length-append, ◌==◌, Bool-cases, length, ℕ, suc,
  ◌+◌, ◌≤◌, String, ◌≡◌, refl, ap, ◌∙◌, inl, inr, ◌&&◌, not, Option, List, [], ◌∷◌, ◌++◌, arith,
}
use nyc_taxi.Python.{
  Dict, null, get_or, Runtime, Error, Float, Value, Result, ok, err, Result-cases,
}
use nyc_taxi.Retry.{retry}
use nyc_taxi.ClickHouse.{
  Rows, execute, insert, two_seconds, one_second, coerce_rows, ArrowType, trips_arrow_schema, Rows,
  Driver, Server, slept, execute_once,
}

module _ (o : Driver) where
  -- A statement, as often as the number.
  unfoldable pub copies : ℕ → String → List (List Value) → List (String × List (List Value))
  copies zero query columns = []
  copies (suc k) query columns = (query, columns) ∷ copies k query columns

  -- When a statement returned, it was executed by the call that was answered, and at most once more by
  -- each call before it, which failed; when it raised, at most once by each call, and an error of
  -- ClickHouse or the system has used up the attempts. There is one sleep less than calls.
  abbrev pub IsExecuted :
      ℕ → String → List (List Value) → Server → Result (Option Rows) × Server → Type 0
  IsExecuted n query columns s (ok rows, t) =
      (failed : ℕ) × (again : ℕ) × (suc failed ≤ n)
      × (again ≤ failed)
      × (t.executed ≡ s.executed ++ copies (suc again) query columns)
      × (t.calls ≡ s.calls + suc failed)
      × (length t.sleeps ≡ length s.sleeps + failed)
  IsExecuted n query columns s (err e, t) =
      (failed : ℕ) × (landed : ℕ) × (suc failed ≤ n)
      × (landed ≤ suc failed)
      × (t.executed ≡ s.executed ++ copies landed query columns)
      × (t.calls ≡ s.calls + suc failed)
      × (length t.sleeps ≡ length s.sleeps + failed)
      × ((suc failed ≡ n) ⊎ (o.is_clickhouse_error e ≡ false))

  append-copies :
      (k m : ℕ) (query : String) (columns : List (List Value))
      → copies k query columns ++ copies m query columns ≡ copies (k + m) query columns
  unfolding copies
  append-copies zero m query columns = ap (λ j. copies j query columns) (omega arith)
  append-copies (suc k) m query columns =
      let moved : suc (k + m) ≡ suc k + m = omega arith in
      ap (λ l. (query, columns) ∷ l) (append-copies k m query columns)
      ∙ ap (λ j. copies j query columns) moved

  executed_on :
      (query : String) (columns : List (List Value)) (s t u : Server) (k m all : ℕ)
      → k + m ≡ all
      → t.executed ≡ s.executed ++ copies k query columns
      → u.executed ≡ t.executed ++ copies m query columns
      → u.executed ≡ s.executed ++ copies all query columns
  executed_on query columns s t u k m all sum first last =
      last
      ∙ ap (λ l. l ++ copies m query columns) first
      ∙ append_assoc s.executed (copies k query columns) (copies m query columns)
      ∙ ap (λ l. s.executed ++ l) (append-copies k m query columns)
      ∙ ap (λ j. s.executed ++ copies j query columns) sum

  IsExecuted-step :
      (n : ℕ) (query : String) (columns : List (List Value)) (s t : Server)
      (r : Result (Option Rows) × Server)
      → (k : ℕ) → k ≤ 1
      → t.executed ≡ s.executed ++ copies k query columns
      → t.calls ≡ s.calls + 1
      → length t.sleeps ≡ length s.sleeps + 1
      → IsExecuted n query columns t r
      → IsExecuted (suc n) query columns s r
  IsExecuted-step n query columns s t (ok rows, u) k once same called sleep
        (failed, again, fits, few, done, calls, sleeps) =
      (
        suc failed,
        k + again,
        omega (arith, fits),
        omega (arith, once, few),
        executed_on query columns s t u k (suc again) (k + suc again) refl same done
            ∙ ap (λ m. s.executed ++ copies m query columns) (omega arith),
        omega (arith, called, calls),
        omega (arith, sleep, sleeps),
      )
  IsExecuted-step n query columns s t (err e, u) k once same called sleep
        (failed, landed, fits, few, done, calls, sleeps, all) =
      (
        suc failed,
        k + landed,
        omega (arith, fits),
        omega (arith, once, few),
        executed_on query columns s t u k landed (k + landed) refl same done,
        omega (arith, called, calls),
        omega (arith, sleep, sleeps),
        one_more all,
      )
    where
      one_more :
          ((suc failed ≡ n) ⊎ (o.is_clickhouse_error e ≡ false))
          → (suc (suc failed) ≡ suc n) ⊎ (o.is_clickhouse_error e ≡ false)
      one_more (inl whole) = inl (ap suc whole)
      one_more (inr other) = inr other

  -- The first attempt.
  answered-IsExecuted :
      (n : ℕ) (query : String) (columns : List (List Value)) (s : Server) (rows : Rows)
      → o.answer s.calls ≡ ok rows
      → IsExecuted (suc n) query columns s (ok (some rows), (execute_once o query columns s).1)
  unfolding execute_once copies
  answered-IsExecuted n query columns s rows h =
      rw h (0, 0, omega arith, omega arith, refl, refl, omega arith)

  -- What a failed call leaves: its statement at most once.
  failed_call :
      (query : String) (columns : List (List Value)) (s : Server) (e : Error)
      → o.answer s.calls ≡ err e
      → (k : ℕ) × (k ≤ 1)
        × ((execute_once o query columns s).1.executed ≡ s.executed ++ copies k query columns)
  unfolding execute_once copies
  failed_call query columns s e h = elim (Bool-cases (o.lands s.calls)) [
    | inl landed ↦ (1, omega arith, rw (h, landed) refl)
    | inr refused ↦ (0, omega arith, rw (h, refused) refl)
  ]

  failed-IsExecuted :
      (n : ℕ) (query : String) (columns : List (List Value)) (s : Server) (e : Error)
      → o.answer s.calls ≡ err e
      → ((1 ≡ suc n) ⊎ (o.is_clickhouse_error e ≡ false))
      → IsExecuted (suc n) query columns s (err e, (execute_once o query columns s).1)
  unfolding execute_once
  failed-IsExecuted n query columns s e h last =
      let (k, once, done) = failed_call query columns s e h in
      (0, k, omega arith, once, done, rw h refl, rw h (omega arith), last)

  pub retry-IsExecuted :
      (n : ℕ) (backoff delay : Float) (query : String) (columns : List (List Value)) (s : Server)
      → IsExecuted (suc n) query columns s (
          retry o.is_clickhouse_error o.times
            (slept o)
            backoff
            (execute_once o query columns)
            (suc n)
            delay
            s)
  unfolding retry execute_once
  retry-IsExecuted zero backoff delay query columns s = elim (Result-cases (o.answer s.calls)) [
    | inl (rows, answer) ↦ rw (retry, answer) (answered-IsExecuted 0 query columns s rows answer)
    | inr (e, failed) ↦ elim (Bool-cases (o.is_clickhouse_error e)) [
      | inl caught ↦
          rw (retry, failed, caught) (failed-IsExecuted 0 query columns s e failed (inl refl))
      | inr other ↦
          rw (retry, failed, other) (failed-IsExecuted 0 query columns s e failed (inr other))
    ]
  ]
  retry-IsExecuted (suc n) backoff delay query columns s = elim (Result-cases (o.answer s.calls)) [
    | inl (rows, answer) ↦
        rw (retry, answer) (answered-IsExecuted (suc n) query columns s rows answer)
    | inr (e, failed) ↦ elim (Bool-cases (o.is_clickhouse_error e && not (suc n == 0))) [
      | inr stop ↦
          rw (retry, failed, stop)
            (failed-IsExecuted (suc n) query columns s e failed (inr (ground (arith, stop))))
      | inl again ↦
          let t : Server = slept o delay (execute_once o query columns s).1 in
          let after : IsExecuted (suc n) query columns t (
              retry o.is_clickhouse_error o.times (slept o) backoff (execute_once o query columns)
                (suc n) (o.times delay backoff) t) =
            retry-IsExecuted n backoff (o.times delay backoff) query columns t in
          let one = failed_call query columns s e failed in
          rw (retry, failed, again)
            (IsExecuted-step (suc n) query columns s t _ one.0 one.1 one.2 (rw failed refl)
              (rw failed (length-append s.sleeps (delay ∷ []))) after)
    ]
  ]

  -- How pyarrow reads rows that fit the schema, column by column; `stored` is what it makes of a value
  -- of a column, such as the rounding of a float to 32 bits.
  abbrev pub ReadsRows : (ArrowType → Value → Value) → Type 0
  ReadsRows stored =
      (rows : List Dict)
      → All FitsSchema rows
      → o.from_pylist trips_arrow_schema rows
        ≡ ok (
            map (λ f. (f.0, map (λ row. stored f.1 (get_or f.0 null row)) rows)) trips_arrow_schema)

  -- The columns that are sent for the coerced rows.
  abbrev pub columns_of : (ArrowType → Value → Value) → List Dict → List (List Value)
  columns_of stored rows =
      map (λ f. map (λ row. stored f.1 (get_or f.0 null row)) rows) trips_arrow_schema

  -- A batch of rows whose coercion fits the schema is sent in columns, in the order of the schema and
  -- of the rows: when the insert returns it is executed, and again only by calls that failed and were
  -- executed all the same; it raises after three calls for an error of ClickHouse or the system.
  pub insert-IsExecuted :
      (stored : ArrowType → Value → Value) (rt : Runtime) (row : Dict) (rows coerced : List Dict)
      (s : Server)
      → ReadsRows stored
      → coerce_rows rt (row ∷ rows) ≡ ok coerced
      → All FitsSchema coerced
      → IsExecuted 3 "INSERT INTO taxi.trips VALUES"
          (columns_of stored coerced)
          s
          (insert o rt (row ∷ rows) s)
  unfolding insert execute
  insert-IsExecuted stored rt row rows coerced s reads made fits =
      rw (made, reads coerced fits)
        (retry-IsExecuted 2 (two_seconds o) (one_second o) "INSERT INTO taxi.trips VALUES"
          (columns_of stored coerced) s)
