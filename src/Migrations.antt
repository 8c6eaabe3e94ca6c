-- ===== src/Migrations.antt =====
-- etl/infrastructure/clickhouse/schema_manager.py: migrations and the table of those applied.
pub mod Again
pub mod Apply
use nyc_taxi.Base.{
  ℕ, ◌+◌, String, Bool, true, false, ◌||◌, Option, none, some, List, [], ◌∷◌, ◌++◌, str_eq,
}
use nyc_taxi.Python.{Error, Result, ok, err}

-- `[s.strip() for s in sql.split(";") if s.strip()]`, the hash of a text, and what the n-th `execute`
-- raises, if anything.
pub record Server : Type 0 where
  pub statements_of : String → List String
  pub checksum : String → String
  pub execute : ℕ → Option Error

-- The rows (version, checksum) of the tracking table, the statements of migrations that were
-- executed, and the number of calls.
pub record Database : Type 0 where
  pub tracked : List (String × String)
  pub executed : List String
  pub calls : ℕ

abbrev pub Call : Type 0
Call = Result (Unit {0}) × Database

abbrev pub then_call : Call → (Database → Call) → Call
then_call (ok u, s) f = f s
then_call (err e, s) f = (err e, s)

-- `version in applied`
unfoldable pub is_applied : String → List (String × String) → Bool
is_applied v [] = false
is_applied v ((w, c) ∷ rows) = str_eq v w || is_applied v rows

module _ (d : Server) where
  abbrev pub called : Option Error → (Database → Database) → Database → Call
  called none f s = (ok tt, f (record s { calls = s.calls + 1 }))
  called (some e) f s = (err e, record s { calls = s.calls + 1 })

  -- One `execute`, with what it does to the database.
  unfoldable pub execute_with : (Database → Database) → Database → Call
  execute_with f s = called (d.execute s.calls) f s

  unfoldable pub execute_statements : List String → Database → Call
  unfolding execute_with
  execute_statements [] s = (ok tt, s)
  execute_statements (q ∷ qs) s =
      then_call (execute_with (λ t. record t { executed = t.executed ++ q ∷ [] }) s)
        (execute_statements qs)

  -- `_apply_migration`
  unfoldable pub apply_migration : String → String → Database → Call
  unfolding execute_statements execute_with
  apply_migration version sql s =
      then_call (execute_statements (d.statements_of sql) s)
        (execute_with (λ t. record t { tracked = t.tracked ++ (version, d.checksum sql) ∷ [] }))

  -- The loop of `apply_all` over (version, text), with the versions that were applied at its start.
  unfoldable pub apply_pending : List (String × String) → List (String × String) → Database → Call
  unfolding is_applied
  apply_pending applied [] s = (ok tt, s)
  apply_pending applied ((version, sql) ∷ files) s = elim (is_applied version applied) [
    | true ↦ apply_pending applied files s
    | false ↦ then_call (apply_migration version sql s) (apply_pending applied files)
  ]

  -- `apply_all`: create the tracking table, read it, and apply what is pending.
  unfoldable pub apply_all : List (String × String) → Database → Call
  unfolding execute_with
  apply_all files s =
      then_call (execute_with (λ t. t) s)
        λ t. then_call (execute_with (λ u. u) t) (apply_pending t.tracked files)
