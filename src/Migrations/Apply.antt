-- ===== src/Migrations/Apply.antt =====
-- Finding the files of the migrations, the versions applied, and `main` of
-- etl/entrypoints/schema_apply.py.
use nyc_taxi.Base.{
  arith, sym, ◌∙◌, subst, ◌⊎◌, inl, inr, if◌then◌else◌, ℕ, String, ◌≡◌, refl, Bool, true, false,
  ◌||◌, Option, none, some, List, [], ◌∷◌, ◌++◌, str_eq,
}
use nyc_taxi.Python.{Error, Result, ok, err}
use nyc_taxi.Settings.{Source, Settings, Cache, get_settings}
use nyc_taxi.Migrations.{Server, Database, Call, then_call, execute_with, apply_all}
use nyc_taxi.Migrations.Again.{AllApplied, apply_all-AllApplied}

-- `_discover_migrations`: the names that match in the directory, if it exists.
unfoldable pub discover_migrations : (List String → List String) → Bool → List String → List String
discover_migrations sorted exists found = if exists then sorted found else []

abbrev pub has_key : String → List String → Bool
has_key v [] = false
has_key v (w ∷ ws) = str_eq w v || has_key v ws

-- The keys of `{row[0]: row[1] for row in rows}`, in the order in which they come first.
unfoldable pub keys_of : List (String × String) → List String → List String
keys_of [] keys = keys
keys_of ((v, c) ∷ rows) keys = keys_of rows (if has_key v keys then keys else keys ++ v ∷ [])

module _ (d : Server) (sorted : List String → List String) where
  -- `applied_versions`: the tracking table is made, if need be, and read.
  unfoldable pub applied_versions : Database → Result (List String) × Database
  unfolding execute_with keys_of
  applied_versions s =
      let (result, t) = then_call (execute_with d (λ w. w) s) (execute_with d (λ w. w)) in
      elim result [ ok u ↦ (ok (sorted (keys_of t.tracked [])), t) | err e ↦ (err e, t) ]

  -- How the process ends: its exit code, the database, and whether the client was closed.
  pub record Ended : Type 0 where
    pub exit : ℕ
    pub database : Database
    pub closed : Bool

  abbrev pub listed_versions : Result (List String) × Database → Call
  listed_versions (ok versions, s) = (ok tt, s)
  listed_versions (err e, s) = (err e, s)

  -- The body of the `try`, with what `ping` raises, if anything.
  unfoldable pub apply_schema : Option Error → List (String × String) → Database → Call
  unfolding apply_all applied_versions
  apply_schema none files s =
      then_call (apply_all d files s) (λ t. listed_versions (applied_versions t))
  apply_schema (some e) files s = (err e, s)

  -- `except Exception`, and the `finally` behind it; `close` raises nothing.
  abbrev pub closing : Call → Ended
  closing (ok u, s) = record { exit = 0; database = s; closed = true }
  closing (err e, s) = record { exit = 1; database = s; closed = true }

  -- `main`; what `get_settings` raises is not caught.
  unfoldable pub main :
      Source → Cache → Option Error → List (String × String) → Database → Result Ended
  unfolding get_settings apply_schema
  main source cache ping files s = elim (get_settings source cache).0 [
    | ok v ↦ ok (closing (apply_schema ping files s))
    | err e ↦ err e
  ]

  applied_versions-tracked : (s : Database) → (applied_versions s).1.tracked ≡ s.tracked
  unfolding applied_versions execute_with
  applied_versions-tracked s = ground arith

  listed_versions-tracked :
      (r : Result (List String) × Database) → (listed_versions r).1.tracked ≡ r.1.tracked
  listed_versions-tracked (ok versions, s) = refl
  listed_versions-tracked (err e, s) = refl

  apply_schema-AllApplied :
      (ping : Option Error) (files : List (String × String)) (s : Database)
      → (apply_schema ping files s).0 ≡ ok tt
      → AllApplied d (apply_schema ping files s).1.tracked files
  unfolding apply_schema
  apply_schema-AllApplied (some e) files s h = absurd (cc (h))
  apply_schema-AllApplied none files s h = settle (apply_all d files s) refl h
    where
      settle :
          (c : Call)
          → apply_all d files s ≡ c
          → (then_call c (λ t. listed_versions (applied_versions t))).0 ≡ ok tt
          → AllApplied d (then_call c (λ t. listed_versions (applied_versions t))).1.tracked files
      settle (err e, t) same k = absurd (cc (k))
      settle (ok u, t) same k =
          subst (λ rows. AllApplied d rows files)
            (sym (listed_versions-tracked (applied_versions t) ∙ applied_versions-tracked t))
            (apply_all-AllApplied d files s t same)

  -- What the end of the process says.
  abbrev pub IsReported : List (String × String) → Ended → Type 0
  IsReported files end =
      (end.closed ≡ true)
      × (((end.exit ≡ 0) × AllApplied d end.database.tracked files) ⊎ (end.exit ≡ 1))

  closing-IsReported :
      (files : List (String × String)) (c : Call)
      → (c.0 ≡ ok tt → AllApplied d c.1.tracked files)
      → IsReported files (closing c)
  closing-IsReported files (ok u, s) h = (refl, inl (refl, h refl))
  closing-IsReported files (err e, s) h = (refl, inr refl)

  -- When the settings can be read, the process closes its client, whatever is raised, and it exits with 1,
  -- or else with 0 and then every migration has its row in the tracking table.
  pub main-IsReported :
      (source : Source) (cache : Cache) (v : Settings) (ping : Option Error)
      (files : List (String × String)) (s : Database)
      → (get_settings source cache).0 ≡ ok v
      → (end : Ended) × (main source cache ping files s ≡ ok end) × IsReported files end
  unfolding main
  main-IsReported source cache v ping files s h = (
    closing (apply_schema ping files s),
    rw (main, h) refl,
    closing-IsReported files (apply_schema ping files s) (apply_schema-AllApplied ping files s),
  )
