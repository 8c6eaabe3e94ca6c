-- ===== src/Witnesses/MigrationLaws.antt =====
-- Two migrations, applied twice.
use nyc_taxi.Base.{String, ◌≡◌, refl, none, List, [], ◌∷◌}
use nyc_taxi.Python.{ok}
use nyc_taxi.Migrations.{
  Server, Database, is_applied, execute_with, execute_statements, apply_migration, apply_pending,
  apply_all,
}
use nyc_taxi.Migrations.Again.{apply_all-apply_all}

abbrev server : Server
server = record { statements_of = λ sql. sql ∷ []; checksum = λ sql. sql; execute = λ n. none }

abbrev files : List (String × String)
files = ("001_initial", "CREATE TABLE a") ∷ ("002_views", "CREATE VIEW b") ∷ []

abbrev fresh : Database
fresh = record { tracked = []; executed = []; calls = 0 }

abbrev migrated : Database
migrated = record { tracked = files; executed = "CREATE TABLE a" ∷ "CREATE VIEW b" ∷ []; calls = 6 }

apply_all-apply_all_example :
    apply_all server files migrated ≡ (ok tt, record migrated { calls = 8 })
unfolding apply_all apply_pending apply_migration execute_statements execute_with is_applied
apply_all-apply_all_example = apply_all-apply_all server files fresh migrated refl refl refl
