-- ===== src/Infra/Tests/Migrating.antt =====
-- Runs of infra/migrate.py on concrete files.
use crypto_streaming_lakehou.Base.{
  ℕ, true, String, text_eq, ◌≡◌, refl, Option, none, some, List, [], ◌∷◌, ◌++◌, All, length,
  if◌then◌else◌,
}
use crypto_streaming_lakehou.Infra.Migrate.{
  Migration, Database, complete, failed, has_prefix, prefix_from, numeric_prefix, insert_file,
  sort_files, numbered, get_migration_files, record_migration, migrate, apply_pending,
  run_migrations,
}
use crypto_streaming_lakehou.Infra.Migrate.Order.{
  IsOrdered, is_numbered, with_number, get_migration_files-IsOrdered,
}
use crypto_streaming_lakehou.Infra.Migrate.Runs.{Applied, run_migrations_again}
use crypto_streaming_lakehou.Infra.Migrate.Stops.{StopsAt, run_migrations_fails}

abbrev file : String → String → Migration
file name text = record { version = name; sql = text }

abbrev files : List Migration
files =
    file "010_views.sql" "views"
    ∷ file "002_index.sql" "index"
    ∷ file "notes.sql" ""
    ∷ file "1_tables.sql" "tables"
    ∷ []

-- A schema is the list of texts that were executed; "broken" is refused.
abbrev execute : String → List String → Option (List String)
execute text schema = if text_eq text "broken" then none else some (schema ++ text ∷ [])

abbrev empty : Database (List String)
empty = record { schema = []; versions = [] }

abbrev migrated : Database (List String)
migrated = record {
  schema = "tables" ∷ "index" ∷ "views" ∷ [];
  versions = "1_tables.sql" ∷ "002_index.sql" ∷ "010_views.sql" ∷ [];
}

get_migration_files-IsOrdered_example :
    let sorted = get_migration_files files in
    IsOrdered sorted
    × All (λ m. is_numbered m ≡ true) sorted
    × ((k : ℕ) → with_number k sorted ≡ with_number k files)
get_migration_files-IsOrdered_example = get_migration_files-IsOrdered files

first_run : run_migrations execute files empty ≡ (complete 3 0, migrated)
unfolding run_migrations apply_pending migrate record_migration get_migration_files sort_files
    insert_file numbered numeric_prefix prefix_from has_prefix
first_run = refl

run_migrations_again_example :
    All (Applied migrated.versions) (get_migration_files files)
    × (run_migrations execute files migrated
        ≡ (complete 0 (length (get_migration_files files)), migrated))
run_migrations_again_example = run_migrations_again execute files empty migrated 3 0 first_run

abbrev broken_files : List Migration
broken_files = file "002_index.sql" "broken" ∷ file "001_tables.sql" "tables" ∷ []

abbrev half : Database (List String)
half = record { schema = "tables" ∷ []; versions = "001_tables.sql" ∷ [] }

broken_run : run_migrations execute broken_files empty ≡ (failed "002_index.sql", half)
unfolding run_migrations apply_pending migrate record_migration get_migration_files sort_files
    insert_file numbered numeric_prefix prefix_from has_prefix
broken_run = refl

run_migrations_fails_instance :
    StopsAt execute [] 0 0 (get_migration_files broken_files) empty "002_index.sql" half
run_migrations_fails_instance =
    run_migrations_fails execute broken_files empty half "002_index.sql" broken_run
