-- ===== src/Infra/Tests/Launching.antt =====
-- Runs of `main` of infra/migrate.py.
use crypto_streaming_lakehou.Base.{
  String, text_eq, ◌≡◌, ◌↔◌, refl, Option, none, some, List, [], ◌∷◌, ◌++◌, ok, raised,
  psycopg_error, if◌then◌else◌,
}
use crypto_streaming_lakehou.Infra.Topology.{exited}
use crypto_streaming_lakehou.Infra.Migrate.{
  Migration, Database, has_prefix, prefix_from, numeric_prefix, insert_file, sort_files, numbered,
  get_migration_files, record_migration, migrate, apply_pending, run_migrations,
}
use crypto_streaming_lakehou.Infra.Migrate.Process.{
  Launch, opened, ensure_airflow_db, get_connection, main,
}
use crypto_streaming_lakehou.Infra.Migrate.Process.Exits.{AllApplied, main-AllApplied}

abbrev files : List Migration
files =
    record { version = "002_index.sql"; sql = "index" }
    ∷ record { version = "001_tables.sql"; sql = "tables" }
    ∷ []

abbrev execute : String → List String → Option (List String)
execute text schema = if text_eq text "broken" then none else some (schema ++ text ∷ [])

abbrev empty : Database (List String)
empty = record { schema = []; versions = [] }

-- A server that does not let the airflow database be made, which only warns
abbrev launch : Launch
launch = record {
  database_url = some "postgres://db";
  cluster = record {
    connect = opened;
    select = ok tt;
    create = raised psycopg_error;
    close = ok tt;
  };
  opening = opened;
  tracking = ok tt;
  close = ok tt;
}

exits_zero : main execute launch files ("postgres" ∷ []) empty ≡ (
  exited 0,
  record { schema = "tables" ∷ "index" ∷ []; versions = "001_tables.sql" ∷ "002_index.sql" ∷ [] },
  "postgres" ∷ [],
)
unfolding main ensure_airflow_db get_connection run_migrations apply_pending migrate
    record_migration get_migration_files sort_files insert_file numbered numeric_prefix prefix_from
    has_prefix
exits_zero = refl

main-AllApplied_example :
    ((main execute launch files ("postgres" ∷ []) empty).0 ≡ exited 0)
    ↔ AllApplied execute launch files
        ("postgres" ∷ [])
        empty
        (main execute launch files ("postgres" ∷ []) empty).1
main-AllApplied_example = main-AllApplied execute launch files ("postgres" ∷ []) empty
