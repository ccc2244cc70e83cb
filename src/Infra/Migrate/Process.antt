-- ===== src/Infra/Migrate/Process.antt =====
-- `ensure_airflow_db`, `get_connection` and `main` of infra/migrate.py.
pub mod Exits
use crypto_streaming_lakehou.Base.{
  ℕ, String, Bool, true, false, Option, none, some, List, [], ◌∷◌, ◌++◌, text_eq, Try, ok, raised,
  Exception, psycopg_error, if◌then◌else◌,
}
use crypto_streaming_lakehou.Infra.Topology.{Ending, returned, exited, crashed}
use crypto_streaming_lakehou.Infra.Migrate.{
  Migration, Database, Outcome, complete, failed, has, run_migrations,
}

-- How psycopg2.connect ends: a connection, OperationalError, or something else.
pub data Opening : Type 0 where
  opened operational_error : Opening
  broken : Exception → Opening

-- `except psycopg2.Error`, which warns
abbrev pub warned : Try (Unit {0}) → Try (Unit {0})
warned (ok u) = ok u
warned (raised psycopg_error) = ok tt
warned (raised e) = raised e

-- The calls of ensure_airflow_db: connecting, the query, CREATE DATABASE, and closing
pub record Cluster : Type 0 where
  pub connect : Opening
  pub select : Try (Unit {0})
  pub create : Try (Unit {0})
  pub close : Try (Unit {0})

abbrev pub create_airflow :
    Try (Unit {0}) → Try (Unit {0}) → List String → Try (Unit {0}) × List String
create_airflow (raised e) close names = (raised e, names)
create_airflow (ok _) close names = (close, names ++ "airflow" ∷ [])

abbrev pub unless_there : Try (Unit {0}) → Cluster → List String → Try (Unit {0}) × List String
unless_there (raised e) c names = (raised e, names)
unless_there (ok _) c names =
    if has "airflow" names then (c.close, names) else create_airflow c.create c.close names

abbrev pub over_cluster : Opening → Cluster → List String → Try (Unit {0}) × List String
over_cluster opened c names = unless_there c.select c names
over_cluster operational_error c names = (raised psycopg_error, names)
over_cluster (broken e) c names = (raised e, names)

-- The names in pg_database before and after
unfoldable pub ensure_airflow_db : Cluster → List String → Try (Unit {0}) × List String
ensure_airflow_db c names = let r = over_cluster c.connect c names in (warned r.0, r.1)

abbrev pub on_opening : Opening → Ending (Unit {0})
on_opening opened = returned tt
on_opening operational_error = exited 1
on_opening (broken e) = crashed e

unfoldable pub get_connection : Option String → Opening → Ending (Unit {0})
get_connection none opening = exited 1
get_connection (some url) opening = if text_eq url "" then exited 1 else on_opening opening

-- sys.exit(1) after a migration that failed
abbrev pub exit_of : Outcome → Ending (Unit {0})
exit_of (complete done skipped) = returned tt
exit_of (failed version) = exited 1

-- `finally: conn.close()`
abbrev pub then_close : Ending (Unit {0}) → Try (Unit {0}) → Ending (Unit {0})
then_close ending (ok _) = ending
then_close ending (raised e) = crashed e

-- `sys.exit(0)`
abbrev pub then_exit : Ending (Unit {0}) → Ending (Unit {0})
then_exit (returned _) = exited 0
then_exit (exited code) = exited code
then_exit (crashed e) = crashed e

-- What main finds: DATABASE_URL, the calls of ensure_airflow_db, how the connection opens, how the
-- first two steps of run_migrations end, which make and read schema_migrations, and how closing
-- ends.
pub record Launch : Type 0 where
  pub database_url : Option String
  pub cluster : Cluster
  pub opening : Opening
  pub tracking : Try (Unit {0})
  pub close : Try (Unit {0})

module _ {Schema : Type 0} (execute : String → Schema → Option Schema) where
  abbrev pub track_and_run :
      Try (Unit {0}) → List Migration → Database Schema → Ending (Unit {0}) × Database Schema
  track_and_run (raised e) files db = (crashed e, db)
  track_and_run (ok _) files db = let r = run_migrations execute files db in (exit_of r.0, r.1)

  abbrev pub after_opening :
      Ending (Unit {0})
      → Launch
      → List Migration
      → Database Schema
      → Ending (Unit {0}) × Database Schema
  after_opening (returned _) l files db =
      let r = track_and_run l.tracking files db in (then_exit (then_close r.0 l.close), r.1)
  after_opening (exited code) l files db = (exited code, db)
  after_opening (crashed e) l files db = (crashed e, db)

  abbrev pub after_ensuring :
      Try (Unit {0})
      → Launch
      → List Migration
      → Database Schema
      → Ending (Unit {0}) × Database Schema
  after_ensuring (raised e) l files db = (crashed e, db)
  after_ensuring (ok _) l files db =
      after_opening (get_connection l.database_url l.opening) l files db

  -- How the process ends, its database, and the databases of the cluster
  unfoldable pub main :
      Launch
      → List Migration
      → List String
      → Database Schema
      → Ending (Unit {0}) × Database Schema × List String
  unfolding ensure_airflow_db get_connection
  main l files names db =
      let (ensured, names') = ensure_airflow_db l.cluster names in
      let (ending, db') = after_ensuring ensured l files db in (ending, db', names')
