-- ===== src/Infra/Migrate/Process/Exits.antt =====
-- The exit codes of infra/migrate.py.
use crypto_streaming_lakehou.Base.{
  ℕ, String, Option, none, some, List, Try, ok, raised, Exception, ◌≡◌, refl, ap, ◌∙◌, All, arith,
  ◌↔◌,
}
use crypto_streaming_lakehou.Infra.Topology.{Ending, returned, exited, crashed}
use crypto_streaming_lakehou.Infra.Migrate.{
  Migration, Database, Outcome, complete, failed, run_migrations, get_migration_files,
}
use crypto_streaming_lakehou.Infra.Migrate.Runs.{Applied, run_migrations_again}
use crypto_streaming_lakehou.Infra.Migrate.Process.{
  Launch, Opening, opened, operational_error, broken, ensure_airflow_db, get_connection, exit_of,
  then_close, then_exit, track_and_run, after_opening, after_ensuring, main,
}

closes :
    (close : Try (Unit {0})) → then_exit (then_close (returned tt) close) ≡ exited 0 → close ≡ ok tt
closes (ok _) h = refl
closes (raised e) h = absurd (cc)

fails : (close : Try (Unit {0})) → then_exit (then_close (exited 1) close) ≡ exited 0 → ⊥
fails (ok _) h = ground (arith)
fails (raised e) h = cc

crashes :
    (e : Exception) (close : Try (Unit {0}))
    → then_exit (then_close (crashed e) close) ≡ exited 0
    → ⊥
crashes e (ok _) h = cc
crashes e (raised x) h = cc

not_zero : (url : Option String) (opening : Opening) → get_connection url opening ≡ exited 0 → ⊥
unfolding get_connection
not_zero none opening h = ground (arith)
not_zero (some url) opened h = ground (arith)
not_zero (some url) operational_error h = ground (arith)
not_zero (some url) (broken e) h = ground (arith)

module _ {Schema : Type 0} (execute : String → Schema → Option Schema) where
  -- Everything went through, and the run of the migrations completed.
  pub record AllApplied (l : Launch) (files : List Migration) (names : List String)
      (db db' : Database Schema) : Type 0 where
    pub ensured : (ensure_airflow_db l.cluster names).0 ≡ ok tt
    pub connected : get_connection l.database_url l.opening ≡ returned tt
    pub tracked : l.tracking ≡ ok tt
    pub closed : l.close ≡ ok tt
    pub done : ℕ
    pub skipped : ℕ
    pub ran : run_migrations execute files db ≡ (complete done skipped, db')
    pub recorded : All (Applied db'.versions) (get_migration_files files)

  zero_after_run :
      (l : Launch) (files : List Migration) (names : List String) (db : Database Schema)
      → (r : Outcome × Database Schema) → run_migrations execute files db ≡ r
      → (ensure_airflow_db l.cluster names).0 ≡ ok tt
      → get_connection l.database_url l.opening ≡ returned tt
      → l.tracking ≡ ok tt
      → then_exit (then_close (exit_of r.0) l.close) ≡ exited 0
      → AllApplied l files names db r.1
  zero_after_run l files names db (complete done skipped, db') ran ensured connected tracked h =
      record {
        ensured = ensured;
        connected = connected;
        tracked = tracked;
        closed = closes l.close h;
        done = done;
        skipped = skipped;
        ran = ran;
        recorded = (run_migrations_again execute files db db' done skipped ran).0;
      }
  zero_after_run l files names db (failed v, db') ran ensured connected tracked h =
      absurd (fails l.close h)

  zero_after_tracking :
      (l : Launch) (files : List Migration) (names : List String) (db : Database Schema)
      (t : Try (Unit {0}))
      → l.tracking ≡ t
      → (ensure_airflow_db l.cluster names).0 ≡ ok tt
      → get_connection l.database_url l.opening ≡ returned tt
      → then_exit (then_close (track_and_run execute t files db).0 l.close) ≡ exited 0
      → AllApplied l files names db (track_and_run execute t files db).1
  zero_after_tracking l files names db (ok _) tracked ensured connected h =
      zero_after_run l files names db (run_migrations execute files db) refl ensured connected
        tracked h
  zero_after_tracking l files names db (raised e) tracked ensured connected h =
      absurd (crashes e l.close h)

  zero_after_opening :
      (l : Launch) (files : List Migration) (names : List String) (db : Database Schema)
      (o : Ending (Unit {0}))
      → get_connection l.database_url l.opening ≡ o
      → (o ≡ exited 0 → ⊥)
      → (ensure_airflow_db l.cluster names).0 ≡ ok tt
      → (after_opening execute o l files db).0 ≡ exited 0
      → AllApplied l files names db (after_opening execute o l files db).1
  zero_after_opening l files names db (returned _) connected n ensured h =
      zero_after_tracking l files names db l.tracking refl ensured connected h
  zero_after_opening l files names db (exited code) connected n ensured h = absurd (n h)
  zero_after_opening l files names db (crashed e) connected n ensured h = absurd (n h)

  zero_after_ensuring :
      (l : Launch) (files : List Migration) (names : List String) (db : Database Schema)
      (t : Try (Unit {0}))
      → (ensure_airflow_db l.cluster names).0 ≡ t
      → (after_ensuring execute t l files db).0 ≡ exited 0
      → AllApplied l files names db (after_ensuring execute t l files db).1
  zero_after_ensuring l files names db (ok _) ensured h =
      zero_after_opening l files names db (get_connection l.database_url l.opening) refl
        (not_zero l.database_url l.opening) ensured h
  zero_after_ensuring l files names db (raised e) ensured h = absurd (cc)

  applied_exits_zero :
      (l : Launch) (files : List Migration) (names : List String) (db db' : Database Schema)
      → AllApplied l files names db db'
      → (main execute l files names db).0 ≡ exited 0
  unfolding main
  applied_exits_zero l files names db db' a =
      ap (λ t. (after_ensuring execute t l files db).0) a.ensured
      ∙ ap (λ o. (after_opening execute o l files db).0) a.connected
      ∙ ap (λ t. then_exit (then_close (track_and_run execute t files db).0 l.close)) a.tracked
      ∙ ap (λ r. then_exit (then_close (exit_of r.0) l.close)) a.ran
      ∙ ap (λ c. then_exit (then_close (returned tt) c)) a.closed

  -- The process exits with code 0 exactly if the check of the airflow database, the connection, the
  -- tracking table and the closing went through and the run of the migrations completed; every file
  -- with a number is then recorded as applied in the database that the process leaves.
  pub main-AllApplied :
      (l : Launch) (files : List Migration) (names : List String) (db : Database Schema)
      → ((main execute l files names db).0 ≡ exited 0)
        ↔ AllApplied l files names db (main execute l files names db).1
  unfolding main
  main-AllApplied l files names db = (
    (λ h. zero_after_ensuring l files names db (ensure_airflow_db l.cluster names).0 refl h),
    (λ a. applied_exits_zero l files names db _ a),
  )
