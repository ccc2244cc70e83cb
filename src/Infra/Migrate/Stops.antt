-- ===== src/Infra/Migrate/Stops.antt =====
-- A migration that fails in infra/migrate.py.
use crypto_streaming_lakehou.Base.{
  ℕ, ◌+◌, ◌≡◌, refl, sym, ap, ◌∙◌, inl, inr, true, false, Option, none, some, List, [], ◌∷◌, ◌++◌,
  Bool-cases, Option-cases, String,
}
use crypto_streaming_lakehou.Infra.Migrate.{
  Migration, Database, Outcome, complete, failed, has, migrate, after_migrate, apply_pending,
  get_migration_files, run_migrations,
}

module _ {Schema : Type 0} (execute : String → Schema → Option Schema) where
  -- A run that stops: the files before some file all go through and lead to `db'`, and this file
  -- fails there.
  pub record StopsAt (applied : List String) (done skipped : ℕ) (ms : List Migration)
      (db : Database Schema) (v : String) (db' : Database Schema) : Type 0 where
    pub before : List Migration
    pub failing : Migration
    pub after : List Migration
    pub files : ms ≡ before ++ failing ∷ after
    pub named : failing.version ≡ v
    pub pending : has failing.version applied ≡ false
    pub done_before : ℕ
    pub skipped_before : ℕ
    pub passed :
        apply_pending execute applied done skipped before db
        ≡ (complete done_before skipped_before, db')
    pub fails : migrate execute failing db' ≡ none

  skip_first :
      (applied : List String) (done skipped : ℕ) (m : Migration) (ms : List Migration)
      (db : Database Schema) (v : String) (db' : Database Schema)
      → has m.version applied ≡ true
      → StopsAt applied done (skipped + 1) ms db v db'
      → StopsAt applied done skipped (m ∷ ms) db v db'
  unfolding apply_pending
  skip_first applied done skipped m ms db v db' e s = record {
    before = m ∷ s.before;
    failing = s.failing;
    after = s.after;
    files = ap (λ l. m ∷ l) s.files;
    named = s.named;
    pending = s.pending;
    done_before = s.done_before;
    skipped_before = s.skipped_before;
    passed = rw e s.passed;
    fails = s.fails;
  }

  apply_first :
      (applied : List String) (done skipped : ℕ) (m : Migration) (ms : List Migration)
      (db u : Database Schema) (v : String) (db' : Database Schema)
      → has m.version applied ≡ false
      → migrate execute m db ≡ some u
      → StopsAt applied (done + 1) skipped ms u v db'
      → StopsAt applied done skipped (m ∷ ms) db v db'
  unfolding apply_pending after_migrate
  apply_first applied done skipped m ms db u v db' e ran s = record {
    before = m ∷ s.before;
    failing = s.failing;
    after = s.after;
    files = ap (λ l. m ∷ l) s.files;
    named = s.named;
    pending = s.pending;
    done_before = s.done_before;
    skipped_before = s.skipped_before;
    passed = rw (e, ran) s.passed;
    fails = s.fails;
  }

  fail_first :
      (applied : List String) (done skipped : ℕ) (m : Migration) (ms : List Migration)
      (db : Database Schema) (v : String) (db' : Database Schema)
      → has m.version applied ≡ false
      → migrate execute m db ≡ none
      → ◌≡◌ {A = Outcome × Database Schema} (failed m.version, db) (failed v, db')
      → StopsAt applied done skipped (m ∷ ms) db v db'
  unfolding apply_pending
  fail_first applied done skipped m ms db v db' e bad h = record {
    before = [];
    failing = m;
    after = ms;
    files = refl;
    named = cc;
    pending = e;
    done_before = done;
    skipped_before = skipped;
    passed = ap (λ x. (complete done skipped, x.1)) h;
    fails = ap (λ x. migrate execute m x.1) (sym h) ∙ bad;
  }

  stops :
      (applied : List String) (done skipped : ℕ) (ms : List Migration) (db : Database Schema)
      (v : String) (db' : Database Schema)
      → apply_pending execute applied done skipped ms db ≡ (failed v, db')
      → StopsAt applied done skipped ms db v db'
  unfolding apply_pending after_migrate
  stops applied done skipped [] db v db' h = cc
  stops applied done skipped (m ∷ ms) db v db' h = elim (Bool-cases (has m.version applied)) [
    | inl e ↦
        skip_first applied done skipped m ms db v db' e
          (stops applied done (skipped + 1) ms db v db' (rw e at h))
    | inr e ↦ elim (Option-cases (migrate execute m db)) [
      | inl bad ↦ fail_first applied done skipped m ms db v db' e bad (rw (e, bad) at h)
      | inr (u, ran) ↦
          apply_first applied done skipped m ms db u v db' e ran
            (stops applied (done + 1) skipped ms u v db' (rw (e, ran) at h))
    ]
  ]

  -- If a run fails at a version, the files before that one, in the order of application, have all
  -- been applied or skipped, the database is as they leave it, and the file of that version, which
  -- was not recorded, changes nothing.
  pub run_migrations_fails :
      (files : List Migration) (db db' : Database Schema) (v : String)
      → run_migrations execute files db ≡ (failed v, db')
      → StopsAt db.versions 0 0 (get_migration_files files) db v db'
  unfolding run_migrations
  run_migrations_fails files db db' v h =
      stops db.versions 0 0 (get_migration_files files) db v db' h
