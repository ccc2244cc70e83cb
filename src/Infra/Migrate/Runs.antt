-- ===== src/Infra/Migrate/Runs.antt =====
-- What a run of infra/migrate.py leaves behind.
use crypto_streaming_lakehou.Base.{
  ℕ, ◌+◌, ◌≡◌, refl, subst, ap, ◌∙◌, Bool, true, false, Option, none, some, List, [], ◌∷◌, ◌++◌,
  All, length, arith, eq_refl, if◌then◌else◌, String,
}
use crypto_streaming_lakehou.Infra.Migrate.{
  Migration, Database, Outcome, complete, has, record_migration, with_schema, migrate,
  after_migrate, apply_pending, get_migration_files, run_migrations,
}

abbrev pub Includes : List String → List String → Type 0
Includes vs ws = (v : String) → has v vs ≡ true → has v ws ≡ true

abbrev pub Applied : List String → Migration → Type 0
Applied vs m = has m.version vs ≡ true

has-append : (v w : String) (vs : List String) → has v vs ≡ true → has v (vs ++ w ∷ []) ≡ true
has-append v w [] h = cc
has-append v w (u ∷ vs) h = ground (arith, has-append v w vs)

has-last : (w : String) (vs : List String) → has w (vs ++ w ∷ []) ≡ true
has-last w [] = rw (eq_refl w) refl
has-last w (u ∷ vs) = ground (arith, has-last w vs)

module _ {Schema : Type 0} (execute : String → Schema → Option Schema) where
  recorded :
      (v : String) (db db' : Database Schema)
      → record_migration execute v db ≡ some db'
      → (has v db'.versions ≡ true) × Includes db.versions db'.versions
  unfolding record_migration
  recorded v db db' h =
      let same : db'.versions ≡ db.versions ++ v ∷ [] = ground arith in
      rw same (has-last v db.versions, λ w. has-append w v db.versions)

  with_schema_lem :
      (v : String) (db db' : Database Schema) (o : Option Schema)
      → with_schema execute v db o ≡ some db'
      → (has v db'.versions ≡ true) × Includes db.versions db'.versions
  unfolding with_schema
  with_schema_lem v db db' none h = cc
  with_schema_lem v db db' (some schema) h = recorded v (record db { schema = schema }) db' h

  -- With every version applied, nothing is done.
  apply_pending_again :
      (applied : List String) (done skipped : ℕ) (ms : List Migration) (db : Database Schema)
      → All (Applied applied) ms
      → apply_pending execute applied done skipped ms db ≡ (complete done (skipped + length ms), db)
  unfolding apply_pending
  apply_pending_again applied done skipped [] db h = ap (λ n. (complete done n, db)) (omega arith)
  apply_pending_again applied done skipped (m ∷ ms) db h = rw h.0 (
      apply_pending_again applied done (skipped + 1) ms db h.1
      ∙ ap (λ n. (complete done n, db)) (omega arith))

  -- What a completed run has recorded
  abbrev Recorded : List Migration → Database Schema → Database Schema → Type 0
  Recorded ms db db' = All (Applied db'.versions) ms × Includes db.versions db'.versions

  migrated :
      (v : String) (ms : List Migration) (db db' : Database Schema) (o : Option (Database Schema))
      (done skipped : ℕ) (next : Database Schema → Outcome × Database Schema)
      → ((u : Database Schema)
          → o ≡ some u
          → (has v u.versions ≡ true) × Includes db.versions u.versions)
      → ((u : Database Schema)
          → Includes db.versions u.versions
          → next u ≡ (complete done skipped, db')
          → Recorded ms u db')
      → after_migrate execute v db o next ≡ (complete done skipped, db')
      → (has v db'.versions ≡ true) × Recorded ms db db'
  unfolding after_migrate
  migrated v ms db db' none done skipped next rec ih h = cc
  migrated v ms db db' (some u) done skipped next rec ih h =
      let (here, grown) = rec u refl in
      let (all, kept) = ih u grown h in (kept v here, (all, λ w p. kept w (grown w p)))

  migrate_lem :
      (m : Migration) (db u : Database Schema)
      → migrate execute m db ≡ some u
      → (has m.version u.versions ≡ true) × Includes db.versions u.versions
  unfolding migrate
  migrate_lem m db u h = with_schema_lem m.version db u (execute m.sql db.schema) h

  either_way :
      (m : Migration) (ms : List Migration) (db db' : Database Schema) (out : Outcome)
      (x y : Outcome × Database Schema) (b : Bool)
      → (b ≡ true → x ≡ (out, db') → Applied db.versions m × Recorded ms db db')
      → (y ≡ (out, db') → Applied db'.versions m × Recorded ms db db')
      → (if b then x else y) ≡ (out, db')
      → Recorded (m ∷ ms) db db'
  either_way m ms db db' out x y true f g h =
      let (here, (all, kept)) = f refl h in ((kept m.version here, all), kept)
  either_way m ms db db' out x y false f g h = let (here, (all, kept)) = g h in ((here, all), kept)

  -- All the versions of a run that completes are recorded.
  completes :
      (applied : List String) (done skipped done' skipped' : ℕ) (ms : List Migration)
      (db db' : Database Schema)
      → Includes applied db.versions
      → apply_pending execute applied done skipped ms db ≡ (complete done' skipped', db')
      → Recorded ms db db'
  unfolding apply_pending
  completes applied done skipped done' skipped' [] db db' sub h =
      (tt, λ v p. subst (λ d. has v d.versions ≡ true) (ap (λ x. x.1) h) p)
  completes applied done skipped done' skipped' (m ∷ ms) db db' sub h =
      either_way m ms db db' (complete done' skipped')
        (apply_pending execute applied done (skipped + 1) ms db)
        (after_migrate execute m.version db (migrate execute m db)
          (apply_pending execute applied (done + 1) skipped ms))
        (has m.version applied)
        (λ e g.
          (sub m.version e, completes applied done (skipped + 1) done' skipped' ms db db' sub g))
        (λ g.
          migrated m.version ms db db' (migrate execute m db) done' skipped'
            (apply_pending execute applied (done + 1) skipped ms) (migrate_lem m db)
            (λ u grown r.
              completes applied (done + 1) skipped done' skipped' ms u db'
                (λ v p. grown v (sub v p)) r)
            g)
        h

  -- After a run that completes, every file with a number is recorded as applied, and a further run
  -- completes too: it applies nothing, skips each of these files, and leaves the database as it is.
  pub run_migrations_again :
      (files : List Migration) (db db' : Database Schema) (done skipped : ℕ)
      → run_migrations execute files db ≡ (complete done skipped, db')
      → All (Applied db'.versions) (get_migration_files files)
        × (run_migrations execute files db'
            ≡ (complete 0 (length (get_migration_files files)), db'))
  unfolding run_migrations
  run_migrations_again files db db' done skipped h =
      let (all, kept) =
        completes db.versions 0 0 done skipped (get_migration_files files) db db' (λ v p. p) h in
      (
        all,
        apply_pending_again db'.versions 0 0 (get_migration_files files) db' all
            ∙ ap (λ n. (complete 0 n, db')) (omega arith),
      )
