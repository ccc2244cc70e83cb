-- ===== src/Infra/Migrate.antt =====
-- infra/migrate.py
pub mod Order
pub mod Runs
pub mod Stops
pub mod Process
use Prim.Native.Char.{Char, code}
use Prim.Native.String
use crypto_streaming_lakehou.Base.{
  ℕ, ◌+◌, ◌-◌, ◌*◌, String, Bool, true, false, ◌&&◌, Option, none, some, List, [], ◌∷◌, ◌++◌, leb,
  text_eq, if◌then◌else◌,
}
use crypto_streaming_lakehou.Base.Int.{ℤ, pos, negsuc, leb_ℤ}

-- A file of migrations/, by its name and its text.
pub record Migration : Type 0 where
  pub version : String
  pub sql : String

-- A character of `\d`. Of the decimal digits the model knows the ASCII ones.
abbrev pub is_digit : Char → Bool
is_digit c = leb b'0' (code c) && leb (code c) b'9'

-- re.match(r"^\d+", name)
unfoldable pub has_prefix : String → Bool
has_prefix String.[] = false
has_prefix (String.◌∷◌ c s) = is_digit c

-- int of the leading digits, after those that make up `value`
unfoldable pub prefix_from : ℕ → String → ℕ
prefix_from value String.[] = value
prefix_from value (String.◌∷◌ c s) =
    let rest = prefix_from (value * 10 + (code c - b'0')) s in if is_digit c then rest else value

unfoldable pub numeric_prefix : String → ℤ
unfolding has_prefix prefix_from
numeric_prefix name = if has_prefix name then pos (prefix_from 0 name) else negsuc 0

-- list.sort(key=_numeric_prefix), which is stable
unfoldable pub insert_file : Migration → List Migration → List Migration
unfolding numeric_prefix
insert_file m [] = m ∷ []
insert_file m (n ∷ ms) =
    if leb_ℤ (numeric_prefix m.version) (numeric_prefix n.version)
    then m ∷ n ∷ ms
    else n ∷ insert_file m ms

unfoldable pub sort_files : List Migration → List Migration
unfolding insert_file
sort_files [] = []
sort_files (m ∷ ms) = insert_file m (sort_files ms)

unfoldable pub numbered : List Migration → List Migration
unfolding has_prefix
numbered [] = []
numbered (m ∷ ms) = if has_prefix m.version then m ∷ numbered ms else numbered ms

-- The .sql files in the order of the directory, filtered and sorted.
unfoldable pub get_migration_files : List Migration → List Migration
unfolding sort_files numbered
get_migration_files files = sort_files (numbered files)

abbrev pub has : String → List String → Bool
has v [] = false
has v (w ∷ ws) = if text_eq v w then true else has v ws

-- The database: what the migrations change, and the rows of schema_migrations, none if there is no
-- such table yet.
pub record Database (Schema : Type 0) : Type 0 where
  pub schema : Schema
  pub versions : List String

pub data Outcome : Type 0 where
  complete : ℕ → ℕ → Outcome
  failed : String → Outcome

-- `execute` is what Postgres does with the text of a migration; `none` is a psycopg2.Error.
module _ {Schema : Type 0} (execute : String → Schema → Option Schema) where
  -- INSERT INTO schema_migrations, whose key is the version
  unfoldable pub record_migration : String → Database Schema → Option (Database Schema)
  record_migration v db =
      if has v db.versions then none else some (record db { versions = db.versions ++ v ∷ [] })

  with_schema : String → Database Schema → Option Schema → Option (Database Schema)
  unfolding record_migration
  with_schema v db none = none
  with_schema v db (some schema) = record_migration v (record db { schema = schema })

  -- The `try` block: both statements are committed, or neither.
  unfoldable pub migrate : Migration → Database Schema → Option (Database Schema)
  unfolding with_schema
  migrate m db = with_schema m.version db (execute m.sql db.schema)

  after_migrate :
      String
      → Database Schema
      → Option (Database Schema)
      → (Database Schema → Outcome × Database Schema)
      → Outcome × Database Schema
  after_migrate v db none next = (failed v, db)
  after_migrate v db (some db') next = next db'

  -- Step 3, with the versions read in step 2 and the two counts
  unfoldable pub apply_pending :
      List String → ℕ → ℕ → List Migration → Database Schema → Outcome × Database Schema
  unfolding migrate after_migrate
  apply_pending applied done skipped [] db = (complete done skipped, db)
  apply_pending applied done skipped (m ∷ ms) db =
      if has m.version applied
      then apply_pending applied done (skipped + 1) ms db
      else after_migrate m.version db (migrate m db) (apply_pending applied (done + 1) skipped ms)

  unfoldable pub run_migrations : List Migration → Database Schema → Outcome × Database Schema
  unfolding apply_pending get_migration_files
  run_migrations files db = apply_pending db.versions 0 0 (get_migration_files files) db
