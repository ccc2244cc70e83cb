-- ===== src/Lakehouse/ExportState.antt =====
-- lakehouse/schema.py: the table ducklake.export_state
pub mod Bookmarks
use crypto_streaming_lakehou.Base.{
  ℕ, String, Bool, true, false, List, [], ◌∷◌, text_eq, if◌then◌else◌, Option, none, some, Try, ok,
  raised, value_error, other, ◌>>=◌,
}

-- A row of ducklake.export_state; instants are in microseconds.
pub record Checkpoint : Type 0 where
  pub table_name : String
  pub last_exported_at : ℕ
  pub rows_exported : ℕ

-- A datetime, and whether it has a time zone.
pub record Instant : Type 0 where
  pub micros : ℕ
  pub is_aware : Bool

-- The rows of export_state, none if there is no such table.
abbrev pub ExportState : Type 0
ExportState = Option (List Checkpoint)

-- CREATE SCHEMA and CREATE TABLE, each IF NOT EXISTS
unfoldable pub init_ducklake_schema : ExportState → ExportState
init_ducklake_schema none = some []
init_ducklake_schema (some rows) = some rows

-- INSERT ... ON CONFLICT (table_name) DO UPDATE
unfoldable pub upsert : Checkpoint → List Checkpoint → List Checkpoint
upsert c [] = c ∷ []
upsert c (d ∷ rows) =
    let rest = upsert c rows in if text_eq c.table_name d.table_name then c ∷ rows else d ∷ rest

abbrev on_table : ExportState → (List Checkpoint → List Checkpoint) → Try ExportState
on_table none f = raised other
on_table (some rows) f = ok (some (f rows))

-- `execute` is how DuckDB answers, apart from a missing table.
unfoldable pub upsert_export_state :
    Try (Unit {0}) → String → Instant → ℕ → ExportState → Try ExportState
unfolding upsert
upsert_export_state execute table_name last_exported_at rows_exported state =
    if last_exported_at.is_aware
    then execute >>= (λ _. on_table state (
        upsert record {
          table_name = table_name;
          last_exported_at = last_exported_at.micros;
          rows_exported = rows_exported;
        }))
    else raised value_error

-- SELECT last_exported_at ... WHERE table_name = ?
unfoldable pub find_mark : String → List Checkpoint → Option ℕ
find_mark table [] = none
find_mark table (c ∷ rows) =
    let rest = find_mark table rows in
    if text_eq c.table_name table then some c.last_exported_at else rest

abbrev read_mark : String → ExportState → Try (Option ℕ)
read_mark table none = raised other
read_mark table (some rows) = ok (find_mark table rows)

-- _get_high_water_mark of lakehouse/export.py
unfoldable pub get_high_water_mark : Try (Unit {0}) → String → ExportState → Try (Option ℕ)
unfolding find_mark
get_high_water_mark execute table state = execute >>= (λ _. read_mark table state)
