-- ===== src/Lakehouse/ExportState/Bookmarks.antt =====
-- What lakehouse/schema.py writes is what lakehouse/export.py reads.
use text.Mathlib.TextEquality.{eq_iff}
use crypto_streaming_lakehou.Base.{
  String, List, [], ◌∷◌, text_eq, if◌then◌else◌, some, ◌≡◌, refl, arith,
}
use crypto_streaming_lakehou.Lakehouse.ExportState.{Checkpoint, upsert, find_mark}

-- An upsert sets the mark of its own table and of no other.
pub find_mark-upsert :
    (table : String) (c : Checkpoint) (rows : List Checkpoint)
    → find_mark table (upsert c rows)
      ≡ (if text_eq c.table_name table then some c.last_exported_at else find_mark table rows)
unfolding find_mark upsert
find_mark-upsert table c [] = refl
find_mark-upsert table c (d ∷ rows) = ground (
  arith,
  find_mark-upsert table c rows,
  eq_iff c.table_name d.table_name,
  eq_iff c.table_name table,
  eq_iff d.table_name table,
)
