-- ===== src/Consumer/Bronze.antt =====
-- The table bronze.raw_trades of migrations/001_bronze_schema.sql with the unique index of
-- migrations/002_bronze_trade_id_index.sql, under the INSERT of consumer/repository.py.
pub mod Rows
use crypto_streaming_lakehou.Base.{
  ℕ, String, Bool, true, false, ◌||◌, Option, none, some, List, [], ◌∷◌, ◌++◌, text_eq,
  if◌then◌else◌,
}

-- The columns that the INSERT gives; `id` and `processed` have defaults that nothing here reads.
pub record Row (Trade : Type 0) : Type 0 where
  pub payload : Trade
  pub received_at : ℕ

-- The rows, oldest first.
abbrev pub Table : Type 0 → Type 0
Table Trade = List (Row Trade)

-- Whether two values of trade_id are equal to the unique index: a NULL equals nothing.
unfoldable pub same_id : Option String → Option String → Bool
same_id none o = false
same_id (some k) none = false
same_id (some k) (some j) = text_eq j k

-- `trade_id_of` is the generated column, payload ->> 'trade_id'.
module _ {Trade : Type 0} (trade_id_of : Trade → Option String) where
  -- Whether the index already holds this trade_id.
  unfoldable pub conflicts : Option String → Table Trade → Bool
  conflicts k [] = false
  conflicts k (r ∷ rest) = same_id k (trade_id_of r.payload) || conflicts k rest

  -- INSERT … ON CONFLICT (trade_id) DO NOTHING, of one row
  unfoldable pub insert_row : Row Trade → Table Trade → Table Trade
  unfolding conflicts
  insert_row r table = if conflicts (trade_id_of r.payload) table then table else table ++ r ∷ []

  -- The number of rows that this inserts
  unfoldable pub row_count : Row Trade → Table Trade → ℕ
  unfolding conflicts
  row_count r table = if conflicts (trade_id_of r.payload) table then 0 else 1

  -- The same of many rows, each of which meets those before it, and the RETURNING trade_id
  unfoldable pub insert_rows : List (Row Trade) → Table Trade → Table Trade × List (Option String)
  unfolding insert_row
  insert_rows [] table = (table, [])
  insert_rows (r ∷ rest) table =
      let (table', ids) = insert_rows rest (insert_row r table) in
      (table', if conflicts (trade_id_of r.payload) table then ids else trade_id_of r.payload ∷ ids)
