-- ===== src/Lakehouse/Exporter.antt =====
-- GoldExporter of lakehouse/exporter.py
pub mod Numerals
pub mod Writing
pub mod Full
pub mod Incremental
pub mod Partitions
use Prim.Native.String.{◌++◌ as ◌<>◌}
use crypto_streaming_lakehou.Base.{
  ℕ, zero, suc, ◌+◌, ◌*◌, ◌/◌, ◌%◌, String, ◌==◌, Bool, true, false, not, ◌||◌, List, [], ◌∷◌, ◌++◌,
  ltb, if◌then◌else◌, is_empty, Try, ok, raised, other,
}
use crypto_streaming_lakehou.Lakehouse.Names.{validate_table_name}
use crypto_streaming_lakehou.Lakehouse.Storage.{
  File, Storage, Date, Frames, is_under, rmtree, write_part,
}

abbrev pub digit : ℕ → String
digit zero = "0"
digit (suc n) = elim n [
  | zero ↦ "1"
  | suc m ↦
      if m == 0
      then "2"
      else if m == 1
      then "3"
      else if m == 2
      then "4"
      else if m == 3
      then "5"
      else if m == 4
      then "6"
      else if m == 5
      then "7"
      else if m == 6
      then "8"
      else "9"
]

-- strftime's %m and %d
unfoldable pub two_digits : ℕ → String
two_digits n = digit (n / 10 % 10) <> digit (n % 10)

-- strftime's %Y
unfoldable pub four_digits : ℕ → String
unfolding two_digits
four_digits n = two_digits (n / 100) <> two_digits n

-- What rmtree does: it removes the tree, or raises after it has removed some of the files.
pub data Removal (Row : Type 0) : Type 0 where
  removed : Removal Row
  refused : (File Row → Bool) → Removal Row

-- The files that are not under `dir`, and those under it that are kept.
unfoldable pub keep :
    {Row : Type 0} → List String → (File Row → Bool) → List (File Row) → List (File Row)
unfolding is_under
keep dir kept [] = []
keep dir kept (f ∷ files) =
    let rest = keep dir kept files in
    if not (is_under dir f.directory) || kept f then f ∷ rest else rest

-- What the environment answers to an export: rmtree, the rows of the Gold table that Postgres
-- returns to the scan, with connecting and loading the extension, and each call of to_parquet, with
-- its mkdir.
pub record Answers (Row : Type 0) : Type 0 where
  pub removal : Removal Row
  pub scan : Try (List Row)
  pub to_parquet : ℕ → Try (Unit {0})

infixl 5 ◌then_do◌
-- Two statements: the second runs if the first did not raise.
abbrev pub ◌then_do◌ :
    {S : Type 0} → Try (Unit {0}) × S → (S → Try (Unit {0}) × S) → Try (Unit {0}) × S
(ok u, s) then_do next = next s
(raised e, s) then_do next = (raised e, s)

module _ {Row : Type 0} (frames : Frames Row) (output_path : List String) where
  abbrev pub table_path : String → List String
  table_path table = output_path ++ "gold" ∷ table ∷ []

  unfoldable pub partition_path : String → Date → List String
  unfolding two_digits four_digits
  partition_path table date =
      table_path table
      ++ ("year=" <> four_digits date.year)
        ∷ ("month=" <> two_digits date.month)
        ∷ ("day=" <> two_digits date.day)
        ∷ []

  abbrev pub write_file :
      String → Try (Unit {0}) → Date × List Row → Storage Row → Try (Unit {0}) × Storage Row
  write_file table (ok _) (date, rows) s = (ok tt, write_part (partition_path table date) rows s)
  write_file table (raised e) (date, rows) s = (raised e, s)

  -- The loop over the groups; the call of the n-th round is answered by `to_parquet n`.
  unfoldable pub write_partitions :
      String
      → (ℕ → Try (Unit {0}))
      → ℕ
      → List (Date × List Row)
      → Storage Row
      → Try (Unit {0}) × Storage Row
  unfolding partition_path
  write_partitions table to_parquet n [] s = (ok tt, s)
  write_partitions table to_parquet n (g ∷ groups) s =
      write_file table (to_parquet n) g s then_do write_partitions table to_parquet (suc n) groups

  unfoldable pub export :
      String → (ℕ → Try (Unit {0})) → Try (List Row) → Storage Row → Try (Unit {0}) × Storage Row
  unfolding write_partitions
  export table to_parquet (raised e) s = (raised e, s)
  export table to_parquet (ok rows) s =
      if is_empty rows
      then (ok tt, s)
      else write_partitions table to_parquet 0 (frames.groupby rows) s

  abbrev pub remove : String → Removal Row → Storage Row → Try (Unit {0}) × Storage Row
  remove table removed s = (ok tt, record s { files = rmtree (table_path table) s.files })
  remove table (refused kept) s =
      (raised other, record s { files = keep (table_path table) kept s.files })

  unfoldable pub full_export : String → Answers Row → Storage Row → Try (Unit {0}) × Storage Row
  unfolding export keep rmtree validate_table_name
  full_export table a s =
      (validate_table_name table, s)
      then_do remove table a.removal
      then_do export table a.to_parquet a.scan

  -- WHERE window_start > high_water_mark
  unfoldable pub newer : ℕ → List Row → List Row
  newer mark [] = []
  newer mark (r ∷ rows) =
      let rest = newer mark rows in if ltb mark (frames.window_start r) then r ∷ rest else rest

  abbrev pub newer_scan : ℕ → Try (List Row) → Try (List Row)
  newer_scan mark (ok rows) = ok (newer mark rows)
  newer_scan mark (raised e) = raised e

  unfoldable pub incremental_export :
      String → ℕ → Answers Row → Storage Row → Try (Unit {0}) × Storage Row
  unfolding export newer validate_table_name
  incremental_export table mark a s =
      (validate_table_name table, s) then_do export table a.to_parquet (newer_scan mark a.scan)
