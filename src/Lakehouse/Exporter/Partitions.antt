-- ===== src/Lakehouse/Exporter/Partitions.antt =====
-- The partitions of lakehouse/exporter.py.
use Prim.Native.String.{◌++◌ as ◌<>◌}
use crypto_streaming_lakehou.Base.Digits.{IsNumeral}
use crypto_streaming_lakehou.Lakehouse.Exporter.Numerals.{
  two_digits-IsNumeral, four_digits-IsNumeral,
}
use crypto_streaming_lakehou.Base.{
  ℕ, suc, String, Bool, true, not, ◌||◌, List, [], ◌∷◌, ◌++◌, Try, ok, raised, ◌≡◌, inl, inr,
  Bool-cases, Try-cases, All, ◌<◌, subst, append_assoc,
}
use crypto_streaming_lakehou.Lakehouse.Names.{validate_table_name}
use crypto_streaming_lakehou.Lakehouse.Storage.{File, Storage, Date, Frames, is_under, rmtree}
use crypto_streaming_lakehou.Lakehouse.Exporter.{
  Answers, Removal, removed, refused, keep, ◌then_do◌, table_path, partition_path, remove,
  write_partitions, two_digits, four_digits, export, full_export, newer_scan, incremental_export,
}

-- The numbers of the date have four digits and two and two.
pub record IsCalendar (date : Date) : Type 0 where
  pub year : date.year < 10000
  pub month : date.month < 100
  pub day : date.day < 100

-- The directory of a date under that of the table: gold/<table>/year=YYYY/month=MM/day=DD
pub record IsDirectoryOf (output_path : List String) (table : String) (date : Date)
    (directory : List String) : Type 0 where
  pub year_text : String
  pub month_text : String
  pub day_text : String
  pub spelled :
      directory
      ≡ output_path
        ++ "gold"
          ∷ table
          ∷ ("year=" <> year_text)
          ∷ ("month=" <> month_text)
          ∷ ("day=" <> day_text)
          ∷ []
  pub year : IsNumeral 4 date.year year_text
  pub month : IsNumeral 2 date.month month_text
  pub day : IsNumeral 2 date.day day_text

module _ {Row : Type 0} (frames : Frames Row) (output_path : List String) (table : String)
    (in_calendar : (t : ℕ) → IsCalendar (frames.date t)) where
  -- A file of the table is in the directory of the date of each of its rows.
  abbrev pub InPartition : File Row → Type 0
  InPartition f =
      is_under (output_path ++ "gold" ∷ table ∷ []) f.directory ≡ true
      → All (λ r. IsDirectoryOf output_path table (frames.date (frames.window_start r)) f.directory)
          f.rows

  abbrev pub IsPartitioned : Storage Row → Type 0
  IsPartitioned s = All InPartition s.files

  All-last :
      (files : List (File Row)) (f : File Row)
      → All InPartition files
      → InPartition f
      → All InPartition (files ++ f ∷ [])
  All-last [] f hs h = (h, tt)
  All-last (g ∷ files) f (hg, hs) h = (hg, All-last files f hs h)

  All-rmtree :
      (dir : List String) (files : List (File Row))
      → All InPartition files
      → All InPartition (rmtree dir files)
  unfolding rmtree
  All-rmtree dir [] hs = tt
  All-rmtree dir (f ∷ files) (h, hs) = elim (Bool-cases (is_under dir f.directory)) [
    | inl e ↦ rw e (All-rmtree dir files hs)
    | inr e ↦ rw e (h, All-rmtree dir files hs)
  ]

  All-keep :
      (dir : List String) (kept : File Row → Bool) (files : List (File Row))
      → All InPartition files
      → All InPartition (keep dir kept files)
  unfolding keep
  All-keep dir kept [] hs = tt
  All-keep dir kept (f ∷ files) (h, hs) =
      elim (Bool-cases (not (is_under dir f.directory) || kept f)) [
        | inl e ↦ rw e (h, All-keep dir kept files hs)
        | inr e ↦ rw e (All-keep dir kept files hs)
      ]

  partition_path-IsDirectoryOf :
      (date : Date)
      → IsCalendar date
      → IsDirectoryOf output_path table date (partition_path frames output_path table date)
  unfolding partition_path
  partition_path-IsDirectoryOf date c = record {
    year_text = four_digits date.year;
    month_text = two_digits date.month;
    day_text = two_digits date.day;
    spelled = append_assoc output_path ("gold" ∷ table ∷ []) _;
    year = four_digits-IsNumeral date.year c.year;
    month = two_digits-IsNumeral date.month c.month;
    day = two_digits-IsNumeral date.day c.day;
  }

  dated_rows :
      (date : Date) (rows : List Row)
      → All (λ r. frames.date (frames.window_start r) ≡ date) rows
      → All
          (λ r.
            IsDirectoryOf output_path table
              (frames.date (frames.window_start r))
              (partition_path frames output_path table date))
          rows
  dated_rows date [] h = tt
  dated_rows date (r ∷ rows) (e, h) = (
    subst
        (λ d.
          IsDirectoryOf output_path table (frames.date (frames.window_start r))
            (partition_path frames output_path table d))
        e
        (partition_path-IsDirectoryOf (frames.date (frames.window_start r))
          (in_calendar (frames.window_start r))),
    dated_rows date rows h,
  )

  write_partitions-IsPartitioned :
      (to_parquet : ℕ → Try (Unit {0})) (n : ℕ) (groups : List (Date × List Row)) (s : Storage Row)
      → All (λ g. All (λ r. frames.date (frames.window_start r) ≡ g.0) g.1) groups
      → IsPartitioned s
      → IsPartitioned (write_partitions frames output_path table to_parquet n groups s).1
  unfolding write_partitions
  write_partitions-IsPartitioned to_parquet n [] s dated h = h
  write_partitions-IsPartitioned to_parquet n ((date, rows) ∷ groups) s (d, dated) h =
      elim (Try-cases (to_parquet n)) [
        | inl (u, e) ↦ rw e (
            write_partitions-IsPartitioned to_parquet (suc n) groups _ dated
              (All-last s.files _ h (λ under. dated_rows date rows d)))
        | inr (x, e) ↦ rw e h
      ]

  export-IsPartitioned :
      (to_parquet : ℕ → Try (Unit {0})) (scan : Try (List Row)) (s : Storage Row)
      → IsPartitioned s
      → IsPartitioned (export frames output_path table to_parquet scan s).1
  unfolding export
  export-IsPartitioned to_parquet (raised e) s h = h
  export-IsPartitioned to_parquet (ok []) s h = h
  export-IsPartitioned to_parquet (ok (r ∷ rows)) s h =
      write_partitions-IsPartitioned to_parquet 0 (frames.groupby (r ∷ rows)) s
        (frames.groupby-dated (r ∷ rows)) h

  remove-IsPartitioned :
      (removal : Removal Row) (to_parquet : ℕ → Try (Unit {0})) (scan : Try (List Row))
      (s : Storage Row)
      → IsPartitioned s
      → IsPartitioned
          (remove frames output_path table removal s
            then_do export frames output_path table to_parquet scan).1
  remove-IsPartitioned removed to_parquet scan s h =
      export-IsPartitioned to_parquet scan _
        (All-rmtree (table_path frames output_path table) s.files h)
  remove-IsPartitioned (refused kept) to_parquet scan s h =
      All-keep (table_path frames output_path table) kept s.files h

  -- If each file of the table is in the directory gold/<table>/year=YYYY/month=MM/day=DD of the
  -- date of each of its rows, the numerals being those of its year, month and day, so it is after a
  -- full export and after an incremental one, whether they raise or not. Dates are assumed to have
  -- at most four and two and two digits.
  pub exports-IsPartitioned :
      (mark : ℕ) (a : Answers Row) (s : Storage Row)
      → IsPartitioned s
      → IsPartitioned (full_export frames output_path table a s).1
        × IsPartitioned (incremental_export frames output_path table mark a s).1
  unfolding full_export incremental_export
  exports-IsPartitioned mark a s h = elim (Try-cases (validate_table_name table)) [
    | inl (u, e) ↦ rw e (
      remove-IsPartitioned a.removal a.to_parquet a.scan s h,
      export-IsPartitioned a.to_parquet (newer_scan frames output_path mark a.scan) s h,
    )
    | inr (x, e) ↦ rw e (h, h)
  ]
