-- ===== src/Lakehouse/Exporter/Incremental.antt =====
-- incremental_export of lakehouse/exporter.py.
use crypto_streaming_lakehou.Base.{
  ℕ, ◌+◌, ◌≤◌, Exception, String, Bool, true, List, [], ◌∷◌, Try, ok, raised, ◌≡◌, refl, sym, ap,
  ◌∙◌, inl, inr, arith, Try-cases, Bool-cases,
}
use crypto_streaming_lakehou.Lakehouse.Names.{validate_table_name}
use crypto_streaming_lakehou.Lakehouse.Storage.{Storage, Date, Frames, under, count, write_part}
use crypto_streaming_lakehou.Lakehouse.Storage.Counting.{Apart, is_later}
use crypto_streaming_lakehou.Lakehouse.Exporter.{
  Answers, ◌then_do◌, table_path, partition_path, export, newer, newer_scan, incremental_export,
}
use crypto_streaming_lakehou.Lakehouse.Exporter.Writing.{
  stored, export-counts, export-elsewhere, export_adds_none, export_stops_at_second,
}

module _ {Row : Type 0} (frames : Frames Row) (output_path : List String) (table : String) where
  scanned_newer :
      (mark : ℕ) (scan : Try (List Row)) (rows : List Row)
      → newer_scan frames output_path mark scan ≡ ok rows
      → (all : List Row) × (scan ≡ ok all) × (rows ≡ newer frames output_path mark all)
  scanned_newer mark (ok all) rows h = (all, refl, cc)
  scanned_newer mark (raised e) rows h = absurd (cc)

  count-newer_later :
      (mark : ℕ) (p : Row → Bool) (rows : List Row)
      → count p (newer frames output_path mark rows) ≡ count (is_later frames mark p) rows
  unfolding newer
  count-newer_later mark p [] = refl
  count-newer_later mark p (row ∷ rows) = ground (arith, count-newer_later mark p rows)

  -- An incremental export that does not raise adds, to the rows that are stored for the table, the
  -- rows of the scan whose window starts after the mark, each as often, and no others.
  pub incremental_export_appends :
      (mark : ℕ) (a : Answers Row) (s : Storage Row)
      → (incremental_export frames output_path table mark a s).0 ≡ ok tt
      → (rows : List Row) × (a.scan ≡ ok rows)
        × ((p : Row → Bool)
            → count p (
                stored frames output_path table
                  (incremental_export frames output_path table mark a s).1)
              ≡ count p (stored frames output_path table s) + count (is_later frames mark p) rows)
  unfolding incremental_export
  incremental_export_appends mark a s h = elim (Try-cases (validate_table_name table)) [
    | inl (u, e) ↦
        let (new, scanned, counts) =
          export-counts frames output_path table a.to_parquet
            (newer_scan frames output_path mark a.scan) s (rw e at h) in
        let (rows, all, eq) = scanned_newer mark a.scan new scanned in
        (rows, all, λ p. rw (e, sym (count-newer_later mark p rows), sym eq) (counts p))
    | inr (x, e) ↦ absurd (cc)
  ]

  pub incremental_export-elsewhere :
      (at : List String)
      → Apart at (table_path frames output_path table)
      → (mark : ℕ) (a : Answers Row) (s : Storage Row)
      → under at (incremental_export frames output_path table mark a s).1.files ≡ under at s.files
  unfolding incremental_export
  incremental_export-elsewhere at apart mark a s = elim (Try-cases (validate_table_name table)) [
    | inl (u, e) ↦ rw e (export-elsewhere frames output_path table at apart a.to_parquet _ s)
    | inr (x, e) ↦ rw e refl
  ]

  pub count-newer :
      (p : Row → Bool) (mark : ℕ)
      → ((row : Row) → p row ≡ true → frames.window_start row ≤ mark)
      → (rows : List Row) → count p (newer frames output_path mark rows) ≡ 0
  unfolding newer
  count-newer p mark early [] = refl
  count-newer p mark early (row ∷ rows) = elim (Bool-cases (p row)) [
    | inl e ↦ let h = early row e in let ih = count-newer p mark early rows in ground (arith)
    | inr e ↦ let ih = count-newer p mark early rows in ground (arith)
  ]

  -- Rows whose window starts by the mark are not added, whether the export raises or not.
  pub incremental_export_adds_none :
      (p : Row → Bool) (mark : ℕ) (a : Answers Row) (s : Storage Row)
      → ((row : Row) → p row ≡ true → frames.window_start row ≤ mark)
      → count p
          (stored frames output_path table (incremental_export frames output_path table mark a s).1)
        ≡ count p (stored frames output_path table s)
  unfolding incremental_export
  incremental_export_adds_none p mark a s early = elim (Try-cases (validate_table_name table)) [
    | inl (u, e) ↦ rw e (
        export_adds_none frames output_path table p a.to_parquet _ s (λ rows h.
          let (all, scanned, eq) = scanned_newer mark a.scan rows h in
          ap (count p) eq ∙ count-newer p mark early all))
    | inr (x, e) ↦ rw e refl
  ]

  pub incremental_export_stops_at_second :
      (mark : ℕ) (a : Answers Row) (s : Storage Row) (rows : List Row) (row : Row)
      (later : List Row) (g h : Date × List Row) (groups : List (Date × List Row)) (u : Unit {0})
      (e : Exception)
      → validate_table_name table ≡ ok tt
      → a.scan ≡ ok rows
      → newer frames output_path mark rows ≡ row ∷ later
      → frames.groupby (row ∷ later) ≡ g ∷ h ∷ groups
      → a.to_parquet 0 ≡ ok u
      → a.to_parquet 1 ≡ raised e
      → incremental_export frames output_path table mark a s
        ≡ (raised e, write_part (partition_path frames output_path table g.0) g.1 s)
  unfolding incremental_export
  incremental_export_stops_at_second mark a s rows row later g h groups u e valid scanned new split
        wrote failed =
      ap
        (λ v.
          (v, s)
          then_do export frames output_path table a.to_parquet
              (newer_scan frames output_path mark a.scan))
        valid
      ∙ ap
          (λ t.
            export frames output_path table a.to_parquet (newer_scan frames output_path mark t) s)
          scanned
      ∙ ap (λ l. export frames output_path table a.to_parquet (ok l) s) new
      ∙ export_stops_at_second frames output_path table a.to_parquet row later g h groups s u e
          split wrote failed
