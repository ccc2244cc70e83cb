-- ===== src/Lakehouse/Exporter/Full.antt =====
-- full_export of lakehouse/exporter.py.
use crypto_streaming_lakehou.Base.{
  ℕ, String, Bool, List, [], ◌∷◌, Try, ok, ◌≡◌, refl, ap, ◌∙◌, inl, inr, arith, Try-cases,
  Bool-cases,
}
use crypto_streaming_lakehou.Lakehouse.Names.{validate_table_name}
use crypto_streaming_lakehou.Lakehouse.Storage.{
  File, Storage, Frames, is_under, under, rmtree, count,
}
use crypto_streaming_lakehou.Lakehouse.Storage.Counting.{
  Apart, read_parquet-rmtree, under-rmtree-Apart,
}
use crypto_streaming_lakehou.Lakehouse.Exporter.{
  Answers, Removal, removed, refused, keep, ◌then_do◌, table_path, export, full_export, remove,
}
use crypto_streaming_lakehou.Lakehouse.Exporter.Writing.{stored, export-counts, export-elsewhere}

module _ {Row : Type 0} (frames : Frames Row) (output_path : List String) (table : String) where
  after_remove :
      (removal : Removal Row) (to_parquet : ℕ → Try (Unit {0})) (scan : Try (List Row))
      (s : Storage Row)
      → (remove frames output_path table removal s
          then_do export frames output_path table to_parquet scan).0
        ≡ ok tt
      → (rows : List Row) × (scan ≡ ok rows)
        × ((p : Row → Bool)
            → count p (
                stored frames output_path table
                  (remove frames output_path table removal s
                    then_do export frames output_path table to_parquet scan).1)
              ≡ count p rows)
  after_remove removed to_parquet scan s h =
      let t = record s { files = rmtree (table_path frames output_path table) s.files } in
      let (rows, scanned, counts) = export-counts frames output_path table to_parquet scan t h in
      (
        rows,
        scanned,
        λ p. omega (
          arith,
          counts p,
          ap (count p) (read_parquet-rmtree (table_path frames output_path table) s.files),
        ),
      )
  after_remove (refused kept) to_parquet scan s h = cc

  -- A full export that does not raise leaves in the table's files exactly the rows that the scan
  -- returned, each as often, whatever was stored for the table before.
  pub full_export_replaces :
      (a : Answers Row) (s : Storage Row)
      → (full_export frames output_path table a s).0 ≡ ok tt
      → (rows : List Row) × (a.scan ≡ ok rows)
        × ((p : Row → Bool)
            → count p (stored frames output_path table (full_export frames output_path table a s).1)
              ≡ count p rows)
  unfolding full_export
  full_export_replaces a s h = elim (Try-cases (validate_table_name table)) [
    | inl (u, e) ↦ rw e (after_remove a.removal a.to_parquet a.scan s (rw e at h))
    | inr (x, e) ↦ absurd (cc)
  ]

  under-keep :
      (at dir : List String) (kept : File Row → Bool) (files : List (File Row))
      → Apart at dir
      → under at (keep dir kept files) ≡ under at files
  unfolding under keep
  under-keep at dir kept [] h = refl
  under-keep at dir kept (f ∷ files) h = elim (Bool-cases (is_under dir f.directory)) [
    | inl e ↦ elim (Bool-cases (kept f)) [
      | inl k ↦ rw (e, k, h f.directory e) (under-keep at dir kept files h)
      | inr k ↦ rw (e, k, h f.directory e) (under-keep at dir kept files h)
    ]
    | inr e ↦ rw (e, under-keep at dir kept files h) refl
  ]

  remove_elsewhere :
      (at : List String)
      → Apart at (table_path frames output_path table)
      → (removal : Removal Row) (to_parquet : ℕ → Try (Unit {0})) (scan : Try (List Row))
        (s : Storage Row)
      → under at
          (remove frames output_path table removal s
            then_do export frames output_path table to_parquet scan).1.files
        ≡ under at s.files
  remove_elsewhere at apart removed to_parquet scan s =
      export-elsewhere frames output_path table at apart to_parquet scan _
      ∙ under-rmtree-Apart at _ s.files apart
  remove_elsewhere at apart (refused kept) to_parquet scan s = under-keep at _ kept s.files apart

  pub full_export-elsewhere :
      (at : List String)
      → Apart at (table_path frames output_path table)
      → (a : Answers Row) (s : Storage Row)
      → under at (full_export frames output_path table a s).1.files ≡ under at s.files
  unfolding full_export
  full_export-elsewhere at apart a s = elim (Try-cases (validate_table_name table)) [
    | inl (u, e) ↦ rw e (remove_elsewhere at apart a.removal a.to_parquet a.scan s)
    | inr (x, e) ↦ rw e refl
  ]
