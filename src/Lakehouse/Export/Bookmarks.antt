-- ===== src/Lakehouse/Export/Bookmarks.antt =====
-- What export_table of lakehouse/export.py promises of one table.
use crypto_streaming_lakehou.Base.{
  ℕ, ◌+◌, String, Bool, true, false, List, [], ◌∷◌, ◌++◌, if◌then◌else◌, Option, none, some, Try,
  ok, raised, ◌≡◌, refl, sym, ap, ◌∙◌, ◌⊎◌, inl, inr, Try-cases, Option-cases, Bool-cases, eq_refl,
  text_eq, ◌≢◌, arith,
}
use text.Mathlib.TextEquality.{eq_iff}
use crypto_streaming_lakehou.Lakehouse.Storage.{File, Storage, Frames, under, count}
use crypto_streaming_lakehou.Lakehouse.Storage.Counting.{tables-Apart, is_later}
use crypto_streaming_lakehou.Lakehouse.Exporter.{Answers, table_path, ◌then_do◌}
use crypto_streaming_lakehou.Lakehouse.Exporter.Writing.{stored}
use crypto_streaming_lakehou.Lakehouse.Exporter.Full.{full_export_replaces}
use crypto_streaming_lakehou.Lakehouse.Exporter.Incremental.{incremental_export_appends}
use crypto_streaming_lakehou.Lakehouse.ExportState.{Checkpoint, ExportState, find_mark}
use crypto_streaming_lakehou.Lakehouse.ExportState.Bookmarks.{find_mark-upsert}
use crypto_streaming_lakehou.Lakehouse.Uploads.{Upload, S3, upload_file_to_s3, path_text}
use crypto_streaming_lakehou.Lakehouse.Catalog.{World, is_placeholder}
use crypto_streaming_lakehou.Lakehouse.Export.{
  Run, is_ok, upload_files, export_since, try_export, export_table,
}
use crypto_streaming_lakehou.Lakehouse.Export.Outcomes.{
  Saved, try_export-Ends, try_export-elsewhere,
}

false≢true : false ≡ true → ⊥
false≢true h = cc

-- The mark of a table, none also where export_state is missing.
abbrev pub mark_in : ExportState → String → Option ℕ
mark_in none t = none
mark_in (some rows) t = find_mark t rows

module _ {Row : Type 0} (frames : Frames Row) (base : List String) (table : String) where
  -- How often a row with the property is stored after an export that saw the rows `scan`.
  abbrev pub count_after : Option ℕ → (Row → Bool) → List Row → List Row → ℕ
  count_after none p old scan = count p scan
  count_after (some mark) p old scan = count p old + count (is_later frames mark p) scan

  pub export_since-counts :
      (mark : Option ℕ) (a : Answers Row) (s : Storage Row)
      → (export_since frames base mark table a s).0 ≡ ok tt
      → (rows : List Row) × (a.scan ≡ ok rows)
        × ((p : Row → Bool)
            → count p (stored frames base table (export_since frames base mark table a s).1)
              ≡ count_after mark p (stored frames base table s) rows)
  export_since-counts none a s h = full_export_replaces frames base table a s h
  export_since-counts (some mark) a s h = incremental_export_appends frames base table mark a s h

  -- The table is exported and its mark is the time of the export.
  pub record IsExported (r : Run Row) (w w' : World Row) : Type 0 where
    pub scanned : List Row
    pub scan : r.answers.scan ≡ ok scanned
    pub counts :
        (p : Row → Bool)
        → count p (stored frames base table w'.storage)
          ≡ count_after
              (mark_in w.export_state table)
              p
              (stored frames base table w.storage)
              scanned
    pub marked : mark_in w'.export_state table ≡ some r.now

  pub Saved-IsExported :
      (r : Run Row) (w : World Row) (rows : List Checkpoint) (t : Try (Unit {0}) × World Row)
      → w.export_state ≡ some rows
      → Saved frames base table r w rows t
      → IsExported r w t.1
  Saved-IsExported r w rows t state s =
      let (scanned, scan, counts) =
        export_since-counts (find_mark table rows) r.answers w.storage s.exported in
      record {
        scanned = scanned;
        scan = scan;
        counts = λ p.
            ap (λ x. count p (stored frames base table x)) s.storage
            ∙ counts p
            ∙ ap (λ x. count_after (mark_in x table) p (stored frames base table w.storage) scanned)
                (sym state);
        marked =
            ap (λ x. mark_in x table) s.state
            ∙ find_mark-upsert table s.checkpoint rows
            ∙ ap
                (λ n.
                  if text_eq n table
                  then some s.checkpoint.last_exported_at
                  else find_mark table rows)
                s.named
            ∙ rw (eq_refl table) (ap some s.at_now);
      }

  then_do-is_ok :
      {S : Type 0} (x : Try (Unit {0}) × S) (f : S → Try (Unit {0}) × S)
      → is_ok x.0 ≡ true
      → ((s : S) → is_ok (f s).0 ≡ true)
      → is_ok (x then_do f).0 ≡ true
  then_do-is_ok (ok u, s) f h k = k s
  then_do-is_ok (raised e, s) f h k = cc

  upload_file-is_ok :
      (s3 : S3) (local_path b : String) (uploads : List Upload)
      → is_ok s3.client ≡ true
      → is_ok (upload_file_to_s3 s3 local_path b uploads).0 ≡ true
  unfolding upload_file_to_s3
  upload_file-is_ok s3 local_path b uploads h = elim (Try-cases s3.client) [
    | inl (u, e) ↦ elim (Option-cases s3.bucket) [
      | inl n ↦ ground (arith)
      | inr (bucket, n) ↦ ground (arith)
    ]
    | inr (x, e) ↦ absurd (ground (arith))
  ]

  upload_files-is_ok :
      (s3 : S3) (b : String) (files : List (File Row)) (uploads : List Upload)
      → is_ok s3.client ≡ true
      → is_ok (upload_files s3 b files uploads).0 ≡ true
  unfolding upload_files
  upload_files-is_ok s3 b [] uploads h = refl
  upload_files-is_ok s3 b (f ∷ files) uploads h =
      then_do-is_ok _ _
        (elim (Bool-cases (is_placeholder f.name)) [
          | inl e ↦ rw e refl
          | inr e ↦ rw e (upload_file-is_ok s3 _ b uploads h)
        ])
        (λ ups. upload_files-is_ok s3 b files ups h)

  -- A call of export_table ends in one of three ways. It reports success, the files of the table
  -- have gained what the scan showed (all of its rows in a first export, in place of what was
  -- stored, and the rows after the mark in a later one) and the mark is the time of the export; or
  -- it has done all of this, and boto3.client raised; or it reports failure and export_state is as
  -- it was.
  pub export_table-moves_mark :
      (r : Run Row) (w : World Row)
      → let e = export_table frames base table r w in
        ((e.0 ≡ true) × IsExported r w e.1)
        ⊎ ((e.0 ≡ false) × IsExported r w e.1 × (is_ok r.s3.client ≡ false))
        ⊎ ((e.0 ≡ false) × (e.1.export_state ≡ w.export_state))
  unfolding export_table
  export_table-moves_mark r w = elim (try_export-Ends frames base table r w) [
    | inl (rows, state, s) ↦
        let done = Saved-IsExported r w rows (try_export frames base table r w) state s in
        elim (Bool-cases (is_ok (try_export frames base table r w).0)) [
          | inl e ↦ inl (e, done)
          | inr e ↦ elim (Bool-cases (is_ok r.s3.client)) [
            | inl c ↦
                let h =
                  upload_files-is_ok r.s3 (path_text base)
                    (under (base ++ table ∷ []) (try_export frames base table r w).1.storage.files)
                    w.uploads c in
                absurd (false≢true (sym e ∙ ap (λ x. is_ok x.0) s.uploads ∙ h))
            | inr c ↦ inr (inl (e, done, c))
          ]
        ]
    | inr u ↦ inr (inr (u.raises, u.state))
  ]

  Saved-other_mark :
      (other : String) (r : Run Row) (w : World Row) (rows : List Checkpoint)
      (t : Try (Unit {0}) × World Row)
      → table ≢ other
      → w.export_state ≡ some rows
      → Saved frames base table r w rows t
      → mark_in t.1.export_state other ≡ mark_in w.export_state other
  Saved-other_mark other r w rows t differs state s =
      let distinct : text_eq s.checkpoint.table_name other ≡ false =
        elim (Bool-cases (text_eq s.checkpoint.table_name other)) [
          | inl e ↦ absurd (differs (sym s.named ∙ (eq_iff s.checkpoint.table_name other).0 e))
          | inr e ↦ e
        ] in
      ap (λ x. mark_in x other) s.state
      ∙ find_mark-upsert other s.checkpoint rows
      ∙ rw distinct (ap (λ x. mark_in x other) (sym state))

  -- Whatever happens in the export of one table, every other table keeps its files and its mark.
  pub export_table-elsewhere :
      (other : String) (r : Run Row) (w : World Row)
      → table ≢ other
      → let w' = (export_table frames base table r w).1 in
        (under (table_path frames base other) w'.storage.files
          ≡ under (table_path frames base other) w.storage.files)
        × (mark_in w'.export_state other ≡ mark_in w.export_state other)
  unfolding export_table
  export_table-elsewhere other r w differs = (
    try_export-elsewhere frames base table r w _
        (tables-Apart other table base (λ e. differs (sym e))),
    elim (try_export-Ends frames base table r w) [
      | inl (rows, state, s) ↦
          Saved-other_mark other r w rows (try_export frames base table r w) differs state s
      | inr u ↦ ap (λ x. mark_in x other) u.state
    ],
  )
