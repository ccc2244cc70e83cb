-- ===== src/Lakehouse/Export/Outcomes.antt =====
-- The two ways in which export_table of lakehouse/export.py ends.
use crypto_streaming_lakehou.Base.{
  ℕ, String, true, false, List, [], ◌∷◌, ◌++◌, Option, none, some, Try, ok, raised, ◌≡◌, refl, sym,
  ap, ◌∙◌, subst, ◌⊎◌, inl, inr, Try-cases, Option-cases, Exception, other, ◌>>=◌,
}
use crypto_streaming_lakehou.Lakehouse.Storage.{Storage, Frames, under, read_parquet}
use crypto_streaming_lakehou.Lakehouse.Storage.Counting.{Apart}
use crypto_streaming_lakehou.Lakehouse.Exporter.{table_path, ◌then_do◌}
use crypto_streaming_lakehou.Lakehouse.Exporter.Full.{full_export-elsewhere}
use crypto_streaming_lakehou.Lakehouse.Exporter.Incremental.{incremental_export-elsewhere}
use crypto_streaming_lakehou.Lakehouse.ExportState.{
  Checkpoint, ExportState, upsert, upsert_export_state, find_mark, get_high_water_mark,
}
use crypto_streaming_lakehou.Lakehouse.Uploads.{path_text}
use crypto_streaming_lakehou.Lakehouse.Catalog.{World}
use crypto_streaming_lakehou.Lakehouse.Export.{
  Run, is_ok, on_storage, on_state, with_mark, save_mark, upload_new_files, upload_files,
  export_since, count_exported_rows, try_export,
}

module _ {Row : Type 0} (frames : Frames Row) (base : List String) (table : String) (r : Run Row)
    (w : World Row) where
  -- The export and the bookmark are done, and only the upload may have raised. `rows` is
  -- export_state before.
  pub record Saved (rows : List Checkpoint) (t : Try (Unit {0}) × World Row) : Type 0 where
    pub exported :
        (export_since frames base (find_mark table rows) table r.answers w.storage).0 ≡ ok tt
    pub storage :
        t.1.storage ≡ (export_since frames base (find_mark table rows) table r.answers w.storage).1
    pub checkpoint : Checkpoint
    pub named : checkpoint.table_name ≡ table
    pub at_now : checkpoint.last_exported_at ≡ r.now
    pub state : t.1.export_state ≡ some (upsert checkpoint rows)
    pub views : t.1.views ≡ w.views
    pub uploads :
        (t.0, t.1.uploads)
        ≡ upload_files r.s3
            (path_text base)
            (under (base ++ table ∷ []) t.1.storage.files)
            w.uploads

  -- Something raised before the bookmark was written.
  pub record Unsaved (t : Try (Unit {0}) × World Row) : Type 0 where
    pub raises : is_ok t.0 ≡ false
    pub storage :
        (t.1.storage ≡ w.storage)
        ⊎ ((rows : List Checkpoint) × (w.export_state ≡ some rows)
            × (t.1.storage
                ≡ (export_since frames base (find_mark table rows) table r.answers w.storage).1))
    pub state : t.1.export_state ≡ w.export_state
    pub views : t.1.views ≡ w.views
    pub uploads : t.1.uploads ≡ w.uploads

  Unsaved-at_once : (e : Exception) → Unsaved (raised e, w)
  Unsaved-at_once e = record {
    raises = refl;
    storage = inl refl;
    state = refl;
    views = refl;
    uploads = refl;
  }

  abbrev pub Ends : Try (Unit {0}) × World Row → Type 0
  Ends t = ((rows : List Checkpoint) × (w.export_state ≡ some rows) × Saved rows t) ⊎ Unsaved t

  -- export_table from the mark on.
  abbrev from_mark : Option ℕ → Try (Unit {0}) × World Row
  from_mark mark =
      on_storage (export_since frames base mark table r.answers w.storage) w
      then_do save_mark frames base table r
      then_do upload_new_files r.s3 base table

  -- export_table from a storage on.
  abbrev from_storage : Storage Row → Try (Unit {0}) → Try (Unit {0}) × World Row
  from_storage s t =
      (t, record w { storage = s })
      then_do save_mark frames base table r
      then_do upload_new_files r.s3 base table

  from_state : Storage Row → Try ExportState → Try (Unit {0}) × World Row
  from_state s t = on_state t (record w { storage = s }) then_do upload_new_files r.s3 base table

  abbrev bookmark : Storage Row → Checkpoint
  bookmark s = record {
    table_name = table;
    last_exported_at = r.now;
    rows_exported =
        count_exported_rows r.count_query (read_parquet (table_path frames base table) s.files);
  }

  saved :
      (rows : List Checkpoint)
      → let x = export_since frames base (find_mark table rows) table r.answers w.storage in
        x.0 ≡ ok tt → Saved rows (from_state x.1 (ok (some (upsert (bookmark x.1) rows))))
  unfolding from_state
  saved rows exported = record {
    exported = exported;
    storage = refl;
    checkpoint =
        bookmark (export_since frames base (find_mark table rows) table r.answers w.storage).1;
    named = refl;
    at_now = refl;
    state = refl;
    views = refl;
    uploads = refl;
  }

  unsaved :
      (rows : List Checkpoint) (e : Exception)
      → w.export_state ≡ some rows
      → let x = export_since frames base (find_mark table rows) table r.answers w.storage in
        Unsaved (raised e, record w { storage = x.1 })
  unsaved rows e state = record {
    raises = refl;
    storage = inr (rows, state, refl);
    state = refl;
    views = refl;
    uploads = refl;
  }

upserted :
    (execute : Try (Unit {0})) (table : String) (now n : ℕ) (state : ExportState)
    (rows : List Checkpoint)
    → state ≡ some rows
    → upsert_export_state execute table record { micros = now; is_aware = true } n state
      ≡ execute >>= (λ _. ok (
          some
            (upsert record { table_name = table; last_exported_at = now; rows_exported = n } rows)))
unfolding upsert_export_state
upserted (ok u) table now n state rows h = rw h refl
upserted (raised e) table now n state rows h = refl

mark_read :
    (execute : Try (Unit {0})) (table : String) (state : ExportState) (rows : List Checkpoint)
    → state ≡ some rows
    → get_high_water_mark execute table state ≡ execute >>= (λ _. ok (find_mark table rows))
unfolding get_high_water_mark
mark_read (ok u) table state rows h = rw h refl
mark_read (raised e) table state rows h = refl

no_mark :
    (execute : Try (Unit {0})) (table : String) (state : ExportState)
    → state ≡ none
    → (e : Exception) × (get_high_water_mark execute table state ≡ raised e)
unfolding get_high_water_mark
no_mark (ok u) table state h = (other, rw h refl)
no_mark (raised e) table state h = (e, refl)

module _ {Row : Type 0} (frames : Frames Row) (base : List String) (table : String) (r : Run Row)
    (w : World Row) where
  after_upsert :
      (rows : List Checkpoint)
      → w.export_state ≡ some rows
      → let x = export_since frames base (find_mark table rows) table r.answers w.storage in
        x.0 ≡ ok tt
        → (execute : Try (Unit {0}))
        → Ends frames base table r w (
            from_state frames base table r w x.1
              (execute >>= (λ _. ok (some (upsert (bookmark frames base table r w x.1) rows)))))
  unfolding from_state
  after_upsert rows state exported (ok u) =
      inl (rows, state, saved frames base table r w rows exported)
  after_upsert rows state exported (raised e) = inr (unsaved frames base table r w rows e state)

  from_mark-Ends :
      (rows : List Checkpoint)
      → w.export_state ≡ some rows
      → Ends frames base table r w (from_mark frames base table r w (find_mark table rows))
  from_mark-Ends rows state =
      let x = export_since frames base (find_mark table rows) table r.answers w.storage in
      elim (Try-cases x.0) [
        | inr (e, failed) ↦
            subst (Ends frames base table r w)
              (sym (ap (from_storage frames base table r w x.1) failed))
              (inr (unsaved frames base table r w rows e state))
        | inl (u, exported) ↦
            let step : from_mark frames base table r w (find_mark table rows)
                ≡ from_state frames base table r w x.1 (
                    r.upsert
                    >>= (λ _. ok (some (upsert (bookmark frames base table r w x.1) rows)))) =
              ap (from_storage frames base table r w x.1) exported
              ∙ unfold from_state in
                ap (from_state frames base table r w x.1)
                  (upserted r.upsert table r.now _ w.export_state rows state) in
            subst (Ends frames base table r w) (sym step)
              (after_upsert rows state exported r.upsert)
      ]

  after_select :
      (rows : List Checkpoint)
      → w.export_state ≡ some rows
      → (execute : Try (Unit {0}))
      → Ends frames base table r w (
          with_mark
            (execute >>= (λ _. ok (find_mark table rows)))
            w
            (from_mark frames base table r w))
  after_select rows state (ok u) = from_mark-Ends rows state
  after_select rows state (raised e) = inr (Unsaved-at_once frames base table r w e)

  pub try_export-Ends : Ends frames base table r w (try_export frames base table r w)
  unfolding try_export
  try_export-Ends = elim (Option-cases w.export_state) [
    | inl missing ↦
        let (e, h) = no_mark r.select table w.export_state missing in
        subst (Ends frames base table r w)
          (sym (ap (λ m. with_mark m w (from_mark frames base table r w)) h))
          (inr (Unsaved-at_once frames base table r w e))
    | inr (rows, state) ↦
        subst (Ends frames base table r w)
          (sym (
            ap (λ m. with_mark m w (from_mark frames base table r w))
              (mark_read r.select table w.export_state rows state)))
          (after_select rows state r.select)
  ]

  -- If the exporter raises, only the files that it wrote remain.
  pub try_export_raises :
      (u : Unit {0}) (rows : List Checkpoint) (e : Exception)
      → w.export_state ≡ some rows
      → r.select ≡ ok u
      → let x = export_since frames base (find_mark table rows) table r.answers w.storage in
        x.0 ≡ raised e → try_export frames base table r w ≡ (raised e, record w { storage = x.1 })
  unfolding try_export
  try_export_raises u rows e state selected failed =
      let x = export_since frames base (find_mark table rows) table r.answers w.storage in
      let read =
        mark_read r.select table w.export_state rows state
        ∙ ap (λ t. t >>= (λ _. ok (find_mark table rows))) selected in
      ap (λ m. with_mark m w (from_mark frames base table r w)) read
      ∙ ap (from_storage frames base table r w x.1) failed

  pub export_since-elsewhere :
      (at : List String)
      → Apart at (table_path frames base table)
      → (mark : Option ℕ) (s : Storage Row)
      → under at (export_since frames base mark table r.answers s).1.files ≡ under at s.files
  export_since-elsewhere at apart none s =
      full_export-elsewhere frames base table at apart r.answers s
  export_since-elsewhere at apart (some mark) s =
      incremental_export-elsewhere frames base table at apart mark r.answers s

  -- Whatever happens, files outside of the table's tree stay as they are.
  pub try_export-elsewhere :
      (at : List String)
      → Apart at (table_path frames base table)
      → under at (try_export frames base table r w).1.storage.files ≡ under at w.storage.files
  try_export-elsewhere at apart = elim try_export-Ends [
    | inl (rows, state, e) ↦
        ap (λ s. under at s.files) e.storage
        ∙ export_since-elsewhere at apart (find_mark table rows) w.storage
    | inr e ↦ elim e.storage [
      | inl same ↦ ap (λ s. under at s.files) same
      | inr (rows, state, h) ↦
          ap (λ s. under at s.files) h
          ∙ export_since-elsewhere at apart (find_mark table rows) w.storage
    ]
  ]
