-- ===== src/Lakehouse/Export/Views.antt =====
-- What the views and the uploads see of the exported files, in lakehouse/export.py.
use text.Mathlib.TextEquality.{eq_iff}
use crypto_streaming_lakehou.Base.{
  ℕ, String, true, List, [], ◌∷◌, ◌++◌, Option, none, some, Try, ok, All, ◌≡◌, ◌≢◌, refl, sym, ap,
  ◌∙◌, subst, ◌⊎◌, inl, inr, Bool-cases, text_eq,
}
use crypto_streaming_lakehou.Lakehouse.Storage.{
  File, Frames, is_under, under, rows_of, read_parquet,
}
use crypto_streaming_lakehou.Lakehouse.Storage.Counting.{
  Apart, prefix-Apart, names-Apart, under-append,
}
use crypto_streaming_lakehou.Lakehouse.Uploads.{Upload, S3, path_text}
use crypto_streaming_lakehou.Lakehouse.Catalog.{
  View, World, is_placeholder, replace_view, has_placeholder, write_placeholder, with_placeholder,
  with_view, init_catalog,
}
use crypto_streaming_lakehou.Lakehouse.Catalog.Keeps.{then_do-keeps, init_catalog-keeps}
use crypto_streaming_lakehou.Lakehouse.Export.{
  gold_tables, parquet_base, Run, upload_files, export_table, export_tables, Environment, summary,
  init_schema, with_url, export_and_refresh, run_export,
}
use crypto_streaming_lakehou.Lakehouse.Export.Outcomes.{try_export-Ends, try_export-elsewhere}

-- The directory of a Gold table as init_catalog and _upload_new_files name it.
abbrev pub seen_path : String → List String
seen_path table = parquet_base ++ table ∷ []

abbrev pub IsGold : String → Type 0
IsGold table = (table ≡ "gold_vwap_1min") ⊎ (table ≡ "gold_trade_stats_1min")

abbrev pub IsGoldView : View → Type 0
IsGoldView v = (table : String) × IsGold table × (v.directory ≡ seen_path table)

not_gold : (table : String) → IsGold table → table ≢ "gold"
not_gold table (inl e) h = absurd (false_true ((eq_iff "gold_vwap_1min" "gold").1 (sym e ∙ h)))
  where
    false_true : text_eq "gold_vwap_1min" "gold" ≡ true → ⊥
    false_true x = cc
not_gold table (inr e) h =
    absurd (false_true ((eq_iff "gold_trade_stats_1min" "gold").1 (sym e ∙ h)))
  where
    false_true : text_eq "gold_trade_stats_1min" "gold" ≡ true → ⊥
    false_true x = cc

seen-Apart :
    (table other : String)
    → IsGold table
    → Apart (seen_path table) (parquet_base ++ "gold" ∷ other ∷ [])
seen-Apart table other g =
    prefix-Apart "data" (table ∷ []) ("gold" ∷ other ∷ [])
      (names-Apart table "gold" [] (other ∷ []) (not_gold table g))

replace_view-All :
    (v : View) (views : List View)
    → IsGoldView v
    → All IsGoldView views
    → All IsGoldView (replace_view v views)
unfolding replace_view
replace_view-All v [] h hs = (h, tt)
replace_view-All v (x ∷ views) h (hx, hs) = elim (Bool-cases (text_eq v.name x.name)) [
  | inl e ↦ rw e (h, hs)
  | inr e ↦ rw e (hx, replace_view-All v views h hs)
]

module _ {Row : Type 0} where
  -- A placeholder without rows.
  abbrev pub IsBlank : File Row → Type 0
  IsBlank f = (is_placeholder f.name ≡ true) × (f.rows ≡ [])

  upload_files-blank :
      (s3 : S3) (b : String) (files : List (File Row)) (uploads : List Upload)
      → All IsBlank files
      → upload_files s3 b files uploads ≡ (ok tt, uploads)
  unfolding upload_files
  upload_files-blank s3 b [] uploads h = refl
  upload_files-blank s3 b (f ∷ files) uploads ((e, none_there), h) =
      rw e (upload_files-blank s3 b files uploads h)

  rows_of-blank : (files : List (File Row)) → All IsBlank files → rows_of files ≡ []
  unfolding rows_of
  rows_of-blank [] h = refl
  rows_of-blank (f ∷ files) ((e, none_there), h) = rw (none_there, rows_of-blank files h) refl

  All-append : (xs ys : List (File Row)) → All IsBlank xs → All IsBlank ys → All IsBlank (xs ++ ys)
  All-append [] ys hx hy = hy
  All-append (x ∷ xs) ys (h, hx) hy = (h, All-append xs ys hx hy)

  blank_under : (at : List String) (f : File Row) → IsBlank f → All IsBlank (under at (f ∷ []))
  unfolding under
  blank_under at f h = elim (Bool-cases (is_under at f.directory)) [
    | inl e ↦ rw e (h, tt)
    | inr e ↦ rw e tt
  ]

  under-write_placeholder :
      (at dir : List String) (files : List (File Row))
      → All IsBlank (under at files)
      → All IsBlank (under at (write_placeholder dir files))
  unfolding write_placeholder
  under-write_placeholder at dir files h = elim (Bool-cases (has_placeholder dir files)) [
    | inl e ↦ rw e h
    | inr e ↦ rw (e, under-append) (All-append (under at files) _ h (blank_under at _ (refl, refl)))
  ]

  -- Where the catalog and the uploads look there are only empty placeholders, and the uploads are
  -- `uploads`.
  pub record IsBlind (uploads : List Upload) (w : World Row) : Type 0 where
    pub files :
        (table : String) → IsGold table → All IsBlank (under (seen_path table) w.storage.files)
    pub views : All IsGoldView w.views
    pub uploaded : w.uploads ≡ uploads

  replace_storage :
      (uploads : List Upload) (dir : List String) (w : World Row)
      → IsBlind uploads w
      → IsBlind uploads (with_placeholder dir w)
  replace_storage uploads dir w b = record {
    files =
        λ table g. under-write_placeholder (seen_path table) dir w.storage.files (b.files table g);
    views = b.views;
    uploaded = b.uploaded;
  }

  replace_views :
      (uploads : List Upload) (name table : String) (w : World Row)
      → IsGold table
      → IsBlind uploads w
      → IsBlind uploads (with_view name (seen_path table) w)
  replace_views uploads name table w g b = record {
    files = b.files;
    views = replace_view-All _ w.views (table, g, refl) b.views;
    uploaded = b.uploaded;
  }

  init_catalog-IsBlind :
      (uploads : List Upload) (perform : ℕ → Try (Unit {0})) (w : World Row)
      → IsBlind uploads w
      → IsBlind uploads (init_catalog perform parquet_base w).1
  init_catalog-IsBlind uploads perform w =
      init_catalog-keeps (IsBlind uploads) perform parquet_base w
        (replace_storage uploads (seen_path "gold_vwap_1min"))
        (replace_storage uploads (seen_path "gold_trade_stats_1min"))
        (λ v. replace_views uploads "vw_vwap_1min" "gold_vwap_1min" v (inl refl))
        (λ v. replace_views uploads "vw_trade_stats_1min" "gold_trade_stats_1min" v (inr refl))

module _ {Row : Type 0} (frames : Frames Row) where
  export_table-IsBlind :
      (uploads : List Upload) (table : String) (r : Run Row) (w : World Row)
      → IsGold table
      → IsBlind uploads w
      → IsBlind uploads (export_table frames parquet_base table r w).1
  unfolding export_table
  export_table-IsBlind uploads table r w g b =
      let files = λ (t : String) (h : IsGold t).
        subst (All IsBlank)
          (sym (
            try_export-elsewhere frames parquet_base table r w (seen_path t)
              (seen-Apart t table h)))
          (b.files t h) in
      elim (try_export-Ends frames parquet_base table r w) [
        | inl (rows, state, s) ↦ record {
          files = files;
          views = subst (All IsGoldView) (sym s.views) b.views;
          uploaded =
              ap (λ x. x.1)
                (s.uploads
                  ∙ upload_files-blank r.s3 (path_text parquet_base) _ w.uploads (files table g))
              ∙ b.uploaded;
        }
        | inr u ↦ record {
          files = files;
          views = subst (All IsGoldView) (sym u.views) b.views;
          uploaded = u.uploads ∙ b.uploaded;
        }
      ]

  export_tables-IsBlind :
      (uploads : List Upload) (tables : List String) (runs : String → Run Row) (w : World Row)
      → All IsGold tables
      → IsBlind uploads w
      → IsBlind uploads (export_tables frames parquet_base tables runs w).1
  unfolding export_tables
  export_tables-IsBlind uploads [] runs w g b = b
  export_tables-IsBlind uploads (table ∷ tables) runs w (g, gs) b =
      export_tables-IsBlind uploads tables runs _ gs
        (export_table-IsBlind uploads table (runs table) w g b)

  with_url-IsBlind :
      (uploads : List Upload) (url : Option String) (env : Environment Row) (w : World Row)
      → IsBlind uploads w
      → IsBlind uploads (with_url frames url env w).1
  with_url-IsBlind uploads none env w b = b
  with_url-IsBlind uploads (some url) env w b =
      then_do-keeps (IsBlind uploads) (env.connect, w) (export_and_refresh frames env) b
        (λ v h.
          let e = export_tables frames parquet_base gold_tables env.runs (init_schema frames v) in
          let exported =
            export_tables-IsBlind uploads gold_tables env.runs (init_schema frames v)
              (inl refl, (inr refl, tt))
              record { files = h.files; views = h.views; uploaded = h.uploaded } in
          then_do-keeps (IsBlind uploads) (init_catalog env.catalog parquet_base e.1)
            (λ x. (summary e.0, x)) (init_catalog-IsBlind uploads env.catalog e.1 exported)
            (λ x k. k))

  shows_nothing :
      (uploads : List Upload) (w : World Row)
      → IsBlind uploads w
      → (views : List View) → All IsGoldView views
      → All (λ v. read_parquet v.directory w.storage.files ≡ []) views
  unfolding read_parquet
  shows_nothing uploads w b [] h = tt
  shows_nothing uploads w b (v ∷ views) ((table, g, e), h) = (
    ap (λ d. rows_of (under d w.storage.files)) e
        ∙ rows_of-blank (under (seen_path table) w.storage.files) (b.files table g),
    shows_nothing uploads w b views h,
  )

  -- Whatever a run exports, the views of the catalog show none of it and nothing is uploaded, since
  -- both look in data/<table> and the files are in data/gold/<table>: if only empty placeholders
  -- are in the directories that they look in, this stays so, each view shows no row, and the
  -- uploads do not change.
  pub run_export-shows_nothing :
      (env : Environment Row) (w : World Row)
      → IsBlind w.uploads w
      → let w' = (run_export frames env w).1 in
        IsBlind w.uploads w' × All (λ v. read_parquet v.directory w'.storage.files ≡ []) w'.views
  unfolding run_export
  run_export-shows_nothing env w b =
      let b' = with_url-IsBlind w.uploads env.database_url env w b in
      (b', shows_nothing w.uploads _ b' _ b'.views)
