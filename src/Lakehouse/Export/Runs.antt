-- ===== src/Lakehouse/Export/Runs.antt =====
-- A whole run of lakehouse/export.py.
use crypto_streaming_lakehou.Base.{
  ℕ, String, Bool, true, false, ◌&&◌, [], ◌∷◌, some, Try, ok, raised, runtime_error, ◌≡◌, ◌≢◌, refl,
  sym, ap, ◌∙◌, subst, text_eq, if◌then◌else◌, eq_iff,
}
use crypto_streaming_lakehou.Lakehouse.Storage.{Frames, rows_of, read_parquet}
use crypto_streaming_lakehou.Lakehouse.Exporter.{table_path, ◌then_do◌}
use crypto_streaming_lakehou.Lakehouse.Exporter.Writing.{stored}
use crypto_streaming_lakehou.Lakehouse.Catalog.{World, init_catalog}
use crypto_streaming_lakehou.Lakehouse.Catalog.Keeps.{init_catalog-rows}
use crypto_streaming_lakehou.Lakehouse.Export.{
  parquet_base, gold_tables, Run, export_table, export_tables, Environment, summary, init_schema,
  export_and_refresh, with_url, run_export,
}
use crypto_streaming_lakehou.Lakehouse.Export.Bookmarks.{mark_in, export_table-elsewhere}

vwap_first : ◌≢◌ {A = String} "gold_vwap_1min" "gold_trade_stats_1min"
vwap_first h = differ ((eq_iff "gold_vwap_1min" "gold_trade_stats_1min").1 h)
  where
    differ : text_eq "gold_vwap_1min" "gold_trade_stats_1min" ≡ true → ⊥
    differ e = cc

module _ {Row : Type 0} (frames : Frames Row) (env : Environment Row) (w : World Row) where
  abbrev pub first_export : Bool × World Row
  first_export =
      export_table frames parquet_base "gold_vwap_1min" (env.runs "gold_vwap_1min")
        (init_schema frames w)

  abbrev pub second_export : Bool × World Row
  second_export =
      export_table frames parquet_base "gold_trade_stats_1min" (env.runs "gold_trade_stats_1min")
        first_export.1

  -- The rows and the mark of a table are the same in both worlds.
  abbrev pub SameTable : String → World Row → World Row → Type 0
  SameTable table u v =
      (stored frames parquet_base table u.storage ≡ stored frames parquet_base table v.storage)
      × (mark_in u.export_state table ≡ mark_in v.export_state table)

  -- Both tables are exported, and the run raises if one of them failed.
  pub record TriesBoth (r : Try (Unit {0}) × World Row) : Type 0 where
    pub outcome : r.0 ≡ (if first_export.0 && second_export.0 then ok tt else raised runtime_error)
    pub first : SameTable "gold_vwap_1min" r.1 first_export.1
    pub second : SameTable "gold_trade_stats_1min" r.1 second_export.1
    pub second_start : SameTable "gold_trade_stats_1min" first_export.1 (init_schema frames w)

  SameTable-elsewhere :
      (table other : String) (r : Run Row) (v : World Row)
      → table ≢ other
      → SameTable other (export_table frames parquet_base table r v).1 v
  unfolding read_parquet
  SameTable-elsewhere table other r v differs =
      let (files, mark) = export_table-elsewhere frames parquet_base table other r v differs in
      (ap rows_of files, mark)

  catalog_same :
      (table : String) (v : World Row)
      → SameTable table (init_catalog env.catalog parquet_base v).1 v
  catalog_same table v =
      let (state, rows) = init_catalog-rows env.catalog parquet_base v in
      (rows (table_path frames parquet_base table), ap (λ s. mark_in s table) state)

  catalog_ok :
      (v : World Row)
      → ((n : ℕ) → env.catalog n ≡ ok tt)
      → (init_catalog env.catalog parquet_base v).0 ≡ ok tt
  unfolding init_catalog
  catalog_ok v h = rw (h 0, h 1, h 2, h 3, h 4, h 5, h 6) refl

  summary_lem :
      (first second : Bool)
      → summary (
          if first
          then if second then [] else "gold_trade_stats_1min" ∷ []
          else "gold_vwap_1min" ∷ (if second then [] else "gold_trade_stats_1min" ∷ []))
        ≡ (if first && second then ok tt else raised runtime_error)
  summary_lem true true = refl
  summary_lem true false = refl
  summary_lem false second = refl

  second_keeps_first : SameTable "gold_vwap_1min" second_export.1 first_export.1
  second_keeps_first =
      SameTable-elsewhere "gold_trade_stats_1min" "gold_vwap_1min"
        (env.runs "gold_trade_stats_1min") first_export.1 (λ e. vwap_first (sym e))

  -- If the environment variable is set, the connection opens and the catalog is refreshed, a run
  -- tries to export both tables, whatever becomes of the first: the second export starts from the
  -- rows and the mark that its table had, each table ends with the rows and the mark that its own
  -- export left, and the run raises RuntimeError exactly if one of the exports failed.
  pub run_export-TriesBoth :
      (url : String)
      → env.database_url ≡ some url
      → env.connect ≡ ok tt
      → ((n : ℕ) → env.catalog n ≡ ok tt)
      → TriesBoth (run_export frames env w)
  unfolding run_export export_tables
  run_export-TriesBoth url has_url connected refreshed =
      let exported =
        export_tables frames parquet_base gold_tables env.runs (init_schema frames w) in
      let catalog = init_catalog env.catalog parquet_base exported.1 in
      let done : run_export frames env w ≡ (summary exported.0, catalog.1) =
        ap (λ u. with_url frames u env w) has_url
        ∙ ap (λ c. (c, w) then_do export_and_refresh frames env) connected
        ∙ ap (λ c. (c, catalog.1) then_do (λ v. (summary exported.0, v)))
            (catalog_ok exported.1 refreshed) in
      subst TriesBoth (sym done) record {
        outcome = summary_lem first_export.0 second_export.0;
        first =
            let (rows, mark) = catalog_same "gold_vwap_1min" exported.1 in
            (rows ∙ second_keeps_first.0, mark ∙ second_keeps_first.1);
        second = catalog_same "gold_trade_stats_1min" exported.1;
        second_start =
            SameTable-elsewhere "gold_vwap_1min" "gold_trade_stats_1min" (env.runs "gold_vwap_1min")
              (init_schema frames w) vwap_first;
      }
