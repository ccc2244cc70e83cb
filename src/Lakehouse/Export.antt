-- ===== src/Lakehouse/Export.antt =====
-- lakehouse/export.py
pub mod Outcomes
pub mod Bookmarks
pub mod Sequences
pub mod InStep
pub mod Retries
pub mod Views
pub mod Runs
use Prim.Native.String.{◌++◌ as ◌<>◌}
use crypto_streaming_lakehou.Base.{
  ℕ, String, Bool, true, false, List, [], ◌∷◌, ◌++◌, if◌then◌else◌, Option, none, some, Try, ok,
  raised, key_error, runtime_error, length,
}
use crypto_streaming_lakehou.Lakehouse.Storage.{
  FileName, placeholder, part, File, Storage, Frames, under, read_parquet,
}
use crypto_streaming_lakehou.Lakehouse.Exporter.{
  Answers, table_path, full_export, incremental_export, ◌then_do◌,
}
use crypto_streaming_lakehou.Lakehouse.ExportState.{
  ExportState, Instant, init_ducklake_schema, upsert_export_state, get_high_water_mark,
}
use crypto_streaming_lakehou.Lakehouse.Uploads.{Upload, S3, upload_file_to_s3, path_text}
use crypto_streaming_lakehou.Lakehouse.Catalog.{World, init_catalog, is_placeholder}

abbrev pub gold_tables : List String
gold_tables = "gold_vwap_1min" ∷ "gold_trade_stats_1min" ∷ []

abbrev pub parquet_base : List String
parquet_base = "data" ∷ []

-- What the environment answers to one call of export_table: the exporter's calls, the queries of
-- export_state and of the count, the clock, and S3.
pub record Run (Row : Type 0) : Type 0 where
  pub answers : Answers Row
  pub select : Try (Unit {0})
  pub count_query : Try (Unit {0})
  pub now : ℕ
  pub upsert : Try (Unit {0})
  pub s3 : S3

abbrev pub file_name : (ℕ → String) → FileName → String
file_name uuid placeholder = ".placeholder.parquet"
file_name uuid (part n) = "part-" <> uuid n <> ".parquet"

abbrev pub is_ok : Try (Unit {0}) → Bool
is_ok (ok u) = true
is_ok (raised e) = false

module _ {Row : Type 0} where
  abbrev pub count_exported_rows : Try (Unit {0}) → List Row → ℕ
  count_exported_rows (ok u) rows = length rows
  count_exported_rows (raised e) rows = 0

  -- The loop of _upload_new_files
  unfoldable pub upload_files :
      S3 → String → List (File Row) → List Upload → Try (Unit {0}) × List Upload
  unfolding upload_file_to_s3 path_text
  upload_files s3 base [] uploads = (ok tt, uploads)
  upload_files s3 base (f ∷ files) uploads =
      (if is_placeholder f.name
        then (ok tt, uploads)
        else upload_file_to_s3 s3 (path_text (f.directory ++ file_name s3.uuid f.name ∷ [])) base
            uploads)
      then_do upload_files s3 base files

  abbrev pub upload_new_files : S3 → List String → String → World Row → Try (Unit {0}) × World Row
  upload_new_files s3 base table w =
      let r =
        upload_files s3 (path_text base) (under (base ++ table ∷ []) w.storage.files) w.uploads in
      (r.0, record w { uploads = r.1 })

  abbrev pub on_storage : Try (Unit {0}) × Storage Row → World Row → Try (Unit {0}) × World Row
  on_storage (t, s) w = (t, record w { storage = s })

  abbrev pub on_state : Try ExportState → World Row → Try (Unit {0}) × World Row
  on_state (ok state) w = (ok tt, record w { export_state = state })
  on_state (raised e) w = (raised e, w)

  abbrev pub with_mark :
      Try (Option ℕ)
      → World Row
      → (Option ℕ → Try (Unit {0}) × World Row)
      → Try (Unit {0}) × World Row
  with_mark (ok mark) w next = next mark
  with_mark (raised e) w next = (raised e, w)

module _ {Row : Type 0} (frames : Frames Row) (base : List String) where
  abbrev pub export_since :
      Option ℕ → String → Answers Row → Storage Row → Try (Unit {0}) × Storage Row
  export_since none table a s = full_export frames base table a s
  export_since (some mark) table a s = incremental_export frames base table mark a s

  -- The bookmark, which now() makes aware of its time zone
  abbrev pub save_mark : String → Run Row → World Row → Try (Unit {0}) × World Row
  save_mark table r w =
      on_state
        (upsert_export_state r.upsert table record { micros = r.now; is_aware = true }
          (count_exported_rows r.count_query
            (read_parquet (table_path frames base table) w.storage.files))
          w.export_state)
        w

  -- The `try` block
  unfoldable pub try_export : String → Run Row → World Row → Try (Unit {0}) × World Row
  unfolding full_export incremental_export upsert_export_state get_high_water_mark upload_files
      read_parquet
  try_export table r w = with_mark (get_high_water_mark r.select table w.export_state) w (λ mark.
      on_storage (export_since mark table r.answers w.storage) w
      then_do save_mark table r
      then_do upload_new_files r.s3 base table)

  unfoldable pub export_table : String → Run Row → World Row → Bool × World Row
  unfolding try_export
  export_table table r w = let t = try_export table r w in (is_ok t.0, t.1)

  -- The loop over the tables, with the failed ones
  unfoldable pub export_tables :
      List String → (String → Run Row) → World Row → List String × World Row
  unfolding export_table
  export_tables [] runs w = ([], w)
  export_tables (table ∷ tables) runs w =
      let r = export_table table (runs table) w in
      let rest = export_tables tables runs r.1 in (if r.0 then rest.0 else table ∷ rest.0, rest.1)

-- What the environment answers to a run: DATABASE_URL, the connection to DuckDB with the schema,
-- the calls of export_table, and the statements of the catalog.
pub record Environment (Row : Type 0) : Type 0 where
  pub database_url : Option String
  pub connect : Try (Unit {0})
  pub runs : String → Run Row
  pub catalog : ℕ → Try (Unit {0})

abbrev pub summary : List String → Try (Unit {0})
summary [] = ok tt
summary (table ∷ failed) = raised runtime_error

module _ {Row : Type 0} (frames : Frames Row) where
  abbrev pub init_schema : World Row → World Row
  init_schema w = record w { export_state = init_ducklake_schema w.export_state }

  abbrev pub export_and_refresh : Environment Row → World Row → Try (Unit {0}) × World Row
  export_and_refresh env w =
      let exported = export_tables frames parquet_base gold_tables env.runs (init_schema w) in
      init_catalog env.catalog parquet_base exported.1 then_do (λ v. (summary exported.0, v))

  abbrev pub with_url : Option String → Environment Row → World Row → Try (Unit {0}) × World Row
  with_url none env w = (raised key_error, w)
  with_url (some url) env w = (env.connect, w) then_do export_and_refresh env

  unfoldable pub run_export : Environment Row → World Row → Try (Unit {0}) × World Row
  unfolding export_tables init_catalog init_ducklake_schema
  run_export env w = with_url env.database_url env w
