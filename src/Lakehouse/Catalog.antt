-- ===== src/Lakehouse/Catalog.antt =====
-- lakehouse/init_catalog.py
pub mod Keeps
pub mod Again
use crypto_streaming_lakehou.Base.{
  ℕ, String, Bool, true, false, ◌&&◌, List, [], ◌∷◌, ◌++◌, text_eq, if◌then◌else◌, Try, ok, raised,
}
use crypto_streaming_lakehou.Lakehouse.Storage.{FileName, placeholder, part, File, Storage}
use crypto_streaming_lakehou.Lakehouse.ExportState.{ExportState}
use crypto_streaming_lakehou.Lakehouse.Uploads.{Upload}
use crypto_streaming_lakehou.Lakehouse.Exporter.{◌then_do◌}

-- A view of the DuckDB file: its name and the directory whose Parquet files it reads.
pub record View : Type 0 where
  pub name : String
  pub directory : List String

-- What lakehouse/ changes: the Parquet files, export_state and the views of the DuckDB file, and
-- the objects in S3.
pub record World (Row : Type 0) : Type 0 where
  pub storage : Storage Row
  pub export_state : ExportState
  pub views : List View
  pub uploads : List Upload

unfoldable pub same_path : List String → List String → Bool
same_path [] [] = true
same_path [] (e ∷ path) = false
same_path (d ∷ dir) [] = false
same_path (d ∷ dir) (e ∷ path) = text_eq d e && same_path dir path

abbrev pub is_placeholder : FileName → Bool
is_placeholder placeholder = true
is_placeholder (part n) = false

-- CREATE OR REPLACE VIEW
unfoldable pub replace_view : View → List View → List View
replace_view v [] = v ∷ []
replace_view v (w ∷ views) =
    let rest = replace_view v views in if text_eq v.name w.name then v ∷ views else w ∷ rest

module _ {Row : Type 0} where
  unfoldable pub has_placeholder : List String → List (File Row) → Bool
  unfolding same_path
  has_placeholder dir [] = false
  has_placeholder dir (f ∷ files) =
      let rest = has_placeholder dir files in
      if is_placeholder f.name && same_path f.directory dir then true else rest

  -- An empty file, if there is none
  unfoldable pub write_placeholder : List String → List (File Row) → List (File Row)
  unfolding has_placeholder
  write_placeholder dir files =
      if has_placeholder dir files
      then files
      else files ++ record { directory = dir; name = placeholder; rows = [] } ∷ []

  abbrev pub with_placeholder : List String → World Row → World Row
  with_placeholder dir w = record w {
    storage = record w.storage { files = write_placeholder dir w.storage.files };
  }

  abbrev pub with_view : String → List String → World Row → World Row
  with_view name dir w = record w {
    views = replace_view record { name = name; directory = dir } w.views;
  }

  -- A statement that raises changes nothing.
  abbrev pub statement :
      Try (Unit {0}) → (World Row → World Row) → World Row → Try (Unit {0}) × World Row
  statement (ok u) change w = (ok tt, change w)
  statement (raised e) change w = (raised e, w)

  -- `perform n` is how the n-th of the statements that can raise ends: mkdir of both directories,
  -- both placeholders, the connection, and both views.
  unfoldable pub init_catalog :
      (ℕ → Try (Unit {0})) → List String → World Row → Try (Unit {0}) × World Row
  unfolding write_placeholder replace_view
  init_catalog perform parquet_base w =
      let vwap_dir = parquet_base ++ "gold_vwap_1min" ∷ [] in
      let trade_stats_dir = parquet_base ++ "gold_trade_stats_1min" ∷ [] in
      statement (perform 0) (λ v. v) w
      then_do statement (perform 1) (λ v. v)
      then_do statement (perform 2) (with_placeholder vwap_dir)
      then_do statement (perform 3) (with_placeholder trade_stats_dir)
      then_do statement (perform 4) (λ v. v)
      then_do statement (perform 5) (with_view "vw_vwap_1min" vwap_dir)
      then_do statement (perform 6) (with_view "vw_trade_stats_1min" trade_stats_dir)
