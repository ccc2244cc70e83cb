-- ===== src/Lakehouse/Tests/Exporting.antt =====
-- Runs of lakehouse/export.py on a concrete table.
use crypto_streaming_lakehou.Base.{
  ℕ, ◌+◌, ◌≤◌, String, ◌==◌, Bool, true, false, List, [], ◌∷◌, none, some, Try, ok, raised, other,
  ◌≡◌, refl, ◌⊎◌, inl, inr, arith, All, if◌then◌else◌,
}
use crypto_streaming_lakehou.Lakehouse.Names.{matches_rest, matches, validate_table_name}
use crypto_streaming_lakehou.Lakehouse.Storage.{
  part, count, is_under, under, rows_of, read_parquet, rmtree,
}
use crypto_streaming_lakehou.Lakehouse.Storage.Counting.{is_later}
use crypto_streaming_lakehou.Lakehouse.Exporter.{
  removed, partition_path, two_digits, four_digits, write_partitions, export, full_export, newer,
  incremental_export,
}
use crypto_streaming_lakehou.Lakehouse.Exporter.Writing.{stored}
use crypto_streaming_lakehou.Lakehouse.Exporter.Partitions.{
  IsCalendar, IsPartitioned, exports-IsPartitioned,
}
use crypto_streaming_lakehou.Lakehouse.ExportState.{
  upsert, upsert_export_state, find_mark, get_high_water_mark,
}
use crypto_streaming_lakehou.Lakehouse.Uploads.{S3}
use crypto_streaming_lakehou.Lakehouse.Catalog.{World, init_catalog}
use crypto_streaming_lakehou.Lakehouse.Catalog.Again.{init_catalog_again}
use crypto_streaming_lakehou.Lakehouse.Export.{
  parquet_base, Run, is_ok, upload_files, try_export, export_table, Environment, run_export,
}
use crypto_streaming_lakehou.Lakehouse.Export.Bookmarks.{
  mark_in, IsExported, export_table-moves_mark,
}
use crypto_streaming_lakehou.Lakehouse.Export.Sequences.{export_each, late_rows_never_exported}
use crypto_streaming_lakehou.Lakehouse.Export.InStep.{History, end, next, export_each-InStep}
use crypto_streaming_lakehou.Lakehouse.Export.Retries.{IsCutShort, retry_stores_twice}
use crypto_streaming_lakehou.Lakehouse.Export.Views.{IsBlind, run_export-shows_nothing}
use crypto_streaming_lakehou.Lakehouse.Export.Runs.{TriesBoth, run_export-TriesBoth}
use crypto_streaming_lakehou.Lakehouse.Tests.{by_day, group, group_in}

abbrev vwap : String
vwap = "gold_vwap_1min"

abbrev writes : ℕ → Try (Unit {0})
writes n = ok tt

abbrev second_fails : ℕ → Try (Unit {0})
second_fails n = if n == 1 then raised other else ok tt

abbrev no_bucket : S3
no_bucket = record { bucket = none; client = ok tt; upload_file = λ _. ok tt; uuid = λ _. "0" }

abbrev run_at : ℕ → List ℕ → (ℕ → Try (Unit {0})) → Run ℕ
run_at now rows to_parquet = record {
  answers = record { removal = removed; scan = ok rows; to_parquet = to_parquet };
  select = ok tt;
  count_query = ok tt;
  now = now;
  upsert = ok tt;
  s3 = no_bucket;
}

abbrev nothing : World ℕ
nothing = record {
  storage = record { files = []; next_part = 0 };
  export_state = some [];
  views = [];
  uploads = [];
}

-- After a first export at 10 that saw a window at 5.
abbrev started : World ℕ
started = record {
  storage = record {
    files =
        record {
          directory = "data" ∷ "gold" ∷ vwap ∷ "year=2026" ∷ "month=04" ∷ "day=00" ∷ [];
          name = part 0;
          rows = 5 ∷ [];
        }
        ∷ [];
    next_part = 1;
  };
  export_state = some (record { table_name = vwap; last_exported_at = 10; rows_exported = 1 } ∷ []);
  views = [];
  uploads = [];
}

first_run :
    export_table by_day parquet_base vwap (run_at 10 (5 ∷ []) writes) nothing ≡ (true, started)
unfolding export_table try_export full_export export write_partitions partition_path two_digits
    four_digits validate_table_name matches matches_rest rmtree upsert_export_state upsert
    get_high_water_mark find_mark read_parquet rows_of under is_under upload_files group group_in
first_run = refl

export_table-moves_mark_example :
    let e = export_table by_day parquet_base vwap (run_at 10 (5 ∷ []) writes) nothing in
    ((e.0 ≡ true) × IsExported by_day parquet_base vwap (run_at 10 (5 ∷ []) writes) nothing e.1)
    ⊎ ((e.0 ≡ false)
        × IsExported by_day parquet_base vwap (run_at 10 (5 ∷ []) writes) nothing e.1
        × (is_ok no_bucket.client ≡ false))
    ⊎ ((e.0 ≡ false) × (e.1.export_state ≡ nothing.export_state))
export_table-moves_mark_example =
    export_table-moves_mark by_day parquet_base vwap (run_at 10 (5 ∷ []) writes) nothing

marked_at_10 : mark_in started.export_state vwap ≡ some 10
unfolding find_mark
marked_at_10 = refl

early : (row : ℕ) → (row == 7) ≡ true → row ≤ 10
early row h = ground (arith)

-- The window at 7 was aggregated after the export at 10.
late_rows_never_exported_example :
    count
      (λ n. n == 7)
      (stored by_day parquet_base vwap
        (export_each by_day parquet_base vwap
          (run_at 20 (5 ∷ 7 ∷ []) writes ∷ run_at 30 (5 ∷ 7 ∷ []) writes ∷ [])
          started).1.storage)
    ≡ count (λ n. n == 7) (stored by_day parquet_base vwap started.storage)
late_rows_never_exported_example =
    late_rows_never_exported by_day parquet_base vwap (λ n. n == 7) 10
      (run_at 20 (5 ∷ 7 ∷ []) writes ∷ run_at 30 (5 ∷ 7 ∷ []) writes ∷ []) started marked_at_10
      early (omega arith, (omega arith, tt))

abbrev two_runs : List (Run ℕ)
two_runs = run_at 10 (5 ∷ []) writes ∷ run_at 20 (5 ∷ 12 ∷ []) writes ∷ []

two_runs-History : History by_day parquet_base vwap [] none two_runs (5 ∷ 12 ∷ [])
two_runs-History =
    next [] (5 ∷ []) (5 ∷ 12 ∷ []) none (run_at 10 (5 ∷ []) writes)
      (run_at 20 (5 ∷ 12 ∷ []) writes ∷ []) refl (λ p. refl)
      (next (5 ∷ []) (5 ∷ 12 ∷ []) (5 ∷ 12 ∷ []) (some 10) (run_at 20 (5 ∷ 12 ∷ []) writes) [] refl
        (λ p. omega arith) (end (5 ∷ 12 ∷ []) (some 20)))

two_runs_succeed : (export_each by_day parquet_base vwap two_runs nothing).0 ≡ true
unfolding export_each export_table try_export full_export incremental_export newer export
    write_partitions partition_path two_digits four_digits validate_table_name matches matches_rest
    rmtree upsert_export_state upsert get_high_water_mark find_mark read_parquet rows_of under
    is_under upload_files group group_in
two_runs_succeed = refl

no_mark : mark_in nothing.export_state vwap ≡ none
unfolding find_mark
no_mark = refl

nothing_stored :
    (p : ℕ → Bool) → count p (stored by_day parquet_base vwap nothing.storage) ≡ count p []
unfolding read_parquet rows_of under
nothing_stored p = refl

export_each-InStep_example :
    count
      (λ n. n == 12)
      (stored by_day parquet_base vwap
        (export_each by_day parquet_base vwap two_runs nothing).1.storage)
    ≡ count (λ n. n == 12) (5 ∷ 12 ∷ [])
export_each-InStep_example =
    export_each-InStep by_day parquet_base vwap [] none two_runs (5 ∷ 12 ∷ []) nothing
      two_runs-History no_mark nothing_stored two_runs_succeed (λ n. n == 12)

-- The export of the windows at 12 and 25 raises between the two days.
abbrev short_run : Run ℕ
short_run = run_at 30 (5 ∷ 12 ∷ 25 ∷ []) second_fails

short_run-IsCutShort : IsCutShort by_day parquet_base vwap short_run 10 (5 ∷ 12 ∷ 25 ∷ []) (12 ∷ [])
unfolding newer group group_in validate_table_name matches matches_rest
short_run-IsCutShort = record {
  selected = refl;
  valid = refl;
  scan = refl;
  row = 12;
  later = 25 ∷ [];
  new = refl;
  date = record { year = 2026; month = 4; day = 1 };
  second = (record { year = 2026; month = 4; day = 2 }, 25 ∷ []);
  others = [];
  split = refl;
  wrote = refl;
  error = other;
  failed = refl;
}

retry_succeeds :
    (export_table by_day parquet_base vwap
      (run_at 40 (5 ∷ 12 ∷ 25 ∷ []) writes)
      (export_table by_day parquet_base vwap short_run started).1).0
    ≡ true
unfolding export_table try_export incremental_export newer export write_partitions partition_path
    two_digits four_digits validate_table_name matches matches_rest upsert_export_state upsert
    get_high_water_mark find_mark read_parquet rows_of under is_under upload_files group group_in
retry_succeeds = refl

retry_stores_twice_example :
    ((export_table by_day parquet_base vwap short_run started).0 ≡ false)
    × ((p : ℕ → Bool)
        → count p (
            stored by_day parquet_base vwap
              (export_table by_day parquet_base vwap
                (run_at 40 (5 ∷ 12 ∷ 25 ∷ []) writes)
                (export_table by_day parquet_base vwap short_run started).1).1.storage)
          ≡ count p (stored by_day parquet_base vwap started.storage)
            + count p (12 ∷ [])
            + count (is_later by_day 10 p) (5 ∷ 12 ∷ 25 ∷ []))
retry_stores_twice_example =
    retry_stores_twice by_day parquet_base vwap short_run (run_at 40 (5 ∷ 12 ∷ 25 ∷ []) writes)
      started 10 (5 ∷ 12 ∷ 25 ∷ []) (12 ∷ []) marked_at_10 short_run-IsCutShort refl retry_succeeds

abbrev hourly : Environment ℕ
hourly = record {
  database_url = some "postgres://";
  connect = ok tt;
  runs = λ _. short_run;
  catalog = λ _. ok tt;
}

started-IsBlind : IsBlind [] started
unfolding under is_under
started-IsBlind = record {
  files = λ table g. elim g [ inl e ↦ rw e tt | inr e ↦ rw e tt ];
  views = tt;
  uploaded = refl;
}

run_export-shows_nothing_example :
    IsBlind [] (run_export by_day hourly started).1
    × All
        (λ v. read_parquet v.directory (run_export by_day hourly started).1.storage.files ≡ [])
        (run_export by_day hourly started).1.views
run_export-shows_nothing_example = run_export-shows_nothing by_day hourly started started-IsBlind

run_export-TriesBoth_example : TriesBoth by_day hourly started (run_export by_day hourly started)
run_export-TriesBoth_example =
    run_export-TriesBoth by_day hourly started "postgres://" refl refl (λ n. refl)

refreshes : (init_catalog hourly.catalog parquet_base started).0 ≡ ok tt
unfolding init_catalog
refreshes = refl

init_catalog_again_instance :
    (init_catalog
      (λ n. raised other)
      parquet_base
      (init_catalog hourly.catalog parquet_base started).1).1
    ≡ (init_catalog hourly.catalog parquet_base started).1
init_catalog_again_instance =
    init_catalog_again hourly.catalog (λ n. raised other) parquet_base started refreshes

days : (t : ℕ) → IsCalendar (by_day.date t)
days t = record { year = omega arith; month = omega arith; day = omega arith }

started-IsPartitioned : IsPartitioned by_day parquet_base vwap days started.storage
started-IsPartitioned = (
  λ h. (
    record {
      year_text = "2026";
      month_text = "04";
      day_text = "00";
      spelled = refl;
      year = (refl, refl, refl);
      month = (refl, refl, refl);
      day = (refl, refl, refl);
    },
    tt,
  ),
  tt,
)

exports-IsPartitioned_example :
    IsPartitioned by_day parquet_base vwap days
      (full_export by_day parquet_base vwap short_run.answers started.storage).1
    × IsPartitioned by_day parquet_base vwap days
        (incremental_export by_day parquet_base vwap 10 short_run.answers started.storage).1
exports-IsPartitioned_example =
    exports-IsPartitioned by_day parquet_base vwap days 10 short_run.answers started.storage
      started-IsPartitioned
