-- ===== src/Lakehouse/Storage.antt =====
-- The Parquet files that lakehouse/ writes and reads, and the data frames that it partitions
pub mod Counting
use crypto_streaming_lakehou.Base.{
  ℕ, suc, ◌+◌, String, Bool, true, false, not, List, [], ◌∷◌, ◌++◌, text_eq, if◌then◌else◌, bit,
  ◌≡◌, All,
}

-- `.placeholder.parquet`, or `part-<uuid>.parquet`; each uuid is fresh, the model numbers them
pub data FileName : Type 0 where
  placeholder : FileName
  part : ℕ → FileName

pub record File (Row : Type 0) : Type 0 where
  pub directory : List String
  pub name : FileName
  pub rows : List Row

pub record Storage (Row : Type 0) : Type 0 where
  pub files : List (File Row)
  pub next_part : ℕ

pub record Date : Type 0 where
  pub year : ℕ
  pub month : ℕ
  pub day : ℕ

-- The path lies under the directory `dir`, or is `dir`.
unfoldable pub is_under : List String → List String → Bool
is_under [] path = true
is_under (d ∷ dir) [] = false
is_under (d ∷ dir) (e ∷ path) = let rest = is_under dir path in if text_eq d e then rest else false

module _ {Row : Type 0} where
  -- The files of a tree, as `rglob` and the glob `**` find them.
  unfoldable pub under : List String → List (File Row) → List (File Row)
  unfolding is_under
  under dir [] = []
  under dir (f ∷ files) =
      let rest = under dir files in if is_under dir f.directory then f ∷ rest else rest

  unfoldable pub rows_of : List (File Row) → List Row
  rows_of [] = []
  rows_of (f ∷ files) = f.rows ++ rows_of files

  -- read_parquet('<dir>/**/*.parquet')
  unfoldable pub read_parquet : List String → List (File Row) → List Row
  unfolding rows_of under
  read_parquet dir files = rows_of (under dir files)

  -- shutil.rmtree
  unfoldable pub rmtree : List String → List (File Row) → List (File Row)
  unfolding is_under
  rmtree dir [] = []
  rmtree dir (f ∷ files) =
      let rest = rmtree dir files in if is_under dir f.directory then rest else f ∷ rest

  -- to_parquet of a fresh part in `dir`
  abbrev pub write_part : List String → List Row → Storage Row → Storage Row
  write_part dir rows s = record {
    files = s.files ++ record { directory = dir; name = part s.next_part; rows = rows } ∷ [];
    next_part = suc s.next_part;
  }

  -- The rows with the property `p`, as often as they occur.
  abbrev pub count : (Row → Bool) → List Row → ℕ
  count p [] = 0
  count p (r ∷ rows) = bit (p r) + count p rows

  abbrev pub count_groups : (Row → Bool) → List (Date × List Row) → ℕ
  count_groups p [] = 0
  count_groups p (g ∷ groups) = count p g.1 + count_groups p groups

-- What the code relies on of the frames of pandas: the column window_start, in microseconds, the
-- date of an instant in UTC, and groupby, which splits the rows by that date and loses none.
pub record Frames (Row : Type 0) : Type 0 where
  pub window_start : Row → ℕ
  pub date : ℕ → Date
  pub groupby : List Row → List (Date × List Row)
  pub count-groupby :
      (p : Row → Bool) (rows : List Row) → count_groups p (groupby rows) ≡ count p rows
  pub groupby-dated :
      (rows : List Row) → All (λ g. All (λ r. date (window_start r) ≡ g.0) g.1) (groupby rows)
