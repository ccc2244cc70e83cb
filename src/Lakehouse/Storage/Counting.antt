-- ===== src/Lakehouse/Storage/Counting.antt =====
-- How the rows under a directory change as files are written and removed.
use crypto_streaming_lakehou.Base.{
  ℕ, ltb, ◌&&◌, ◌+◌, String, Bool, true, false, List, [], ◌∷◌, ◌++◌, text_eq, ◌≡◌, refl, ap, sym,
  ◌∙◌, arith, append_assoc, Bool-cases, eq_refl, eq_iff, ◌≢◌, append-nil, inl, inr,
}
use crypto_streaming_lakehou.Lakehouse.Storage.{
  Frames, File, Storage, is_under, under, rows_of, read_parquet, rmtree, write_part, count,
}

pub is_under-append : (dir rest : List String) → is_under dir (dir ++ rest) ≡ true
unfolding is_under
is_under-append [] rest = refl
is_under-append (d ∷ dir) rest = rw (eq_refl d) (is_under-append dir rest)

-- No path lies under both.
abbrev pub Apart : List String → List String → Type 0
Apart at dir = (path : List String) → is_under dir path ≡ true → is_under at path ≡ false

pub prefix-Apart : (d : String) (xs ys : List String) → Apart xs ys → Apart (d ∷ xs) (d ∷ ys)
unfolding is_under
prefix-Apart d xs ys h [] e = refl
prefix-Apart d xs ys h (p ∷ path) e = elim (Bool-cases (text_eq d p)) [
  | inl same ↦ rw same (h path (rw same at e))
  | inr other ↦ rw other refl
]

pub names-Apart : (a b : String) (xs ys : List String) → a ≢ b → Apart (a ∷ xs) (b ∷ ys)
unfolding is_under
names-Apart a b xs ys h [] e = refl
names-Apart a b xs ys h (p ∷ path) e = elim (Bool-cases (text_eq a p)) [
  | inl same ↦ absurd (h ((eq_iff a p).0 same ∙ sym ((eq_iff b p).0 (ground (arith)))))
  | inr other ↦ rw other refl
]

pub tables-Apart :
    (a b : String) (base : List String)
    → a ≢ b
    → Apart (base ++ "gold" ∷ a ∷ []) (base ++ "gold" ∷ b ∷ [])
tables-Apart a b [] h = prefix-Apart "gold" (a ∷ []) (b ∷ []) (names-Apart a b [] [] h)
tables-Apart a b (d ∷ base) h = prefix-Apart d _ _ (tables-Apart a b base h)

-- A row with the property whose window starts after the mark.
abbrev pub is_later : {Row : Type 0} → Frames Row → ℕ → (Row → Bool) → Row → Bool
is_later frames mark p row = ltb mark (frames.window_start row) && p row

module _ {Row : Type 0} where
  pub count-append :
      (p : Row → Bool) (xs ys : List Row) → count p (xs ++ ys) ≡ count p xs + count p ys
  count-append p [] ys = omega arith
  count-append p (x ∷ xs) ys = omega (arith, count-append p xs ys)

  pub under-append :
      (dir : List String) (xs ys : List (File Row))
      → under dir (xs ++ ys) ≡ under dir xs ++ under dir ys
  unfolding under
  under-append dir [] ys = refl
  under-append dir (f ∷ xs) ys = elim (Bool-cases (is_under dir f.directory)) [
    | inl e ↦ rw (e, under-append dir xs ys) refl
    | inr e ↦ rw e (under-append dir xs ys)
  ]

  rows_of-append : (xs ys : List (File Row)) → rows_of (xs ++ ys) ≡ rows_of xs ++ rows_of ys
  unfolding rows_of
  rows_of-append [] ys = refl
  rows_of-append (f ∷ xs) ys = rw (rows_of-append xs ys) (sym (append_assoc f.rows _ _))

  pub read_parquet-append :
      (dir : List String) (xs ys : List (File Row))
      → read_parquet dir (xs ++ ys) ≡ read_parquet dir xs ++ read_parquet dir ys
  unfolding read_parquet
  read_parquet-append dir xs ys =
      ap rows_of (under-append dir xs ys) ∙ rows_of-append (under dir xs) _

  -- A part under the directory adds its rows.
  pub read_parquet-write_part :
      (at dir : List String) (rows : List Row) (s : Storage Row)
      → is_under at dir ≡ true
      → read_parquet at (write_part dir rows s).files ≡ read_parquet at s.files ++ rows
  unfolding read_parquet under rows_of
  read_parquet-write_part at dir rows s h =
      read_parquet-append at s.files _ ∙ rw (h, append-nil rows) refl

  pub under-write_part :
      (at dir : List String) (rows : List Row) (s : Storage Row)
      → is_under at dir ≡ false
      → under at (write_part dir rows s).files ≡ under at s.files
  unfolding under
  under-write_part at dir rows s h =
      under-append at s.files _ ∙ rw h (append-nil (under at s.files))

  under-rmtree : (dir : List String) (files : List (File Row)) → under dir (rmtree dir files) ≡ []
  unfolding under rmtree
  under-rmtree dir [] = refl
  under-rmtree dir (f ∷ files) = elim (Bool-cases (is_under dir f.directory)) [
    | inl e ↦ rw e (under-rmtree dir files)
    | inr e ↦ rw (e, e) (under-rmtree dir files)
  ]

  pub read_parquet-rmtree :
      (dir : List String) (files : List (File Row)) → read_parquet dir (rmtree dir files) ≡ []
  unfolding read_parquet rows_of
  read_parquet-rmtree dir files = ap rows_of (under-rmtree dir files)

  pub under-rmtree-Apart :
      (at dir : List String) (files : List (File Row))
      → Apart at dir
      → under at (rmtree dir files) ≡ under at files
  unfolding under rmtree
  under-rmtree-Apart at dir [] h = refl
  under-rmtree-Apart at dir (f ∷ files) h = elim (Bool-cases (is_under dir f.directory)) [
    | inl e ↦ rw (e, h f.directory e) (under-rmtree-Apart at dir files h)
    | inr e ↦ rw (e, under-rmtree-Apart at dir files h) refl
  ]
