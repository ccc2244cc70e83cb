-- ===== src/Lakehouse/Exporter/Writing.antt =====
-- What the exports of lakehouse/exporter.py leave in the files.
use crypto_streaming_lakehou.Base.{
  ℕ, zero, suc, ◌+◌, ◌≤◌, String, Bool, List, [], ◌∷◌, Try, ok, raised, ◌≡◌, refl, ap, ◌∙◌, inl,
  inr, arith, take, length, Try-cases, Exception,
}
use crypto_streaming_lakehou.Lakehouse.Storage.{
  Storage, Date, Frames, under, read_parquet, write_part, count, count_groups,
}
use crypto_streaming_lakehou.Lakehouse.Storage.Counting.{
  Apart, is_under-append, count-append, read_parquet-write_part, under-write_part,
}
use crypto_streaming_lakehou.Lakehouse.Exporter.{
  table_path, partition_path, write_partitions, export,
}

take_all : {A : Type 0} (xs : List A) → take (length xs) xs ≡ xs
take_all [] = refl
take_all (x ∷ xs) = ap (λ l. x ∷ l) (take_all xs)

count_groups-take :
    {Row : Type 0} (p : Row → Bool) (n : ℕ) (groups : List (Date × List Row))
    → count_groups p (take n groups) ≤ count_groups p groups
count_groups-take p zero groups = omega arith
count_groups-take p (suc n) [] = omega arith
count_groups-take p (suc n) (g ∷ groups) = omega (arith, count_groups-take p n groups)

module _ {Row : Type 0} (frames : Frames Row) (output_path : List String) (table : String) where
  -- The rows that are stored for the table.
  abbrev pub stored : Storage Row → List Row
  stored s = read_parquet (table_path frames output_path table) s.files

  -- A run that starts with `s` and adds the first `written` groups, all of them if it does not
  -- raise.
  pub record Writes (groups : List (Date × List Row)) (s : Storage Row)
      (r : Try (Unit {0}) × Storage Row) : Type 0 where
    pub written : ℕ
    pub counts :
        (p : Row → Bool)
        → count p (stored r.1) ≡ count p (stored s) + count_groups p (take written groups)
    pub complete : r.0 ≡ ok tt → take written groups ≡ groups

  pub stored-write_part :
      (p : Row → Bool) (date : Date) (rows : List Row) (s : Storage Row)
      → count p (stored (write_part (partition_path frames output_path table date) rows s))
        ≡ count p (stored s) + count p rows
  unfolding partition_path
  stored-write_part p date rows s =
      ap (count p) (
        read_parquet-write_part _ _ rows s
          (is_under-append (table_path frames output_path table) _))
      ∙ count-append p (stored s) rows

  pub write_partitions-Writes :
      (to_parquet : ℕ → Try (Unit {0})) (n : ℕ) (groups : List (Date × List Row)) (s : Storage Row)
      → Writes groups s (write_partitions frames output_path table to_parquet n groups s)
  unfolding write_partitions
  write_partitions-Writes to_parquet n [] s = record {
    written = 0;
    counts = λ p. omega arith;
    complete = λ h. refl;
  }
  write_partitions-Writes to_parquet n ((date, rows) ∷ groups) s = elim (Try-cases (to_parquet n)) [
    | inl (u, e) ↦
        let next = write_part (partition_path frames output_path table date) rows s in
        let ih = write_partitions-Writes to_parquet (suc n) groups next in
        record {
          written = suc ih.written;
          counts = λ p. rw e (omega (arith, ih.counts p, stored-write_part p date rows s));
          complete = λ h. ap (λ l. (date, rows) ∷ l) (ih.complete (rw e at h));
        }
    | inr (x, e) ↦ record { written = 0; counts = λ p. rw e (omega arith); complete = λ h. cc }
  ]

  -- Files elsewhere are not touched.
  pub write_partitions-elsewhere :
      (at : List String)
      → Apart at (table_path frames output_path table)
      → (to_parquet : ℕ → Try (Unit {0})) (n : ℕ) (groups : List (Date × List Row))
        (s : Storage Row)
      → under at (write_partitions frames output_path table to_parquet n groups s).1.files
        ≡ under at s.files
  unfolding write_partitions partition_path
  write_partitions-elsewhere at apart to_parquet n [] s = refl
  write_partitions-elsewhere at apart to_parquet n ((date, rows) ∷ groups) s =
      elim (Try-cases (to_parquet n)) [
        | inl (u, e) ↦ rw e (
            write_partitions-elsewhere at apart to_parquet (suc n) groups _
            ∙ under-write_part at _ rows s
                (apart _ (is_under-append (table_path frames output_path table) _)))
        | inr (x, e) ↦ rw e refl
      ]

  nothing-Writes : (s : Storage Row) → Writes (frames.groupby []) s (ok tt, s)
  nothing-Writes s = record {
    written = length (frames.groupby []);
    counts = λ p. rw take_all (omega (arith, frames.count-groupby p []));
    complete = λ h. take_all (frames.groupby []);
  }

  -- An export of the rows that the scan returned.
  pub export-Writes :
      (to_parquet : ℕ → Try (Unit {0})) (rows : List Row) (s : Storage Row)
      → Writes (frames.groupby rows) s (export frames output_path table to_parquet (ok rows) s)
  unfolding export
  export-Writes to_parquet [] s = nothing-Writes s
  export-Writes to_parquet (r ∷ rows) s =
      write_partitions-Writes to_parquet 0 (frames.groupby (r ∷ rows)) s

  pub export-elsewhere :
      (at : List String)
      → Apart at (table_path frames output_path table)
      → (to_parquet : ℕ → Try (Unit {0})) (scan : Try (List Row)) (s : Storage Row)
      → under at (export frames output_path table to_parquet scan s).1.files ≡ under at s.files
  unfolding export
  export-elsewhere at apart to_parquet (raised e) s = refl
  export-elsewhere at apart to_parquet (ok []) s = refl
  export-elsewhere at apart to_parquet (ok (r ∷ rows)) s =
      write_partitions-elsewhere at apart to_parquet 0 (frames.groupby (r ∷ rows)) s

  -- All the rows of a completed export are counted once more.
  pub export-counts :
      (to_parquet : ℕ → Try (Unit {0})) (scan : Try (List Row)) (s : Storage Row)
      → (export frames output_path table to_parquet scan s).0 ≡ ok tt
      → (rows : List Row) × (scan ≡ ok rows)
        × ((p : Row → Bool)
            → count p (stored (export frames output_path table to_parquet scan s).1)
              ≡ count p (stored s) + count p rows)
  unfolding export
  export-counts to_parquet (ok rows) s h =
      let w = export-Writes to_parquet rows s in
      (rows, refl, λ p. w.counts p ∙ rw (w.complete h, frames.count-groupby p rows) refl)
  export-counts to_parquet (raised e) s h = absurd (cc)

  -- An export of rows that do not have the property stores none that has it.
  pub export_adds_none :
      (p : Row → Bool) (to_parquet : ℕ → Try (Unit {0})) (scan : Try (List Row)) (s : Storage Row)
      → ((rows : List Row) → scan ≡ ok rows → count p rows ≡ 0)
      → count p (stored (export frames output_path table to_parquet scan s).1) ≡ count p (stored s)
  export_adds_none p to_parquet (raised e) s none_such = unfold export in refl
  export_adds_none p to_parquet (ok rows) s none_such =
      let w = export-Writes to_parquet rows s in
      let some_groups = count_groups-take p w.written (frames.groupby rows) in
      let all_groups = frames.count-groupby p rows in
      let zero_rows = none_such rows refl in omega (arith, w.counts p)

  -- An export whose second call of to_parquet raises has stored the first group.
  pub export_stops_at_second :
      (to_parquet : ℕ → Try (Unit {0})) (row : Row) (rows : List Row) (g h : Date × List Row)
      (groups : List (Date × List Row)) (s : Storage Row) (u : Unit {0}) (e : Exception)
      → frames.groupby (row ∷ rows) ≡ g ∷ h ∷ groups
      → to_parquet 0 ≡ ok u
      → to_parquet 1 ≡ raised e
      → export frames output_path table to_parquet (ok (row ∷ rows)) s
        ≡ (raised e, write_part (partition_path frames output_path table g.0) g.1 s)
  unfolding export write_partitions
  export_stops_at_second to_parquet row rows (date, first) (date', second) groups s u e split wrote
        failed =
      rw (split, wrote, failed) refl
