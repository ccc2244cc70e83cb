-- ===== src/Lakehouse/Export/Sequences.antt =====
-- Runs of export_table of lakehouse/export.py for one table, one after the other.
use crypto_streaming_lakehou.Base.{
  ℕ, ◌≤◌, String, Bool, true, ◌&&◌, List, [], ◌∷◌, Option, some, ◌≡◌, refl, sym, ap, ◌∙◌, inl, inr,
  arith, All,
}
use crypto_streaming_lakehou.Lakehouse.Storage.{Storage, Frames, count}
use crypto_streaming_lakehou.Lakehouse.Exporter.{Answers}
use crypto_streaming_lakehou.Lakehouse.Exporter.Writing.{stored}
use crypto_streaming_lakehou.Lakehouse.Exporter.Incremental.{incremental_export_adds_none}
use crypto_streaming_lakehou.Lakehouse.ExportState.{find_mark}
use crypto_streaming_lakehou.Lakehouse.Catalog.{World}
use crypto_streaming_lakehou.Lakehouse.Export.{Run, export_since, export_table}
use crypto_streaming_lakehou.Lakehouse.Export.Outcomes.{try_export-Ends}
use crypto_streaming_lakehou.Lakehouse.Export.Bookmarks.{mark_in, Saved-IsExported}

at_most : (a b c : ℕ) → a ≤ b → b ≤ c → a ≤ c
at_most a b c h k = omega arith

module _ {Row : Type 0} (frames : Frames Row) (base : List String) (table : String) where
  -- The world after the runs, and whether all of them reported success.
  unfoldable pub export_each : List (Run Row) → World Row → Bool × World Row
  export_each [] w = (true, w)
  export_each (r ∷ runs) w =
      let e = export_table frames base table r w in
      let rest = export_each runs e.1 in (e.0 && rest.0, rest.1)

  since_mark :
      (p : Row → Bool) (n : ℕ) (mark : Option ℕ) (a : Answers Row) (s : Storage Row)
      → mark ≡ some n
      → ((row : Row) → p row ≡ true → frames.window_start row ≤ n)
      → count p (stored frames base table (export_since frames base mark table a s).1)
        ≡ count p (stored frames base table s)
  since_mark p n mark a s h early =
      ap (λ x. count p (stored frames base table (export_since frames base x table a s).1)) h
      ∙ incremental_export_adds_none frames base table p n a s early

  -- The table has a mark, and it is at or after `m`.
  abbrev pub IsMarked : ℕ → World Row → Type 0
  IsMarked m w = (n : ℕ) × (mark_in w.export_state table ≡ some n) × (m ≤ n)

  late_step :
      (p : Row → Bool) (m : ℕ) (r : Run Row) (w : World Row)
      → IsMarked m w
      → ((row : Row) → p row ≡ true → frames.window_start row ≤ m)
      → m ≤ r.now
      → let w' = (export_table frames base table r w).1 in
        IsMarked m w'
        × (count p (stored frames base table w'.storage)
            ≡ count p (stored frames base table w.storage))
  unfolding export_table
  late_step p m r w (n, marked, later) early clock =
      let by_mark = λ (row : Row) (q : p row ≡ true).
        at_most (frames.window_start row) m n (early row q) later in
      elim (try_export-Ends frames base table r w) [
        | inl (rows, state, s) ↦ (
          (r.now, (Saved-IsExported frames base table r w rows _ state s).marked, clock),
          ap (λ x. count p (stored frames base table x)) s.storage
              ∙ since_mark p n (find_mark table rows) r.answers w.storage
                  (sym (ap (λ x. mark_in x table) state) ∙ marked) by_mark,
        )
        | inr u ↦ (
          (n, ap (λ x. mark_in x table) u.state ∙ marked, later),
          elim u.storage [
            | inl same ↦ ap (λ x. count p (stored frames base table x)) same
            | inr (rows, state, h) ↦
                ap (λ x. count p (stored frames base table x)) h
                ∙ since_mark p n (find_mark table rows) r.answers w.storage
                    (sym (ap (λ x. mark_in x table) state) ∙ marked) by_mark
          ],
        )
      ]

  late_runs :
      (p : Row → Bool) (m : ℕ) (runs : List (Run Row)) (w : World Row)
      → IsMarked m w
      → ((row : Row) → p row ≡ true → frames.window_start row ≤ m)
      → All (λ r. m ≤ r.now) runs
      → count p (stored frames base table (export_each runs w).1.storage)
        ≡ count p (stored frames base table w.storage)
  unfolding export_each
  late_runs p m [] w marked early clocks = refl
  late_runs p m (r ∷ runs) w marked early (clock, clocks) =
      let (marked', same) = late_step p m r w marked early clock in
      late_runs p m runs (export_table frames base table r w).1 marked' early clocks ∙ same

  -- Once a table has a mark, no run stores a row whose window starts by that mark, however often
  -- the export is run, whatever its scans show and however it ends, as long as the clock does not
  -- go back behind the mark: such a row that was not stored then never is.
  pub late_rows_never_exported :
      (p : Row → Bool) (mark : ℕ) (runs : List (Run Row)) (w : World Row)
      → mark_in w.export_state table ≡ some mark
      → ((row : Row) → p row ≡ true → frames.window_start row ≤ mark)
      → All (λ r. mark ≤ r.now) runs
      → count p (stored frames base table (export_each runs w).1.storage)
        ≡ count p (stored frames base table w.storage)
  late_rows_never_exported p mark runs w marked early clocks =
      late_runs p mark runs w (mark, marked, omega arith) early clocks
