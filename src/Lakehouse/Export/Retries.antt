-- ===== src/Lakehouse/Export/Retries.antt =====
-- The run after one that raised between two partitions, in lakehouse/export.py.
use crypto_streaming_lakehou.Base.{
  ℕ, ◌+◌, String, Bool, true, false, List, ◌∷◌, none, some, ok, raised, ◌≡◌, sym, ap, ◌∙◌, inl, inr,
  Exception, Option-cases,
}
use crypto_streaming_lakehou.Lakehouse.Names.{validate_table_name}
use crypto_streaming_lakehou.Lakehouse.Storage.{Date, Frames, count, write_part}
use crypto_streaming_lakehou.Lakehouse.Storage.Counting.{is_later}
use crypto_streaming_lakehou.Lakehouse.Exporter.{partition_path, newer}
use crypto_streaming_lakehou.Lakehouse.Exporter.Writing.{stored, stored-write_part}
use crypto_streaming_lakehou.Lakehouse.Exporter.Incremental.{incremental_export_stops_at_second}
use crypto_streaming_lakehou.Lakehouse.ExportState.{Checkpoint, find_mark}
use crypto_streaming_lakehou.Lakehouse.Catalog.{World}
use crypto_streaming_lakehou.Lakehouse.Export.{Run, is_ok, export_since, export_table}
use crypto_streaming_lakehou.Lakehouse.Export.Outcomes.{try_export_raises}
use crypto_streaming_lakehou.Lakehouse.Export.Bookmarks.{mark_in, count_after}
use crypto_streaming_lakehou.Lakehouse.Export.InStep.{successful, scanned_lem}

no_mark : {mark : ℕ} → none ≡ some mark → ⊥
no_mark h = cc

module _ {Row : Type 0} (frames : Frames Row) (base : List String) (table : String) where
  -- An incremental export of two partitions or more whose second file cannot be written.
  pub record IsCutShort (r : Run Row) (mark : ℕ) (rows first : List Row) : Type 0 where
    pub selected : r.select ≡ ok tt
    pub valid : validate_table_name table ≡ ok tt
    pub scan : r.answers.scan ≡ ok rows
    pub row : Row
    pub later : List Row
    pub new : newer frames base mark rows ≡ row ∷ later
    pub date : Date
    pub second : Date × List Row
    pub others : List (Date × List Row)
    pub split : frames.groupby (row ∷ later) ≡ (date, first) ∷ second ∷ others
    pub wrote : r.answers.to_parquet 0 ≡ ok tt
    pub error : Exception
    pub failed : r.answers.to_parquet 1 ≡ raised error

  cut_short :
      (r : Run Row) (w : World Row) (before : List Checkpoint) (mark : ℕ) (rows first : List Row)
      → w.export_state ≡ some before
      → find_mark table before ≡ some mark
      → (c : IsCutShort r mark rows first)
      → export_table frames base table r w ≡ (
        false,
        record w { storage = write_part (partition_path frames base table c.date) first w.storage },
      )
  unfolding export_table
  cut_short r w before mark rows first state marked c =
      let stops =
        ap (λ m. export_since frames base m table r.answers w.storage) marked
        ∙ incremental_export_stops_at_second frames base table mark r.answers w.storage rows c.row
            c.later (c.date, first) c.second c.others tt c.error c.valid c.scan c.new c.split
            c.wrote c.failed in
      ap (λ t. (is_ok t.0, t.1))
        (try_export_raises frames base table r w tt before c.error state c.selected
          (ap (λ x. x.0) stops))
      ∙ ap (λ x. (false, record w { storage = x.1 })) stops

  after_retry :
      (again : Run Row) (w : World Row) (mark : ℕ) (rows : List Row)
      → mark_in w.export_state table ≡ some mark
      → again.answers.scan ≡ ok rows
      → (export_table frames base table again w).0 ≡ true
      → (p : Row → Bool)
      → count p (stored frames base table (export_table frames base table again w).1.storage)
        ≡ count p (stored frames base table w.storage) + count (is_later frames mark p) rows
  after_retry again w mark rows marked scan success p =
      let x = successful frames base table again w success in
      x.counts p
      ∙ ap (λ m. count_after frames base table m p (stored frames base table w.storage) x.scanned)
          marked
      ∙ ap (count_after frames base table (some mark) p (stored frames base table w.storage))
          (scanned_lem frames base table again w rows x scan)

  retry_from :
      (again : Run Row) (w : World Row) (mark : ℕ) (rows first : List Row) (date : Date)
      (e : Bool × World Row)
      → mark_in w.export_state table ≡ some mark
      → again.answers.scan ≡ ok rows
      → e ≡ (
        false,
        record w { storage = write_part (partition_path frames base table date) first w.storage },
      )
      → (export_table frames base table again e.1).0 ≡ true
      → (e.0 ≡ false)
        × ((p : Row → Bool)
            → count p
                (stored frames base table (export_table frames base table again e.1).1.storage)
              ≡ count p (stored frames base table w.storage)
                + count p first
                + count (is_later frames mark p) rows)
  retry_from again w mark rows first date e marked scan short success = (
    ap (λ x. x.0) short,
    λ p.
        after_retry again e.1 mark rows (ap (λ x. mark_in x.1.export_state table) short ∙ marked)
          scan success p
        ∙ ap (λ n. n + count (is_later frames mark p) rows)
            (ap (λ x. count p (stored frames base table x.1.storage)) short
              ∙ stored-write_part frames base table p date first w.storage),
  )

  -- If an incremental export writes its first partition and raises at its second, it reports
  -- failure, and if the next run, which reads the same rows, reports success, then the rows of that
  -- first partition are stored twice: the failed run leaves its file and the old mark.
  pub retry_stores_twice :
      (r again : Run Row) (w : World Row) (mark : ℕ) (rows first : List Row)
      → mark_in w.export_state table ≡ some mark
      → IsCutShort r mark rows first
      → again.answers.scan ≡ ok rows
      → let e = export_table frames base table r w in
        (export_table frames base table again e.1).0 ≡ true
        → (e.0 ≡ false)
          × ((p : Row → Bool)
              → count p
                  (stored frames base table (export_table frames base table again e.1).1.storage)
                ≡ count p (stored frames base table w.storage)
                  + count p first
                  + count (is_later frames mark p) rows)
  retry_stores_twice r again w mark rows first marked c scan success =
      elim (Option-cases w.export_state) [
        | inl missing ↦ absurd (no_mark (sym (ap (λ x. mark_in x table) missing) ∙ marked))
        | inr (before, state) ↦
            retry_from again w mark rows first c.date (export_table frames base table r w) marked
              scan
              (cut_short r w before mark rows first state
                (sym (ap (λ x. mark_in x table) state) ∙ marked) c)
              success
      ]
