-- ===== src/Lakehouse/Export/InStep.antt =====
-- The export of lakehouse/export.py against its specification: the files hold the Gold table.
use crypto_streaming_lakehou.Base.{
  ℕ, String, Bool, true, List, [], ◌∷◌, Option, none, some, ok, ◌≡◌, refl, sym, ap, ◌∙◌, inl, inr,
  arith,
}
use crypto_streaming_lakehou.Lakehouse.Storage.{Frames, count}
use crypto_streaming_lakehou.Lakehouse.Exporter.Writing.{stored}
use crypto_streaming_lakehou.Lakehouse.Catalog.{World}
use crypto_streaming_lakehou.Lakehouse.Export.{Run, export_table}
use crypto_streaming_lakehou.Lakehouse.Export.Bookmarks.{
  mark_in, count_after, IsExported, export_table-moves_mark,
}
use crypto_streaming_lakehou.Lakehouse.Export.Sequences.{export_each}

module _ {Row : Type 0} (frames : Frames Row) (base : List String) (table : String) where
  -- How the Gold table that each run reads relates to the one that the run before read: the rows
  -- after the mark that the run before set are exactly what comes to the earlier rows, so that no
  -- earlier row lies after the mark, and none up to it was added, changed or removed. A first run
  -- has no mark and may read any rows. `last` is what the last run reads.
  pub data History : List Row → Option ℕ → List (Run Row) → List Row → Type 0 where
    end : (rows : List Row) (mark : Option ℕ) → History rows mark [] rows
    next :
        (rows rows' last : List Row) (mark : Option ℕ) (r : Run Row) (runs : List (Run Row))
        → r.answers.scan ≡ ok rows'
        → ((p : Row → Bool) → count_after frames base table mark p rows rows' ≡ count p rows')
        → History rows' (some r.now) runs last
        → History rows mark (r ∷ runs) last

  after_same :
      (mark : Option ℕ) (p : Row → Bool) (old rows rows' : List Row)
      → count p old ≡ count p rows
      → count_after frames base table mark p old rows'
        ≡ count_after frames base table mark p rows rows'
  after_same none p old rows rows' h = refl
  after_same (some m) p old rows rows' h = rw h refl

  pub successful :
      (r : Run Row) (w : World Row)
      → (export_table frames base table r w).0 ≡ true
      → IsExported frames base table r w (export_table frames base table r w).1
  successful r w h = elim (export_table-moves_mark frames base table r w) [
    | inl (e, done) ↦ done
    | inr (inl (e, done, c)) ↦ done
    | inr (inr (e, same)) ↦ absurd (cc)
  ]

  pub scanned_lem :
      (r : Run Row) (w : World Row) (rows : List Row)
      → (x : IsExported frames base table r w (export_table frames base table r w).1)
      → r.answers.scan ≡ ok rows
      → x.scanned ≡ rows
  scanned_lem r w rows x h = ok_eq (sym x.scan ∙ h)
    where
      ok_eq : {a b : List Row} → ok a ≡ ok b → a ≡ b
      ok_eq e = cc

  one_run :
      (rows rows' : List Row) (mark : Option ℕ) (r : Run Row) (w : World Row)
      → mark_in w.export_state table ≡ mark
      → ((p : Row → Bool) → count p (stored frames base table w.storage) ≡ count p rows)
      → r.answers.scan ≡ ok rows'
      → ((p : Row → Bool) → count_after frames base table mark p rows rows' ≡ count p rows')
      → IsExported frames base table r w (export_table frames base table r w).1
      → (p : Row → Bool)
      → count p (stored frames base table (export_table frames base table r w).1.storage)
        ≡ count p rows'
  one_run rows rows' mark r w marked in_step scan grown x p =
      x.counts p
      ∙ ap (λ m. count_after frames base table m p (stored frames base table w.storage) x.scanned)
          marked
      ∙ ap (count_after frames base table mark p (stored frames base table w.storage))
          (scanned_lem r w rows' x scan)
      ∙ after_same mark p (stored frames base table w.storage) rows rows' (in_step p)
      ∙ grown p

  -- The files of the table hold at the start the rows that were read last, each as often. If every
  -- run reports success, and each run that finds a mark reads the rows of the run before together
  -- with rows whose windows start after that mark, while no row of the run before does, then the
  -- files hold, after the runs, the rows that the last run read, each as often.
  pub export_each-InStep :
      (rows : List Row) (mark : Option ℕ) (runs : List (Run Row)) (last : List Row) (w : World Row)
      → History rows mark runs last
      → mark_in w.export_state table ≡ mark
      → ((p : Row → Bool) → count p (stored frames base table w.storage) ≡ count p rows)
      → (export_each frames base table runs w).0 ≡ true
      → (p : Row → Bool)
      → count p (stored frames base table (export_each frames base table runs w).1.storage)
        ≡ count p last
  unfolding export_each
  export_each-InStep _ _ _ _ w (end rows mark) marked in_step h p = in_step p
  export_each-InStep _ _ _ _ w (next rows rows' last mark r runs scan grown history) marked in_step
        h p =
      let e = export_table frames base table r w in
      let x = successful r w (ground (arith)) in
      export_each-InStep rows' (some r.now) runs last e.1 history x.marked
        (one_run rows rows' mark r w marked in_step scan grown x) (ground (arith)) p
