-- ===== src/Consumer/Repository/Committing.antt =====
-- The two ways in which insert_batch of consumer/repository.py ends as long as COMMIT goes through.
use crypto_streaming_lakehou.Base.{
  ℕ, ◌≡◌, ◌⊎◌, inl, inr, refl, String, true, false, Option, List, ◌∷◌, map, length, Try, ok, raised,
  Try-cases, Exception, psycopg_error, subst, sym,
}
use crypto_streaming_lakehou.Consumer.Bronze.{Row}
use crypto_streaming_lakehou.Consumer.Repository.{
  Repository, row_at, commit_and_count, after_execute_values, insert_batch,
}
use crypto_streaming_lakehou.Consumer.Repository.Batches.{IsIdle, Stored, insert_batch-Stored}
use crypto_streaming_lakehou.Consumer.Repository.Failures.{
  call, batch, Refused, call_aborted, after_execute_values-raised,
}
use crypto_streaming_lakehou.Consumer.Repository.Connection.{Driver}

module _ {Trade : Type 0} {trade_id_of : Trade → Option String} (d : Driver trade_id_of) where
  open d use {
    Conn, committed, visible, aborted, execute_values, commit, execute_values_ok,
    execute_values_raised,
  }

  -- The COMMIT of a transaction in which no statement has failed goes through.
  abbrev pub CommitWorks : Type 0
  CommitWorks = (c : Conn) → aborted c ≡ false → (commit c).0 ≡ ok tt

  -- No transaction is open, or one that has failed.
  abbrev pub IsSettled : Conn → Type 0
  IsSettled c = IsIdle d c ⊎ (aborted c ≡ true)

  -- The call returned and the rows are stored, or it was refused.
  abbrev pub Outcome : List (Row Trade) → Repository d → Try (Unit {0}) × Repository d → Type 0
  Outcome rows r (res, r') =
      ((res ≡ ok tt) × Stored d rows r r') ⊎ ((e : Exception) × Refused d e r (res, r'))

  commit_and_count_returns :
      (skipped before : ℕ) (p : Try (Unit {0}) × Conn)
      → p.0 ≡ ok tt
      → (commit_and_count d skipped before p).0 ≡ ok tt
  unfolding commit_and_count
  commit_and_count_returns skipped before (raised e, c) h = cc
  commit_and_count_returns skipped before (ok u, c) h = refl

  after_execute_values_returns :
      (attempted before : ℕ) (p : Try (List (Option String)) × Conn) (ids : List (Option String))
      → p.0 ≡ ok ids
      → (commit p.1).0 ≡ ok tt
      → (after_execute_values d attempted before p).0 ≡ ok tt
  unfolding after_execute_values
  after_execute_values_returns attempted before (raised e, c) ids h k = cc
  after_execute_values_returns attempted before (ok result, c) ids h k =
      commit_and_count_returns _ before (commit c) k

  pub insert_batch-Outcome :
      CommitWorks
      → (now : ℕ) (t : Trade) (ts : List Trade) (r : Repository d) → IsSettled r.conn
      → Outcome (map (row_at now) (t ∷ ts)) r (insert_batch d now (t ∷ ts) r)
  unfolding insert_batch call
  insert_batch-Outcome works now t ts r (inr failed) =
      inr (psycopg_error, call_aborted d (batch now t ts) r failed)
  insert_batch-Outcome works now t ts r (inl idle) =
      let rows = map (row_at now) (t ∷ ts) in
      let p = execute_values rows r.conn in
      elim (Try-cases p.0) [
        | inl (ids, e) ↦
            let well = (execute_values_ok rows r.conn ids e).3 in
            let done =
              after_execute_values_returns (length (t ∷ ts)) r.duplicates_skipped p ids e
                (works p.1 well) in
            inl (done, insert_batch-Stored d now (t ∷ ts) r idle done)
        | inr (x, e) ↦
            let (same, failed) = execute_values_raised rows r.conn x e in
            inr (
              x,
              subst (Refused d x r)
                  (sym (after_execute_values-raised d (length (t ∷ ts)) r.duplicates_skipped p x e))
                  (refl, same, failed, refl),
            )
      ]
