-- ===== src/Consumer/Repository/Batches.antt =====
-- Calls of consumer/repository.py that return: what they store and count.
use crypto_streaming_lakehou.Base.{
  ℕ, ◌+◌, ◌-◌, ◌≤◌, ◌≡◌, refl, sym, ◌∙◌, String, false, Option, List, [], ◌∷◌, map, ap, subst,
  length, length-map, ltb, ◌==◌, Try, ok, raised, arith, if◌then◌else◌,
}
use crypto_streaming_lakehou.Consumer.Bronze.{Row, Table, row_count, insert_row, insert_rows}
use crypto_streaming_lakehou.Consumer.Bronze.Rows.{length-insert_rows}
use crypto_streaming_lakehou.Consumer.Repository.{
  Repository, row_at, commit_and_count, after_execute, after_execute_values, insert_one,
  insert_batch,
}
use crypto_streaming_lakehou.Consumer.Repository.Connection.{Driver}

module _ {Trade : Type 0} {trade_id_of : Trade → Option String} (d : Driver trade_id_of) where
  open d use {
    Conn, committed, visible, aborted, execute, execute_values, commit, execute_ok,
    execute_values_ok, commit_ok,
  }

  -- No transaction is open, and none has failed.
  pub record IsIdle (c : Conn) : Type 0 where
    pub nothing_pending : visible c ≡ committed c
    pub healthy : aborted c ≡ false

  commit_and_count-ok :
      (skipped before : ℕ) (p : Try (Unit {0}) × Conn)
      → (commit_and_count d skipped before p).0 ≡ ok tt
      → (p.0 ≡ ok tt)
        × ((commit_and_count d skipped before p).1
            ≡ record { conn = p.1; duplicates_skipped = before + skipped })
  unfolding commit_and_count
  commit_and_count-ok skipped before (raised e, c) h = cc
  commit_and_count-ok skipped before (ok u, c) h = (refl, refl)

  abbrev skipped_of : ℕ → List (Option String) → ℕ
  skipped_of attempted ids = if ltb 0 (attempted - length ids) then attempted - length ids else 0

  after_execute_values-ok :
      (attempted before : ℕ) (p : Try (List (Option String)) × Conn)
      → (after_execute_values d attempted before p).0 ≡ ok tt
      → (ids : List (Option String)) × (p.0 ≡ ok ids)
        × ((commit p.1).0 ≡ ok tt)
        × ((after_execute_values d attempted before p).1 ≡ record {
          conn = (commit p.1).1;
          duplicates_skipped = before + skipped_of attempted ids;
        })
  unfolding after_execute_values
  after_execute_values-ok attempted before (raised e, c) h = cc
  after_execute_values-ok attempted before (ok ids, c) h =
      let (done, e) = commit_and_count-ok (skipped_of attempted ids) before (commit c) h in
      (ids, refl, done, e)

  -- The effect of a call that stored `rows`.
  pub record Stored (rows : List (Row Trade)) (r r' : Repository d) : Type 0 where
    pub table : committed r'.conn ≡ (insert_rows trade_id_of rows (committed r.conn)).0
    pub counted :
        r'.duplicates_skipped + length (committed r'.conn)
        ≡ r.duplicates_skipped + length (committed r.conn) + length rows
    pub idle : IsIdle r'.conn

  skipped_of-add :
      (attempted : ℕ) (ids : List (Option String))
      → length ids ≤ attempted
      → skipped_of attempted ids + length ids ≡ attempted
  skipped_of-add attempted ids h = ground arith

  -- From what the driver did with `rows`.
  put_by :
      (rows : List (Row Trade)) (r : Repository d) (c : Conn) (ids : List (Option String))
      → committed c ≡ (insert_rows trade_id_of rows (committed r.conn)).0
      → ids ≡ (insert_rows trade_id_of rows (committed r.conn)).1
      → IsIdle c
      → Stored rows r (record {
        conn = c;
        duplicates_skipped = r.duplicates_skipped + skipped_of (length rows) ids;
      })
  put_by rows r c ids e f i =
      let (grown, few) = length-insert_rows trade_id_of rows (committed r.conn) in
      record {
        table = e;
        counted = omega (
          arith,
          grown,
          few,
          ap length e,
          ap length f,
          skipped_of-add (length rows) ids (rw f few),
        );
        idle = i;
      }

  -- With no transaction open before, a batch whose call returns leaves the table that the INSERT
  -- makes of the committed one. Each trade of the batch is then either a new row or counted as a
  -- skipped duplicate, and no transaction is left open.
  pub insert_batch-Stored :
      (now : ℕ) (ts : List Trade) (r : Repository d)
      → IsIdle r.conn
      → (insert_batch d now ts r).0 ≡ ok tt
      → Stored (map (row_at now) ts) r (insert_batch d now ts r).1
  unfolding insert_batch insert_rows
  insert_batch-Stored now [] r i h = record { table = refl; counted = omega arith; idle = i }
  insert_batch-Stored now (t ∷ ts) r i h =
      let rows = map (row_at now) (t ∷ ts) in
      let p = execute_values rows r.conn in
      let (ids, e, done, eq) = after_execute_values-ok (length (t ∷ ts)) r.duplicates_skipped p h in
      let (f, vis, _, well) = execute_values_ok rows r.conn ids e in
      let (c1, v1, a1) = commit_ok p.1 well done in
      let at_commit = λ (u : Table Trade). insert_rows trade_id_of rows u in
      let result = λ (n : ℕ).
        let r' : Repository d = record {
          conn = (commit p.1).1;
          duplicates_skipped = r.duplicates_skipped + skipped_of n ids;
        } in
        r' in
      subst (Stored rows r) (sym (eq ∙ ap result (sym (length-map (row_at now) (t ∷ ts))))) (
        put_by rows r (commit p.1).1 ids (c1 ∙ vis ∙ ap (λ u. (at_commit u).0) i.nothing_pending)
          (f ∙ ap (λ u. (at_commit u).1) i.nothing_pending)
          (record { nothing_pending = v1 ∙ sym c1; healthy = a1 }))

  after_execute-ok :
      (before : ℕ) (p : Try ℕ × Conn)
      → (after_execute d before p).0 ≡ ok tt
      → (n : ℕ) × (p.0 ≡ ok n)
        × ((commit p.1).0 ≡ ok tt)
        × ((after_execute d before p).1 ≡ record {
          conn = (commit p.1).1;
          duplicates_skipped = before + (if n == 0 then 1 else 0);
        })
  unfolding after_execute
  after_execute-ok before (raised e, c) h = cc
  after_execute-ok before (ok n, c) h =
      let (done, e) = commit_and_count-ok (if n == 0 then 1 else 0) before (commit c) h in
      (n, refl, done, e)

  row_count-skipped :
      (x : Row Trade) (t : Table Trade)
      → (if row_count trade_id_of x t == 0 then 1 else 0)
        ≡ skipped_of 1 (insert_rows trade_id_of (x ∷ []) t).1
  unfolding row_count insert_rows
  row_count-skipped x t = ground arith

  insert_row-eq-insert_rows :
      (x : Row Trade) (t : Table Trade)
      → insert_row trade_id_of x t ≡ (insert_rows trade_id_of (x ∷ []) t).0
  unfolding insert_rows
  insert_row-eq-insert_rows x t = refl

  pub insert_one-Stored :
      (now : ℕ) (t : Trade) (r : Repository d)
      → IsIdle r.conn
      → (insert_one d now t r).0 ≡ ok tt
      → Stored (row_at now t ∷ []) r (insert_one d now t r).1
  unfolding insert_one
  insert_one-Stored now t r i h =
      let x = row_at now t in
      let p = execute x r.conn in
      let (n, e, done, eq) = after_execute-ok r.duplicates_skipped p h in
      let (f, vis, _, well) = execute_ok x r.conn n e in
      let (c1, v1, a1) = commit_ok p.1 well done in
      let count = f ∙ ap (λ u. row_count trade_id_of x u) i.nothing_pending in
      let result = λ (k : ℕ).
        let r' : Repository d = record {
          conn = (commit p.1).1;
          duplicates_skipped = r.duplicates_skipped + k;
        } in
        r' in
      let skip =
        ap (λ (k : ℕ). if k == 0 then 1 else 0) count ∙ row_count-skipped x (committed r.conn) in
      subst (Stored (x ∷ []) r) (sym (eq ∙ ap result skip)) (
        put_by (x ∷ []) r (commit p.1).1 (insert_rows trade_id_of (x ∷ []) (committed r.conn)).1
          (c1
            ∙ vis
            ∙ ap (λ u. insert_row trade_id_of x u) i.nothing_pending
            ∙ insert_row-eq-insert_rows x (committed r.conn))
          refl (record { nothing_pending = v1 ∙ sym c1; healthy = a1 }))
