-- ===== src/Consumer/Repository/Atomicity.antt =====
-- consumer/repository.py commits once per batch: a batch is stored whole or not at all, and the
-- trade_ids stay unique, on every path.
use crypto_streaming_lakehou.Base.{
  ℕ, ◌≡◌, ◌⊎◌, inl, inr, refl, sym, ◌∙◌, subst, String, false, Option, List, [], ◌∷◌, map, ap,
  length, Try, ok, raised, Try-cases,
}
use crypto_streaming_lakehou.Consumer.Bronze.{Row, insert_rows}
use crypto_streaming_lakehou.Consumer.Bronze.Rows.{IsDistinct, insert_rows-IsDistinct}
use crypto_streaming_lakehou.Consumer.Repository.{
  Repository, row_at, commit_and_count, after_execute_values, insert_batch,
}
use crypto_streaming_lakehou.Consumer.Repository.Batches.{IsIdle}
use crypto_streaming_lakehou.Consumer.Repository.Failures.{after_execute_values-raised}
use crypto_streaming_lakehou.Consumer.Repository.Connection.{Driver}

module _ {Trade : Type 0} {trade_id_of : Trade → Option String} (d : Driver trade_id_of) where
  open d use {
    Conn, committed, visible, aborted, execute_values, commit, execute_values_ok,
    execute_values_raised, commit_ok, commit_raised,
  }

  conn-commit_and_count :
      (skipped before : ℕ) (p : Try (Unit {0}) × Conn)
      → (commit_and_count d skipped before p).1.conn ≡ p.1
  unfolding commit_and_count
  conn-commit_and_count skipped before (ok u, c) = refl
  conn-commit_and_count skipped before (raised e, c) = refl

  conn-after_execute_values :
      (attempted before : ℕ) (p : Try (List (Option String)) × Conn) (ids : List (Option String))
      → p.0 ≡ ok ids
      → (after_execute_values d attempted before p).1.conn ≡ (commit p.1).1
  unfolding after_execute_values
  conn-after_execute_values attempted before (ok result, c) ids h =
      conn-commit_and_count _ before (commit c)
  conn-after_execute_values attempted before (raised e, c) ids h = cc

  abbrev AllOrNothing : List (Row Trade) → Conn → Conn → Type 0
  AllOrNothing rows c c' =
      (committed c' ≡ committed c) ⊎ (committed c' ≡ (insert_rows trade_id_of rows (committed c)).0)

  committed-commit :
      (c : Conn)
      → aborted c ≡ false
      → let c' = (commit c).1 in (committed c' ≡ committed c) ⊎ (committed c' ≡ visible c)
  committed-commit c well = elim (Try-cases (commit c).0) [
    | inl (u, e) ↦ inr (commit_ok c well e).0
    | inr (x, e) ↦ commit_raised c x e
  ]

  execute_values-AllOrNothing :
      (rows : List (Row Trade)) (c : Conn) (ids : List (Option String))
      → IsIdle d c
      → (execute_values rows c).0 ≡ ok ids
      → AllOrNothing rows c (commit (execute_values rows c).1).1
  execute_values-AllOrNothing rows c ids i e =
      let (_, vis, kept, well) = execute_values_ok rows c ids e in
      elim (committed-commit (execute_values rows c).1 well) [
        | inl no_effect ↦ inl (no_effect ∙ kept)
        | inr effect ↦
            inr (effect ∙ vis ∙ ap (λ u. (insert_rows trade_id_of rows u).0) i.nothing_pending)
      ]

  -- With no transaction open before, a batch ends by a return, by an INSERT that raises or by a
  -- commit that raises; in each case either no row of it is stored, or all its rows are, as the
  -- INSERT puts them into the committed table.
  pub insert_batch-AllOrNothing :
      (now : ℕ) (ts : List Trade) (r : Repository d)
      → IsIdle d r.conn
      → (committed (insert_batch d now ts r).1.conn ≡ committed r.conn)
        ⊎ (committed (insert_batch d now ts r).1.conn
            ≡ (insert_rows trade_id_of (map (row_at now) ts) (committed r.conn)).0)
  unfolding insert_batch
  insert_batch-AllOrNothing now [] r i = inl refl
  insert_batch-AllOrNothing now (t ∷ ts) r i =
      let rows = map (row_at now) (t ∷ ts) in
      let p = execute_values rows r.conn in
      elim (Try-cases p.0) [
        | inl (ids, e) ↦
            subst (AllOrNothing rows r.conn)
              (sym (conn-after_execute_values (length (t ∷ ts)) r.duplicates_skipped p ids e))
              (execute_values-AllOrNothing rows r.conn ids i e)
        | inr (x, e) ↦ inl (
            ap (λ u. committed u.1.conn)
              (after_execute_values-raised d (length (t ∷ ts)) r.duplicates_skipped p x e)
            ∙ (execute_values_raised rows r.conn x e).0)
      ]

  -- With no transaction open before, and however a batch ends, no two rows of the table have the
  -- same trade_id, if none had before.
  pub insert_batch-IsDistinct :
      (now : ℕ) (ts : List Trade) (r : Repository d)
      → IsIdle d r.conn
      → IsDistinct trade_id_of (committed r.conn)
      → IsDistinct trade_id_of (committed (insert_batch d now ts r).1.conn)
  insert_batch-IsDistinct now ts r i distinct = elim (insert_batch-AllOrNothing now ts r i) [
    | inl e ↦ subst (IsDistinct trade_id_of) (sym e) distinct
    | inr e ↦
        subst (IsDistinct trade_id_of) (sym e)
          (insert_rows-IsDistinct trade_id_of (map (row_at now) ts) (committed r.conn) distinct)
  ]
