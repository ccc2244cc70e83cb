-- ===== src/Consumer/Repository/Redelivery.antt =====
-- Trades that reach consumer/repository.py again, and one by one.
use crypto_streaming_lakehou.Base.{
  ℕ, ◌+◌, ◌≡◌, refl, sym, ◌∙◌, subst, String, true, Option, List, [], ◌∷◌, map, ap, length,
  length-map, Try, ok, raised, is_some, All, arith,
}
use crypto_streaming_lakehou.Consumer.Bronze.{Row, Table, insert_rows}
use crypto_streaming_lakehou.Consumer.Bronze.Rows.{
  AllHeld, HaveIds, insert_rows-AllHeld, insert_rows_again,
}
use crypto_streaming_lakehou.Consumer.Repository.{Repository, row_at, insert_one, insert_batch}
use crypto_streaming_lakehou.Consumer.Repository.Batches.{
  IsIdle, Stored, insert_batch-Stored, insert_one-Stored,
}
use crypto_streaming_lakehou.Consumer.Repository.Connection.{Driver}

module _ {Trade : Type 0} (trade_id_of : Trade → Option String) where
  -- Every trade has a trade_id.
  abbrev pub Identified : List Trade → Type 0
  Identified = All (λ t. is_some (trade_id_of t) ≡ true)

  HaveIds-map :
      (now : ℕ) (ts : List Trade) → Identified ts → HaveIds trade_id_of (map (row_at now) ts)
  HaveIds-map now [] h = tt
  HaveIds-map now (t ∷ ts) h = (h.0, HaveIds-map now ts h.1)

  -- Being held depends on the trade_ids alone, not on the times of arrival.
  AllHeld-map :
      (now later : ℕ) (ts : List Trade) (table : Table Trade)
      → AllHeld trade_id_of (map (row_at now) ts) table
      → AllHeld trade_id_of (map (row_at later) ts) table
  AllHeld-map now later [] table h = tt
  AllHeld-map now later (t ∷ ts) table h = (h.0, AllHeld-map now later ts table h.1)

  insert_rows-append :
      (x : Row Trade) (rest : List (Row Trade)) (t : Table Trade)
      → (insert_rows trade_id_of rest (insert_rows trade_id_of (x ∷ []) t).0).0
        ≡ (insert_rows trade_id_of (x ∷ rest) t).0
  unfolding insert_rows
  insert_rows-append x rest t = refl

module _ {Trade : Type 0} {trade_id_of : Trade → Option String} (d : Driver trade_id_of) where
  open d use {Conn, committed}

  -- Storing a batch a second time, as after a redelivery, changes no row and counts each of its
  -- trades as a skipped duplicate, if each has a trade_id, no transaction was open before, and
  -- both calls return.
  pub insert_batch_again :
      (now later : ℕ) (ts : List Trade) (r : Repository d)
      → IsIdle d r.conn
      → Identified trade_id_of ts
      → (insert_batch d now ts r).0 ≡ ok tt
      → (insert_batch d later ts (insert_batch d now ts r).1).0 ≡ ok tt
      → let first = insert_batch d now ts r in
        let second = insert_batch d later ts first.1 in
        (committed second.1.conn ≡ committed first.1.conn)
        × (second.1.duplicates_skipped ≡ first.1.duplicates_skipped + length ts)
  insert_batch_again now later ts r i ids h k =
      let r' = (insert_batch d now ts r).1 in
      let one = insert_batch-Stored d now ts r i h in
      let two = insert_batch-Stored d later ts r' one.idle k in
      let held = AllHeld-map trade_id_of now later ts (committed r'.conn) (
        subst (λ t. AllHeld trade_id_of (map (row_at now) ts) t) (sym one.table)
          (insert_rows-AllHeld trade_id_of (map (row_at now) ts) (committed r.conn)
            (HaveIds-map trade_id_of now ts ids))) in
      let same =
        two.table
        ∙ ap (λ u. u.0)
            (insert_rows_again trade_id_of (map (row_at later) ts) (committed r'.conn) held) in
      (same, omega (arith, two.counted, ap length same, length-map (row_at later) ts))

  Stored-nil : (r : Repository d) → IsIdle d r.conn → Stored d [] r r
  unfolding insert_rows
  Stored-nil r i = record { table = refl; counted = omega arith; idle = i }

  Stored-cons :
      (x : Row Trade) (rest : List (Row Trade)) {r r' r'' : Repository d}
      → Stored d (x ∷ []) r r'
      → Stored d rest r' r''
      → Stored d (x ∷ rest) r r''
  Stored-cons x rest {r} one more = record {
    table =
        more.table
        ∙ ap (λ t. (insert_rows trade_id_of rest t).0) one.table
        ∙ insert_rows-append trade_id_of x rest (committed r.conn);
    counted = omega (arith, one.counted, more.counted);
    idle = more.idle;
  }

  -- `insert_one` on each trade in turn, until one raises
  unfoldable pub insert_each : ℕ → List Trade → Repository d → Try (Unit {0}) × Repository d
  unfolding insert_one
  insert_each now [] r = (ok tt, r)
  insert_each now (t ∷ ts) r =
      let (res, r') = insert_one d now t r in
      elim res [ ok _ ↦ insert_each now ts r' | raised e ↦ (raised e, r') ]

  insert_each-cons :
      (now : ℕ) (t : Trade) (ts : List Trade) (r : Repository d)
      → (insert_each now (t ∷ ts) r).0 ≡ ok tt
      → let one = insert_one d now t r in
        (one.0 ≡ ok tt) × (insert_each now (t ∷ ts) r ≡ insert_each now ts one.1)
  unfolding insert_each
  insert_each-cons now t ts r h = ground arith

  insert_each-Stored :
      (now : ℕ) (ts : List Trade) (r : Repository d)
      → IsIdle d r.conn
      → (insert_each now ts r).0 ≡ ok tt
      → Stored d (map (row_at now) ts) r (insert_each now ts r).1
  unfolding insert_each
  insert_each-Stored now [] r i h = Stored-nil r i
  insert_each-Stored now (t ∷ ts) r i h =
      let (first, e) = insert_each-cons now t ts r h in
      let r' = (insert_one d now t r).1 in
      let one = insert_one-Stored d now t r i first in
      let rest = insert_each-Stored now ts r' one.idle (subst (λ u. u.0 ≡ ok tt) e h) in
      subst (λ u. Stored d (map (row_at now) (t ∷ ts)) r u.1) (sym e)
        (Stored-cons (row_at now t) (map (row_at now) ts) one rest)

  -- With no transaction open before, a batch leaves the rows, and counts the duplicates, that
  -- inserting its trades one by one would, if both return.
  pub insert_batch-eq-insert_each :
      (now : ℕ) (ts : List Trade) (r : Repository d)
      → IsIdle d r.conn
      → (insert_batch d now ts r).0 ≡ ok tt
      → (insert_each now ts r).0 ≡ ok tt
      → let batch = (insert_batch d now ts r).1 in
        let each = (insert_each now ts r).1 in
        (committed batch.conn ≡ committed each.conn)
        × (batch.duplicates_skipped ≡ each.duplicates_skipped)
  insert_batch-eq-insert_each now ts r i h k =
      let a = insert_batch-Stored d now ts r i h in
      let b = insert_each-Stored now ts r i k in
      let same = a.table ∙ sym b.table in
      (same, omega (arith, a.counted, b.counted, ap length same))
