-- ===== src/Consumer/Storing/InTable.antt =====
-- What bronze.raw_trades holds of the trades that the buffer of consumer/main.py has taken.
use crypto_streaming_lakehou.Base.{
  ℕ, ◌+◌, ◌≡◌, inl, inr, refl, sym, ap, ◌∙◌, subst, String, Bool, true, false, Bool-cases, Option,
  List, [], ◌∷◌, ◌++◌, map, append-nil, append_assoc, length, length-append, is_empty, Try, arith,
  if◌then◌else◌,
}
use crypto_streaming_lakehou.Consumer.Bronze.{Row, Table, insert_rows}
use crypto_streaming_lakehou.Consumer.Buffer.{append, wants_flush, skips_flush}
use crypto_streaming_lakehou.Consumer.Threads.{Shared}
use crypto_streaming_lakehou.Consumer.Threads.Sequential.{flush, flush_outcome, flush-in_order}
use crypto_streaming_lakehou.Consumer.Repository.{Repository, row_at, insert_batch}
use crypto_streaming_lakehou.Consumer.Repository.Committing.{
  CommitWorks, IsSettled, Outcome, insert_batch-Outcome,
}
use crypto_streaming_lakehou.Consumer.Repository.Connection.{Driver}
use crypto_streaming_lakehou.Consumer.Storing.{
  returned, BufferCall, call_add, call_flush, Store, flush_batch, add_trade, perform, perform_all,
  added,
}

module _ {Trade : Type 0} (trade_id_of : Trade → Option String) where
  pub insert_rows-append :
      (xs ys : List (Row Trade)) (t : Table Trade)
      → (insert_rows trade_id_of (xs ++ ys) t).0
        ≡ (insert_rows trade_id_of ys (insert_rows trade_id_of xs t).0).0
  unfolding insert_rows
  insert_rows-append [] ys t = refl
  insert_rows-append (x ∷ xs) ys t = insert_rows-append xs ys _

payloads_append :
    {Trade : Type 0} (xs : List (Row Trade)) (now : ℕ) (ts : List Trade)
    → map (λ (r : Row Trade). r.payload) (xs ++ map (row_at now) ts)
      ≡ map (λ (r : Row Trade). r.payload) xs ++ ts
payloads_append [] now [] = refl
payloads_append [] now (t ∷ ts) = ap (λ l. t ∷ l) (payloads_append [] now ts)
payloads_append (x ∷ xs) now ts = ap (λ l. x.payload ∷ l) (payloads_append xs now ts)

module _ {Trade : Type 0} {trade_id_of : Trade → Option String} (d : Driver trade_id_of) where
  open d use {Conn, committed, aborted}

  -- The table is what the INSERT makes of `first` with the stored trades, one by one in their
  -- order, each with a time of arrival; each of them is a new row or counted as a duplicate.
  pub record InTable (first : Table Trade) (s : Store d) : Type 0 where
    pub rows : List (Row Trade)
    pub payloads : map (λ (r : Row Trade). r.payload) rows ≡ s.shared.stored
    pub table : committed s.repository.conn ≡ (insert_rows trade_id_of rows first).0
    pub counted :
        s.repository.duplicates_skipped + length (committed s.repository.conn)
        ≡ length first + length rows
    pub settled : IsSettled d s.repository.conn

  -- What is stored, and then what is buffered
  abbrev pub all_trades : Store d → List Trade
  all_trades s = s.shared.stored ++ s.shared.object.buffer

  pub flush_batch-skipped :
      (now : ℕ) (s : Store d) → skips_flush s.shared.object ≡ true → flush_batch d now s ≡ s
  unfolding flush_batch
  flush_batch-skipped now s h = rw h refl

  pub flush_batch-called :
      (now : ℕ) (s : Store d)
      → skips_flush s.shared.object ≡ false
      → let r = insert_batch d now s.shared.object.buffer s.repository in
        flush_batch d now s ≡ record { shared = flush (returned r.0) s.shared; repository = r.1 }
  unfolding flush_batch
  flush_batch-called now s h = rw h refl

  pub outcome_of :
      (now : ℕ) (buffer : List Trade) (r : Repository d)
      → CommitWorks d
      → is_empty buffer ≡ false
      → IsSettled d r.conn
      → Outcome d (map (row_at now) buffer) r (insert_batch d now buffer r)
  outcome_of now [] r works h i = cc
  outcome_of now (t ∷ ts) r works h i = insert_batch-Outcome d works now t ts r i

  stored_after :
      (success : Bool) (res : Try (Unit {0})) (s : Shared Trade)
      → skips_flush s.object ≡ false
      → returned res ≡ success
      → (flush (returned res) s).stored
        ≡ (if success then s.stored ++ s.object.buffer else s.stored)
  stored_after success res s go h = ap (λ b. (flush b s).stored) h ∙ (flush_outcome success s go).1

  flushed_batch-InTable :
      (first : Table Trade) (now : ℕ) (s : Store d) (r : Try (Unit {0}) × Repository d)
      → InTable first s
      → skips_flush s.shared.object ≡ false
      → Outcome d (map (row_at now) s.shared.object.buffer) s.repository r
      → InTable first (record { shared = flush (returned r.0) s.shared; repository = r.1 })
  flushed_batch-InTable first now s (res, r) x go (inl (h, y)) = record {
    rows = x.rows ++ map (row_at now) s.shared.object.buffer;
    payloads =
        payloads_append x.rows now s.shared.object.buffer
        ∙ ap (λ l. l ++ s.shared.object.buffer) x.payloads
        ∙ sym (stored_after true res s.shared go (ap returned h));
    table =
        y.table
        ∙ ap (λ t. (insert_rows trade_id_of (map (row_at now) s.shared.object.buffer) t).0) x.table
        ∙ sym (insert_rows-append trade_id_of x.rows _ first);
    counted = omega (
      arith,
      y.counted,
      x.counted,
      length-append x.rows (map (row_at now) s.shared.object.buffer),
    );
    settled = inl y.idle;
  }
  flushed_batch-InTable first now s (res, r) x go (inr (e, (h, same, failed, count))) = record {
    rows = x.rows;
    payloads = x.payloads ∙ sym (stored_after false res s.shared go (ap returned h));
    table = same ∙ x.table;
    counted = omega (arith, x.counted, count, ap length same);
    settled = inr failed;
  }

  pub skips_flush-filled :
      (s : Shared Trade) → skips_flush s.object ≡ false → is_empty s.object.buffer ≡ false
  unfolding skips_flush
  skips_flush-filled s h = ground arith

  -- The table and the messages after a call
  abbrev pub Follows : Table Trade → List Trade → Store d → Type 0
  Follows first trades s = InTable first s × (all_trades s ≡ trades)

  pub flush_batch-Follows :
      (first : Table Trade) (now : ℕ) (s : Store d)
      → CommitWorks d
      → InTable first s
      → Follows first (all_trades s) (flush_batch d now s)
  flush_batch-Follows first now s works x = elim (Bool-cases (skips_flush s.shared.object)) [
    | inl skip ↦
        subst (Follows first (all_trades s)) (sym (flush_batch-skipped now s skip)) (x, refl)
    | inr go ↦
        let r = insert_batch d now s.shared.object.buffer s.repository in
        subst (Follows first (all_trades s)) (sym (flush_batch-called now s go)) (
          flushed_batch-InTable first now s r x go (
              outcome_of now s.shared.object.buffer s.repository works
                (skips_flush-filled s.shared go) x.settled),
          flush-in_order (returned r.0) s.shared,
        )
  ]

  pub add_trade-Follows :
      (first : Table Trade) (now : ℕ) (trade : Trade) (s : Store d)
      → CommitWorks d
      → InTable first s
      → Follows first (all_trades s ++ trade ∷ []) (add_trade d now trade s)
  unfolding add_trade append
  add_trade-Follows first now trade s works x =
      let s' : Store d = record s {
        shared = record s.shared { object = append trade s.shared.object };
      } in
      let x' : InTable first s' = record {
        rows = x.rows;
        payloads = x.payloads;
        table = x.table;
        counted = x.counted;
        settled = x.settled;
      } in
      let longer = sym (append_assoc s.shared.stored s.shared.object.buffer (trade ∷ [])) in
      elim (Bool-cases (wants_flush trade s.shared.object)) [
        | inl full ↦
            rw full (let f = flush_batch-Follows first now s' works x' in (f.0, f.1 ∙ longer))
        | inr room ↦ rw room (x', longer)
      ]

  perform-Follows :
      (first : Table Trade) (c : BufferCall Trade) (s : Store d)
      → CommitWorks d
      → InTable first s
      → Follows first (all_trades s ++ added (c ∷ [])) (perform d c s)
  unfolding perform
  perform-Follows first (call_add now trade) s works x = add_trade-Follows first now trade s works x
  perform-Follows first (call_flush now) s works x =
      let f = flush_batch-Follows first now s works x in (f.0, f.1 ∙ sym (append-nil _))

  added-cons :
      (c : BufferCall Trade) (calls : List (BufferCall Trade))
      → added (c ∷ []) ++ added calls ≡ added (c ∷ calls)
  added-cons (call_add now trade) calls = refl
  added-cons (call_flush now) calls = refl

  -- As long as each COMMIT goes through, and whatever INSERTs raise, the table stays what the
  -- INSERT of the stored trades makes of the first table, one by one in their order, each with some
  -- time of arrival, and each of them is a new row or counted as a duplicate. What is stored and
  -- what is buffered are, in order, the earlier trades and then those that the calls added. The
  -- table and the stored trades are in step like this at the start.
  pub perform_all-InTable :
      (first : Table Trade) (calls : List (BufferCall Trade)) (s : Store d)
      → CommitWorks d
      → InTable first s
      → let s' = perform_all d calls s in
        InTable first s' × (all_trades s' ≡ all_trades s ++ added calls)
  unfolding perform_all
  perform_all-InTable first [] s works x = (x, sym (append-nil _))
  perform_all-InTable first (c ∷ calls) s works x =
      let (now, order) = perform-Follows first c s works x in
      let (end, rest) = perform_all-InTable first calls (perform d c s) works now in
      (
        end,
        rest
            ∙ ap (λ l. l ++ added calls) order
            ∙ append_assoc (all_trades s) (added (c ∷ [])) (added calls)
            ∙ ap (λ l. all_trades s ++ l) (added-cons c calls),
      )
