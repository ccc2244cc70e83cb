-- ===== src/Consumer/Storing/Held.antt =====
-- The rows of the stored trades, and flushes that leave nothing in the buffer
-- (consumer/batch_buffer.py over consumer/repository.py).
use crypto_streaming_lakehou.Base.{
  ℕ, ◌≡◌, refl, sym, ap, ◌∙◌, subst, String, true, false, Bool-cases, inl, inr, Option, List, [],
  ◌∷◌, map, All, Try,
}
use crypto_streaming_lakehou.Consumer.Bronze.{Row, Table, conflicts}
use crypto_streaming_lakehou.Consumer.Bronze.Rows.{AllHeld, HaveIds, insert_rows-AllHeld}
use crypto_streaming_lakehou.Consumer.Repository.Redelivery.{Identified}
use crypto_streaming_lakehou.Consumer.Buffer.{append, wants_flush, skips_flush}
use crypto_streaming_lakehou.Consumer.Threads.Sequential.{flush, flush_outcome, skips_flush_empty}
use crypto_streaming_lakehou.Consumer.Main.Ends.{flush-flushing}
use crypto_streaming_lakehou.Consumer.Repository.{Repository, insert_batch}
use crypto_streaming_lakehou.Consumer.Repository.Committing.{CommitWorks, Outcome}
use crypto_streaming_lakehou.Consumer.Repository.Connection.{Driver}
use crypto_streaming_lakehou.Consumer.Storing.{returned, Store, flush_batch, add_trade}
use crypto_streaming_lakehou.Consumer.Storing.InTable.{
  InTable, flush_batch-skipped, flush_batch-called, outcome_of, skips_flush-filled,
}

module _ {Trade : Type 0} (trade_id_of : Trade → Option String) where
  -- Each of the trades has a row with its trade_id.
  abbrev pub HaveRows : List Trade → Table Trade → Type 0
  HaveRows trades t = All (λ m. conflicts trade_id_of (trade_id_of m) t ≡ true) trades

  HaveIds-payloads :
      (rows : List (Row Trade))
      → Identified trade_id_of (map (λ (r : Row Trade). r.payload) rows)
      → HaveIds trade_id_of rows
  HaveIds-payloads [] h = tt
  HaveIds-payloads (r ∷ rows) h = (h.0, HaveIds-payloads rows h.1)

  HaveRows-payloads :
      (rows : List (Row Trade)) (t : Table Trade)
      → AllHeld trade_id_of rows t
      → HaveRows (map (λ (r : Row Trade). r.payload) rows) t
  HaveRows-payloads [] t h = tt
  HaveRows-payloads (r ∷ rows) t h = (h.0, HaveRows-payloads rows t h.1)

module _ {Trade : Type 0} {trade_id_of : Trade → Option String} (d : Driver trade_id_of) where
  open d use {aborted, committed}

  pub InTable-HaveRows :
      (first : Table Trade) (s : Store d)
      → InTable d first s
      → Identified trade_id_of s.shared.stored
      → HaveRows trade_id_of s.shared.stored (committed s.repository.conn)
  InTable-HaveRows first s x ids =
      subst (λ l. HaveRows trade_id_of l (committed s.repository.conn)) x.payloads
        (subst (HaveRows trade_id_of (map (λ (r : Row Trade). r.payload) x.rows)) (sym x.table) (
          HaveRows-payloads trade_id_of x.rows _ (
            insert_rows-AllHeld trade_id_of x.rows first (
              HaveIds-payloads trade_id_of x.rows
                (subst (Identified trade_id_of) (sym x.payloads) ids)))))

  pub flush_batch-flushing :
      (now : ℕ) (s : Store d)
      → (flush_batch d now s).shared.object.flushing ≡ s.shared.object.flushing
  flush_batch-flushing now s = elim (Bool-cases (skips_flush s.shared.object)) [
    | inl skip ↦ ap (λ x. x.shared.object.flushing) (flush_batch-skipped d now s skip)
    | inr go ↦
        ap (λ x. x.shared.object.flushing) (flush_batch-called d now s go)
        ∙ flush-flushing _ s.shared
  ]

  pub add_trade-flushing :
      (now : ℕ) (trade : Trade) (s : Store d)
      → (add_trade d now trade s).shared.object.flushing ≡ s.shared.object.flushing
  unfolding add_trade append
  add_trade-flushing now trade s = elim (Bool-cases (wants_flush trade s.shared.object)) [
    | inl full ↦ rw full (flush_batch-flushing now _)
    | inr room ↦ rw room refl
  ]

  emptied :
      (rows : List (Row Trade)) (s : Store d) (r : Try (Unit {0}) × Repository d)
      → skips_flush s.shared.object ≡ false
      → Outcome d rows s.repository r
      → aborted r.1.conn ≡ false
      → (flush (returned r.0) s.shared).object.buffer ≡ []
  emptied rows s (res, r) go (inl (h, y)) healthy =
      ap (λ b. (flush b s.shared).object.buffer) (ap returned h)
      ∙ (flush_outcome true s.shared go).0
  emptied rows s (res, r) go (inr (e, (h, same, failed, count))) healthy = cc

  -- After a flush that leaves a connection in order nothing is buffered.
  pub flush_batch_empties :
      (first : Table Trade) (now : ℕ) (s : Store d)
      → CommitWorks d
      → InTable d first s
      → s.shared.object.flushing ≡ false
      → aborted (flush_batch d now s).repository.conn ≡ false
      → (flush_batch d now s).shared.object.buffer ≡ []
  flush_batch_empties first now s works x off healthy =
      elim (Bool-cases (skips_flush s.shared.object)) [
        | inl skip ↦
            ap (λ x. x.shared.object.buffer) (flush_batch-skipped d now s skip)
            ∙ skips_flush_empty s.shared.object skip off
        | inr go ↦
            let called = flush_batch-called d now s go in
            ap (λ x. x.shared.object.buffer) called
            ∙ emptied _ s (insert_batch d now s.shared.object.buffer s.repository) go
                (outcome_of d now s.shared.object.buffer s.repository works
                  (skips_flush-filled d s.shared go) x.settled)
                (subst (λ x. aborted x.repository.conn ≡ false) called healthy)
      ]
