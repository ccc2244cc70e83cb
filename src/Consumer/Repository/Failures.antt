-- ===== src/Consumer/Repository/Failures.antt =====
-- A statement of consumer/repository.py that raises, and the connection that it leaves behind.
use crypto_streaming_lakehou.Base.{
  ℕ, ◌≡◌, refl, ◌∙◌, String, true, Option, List, [], ◌∷◌, map, ap₂, length, Try, ok, raised,
  Exception, psycopg_error,
}
use crypto_streaming_lakehou.Consumer.Repository.{
  Repository, row_at, after_execute, after_execute_values, insert_one, insert_batch,
}
use crypto_streaming_lakehou.Consumer.Repository.Connection.{Driver}

-- A call of the repository; a batch is not empty.
pub data Call (Trade : Type 0) : Type 0 where
  one : ℕ → Trade → Call Trade
  batch : ℕ → Trade → List Trade → Call Trade

module _ {Trade : Type 0} {trade_id_of : Trade → Option String} (d : Driver trade_id_of) where
  open d use {
    Conn, committed, aborted, execute, execute_values, execute_raised, execute_aborted,
    execute_values_raised, execute_values_aborted,
  }

  unfoldable pub call : Call Trade → Repository d → Try (Unit {0}) × Repository d
  unfolding insert_one insert_batch
  call (one now t) r = insert_one d now t r
  call (batch now t ts) r = insert_batch d now (t ∷ ts) r

  unfoldable pub call_all : List (Call Trade) → Repository d → List (Try (Unit {0})) × Repository d
  unfolding call
  call_all [] r = ([], r)
  call_all (c ∷ cs) r =
      let (res, r') = call c r in let (rest, last) = call_all cs r' in (res ∷ rest, last)

  -- A statement that raises ends the method, and the counter stays.
  after_execute-raised :
      (before : ℕ) (p : Try ℕ × Conn) (e : Exception)
      → p.0 ≡ raised e
      → after_execute d before p ≡ (raised e, record { conn = p.1; duplicates_skipped = before })
  unfolding after_execute
  after_execute-raised before (raised e', c) e h = cc
  after_execute-raised before (ok n, c) e h = cc

  pub after_execute_values-raised :
      (attempted before : ℕ) (p : Try (List (Option String)) × Conn) (e : Exception)
      → p.0 ≡ raised e
      → after_execute_values d attempted before p
        ≡ (raised e, record { conn = p.1; duplicates_skipped = before })
  unfolding after_execute_values
  after_execute_values-raised attempted before (raised e', c) e h = cc
  after_execute_values-raised attempted before (ok n, c) e h = cc

  -- The call raised and stored nothing, and the transaction has failed.
  abbrev pub Refused : Exception → Repository d → Try (Unit {0}) × Repository d → Type 0
  Refused e r (res, r') =
      (res ≡ raised e)
      × (committed r'.conn ≡ committed r.conn)
      × (aborted r'.conn ≡ true)
      × (r'.duplicates_skipped ≡ r.duplicates_skipped)

  pub call_aborted :
      (c : Call Trade) (r : Repository d)
      → aborted r.conn ≡ true
      → Refused psycopg_error r (call c r)
  unfolding call
  call_aborted (one now t) r h =
      let p = execute (row_at now t) r.conn in
      let e = execute_aborted (row_at now t) r.conn h in
      let (same, failed) = execute_raised (row_at now t) r.conn psycopg_error e in
      rw (after_execute-raised r.duplicates_skipped p psycopg_error e) (refl, same, failed, refl)
  call_aborted (batch now t ts) r h =
      let rows = map (row_at now) (t ∷ ts) in
      let e = execute_values_aborted rows r.conn h in
      let (same, failed) = execute_values_raised rows r.conn psycopg_error e in
      rw
        (after_execute_values-raised (length (t ∷ ts)) r.duplicates_skipped
          (execute_values rows r.conn) psycopg_error e)
        (refl, same, failed, refl)

  call_all_aborted :
      (cs : List (Call Trade)) (r : Repository d)
      → aborted r.conn ≡ true
      → ((call_all cs r).0 ≡ map (λ _. raised psycopg_error) cs)
        × (committed (call_all cs r).1.conn ≡ committed r.conn)
  unfolding call_all
  call_all_aborted [] r h = (refl, refl)
  call_all_aborted (c ∷ cs) r h =
      let (res, same, failed, _) = call_aborted c r h in
      let (all, kept) = call_all_aborted cs (call c r).1 failed in
      (ap₂ (λ x xs. x ∷ xs) res all, kept ∙ same)

  -- The repository never rolls back. Once the INSERT of a batch has raised, that batch is not
  -- stored, and every later call, of `insert_one` or of `insert_batch` with a batch that is not
  -- empty, raises and stores nothing, whatever its trades are.
  pub no_insert_after_error :
      (now : ℕ) (t : Trade) (ts : List Trade) (r : Repository d) (e : Exception)
      → (execute_values (map (row_at now) (t ∷ ts)) r.conn).0 ≡ raised e
      → (later : List (Call Trade))
      → let (res, r') = insert_batch d now (t ∷ ts) r in
        let (results, last) = call_all later r' in
        (res ≡ raised e)
        × (results ≡ map (λ _. raised psycopg_error) later)
        × (committed last.conn ≡ committed r.conn)
  unfolding insert_batch
  no_insert_after_error now t ts r e h later =
      let rows = map (row_at now) (t ∷ ts) in
      let (same, failed) = execute_values_raised rows r.conn e h in
      let after : Repository d = record {
        conn = (execute_values rows r.conn).1;
        duplicates_skipped = r.duplicates_skipped;
      } in
      let (all, kept) = call_all_aborted later after failed in
      rw
        (after_execute_values-raised (length (t ∷ ts)) r.duplicates_skipped
          (execute_values rows r.conn) e h)
        (refl, all, kept ∙ same)
