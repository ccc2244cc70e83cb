-- ===== src/Consumer/Repository.antt =====
-- class TradeRepository of consumer/repository.py, over a psycopg2 connection.
pub mod Connection
pub mod Batches
pub mod Failures
pub mod Redelivery
pub mod Atomicity
pub mod Committing
use crypto_streaming_lakehou.Base.{
  ℕ, ◌+◌, ◌-◌, String, Bool, true, false, Option, none, some, List, [], ◌∷◌, map, length, ltb, ◌==◌,
  Try, ok, raised, if◌then◌else◌,
}
use crypto_streaming_lakehou.Consumer.Bronze.{Row, Table}
use Connection.{Driver}

abbrev pub row_at : {Trade : Type 0} → ℕ → Trade → Row Trade
row_at now t = record { payload = t; received_at = now }

module _ {Trade : Type 0} {trade_id_of : Trade → Option String} (d : Driver trade_id_of) where
  open d use {Conn, execute, execute_values, commit}

  -- The repository, with the value of the counter duplicates_skipped_total.
  pub record Repository : Type 0 where
    pub conn : Conn
    pub duplicates_skipped : ℕ

  -- `self.conn.commit()`, after which the counter is raised by `skipped`
  unfoldable pub commit_and_count : ℕ → ℕ → Try (Unit {0}) × Conn → Try (Unit {0}) × Repository
  commit_and_count skipped before (raised e, c) =
      (raised e, record { conn = c; duplicates_skipped = before })
  commit_and_count skipped before (ok _, c) =
      (ok tt, record { conn = c; duplicates_skipped = before + skipped })

  after_execute : ℕ → Try ℕ × Conn → Try (Unit {0}) × Repository
  unfolding commit_and_count
  after_execute before (raised e, c) = (raised e, record { conn = c; duplicates_skipped = before })
  after_execute before (ok rowcount, c) =
      commit_and_count (if rowcount == 0 then 1 else 0) before (commit c)

  -- `now` is datetime.now(UTC).
  unfoldable pub insert_one : ℕ → Trade → Repository → Try (Unit {0}) × Repository
  unfolding after_execute
  insert_one now trade r = after_execute r.duplicates_skipped (execute (row_at now trade) r.conn)

  unfoldable pub after_execute_values :
      ℕ → ℕ → Try (List (Option String)) × Conn → Try (Unit {0}) × Repository
  unfolding commit_and_count
  after_execute_values attempted before (raised e, c) =
      (raised e, record { conn = c; duplicates_skipped = before })
  after_execute_values attempted before (ok result, c) =
      let skipped = attempted - length result in
      commit_and_count (if ltb 0 skipped then skipped else 0) before (commit c)

  unfoldable pub insert_batch : ℕ → List Trade → Repository → Try (Unit {0}) × Repository
  unfolding after_execute_values
  insert_batch now [] r = (ok tt, r)
  insert_batch now (t ∷ ts) r =
      after_execute_values (length (t ∷ ts)) r.duplicates_skipped
        (execute_values (map (row_at now) (t ∷ ts)) r.conn)
