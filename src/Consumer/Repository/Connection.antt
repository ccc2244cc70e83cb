-- ===== src/Consumer/Repository/Connection.antt =====
-- What consumer/repository.py relies on of psycopg2 and PostgreSQL: a connection in the default
-- mode, where the first statement opens a transaction that lasts until commit() or rollback().
use crypto_streaming_lakehou.Base.{
  ℕ, String, ◌≡◌, ◌⊎◌, Bool, true, false, Option, List, Try, ok, raised, Exception, psycopg_error,
}
use crypto_streaming_lakehou.Consumer.Bronze.{Row, Table, row_count, insert_row, insert_rows}

pub record Driver {Trade : Type 0} (trade_id_of : Trade → Option String) : Type 1 where
  pub Conn : Type 0
  -- bronze.raw_trades as other sessions see it, and as this transaction sees it
  pub committed : Conn → Table Trade
  pub visible : Conn → Table Trade
  -- Whether statements are refused: the transaction has failed ("commands ignored until end of
  -- transaction block"), or the connection is closed.
  pub aborted : Conn → Bool
  -- cur.execute of the INSERT of one row, with cur.rowcount
  pub execute : Row Trade → Conn → Try ℕ × Conn
  -- execute_values of the INSERT of many rows, with the rows of RETURNING
  pub execute_values : List (Row Trade) → Conn → Try (List (Option String)) × Conn
  pub commit : Conn → Try (Unit {0}) × Conn
  -- A statement that succeeds has its effect in the transaction.
  pub execute_ok :
      (r : Row Trade) (c : Conn) (n : ℕ)
      → (execute r c).0 ≡ ok n
      → let c' = (execute r c).1 in
        (n ≡ row_count trade_id_of r (visible c))
        × (visible c' ≡ insert_row trade_id_of r (visible c))
        × (committed c' ≡ committed c)
        × (aborted c' ≡ false)
  pub execute_values_ok :
      (rs : List (Row Trade)) (c : Conn) (ids : List (Option String))
      → (execute_values rs c).0 ≡ ok ids
      → let c' = (execute_values rs c).1 in
        (ids ≡ (insert_rows trade_id_of rs (visible c)).1)
        × (visible c' ≡ (insert_rows trade_id_of rs (visible c)).0)
        × (committed c' ≡ committed c)
        × (aborted c' ≡ false)
  -- One that raises makes the transaction fail, and other sessions see nothing of it.
  pub execute_raised :
      (r : Row Trade) (c : Conn) (e : Exception)
      → (execute r c).0 ≡ raised e
      → let c' = (execute r c).1 in (committed c' ≡ committed c) × (aborted c' ≡ true)
  pub execute_values_raised :
      (rs : List (Row Trade)) (c : Conn) (e : Exception)
      → (execute_values rs c).0 ≡ raised e
      → let c' = (execute_values rs c).1 in (committed c' ≡ committed c) × (aborted c' ≡ true)
  -- Then every statement raises InFailedSqlTransaction, or InterfaceError.
  pub execute_aborted :
      (r : Row Trade) (c : Conn) → aborted c ≡ true → (execute r c).0 ≡ raised psycopg_error
  pub execute_values_aborted :
      (rs : List (Row Trade)) (c : Conn)
      → aborted c ≡ true
      → (execute_values rs c).0 ≡ raised psycopg_error
  -- A commit of a transaction that has not failed.
  pub commit_ok :
      (c : Conn)
      → aborted c ≡ false
      → (commit c).0 ≡ ok tt
      → let c' = (commit c).1 in
        (committed c' ≡ visible c) × (visible c' ≡ visible c) × (aborted c' ≡ false)
  -- A commit that raises may have taken effect on the server, or not; never in part.
  pub commit_raised :
      (c : Conn) (e : Exception)
      → (commit c).0 ≡ raised e
      → let c' = (commit c).1 in (committed c' ≡ committed c) ⊎ (committed c' ≡ visible c)
