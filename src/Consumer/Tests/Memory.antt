-- ===== src/Consumer/Tests/Memory.antt =====
-- A connection for consumer/repository.py that keeps the table in memory.
use crypto_streaming_lakehou.Base.{
  ℕ, String, ◌≡◌, refl, Bool, true, false, ◌||◌, Option, some, List, [], ◌∷◌, text_eq, Try, ok,
  raised, Exception, psycopg_error, if◌then◌else◌,
}
use crypto_streaming_lakehou.Consumer.Bronze.{Row, Table, row_count, insert_row, insert_rows}
use crypto_streaming_lakehou.Consumer.Repository.{Repository}
use crypto_streaming_lakehou.Consumer.Repository.Connection.{Driver}
use crypto_streaming_lakehou.Consumer.Repository.Batches.{IsIdle}

pub record Session (Trade : Type 0) : Type 0 where
  pub committed : Table Trade
  pub visible : Table Trade
  pub aborted : Bool

module _ {Trade : Type 0} where
  abbrev pub abort : Session Trade → Session Trade
  abort c = record c { aborted = true }

  abbrev pub see : Table Trade → Session Trade → Session Trade
  see t c = record c { visible = t; aborted = false }

  -- The commit of a failed transaction is a rollback.
  abbrev pub commit_if : Bool → Session Trade → Session Trade
  commit_if true c = record { committed = c.committed; visible = c.committed; aborted = false }
  commit_if false c = record { committed = c.visible; visible = c.visible; aborted = false }

-- PostgreSQL refuses a statement with a bad trade.
module _ {Trade : Type 0} (trade_id_of : Trade → Option String) (bad : Trade → Bool) where
  abbrev pub is_refused : List (Row Trade) → Bool
  is_refused [] = false
  is_refused (r ∷ rs) = bad r.payload || is_refused rs

  abbrev pub execute_if : Bool → Row Trade → Session Trade → Try ℕ × Session Trade
  execute_if true r c = (raised psycopg_error, abort c)
  execute_if false r c =
      (ok (row_count trade_id_of r c.visible), see (insert_row trade_id_of r c.visible) c)

  abbrev pub execute_values_if :
      Bool → List (Row Trade) → Session Trade → Try (List (Option String)) × Session Trade
  execute_values_if true rs c = (raised psycopg_error, abort c)
  execute_values_if false rs c =
      let result = insert_rows trade_id_of rs c.visible in (ok result.1, see result.0 c)

  abbrev pub refuses : List (Row Trade) → Session Trade → Bool
  refuses rs c = if c.aborted then true else is_refused rs

  pub execute_if-ok :
      (b : Bool) (r : Row Trade) (c : Session Trade) (n : ℕ)
      → (execute_if b r c).0 ≡ ok n
      → let c' = (execute_if b r c).1 in
        (n ≡ row_count trade_id_of r c.visible)
        × (c'.visible ≡ insert_row trade_id_of r c.visible)
        × (c'.committed ≡ c.committed)
        × (c'.aborted ≡ false)
  execute_if-ok true r c n h = cc
  execute_if-ok false r c n h = (cc, refl, refl, refl)

  pub execute_values_if-ok :
      (b : Bool) (rs : List (Row Trade)) (c : Session Trade) (ids : List (Option String))
      → (execute_values_if b rs c).0 ≡ ok ids
      → let c' = (execute_values_if b rs c).1 in
        (ids ≡ (insert_rows trade_id_of rs c.visible).1)
        × (c'.visible ≡ (insert_rows trade_id_of rs c.visible).0)
        × (c'.committed ≡ c.committed)
        × (c'.aborted ≡ false)
  execute_values_if-ok true rs c ids h = cc
  execute_values_if-ok false rs c ids h = (cc, refl, refl, refl)

  pub execute_if-raised :
      (b : Bool) (r : Row Trade) (c : Session Trade) (e : Exception)
      → (execute_if b r c).0 ≡ raised e
      → let c' = (execute_if b r c).1 in (c'.committed ≡ c.committed) × (c'.aborted ≡ true)
  execute_if-raised true r c e h = (refl, refl)
  execute_if-raised false r c e h = cc

  pub execute_values_if-raised :
      (b : Bool) (rs : List (Row Trade)) (c : Session Trade) (e : Exception)
      → (execute_values_if b rs c).0 ≡ raised e
      → let c' = (execute_values_if b rs c).1 in (c'.committed ≡ c.committed) × (c'.aborted ≡ true)
  execute_values_if-raised true rs c e h = (refl, refl)
  execute_values_if-raised false rs c e h = cc

  abbrev pub memory_of : Driver trade_id_of
  memory_of = record {
    Conn = Session Trade;
    committed = λ c. c.committed;
    visible = λ c. c.visible;
    aborted = λ c. c.aborted;
    execute = λ r c. execute_if (refuses (r ∷ []) c) r c;
    execute_values = λ rs c. execute_values_if (refuses rs c) rs c;
    commit = λ c. (ok tt, commit_if c.aborted c);
    execute_ok = λ r c n h. execute_if-ok (refuses (r ∷ []) c) r c n h;
    execute_values_ok = λ rs c ids h. execute_values_if-ok (refuses rs c) rs c ids h;
    execute_raised = λ r c e h. execute_if-raised (refuses (r ∷ []) c) r c e h;
    execute_values_raised = λ rs c e h. execute_values_if-raised (refuses rs c) rs c e h;
    execute_aborted = λ r c h. rw h refl;
    execute_values_aborted = λ rs c h. rw h refl;
    commit_ok = λ c h k. rw h (refl, refl, refl);
    commit_raised = λ c e h. cc;
  }

-- A trade is its trade_id here; PostgreSQL refuses a JSON text with a NUL in it, here "NUL".
abbrev pub id_of : String → Option String
id_of t = some t

abbrev pub memory : Driver id_of
memory = memory_of id_of (λ t. text_eq t "NUL")

-- A table with a row for "a" that came at time 1.
abbrev pub stored_a : Table String
stored_a = record { payload = "a"; received_at = 1 } ∷ []

abbrev pub with_a : Repository memory
with_a = record {
  conn = record { committed = stored_a; visible = stored_a; aborted = false };
  duplicates_skipped = 0;
}

pub idle : IsIdle memory with_a.conn
idle = record { nothing_pending = refl; healthy = refl }
