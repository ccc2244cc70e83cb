-- ===== src/Consumer/Storing.antt =====
-- A BatchBuffer (consumer/batch_buffer.py) whose `repository` is a TradeRepository
-- (consumer/repository.py), as consumer/main.py puts them together: the repository's answer to a
-- batch is what its connection makes of it.
pub mod InTable
pub mod Consuming
pub mod Held
pub mod Persisted
use crypto_streaming_lakehou.Base.{
  ℕ, String, Bool, true, false, Option, List, [], ◌∷◌, Try, ok, raised, if◌then◌else◌,
}
use crypto_streaming_lakehou.Consumer.Buffer.{append, wants_flush, skips_flush}
use crypto_streaming_lakehou.Consumer.Threads.{Shared}
use crypto_streaming_lakehou.Consumer.Threads.Sequential.{flush}
use crypto_streaming_lakehou.Consumer.Repository.{Repository, insert_batch}
use crypto_streaming_lakehou.Consumer.Repository.Connection.{Driver}

abbrev pub returned : Try (Unit {0}) → Bool
returned (ok u) = true
returned (raised e) = false

-- A call of the buffer, with the time at which the repository is called if it is: `add`, or `flush`
-- by the timer or by the shutdown.
pub data BufferCall (Trade : Type 0) : Type 0 where
  call_add : ℕ → Trade → BufferCall Trade
  call_flush : ℕ → BufferCall Trade

-- The trades that the calls add
abbrev pub added : {Trade : Type 0} → List (BufferCall Trade) → List Trade
added [] = []
added (call_add now trade ∷ calls) = trade ∷ added calls
added (call_flush now ∷ calls) = added calls

module _ {Trade : Type 0} {trade_id_of : Trade → Option String} (d : Driver trade_id_of) where
  pub record Store : Type 0 where
    pub shared : Shared Trade
    pub repository : Repository d

  unfoldable pub flush_batch : ℕ → Store → Store
  unfolding flush skips_flush insert_batch
  flush_batch now s =
      if skips_flush s.shared.object
      then s
      else let (result, repository) = insert_batch d now s.shared.object.buffer s.repository in
        record { shared = flush (returned result) s.shared; repository = repository }

  unfoldable pub add_trade : ℕ → Trade → Store → Store
  unfolding append wants_flush flush_batch
  add_trade now trade s =
      let s' = record s { shared = record s.shared { object = append trade s.shared.object } } in
      if wants_flush trade s.shared.object then flush_batch now s' else s'

  unfoldable pub perform : BufferCall Trade → Store → Store
  unfolding flush_batch add_trade
  perform (call_add now trade) s = add_trade now trade s
  perform (call_flush now) s = flush_batch now s

  unfoldable pub perform_all : List (BufferCall Trade) → Store → Store
  unfolding perform
  perform_all [] s = s
  perform_all (c ∷ calls) s = perform_all calls (perform c s)
