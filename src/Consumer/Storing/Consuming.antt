-- ===== src/Consumer/Storing/Consuming.antt =====
-- The worker of consumer/consumer.py over the buffer and the repository, as `main` of
-- consumer/main.py composes them.
use crypto_streaming_lakehou.Base.{
  ℕ, String, ◌≡◌, true, Option, List, [], ◌∷◌, ◌++◌, is_some, Try, ok, raised, if◌then◌else◌,
}
use crypto_streaming_lakehou.Base.Json.{Json}
use crypto_streaming_lakehou.Consumer.Buffer.{Timer, pending, fired}
use crypto_streaming_lakehou.Consumer.Worker.{Effect, ack, nack, Delivery, Handled, on_message}
use crypto_streaming_lakehou.Consumer.Worker.Settlement.{object_of}
use crypto_streaming_lakehou.Consumer.Service.Deliveries.{prepend}
use crypto_streaming_lakehou.Consumer.Repository.Connection.{Driver}
use crypto_streaming_lakehou.Consumer.Storing.{Store, flush_batch, add_trade}

-- A delivery, or the timer's call of `flush` between two of them; with the time at which the
-- repository is called if it is
pub data Happening (Bytes : Type 0) : Type 0 where
  delivered : ℕ → Delivery Bytes → Happening Bytes
  timed_out : ℕ → Happening Bytes

module _ {trade_id_of : Json → Option String} (d : Driver trade_id_of) where
  pub record Process : Type 0 where
    pub effects : List Effect
    pub store : Store d

  -- `buffer.insert_one`, which does not raise
  unfoldable pub store_one : ℕ → Json → Store d → Try (Unit {0}) × Store d
  unfolding add_trade
  store_one now message s = (ok tt, add_trade d now message s)

  unfoldable pub fire_batch : ℕ → Timer → Store d → Store d
  unfolding flush_batch
  fire_batch now pending s =
      flush_batch d now (record s {
        shared = record s.shared { object = record s.shared.object { timer = fired } };
      })
  fire_batch now _ s = s

  abbrev pub after_message : Process → Handled × Store d → Try (Unit {0}) × Process
  after_message p (h, s) = (h.outcome, record { effects = p.effects ++ h.effects; store = s })

  abbrev pub unless_escaped :
      Try (Unit {0}) × Process → (Process → Try (Unit {0}) × Process) → Try (Unit {0}) × Process
  unless_escaped (ok _, p) next = next p
  unless_escaped (raised x, p) next = (raised x, p)

  module _ {Bytes : Type 0} (loads : Bytes → Try Json) where
    unfoldable pub handle_into : Happening Bytes → Process → Try (Unit {0}) × Process
    unfolding store_one fire_batch on_message
    handle_into (timed_out now) p =
        (ok tt, record p { store = fire_batch now p.store.shared.object.timer p.store })
    handle_into (delivered now m) p = after_message p (on_message loads (store_one now) m p.store)

    unfoldable pub consume_into : List (Happening Bytes) → Process → Try (Unit {0}) × Process
    unfolding handle_into
    consume_into [] p = (ok tt, p)
    consume_into (h ∷ rest) p = unless_escaped (handle_into h p) (λ q. consume_into rest q)

-- What the happenings should come to: the messages, the bodies that are JSON objects, and the
-- settlement of each delivery.
module _ {Bytes : Type 0} (loads : Bytes → Try Json) where
  abbrev pub messages_of : List (Happening Bytes) → List Json
  messages_of [] = []
  messages_of (timed_out now ∷ rest) = messages_of rest
  messages_of (delivered now m ∷ rest) = prepend (object_of (loads m.body)) (messages_of rest)

  abbrev pub settled_of : List (Happening Bytes) → List Effect
  settled_of [] = []
  settled_of (timed_out now ∷ rest) = settled_of rest
  settled_of (delivered now m ∷ rest) =
      (if is_some (object_of (loads m.body)) then ack m.delivery_tag else nack m.delivery_tag)
      ∷ settled_of rest

  abbrev pub AckWorks : List (Happening Bytes) → Type 0
  AckWorks [] = Unit
  AckWorks (timed_out now ∷ rest) = AckWorks rest
  AckWorks (delivered now m ∷ rest) = (m.ack_works ≡ true) × (m.nack_works ≡ true) × AckWorks rest
