-- ===== src/Consumer/Worker/Settlement.antt =====
-- `on_message` of consumer/consumer.py settles each delivery once.
use crypto_streaming_lakehou.Base.{
  ◌≡◌, Bool, true, false, Option, none, some, List, [], ◌∷◌, Try, ok, raised, Exception, arith,
  if◌then◌else◌,
}
use crypto_streaming_lakehou.Base.Json.{Json, null, bool, int, float, string, array, object, get}
use crypto_streaming_lakehou.Consumer.Worker.{
  Effect, observe, ack, nack, log, Delivery, Handled, with_message, on_message,
}

-- The acknowledgements among the effects.
abbrev pub settlements : List Effect → List Effect
settlements [] = []
settlements (observe d ∷ rest) = settlements rest
settlements (ack t ∷ rest) = ack t ∷ settlements rest
settlements (nack t ∷ rest) = nack t ∷ settlements rest
settlements (log s t ∷ rest) = settlements rest

abbrev pub returns {ℓ} : {A : Type ℓ} → Try A → Bool
returns (ok _) = true
returns (raised _) = false

-- The value, if it is a JSON object, which is all that has the method `get`.
abbrev pub object_of : Try Json → Option Json
object_of (ok (object fs)) = some (object fs)
object_of _ = none

module _ {Bytes S : Type 0} (loads : Bytes → Try Json)
    (insert_one : Json → S → Try (Unit {0}) × S) where
  -- What handling a body should come to: whether it is stored, and the repository's next state.
  abbrev pub store : Option Json → S → Bool × S
  store none s = (false, s)
  store (some message) s = let (res, s') = insert_one message s in (returns res, s')

  abbrev Settles : Delivery Bytes → Bool × S → Handled × S → Type 0
  Settles m (stored, s') (handled, s'') =
      (settlements handled.effects
        ≡ (if stored then ack m.delivery_tag ∷ [] else nack m.delivery_tag ∷ []))
      × (s'' ≡ s')
      × (handled.outcome ≡ ok tt)

  with_message-Settles :
      (m : Delivery Bytes) (loaded : Try Json) (s : S)
      → m.ack_works ≡ true
      → m.nack_works ≡ true
      → Settles m (store (object_of loaded) s) (with_message loads insert_one m loaded s)
  unfolding with_message get
  with_message-Settles m (raised e) s a n = ground arith
  with_message-Settles m (ok (object fs)) s a n = ground arith
  with_message-Settles m (ok null) s a n = ground arith
  with_message-Settles m (ok (bool b)) s a n = ground arith
  with_message-Settles m (ok (int i)) s a n = ground arith
  with_message-Settles m (ok (float f)) s a n = ground arith
  with_message-Settles m (ok (string t)) s a n = ground arith
  with_message-Settles m (ok (array xs)) s a n = ground arith

  -- With a channel that works, each delivery is settled exactly once, by its own tag: acknowledged
  -- if its body is a JSON object for which the repository's `insert_one` returns, and rejected
  -- without requeueing in every other case. The repository is called once for a JSON object and not
  -- for any other body, and no exception leaves the callback.
  pub on_message_settles :
      (m : Delivery Bytes) (s : S)
      → m.ack_works ≡ true
      → m.nack_works ≡ true
      → let (stored, s') = store (object_of (loads m.body)) s in
        let (handled, s'') = on_message loads insert_one m s in
        (settlements handled.effects
          ≡ (if stored then ack m.delivery_tag ∷ [] else nack m.delivery_tag ∷ []))
        × (s'' ≡ s')
        × (handled.outcome ≡ ok tt)
  unfolding on_message
  on_message_settles m s a n = with_message-Settles m (loads m.body) s a n

  -- Only a basic_nack that raises lets an exception leave the callback.
  on_message_escapes :
      (m : Delivery Bytes) (s : S) (e : Exception)
      → (on_message loads insert_one m s).0.outcome ≡ raised e
      → m.nack_works ≡ false
  unfolding on_message
  on_message_escapes m s e h = ground arith
