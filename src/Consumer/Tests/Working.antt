-- ===== src/Consumer/Tests/Working.antt =====
-- Runs of consumer/consumer.py and consumer/main.py.
use crypto_streaming_lakehou.Base.{
  ℕ, zero, suc, ◌≡◌, refl, Bool, true, false, List, [], ◌∷◌, ◌++◌, Try, ok, raised, value_error,
  amqp_error,
}
use crypto_streaming_lakehou.Base.Json.{Json, null, string, object, array, nil, field, end}
use crypto_streaming_lakehou.Consumer.Buffer.{pending, stopped}
use crypto_streaming_lakehou.Consumer.Worker.{ack, nack, Delivery, on_message}
use crypto_streaming_lakehou.Consumer.Worker.Settlement.{settlements, on_message_settles}
use crypto_streaming_lakehou.Consumer.Service.{
  Event, signal, time_out, deliver, Service, consume, shut_down, all_of,
}
use crypto_streaming_lakehou.Consumer.Service.Deliveries.{consume-HandlesWell}
use crypto_streaming_lakehou.Consumer.Service.Signals.{without_signals, consume-without_signals}
use crypto_streaming_lakehou.Consumer.Service.Shutdown.{shut_down_lem}

abbrev pub trade : Json
trade = object (field "trade_id" (string "a") end)

-- Bodies are numbers here: 0 is no JSON, 1 is a trade, and the others are arrays.
abbrev pub loads : ℕ → Try Json
loads zero = raised value_error
loads (suc zero) = ok trade
loads _ = ok (array nil)

-- A repository that keeps what it is given
abbrev keep : Json → List Json → Try (Unit {0}) × List Json
keep m s = (ok tt, s ++ m ∷ [])

abbrev pub delivery : ℕ → ℕ → Bool → Delivery ℕ
delivery tag body works = record {
  delivery_tag = tag;
  body = body;
  started = 10;
  inserted = 12;
  failed = 13;
  ack_works = works;
  nack_works = works;
}

on_message_settles_example :
    let (handled, kept) = on_message loads keep (delivery 4 1 true) [] in
    (settlements handled.effects ≡ ack 4 ∷ []) × (kept ≡ trade ∷ []) × (handled.outcome ≡ ok tt)
on_message_settles_example = on_message_settles loads keep (delivery 4 1 true) [] refl refl

broken_channel : (on_message loads keep (delivery 4 0 false) []).0.outcome ≡ raised amqp_error
unfolding on_message
broken_channel = refl

abbrev idle_service : Service
idle_service = record {
  shutdown_requested = false;
  shared = record {
    object = record {
      batch_size = 2;
      buffer = null ∷ [];
      is_overloaded = false;
      flushing = false;
      timer = pending;
    };
    stored = [];
  };
  effects = [];
}

abbrev pub events : List (Event ℕ)
events =
    deliver (delivery 1 1 true) false
    ∷ signal
    ∷ time_out true
    ∷ deliver (delivery 2 0 true) true
    ∷ []

consume-HandlesWell_example :
    let (res, s') = consume loads events idle_service in
    (res ≡ ok tt)
    × (settlements s'.effects ≡ ack 1 ∷ nack 2 ∷ [])
    × (all_of s'.shared ≡ null ∷ trade ∷ [])
consume-HandlesWell_example =
    consume-HandlesWell loads events idle_service (refl, refl, (refl, refl, tt))

consume-without_signals_example :
    let (res, after) = consume loads events idle_service in
    let (res', after') = consume loads (without_signals loads events) idle_service in
    (res ≡ res') × (after.shared ≡ after'.shared) × (after.effects ≡ after'.effects)
consume-without_signals_example =
    consume-without_signals loads events idle_service idle_service refl refl

shut_down_lem_instance :
    let s' = (shut_down false idle_service).shared in
    (s'.stored ≡ []) × (s'.object.buffer ≡ null ∷ []) × (s'.object.timer ≡ stopped)
shut_down_lem_instance = shut_down_lem false idle_service refl
