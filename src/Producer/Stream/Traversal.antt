-- ===== src/Producer/Stream/Traversal.antt =====
-- How what one trade does carries over to a message, for producer/main.py.
use crypto_streaming_lakehou.Base.{
  ℕ, Bool, true, false, Option, none, some, Try, ok, raised, text_eq, if◌then◌else◌,
}
use crypto_streaming_lakehou.Base.Json.{
  Json, null, bool, int, float, string, array, object, Items, nil, cons, get,
}
use crypto_streaming_lakehou.Producer.Trade.{TradeMessage, Pydantic}
use crypto_streaming_lakehou.Producer.Publisher.{Confirm}
use crypto_streaming_lakehou.Producer.Stream.{
  Stream, and_then, process_trade, process_trades, iterate_trades, items_of, get_list,
  process_event, process_events, iterate_events, on_channel, with_channel, process_message,
}

-- A relation between the state before some code and how the code ends, that holds of code which
-- changes nothing and of two pieces in sequence.
pub record IsSequential {Bytes : Type 0}
    (Leads : Stream Bytes → Try (Unit {0}) × Stream Bytes → Type 0) : Type 0 where
  pub unchanged : (r : Try (Unit {0})) (s : Stream Bytes) → Leads s (r, s)
  pub in_sequence :
      (s : Stream Bytes) (first : Try (Unit {0}) × Stream Bytes)
      (next : Stream Bytes → Try (Unit {0}) × Stream Bytes)
      → Leads s first
      → ((t : Stream Bytes) → Leads t (next t))
      → Leads s (and_then first next)

module _ {Bytes : Type 0} (pydantic : Pydantic) (dump : TradeMessage → Bytes) (broker : ℕ → Confirm)
    (Leads : Stream Bytes → Try (Unit {0}) × Stream Bytes → Type 0) (laws : IsSequential Leads)
    (one_trade : (trade : Json) (s : Stream Bytes)
      → Leads s (process_trade pydantic dump broker trade s)) where
  trades_lead : (xs : Items) (s : Stream Bytes) → Leads s (process_trades pydantic dump broker xs s)
  unfolding process_trades
  trades_lead nil s = laws.unchanged (ok tt) s
  trades_lead (cons x xs) s =
      laws.in_sequence s (process_trade pydantic dump broker x s)
        (process_trades pydantic dump broker xs) (one_trade x s) (trades_lead xs)

  iterate_trades_lead :
      (o : Try Items) (s : Stream Bytes) → Leads s (iterate_trades pydantic dump broker o s)
  unfolding iterate_trades
  iterate_trades_lead (ok xs) s = trades_lead xs s
  iterate_trades_lead (raised e) s = laws.unchanged (raised e) s

  event_leads :
      (event : Json) (s : Stream Bytes) → Leads s (process_event pydantic dump broker event s)
  unfolding process_event
  event_leads event s =
      iterate_trades_lead (items_of pydantic dump broker (get_list "trades" event)) s

  events_lead : (xs : Items) (s : Stream Bytes) → Leads s (process_events pydantic dump broker xs s)
  unfolding process_events
  events_lead nil s = laws.unchanged (ok tt) s
  events_lead (cons x xs) s =
      laws.in_sequence s (process_event pydantic dump broker x s)
        (process_events pydantic dump broker xs) (event_leads x s) (events_lead xs)

  iterate_events_lead :
      (o : Try Items) (s : Stream Bytes) → Leads s (iterate_events pydantic dump broker o s)
  unfolding iterate_events
  iterate_events_lead (ok xs) s = events_lead xs s
  iterate_events_lead (raised e) s = laws.unchanged (raised e) s

  either_leads :
      (b : Bool) (s : Stream Bytes) (x y : Try (Unit {0}) × Stream Bytes)
      → Leads s x
      → Leads s y
      → Leads s (if b then x else y)
  either_leads true s x y p q = p
  either_leads false s x y p q = q

  channel_leads :
      (v : Json) (o : Option Json) (s : Stream Bytes)
      → Leads s (on_channel pydantic dump broker v o s)
  unfolding on_channel
  channel_leads v none s = laws.unchanged (ok tt) s
  channel_leads v (some (string c)) s =
      either_leads (text_eq c "market_trades") s
        (iterate_events pydantic dump broker (items_of pydantic dump broker (get_list "events" v))
          s)
        (ok tt, s) (iterate_events_lead (items_of pydantic dump broker (get_list "events" v)) s)
        (laws.unchanged (ok tt) s)
  channel_leads v (some null) s = laws.unchanged (ok tt) s
  channel_leads v (some (bool b)) s = laws.unchanged (ok tt) s
  channel_leads v (some (int n)) s = laws.unchanged (ok tt) s
  channel_leads v (some (float x)) s = laws.unchanged (ok tt) s
  channel_leads v (some (array xs)) s = laws.unchanged (ok tt) s
  channel_leads v (some (object fs)) s = laws.unchanged (ok tt) s

  with_channel_leads :
      (v : Json) (o : Try (Option Json)) (s : Stream Bytes)
      → Leads s (with_channel pydantic dump broker v o s)
  unfolding with_channel
  with_channel_leads v (ok o) s = channel_leads v o s
  with_channel_leads v (raised e) s = laws.unchanged (raised e) s

  pub message_leads :
      (v : Json) (s : Stream Bytes) → Leads s (process_message pydantic dump broker v s)
  unfolding process_message
  message_leads v s = with_channel_leads v (get "channel" v) s
