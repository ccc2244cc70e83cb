-- ===== src/Producer/Main.antt =====
-- `main` of producer/main.py, with what it uses of producer/metrics.py and the constructors of
-- producer/publisher.py and producer/ws_client.py.
pub mod Ends
use crypto_streaming_lakehou.Base.{
  ℕ, Bool, true, false, List, [], Option, none, some, String, Try, ok, raised, Exception,
  if◌then◌else◌,
}
use crypto_streaming_lakehou.Base.Int.{ℤ, pos}
use crypto_streaming_lakehou.Shared.Metrics.{Servers, start_metrics_server as start_server}
use crypto_streaming_lakehou.Producer.Trade.{TradeMessage, Pydantic}
use crypto_streaming_lakehou.Producer.Publisher.{
  Confirm, Config, configure, or_env, required, connected,
}
use crypto_streaming_lakehou.Producer.Stream.{Stream}
use crypto_streaming_lakehou.Producer.Drain.{Line, drain_retry_queue}
use crypto_streaming_lakehou.Producer.Reconnect.{
  Round, End, running, shutdown, gave_up, crashed, stream,
}

-- What the process finds: PRODUCER_METRICS_PORT, as int reads it, and how starting the server ends;
-- the environment variables; how connecting to RabbitMQ ends; the rounds of the loop; the clock of
-- the drain; whether the connection is open at the end, and how closing it ends.
pub record Setup : Type 0 where
  pub metrics_port : Option (Try ℤ)
  pub serve : Try (Unit {0})
  pub amqp_url : Option String
  pub exchange : Option String
  pub routing_key : Option String
  pub connect : Try (Unit {0})
  pub websocket_url : Option String
  pub rounds : List Round
  pub clock : ℕ → ℕ
  pub is_open : Bool
  pub close : Try (Unit {0})

-- How far main is: an exception left it before its `try`; it streams; or it is through, with its
-- outcome, the lines of the drain, or none if its fuel ran out, and what the process leaves behind.
pub data MainEnd (Bytes : Type 0) : Type 0 where
  not_started : Exception → MainEnd Bytes
  streaming : Stream Bytes → MainEnd Bytes
  finished : Try (Unit {0}) → Option (List Line) → Stream Bytes → MainEnd Bytes

-- start_metrics_server of producer/metrics.py, called with no port
unfoldable pub start_metrics_server :
    Option (Try ℤ) → Try (Unit {0}) → Servers → Try (Unit {0}) × Servers
unfolding start_server
start_metrics_server port serve s = start_server none port (pos 8000) serve s

-- CoinbaseWebSocketClient.__init__: the URL
unfoldable pub client_url : Option String → Option String → Try String
unfolding or_env required
client_url url env = required (or_env url env)

-- `publisher.close()`
unfoldable pub close_connection : Bool → Try (Unit {0}) → Try (Unit {0})
close_connection is_open close = if is_open then close else ok tt

-- An exception of the `finally` block replaces the one that was on its way.
abbrev pub and_close : Try (Unit {0}) → Try (Unit {0}) → Try (Unit {0})
and_close outcome (ok _) = outcome
and_close outcome (raised e) = raised e

module _ {Bytes : Type 0} where
  -- The state in which `_stream` starts
  abbrev pub fresh_stream : Stream Bytes
  fresh_stream = record {
    publisher = connected;
    received = 0;
    valid = 0;
    invalid = 0;
    shutdown_requested = false;
    attempt = 0;
    slept = [];
  }

  -- The `finally` block
  unfoldable pub wind_down : Setup → Try (Unit {0}) → Stream Bytes → MainEnd Bytes
  unfolding drain_retry_queue close_connection
  wind_down setup outcome s =
      finished (and_close outcome (close_connection setup.is_open setup.close))
        (drain_retry_queue setup.clock (λ _. s.publisher)) s

  abbrev pub after_stream : Setup → End × Stream Bytes → MainEnd Bytes
  after_stream setup (running, s) = streaming s
  after_stream setup (shutdown, s) = wind_down setup (ok tt) s
  after_stream setup (gave_up, s) = wind_down setup (ok tt) s
  after_stream setup (crashed e, s) = wind_down setup (raised e) s

module _ {Bytes : Type 0} (pydantic : Pydantic) (dump : TradeMessage → Bytes)
    (broker : ℕ → Confirm) where
  -- asyncio.run(_stream(publisher)), whose first statement makes the client
  abbrev pub run_stream : Try String → List Round → Stream Bytes → End × Stream Bytes
  run_stream (ok url) rounds s = stream pydantic dump broker rounds s
  run_stream (raised e) rounds s = (crashed e, s)

  abbrev pub with_publisher : Try Config → Try (Unit {0}) → Setup → MainEnd Bytes
  with_publisher (raised e) connect setup = not_started e
  with_publisher (ok config) (raised e) setup = not_started e
  with_publisher (ok config) (ok _) setup =
      after_stream setup
        (run_stream (client_url none setup.websocket_url) setup.rounds fresh_stream)

  abbrev pub with_metrics : Try (Unit {0}) × Servers → Setup → MainEnd Bytes × Servers
  with_metrics (raised e, servers) setup = (not_started e, servers)
  with_metrics (ok _, servers) setup = (
    with_publisher
        (configure setup.amqp_url setup.exchange setup.routing_key setup.amqp_url setup.exchange
          setup.routing_key)
        setup.connect setup,
    servers,
  )

  unfoldable pub main : Setup → Servers → MainEnd Bytes × Servers
  unfolding start_metrics_server configure client_url stream wind_down
  main setup servers =
      with_metrics (start_metrics_server setup.metrics_port setup.serve servers) setup
