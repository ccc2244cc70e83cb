-- ===== src/Producer/Tests/Ending.antt =====
-- Runs of `main` of producer/main.py.
use crypto_streaming_lakehou.Base.{
  ℕ, ◌*◌, ◌≡◌, refl, true, false, List, [], ◌∷◌, none, some, ok, raised, arith, other,
}
use crypto_streaming_lakehou.Base.Int.{pos}
use crypto_streaming_lakehou.Base.Json.{string, object, end, field, get, get_field}
use crypto_streaming_lakehou.Shared.Metrics.{
  Servers, start_metrics_server as start_server, start_on, resolve_port,
}
use crypto_streaming_lakehou.Producer.Publisher.{Confirm, amqp_failed, configure, or_env, required}
use crypto_streaming_lakehou.Producer.Drain.{Line}
use crypto_streaming_lakehou.Producer.Drain.Timeout.{Sleeps}
use crypto_streaming_lakehou.Producer.Reconnect.{
  signal, message, Round, stream, connect_and_listen, listen, reconnect, yielded,
}
use crypto_streaming_lakehou.Producer.Stream.{handle_shutdown}
use crypto_streaming_lakehou.Producer.Main.{
  Setup, finished, start_metrics_server, client_url, close_connection, and_close, fresh_stream,
  run_stream, main,
}
use crypto_streaming_lakehou.Producer.Main.Ends.{Drained, outcome_of, is_running, main_ends}
use crypto_streaming_lakehou.Producer.Tests.{pydantic, dump}

abbrev down : ℕ → Confirm
down i = amqp_failed

abbrev clock : ℕ → ℕ
clock i = 500 * i

sleeps : Sleeps clock
sleeps = (omega arith, λ i. omega arith)

-- A connection on which a signal comes, and then a message of another channel.
abbrev one_round : Round
one_round = record {
  signal_before = false;
  signal_connecting = false;
  connect = ok tt;
  subscribe = ok tt;
  inputs = signal ∷ message (object (field "channel" (string "heartbeats") end)) ∷ [];
  close = ok tt;
}

abbrev setup : Setup
setup = record {
  metrics_port = none;
  serve = ok tt;
  amqp_url = some "amqp://rabbitmq";
  exchange = some "crypto.trades.exchange";
  routing_key = some "trades.raw";
  connect = ok tt;
  websocket_url = some "wss://exchange";
  rounds = one_round ∷ [];
  clock = clock;
  is_open = true;
  close = raised other;
}

abbrev no_server : Servers
no_server = record { started = []; listening = [] }

abbrev one_server : Servers
one_server = record { started = pos 8000 ∷ []; listening = pos 8000 ∷ [] }

serves : start_metrics_server none (ok tt) no_server ≡ (ok tt, one_server)
unfolding start_metrics_server start_server start_on resolve_port
serves = refl

configures :
    configure setup.amqp_url setup.exchange setup.routing_key setup.amqp_url setup.exchange
      setup.routing_key
    ≡ ok (record {
      amqp_url = "amqp://rabbitmq";
      exchange = "crypto.trades.exchange";
      routing_key = "trades.raw";
    })
unfolding configure or_env required
configures = refl

shuts_down :
    is_running
      (run_stream pydantic dump down
        (client_url none setup.websocket_url)
        setup.rounds
        fresh_stream).0
    ≡ false
unfolding client_url or_env required stream connect_and_listen listen reconnect yielded
    handle_shutdown get get_field
shuts_down = refl

main_ends_example :
    let r =
      run_stream pydantic dump down
        (client_url none setup.websocket_url)
        setup.rounds
        fresh_stream in
    (lines : List Line) × (main pydantic dump down setup no_server ≡ (
      finished (and_close (outcome_of r.0) (close_connection true (raised other))) (some lines) r.1,
      one_server,
    ))
    × Drained r.1.publisher lines
main_ends_example =
    main_ends pydantic dump down setup no_server one_server
      (record {
        amqp_url = "amqp://rabbitmq";
        exchange = "crypto.trades.exchange";
        routing_key = "trades.raw";
      })
      serves configures refl sleeps shuts_down
