-- ===== src/Consumer/Tests/Ending.antt =====
-- Runs of `main` of consumer/main.py.
use crypto_streaming_lakehou.Base.{
  ◌≡◌, refl, true, false, [], ◌∷◌, none, some, ok, raised, amqp_error, value_error,
}
use crypto_streaming_lakehou.Base.Int.{pos}
use crypto_streaming_lakehou.Shared.Metrics.{
  Servers, start_metrics_server as start_server, start_on, resolve_port,
}
use crypto_streaming_lakehou.Consumer.Service.{Service}
use crypto_streaming_lakehou.Consumer.Main.{
  Setup, finished, start_metrics_server, connect_worker, prepare, close_both, close_worker, main,
}
use crypto_streaming_lakehou.Consumer.Main.Ends.{Accounts, main-Accounts}
use crypto_streaming_lakehou.Consumer.Tests.Working.{loads, events}

-- RabbitMQ goes away after the events.
abbrev setup : Setup
setup = record {
  metrics_port = none;
  serve = ok tt;
  database_url = some "postgres://db";
  connect_database = ok tt;
  batch_size = some (ok (pos 2));
  timeout_ms = none;
  amqp_url = some "amqp://rabbitmq";
  queue = some "crypto.trades.queue";
  connect_rabbitmq = ok tt;
  prefetch = none;
  basic_qos = ok tt;
  basic_consume = ok tt;
  pika_ends = raised amqp_error;
  last_insert = true;
  is_open = false;
  close_rabbitmq = ok tt;
  close_database = ok tt;
}

abbrev no_server : Servers
no_server = record { started = []; listening = [] }

abbrev one_server : Servers
one_server = record { started = pos 8001 ∷ []; listening = pos 8001 ∷ [] }

serves : start_metrics_server none (ok tt) no_server ≡ (ok tt, one_server)
unfolding start_metrics_server start_server start_on resolve_port
serves = refl

prepares : prepare setup ≡ ok 2
unfolding prepare connect_worker
prepares = refl

-- A size that is no number stops the process before it connects to RabbitMQ.
not_a_number :
    prepare (record setup { batch_size = some (raised value_error) }) ≡ raised value_error
unfolding prepare connect_worker
not_a_number = refl

main-Accounts_example :
    (s : Service) × (main loads setup events no_server ≡ (
      finished (close_both (raised amqp_error) (close_worker false (ok tt)) (ok tt)) s,
      one_server,
    ))
    × Accounts loads setup events s
main-Accounts_example =
    main-Accounts loads setup events no_server one_server 2 serves prepares refl
      (refl, refl, (refl, refl, tt))
