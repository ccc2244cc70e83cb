-- ===== src/Consumer/Main.antt =====
-- `main` of consumer/main.py, with the constructor and `close` of consumer/consumer.py and
-- start_metrics_server of consumer/metrics.py.
pub mod Ends
use crypto_streaming_lakehou.Base.{
  ℕ, Bool, true, false, List, [], Option, none, some, String, Try, ok, raised, ◌>>=◌, Exception,
  key_error, if◌then◌else◌,
}
use crypto_streaming_lakehou.Base.Int.{ℤ, pos, negsuc}
use crypto_streaming_lakehou.Base.Json.{Json}
use crypto_streaming_lakehou.Shared.Metrics.{Servers, start_metrics_server as start_server}
use crypto_streaming_lakehou.Consumer.Buffer.{BatchBuffer, init}
use crypto_streaming_lakehou.Consumer.Service.{Event, Service, consume, shut_down}

-- The environment of the process: its variables, of which the numbers are as int reads them, and
-- how the calls of the libraries end. `pika_ends` is how start_consuming ends after the events,
-- `last_insert` says whether the repository takes the batch of the last flush, and `is_open` what
-- `close` of the worker finds.
pub record Setup : Type 0 where
  pub metrics_port : Option (Try ℤ)
  pub serve : Try (Unit {0})
  pub database_url : Option String
  pub connect_database : Try (Unit {0})
  pub batch_size : Option (Try ℤ)
  pub timeout_ms : Option (Try ℤ)
  pub amqp_url : Option String
  pub queue : Option String
  pub connect_rabbitmq : Try (Unit {0})
  pub prefetch : Option (Try ℤ)
  pub basic_qos : Try (Unit {0})
  pub basic_consume : Try (Unit {0})
  pub pika_ends : Try (Unit {0})
  pub last_insert : Bool
  pub is_open : Bool
  pub close_rabbitmq : Try (Unit {0})
  pub close_database : Try (Unit {0})

-- How main ends: an exception leaves it before its `try`, or it is through, with its outcome and
-- what the process has done.
pub data MainEnd : Type 0 where
  not_started : Exception → MainEnd
  finished : Try (Unit {0}) → Service → MainEnd

-- start_metrics_server of consumer/metrics.py
unfoldable pub start_metrics_server :
    Option (Try ℤ) → Try (Unit {0}) → Servers → Try (Unit {0}) × Servers
unfolding start_server
start_metrics_server port serve s = start_server none port (pos 8001) serve s

-- os.environ[name]
abbrev pub required : Option String → Try String
required none = raised key_error
required (some value) = ok value

-- int(os.environ.get(name, default))
abbrev pub int_or : Option (Try ℤ) → ℤ → Try ℤ
int_or none default = ok default
int_or (some value) default = value

-- A negative size acts as 0 does: every length reaches it.
abbrev pub size_of : ℤ → ℕ
size_of (pos n) = n
size_of (negsuc n) = 0

-- TradeConsumer.__init__
unfoldable pub connect_worker : Setup → Try (Unit {0})
connect_worker setup =
    setup.connect_rabbitmq >>= (λ _. int_or setup.prefetch (pos 100) >>= (λ _. setup.basic_qos))

-- All that comes before the `try`: the size of the batches
unfoldable pub prepare : Setup → Try ℕ
unfolding connect_worker
prepare setup =
    required setup.database_url
    >>= (λ _. setup.connect_database)
    >>= (λ _. int_or setup.batch_size (pos 200))
    >>= (λ size.
        int_or setup.timeout_ms (pos 2000)
        >>= (λ _. required setup.amqp_url)
        >>= (λ _. required setup.queue)
        >>= (λ _. connect_worker setup)
        >>= (λ _. ok (size_of size)))

abbrev pub fresh_service : ℕ → Service
fresh_service size = record {
  shutdown_requested = false;
  shared = record { object = init size; stored = [] };
  effects = [];
}

-- The last two statements of the `finally` block; an exception replaces the one on its way.
abbrev pub close_both : Try (Unit {0}) → Try (Unit {0}) → Try (Unit {0}) → Try (Unit {0})
close_both outcome (raised e) database = raised e
close_both outcome (ok _) (raised e) = raised e
close_both outcome (ok _) (ok _) = outcome

-- TradeConsumer.close
unfoldable pub close_worker : Bool → Try (Unit {0}) → Try (Unit {0})
close_worker is_open close = if is_open then close else ok tt

unfoldable pub wind_down : Setup → Try (Unit {0}) × Service → MainEnd
unfolding shut_down close_worker
wind_down setup (outcome, s) =
    finished
      (close_both outcome (close_worker setup.is_open setup.close_rabbitmq) setup.close_database)
      (shut_down setup.last_insert s)

-- start_consuming, after its events
abbrev pub then_pika : Try (Unit {0}) → Try (Unit {0}) × Service → Try (Unit {0}) × Service
then_pika ends (ok _, s) = (ends, s)
then_pika ends (raised e, s) = (raised e, s)

module _ {Bytes : Type 0} (loads : Bytes → Try Json) where
  -- `consumer.start()`
  abbrev pub start :
      Try (Unit {0}) → Try (Unit {0}) → List (Event Bytes) → Service → Try (Unit {0}) × Service
  start (raised e) ends events s = (raised e, s)
  start (ok _) ends events s = then_pika ends (consume loads events s)

  abbrev pub prepared : Try ℕ → Setup → List (Event Bytes) → MainEnd
  prepared (raised e) setup events = not_started e
  prepared (ok size) setup events =
      wind_down setup (start setup.basic_consume setup.pika_ends events (fresh_service size))

  abbrev pub with_metrics :
      Try (Unit {0}) × Servers → Setup → List (Event Bytes) → MainEnd × Servers
  with_metrics (raised e, servers) setup events = (not_started e, servers)
  with_metrics (ok _, servers) setup events = (prepared (prepare setup) setup events, servers)

  unfoldable pub main : Setup → List (Event Bytes) → Servers → MainEnd × Servers
  unfolding start_metrics_server prepare consume wind_down
  main setup events servers =
      with_metrics (start_metrics_server setup.metrics_port setup.serve servers) setup events
