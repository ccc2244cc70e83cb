-- ===== src/Infra/Topology.antt =====
-- infra/rabbitmq_setup.py
pub mod Connecting
pub mod Routes
use crypto_streaming_lakehou.Base.{
  ℕ, zero, suc, ◌+◌, String, Bool, true, false, Option, none, some, List, [], ◌∷◌, ltb, text_eq,
  Try, ok, raised, Exception, unroutable_error, amqp_error, ◌>>=◌, if◌then◌else◌,
}

abbrev pub exchange : String
exchange = "crypto.trades.exchange"

abbrev pub queue : String
queue = "crypto.trades.queue"

abbrev pub dlq : String
dlq = "crypto.trades.dlq"

abbrev pub routing_key : String
routing_key = "trades.raw"

abbrev pub dlq_routing_key : String
dlq_routing_key = "trades.dead"

-- The arguments of a queue
pub record QueueArgs : Type 0 where
  pub dead_letter_exchange : String
  pub dead_letter_routing_key : String
  pub message_ttl : ℕ
  pub max_length : ℕ
  pub max_length_bytes : ℕ

abbrev pub queue_args : QueueArgs
queue_args = record {
  dead_letter_exchange = exchange;
  dead_letter_routing_key = dlq_routing_key;
  message_ttl = 1800000;
  max_length = 100000;
  max_length_bytes = 524288000;
}

abbrev pub connect_retries : ℕ
connect_retries = 5

abbrev pub connect_delay : ℕ
connect_delay = 5

-- How pika.BlockingConnection ends: a connection, AMQPConnectionError, or something else.
pub data Connect : Type 0 where
  opened : Connect
  refused : Connect
  broken : Exception → Connect

-- How a function of the script ends: it returns, it calls sys.exit, or an exception leaves it.
pub data Ending (A : Type 0) : Type 0 where
  returned : A → Ending A
  exited : ℕ → Ending A
  crashed : Exception → Ending A

-- The attempts made, and the seconds slept
pub record Waited : Type 0 where
  pub attempts : ℕ
  pub slept : ℕ

-- `if attempt < CONNECT_RETRIES`, after the attempt has failed
abbrev pub wait : Waited → Waited
wait w = record {
  attempts = w.attempts + 1;
  slept = if ltb (w.attempts + 1) connect_retries then w.slept + connect_delay else w.slept;
}

after_connect : Connect → Waited → Ending (Unit {0}) × Waited → Ending (Unit {0}) × Waited
after_connect opened w rest = (returned tt, record w { attempts = w.attempts + 1 })
after_connect refused w rest = rest
after_connect (broken e) w rest = (crashed e, record w { attempts = w.attempts + 1 })

-- The loop, with this many attempts left; `connects i` is how the i-th attempt ends.
unfoldable pub connect_loop : (ℕ → Connect) → ℕ → Waited → Ending (Unit {0}) × Waited
unfolding after_connect
connect_loop connects zero w = (exited 1, w)
connect_loop connects (suc left) w =
    let rest = connect_loop connects left (wait w) in after_connect (connects w.attempts) w rest

abbrev pub no_wait : Waited
no_wait = record { attempts = 0; slept = 0 }

unfoldable pub get_connection : Option String → (ℕ → Connect) → Ending (Unit {0}) × Waited
unfolding connect_loop
get_connection none connects = (exited 1, no_wait)
get_connection (some url) connects =
    if text_eq url "" then (exited 1, no_wait) else connect_loop connects connect_retries no_wait

-- A call on the channel
pub data ChannelCall : Type 0 where
  -- of a durable direct exchange
  exchange_declare : String → ChannelCall
  -- of a durable queue
  queue_declare : String → Option QueueArgs → ChannelCall
  -- of a queue to an exchange with a routing key
  queue_bind : String → String → String → ChannelCall

-- `except pika.exceptions.AMQPError`
abbrev pub is_amqp : Exception → Bool
is_amqp unroutable_error = true
is_amqp amqp_error = true
is_amqp _ = false

module _ {Server : Type 0} (perform : ChannelCall → Server → Try (Unit {0}) × Server) where
  -- What follows a call runs unless that call raised.
  abbrev pub then_calls :
      Try (Unit {0}) × Server → (Server → Try (Unit {0}) × Server) → Try (Unit {0}) × Server
  then_calls (ok _, c) next = next c
  then_calls (raised e, c) next = (raised e, c)

  unfoldable pub perform_all : List ChannelCall → Server → Try (Unit {0}) × Server
  perform_all [] c = (ok tt, c)
  perform_all (call ∷ calls) c = then_calls (perform call c) (perform_all calls)

  unfoldable pub declare_topology : Server → Try (Unit {0}) × Server
  unfolding perform_all
  declare_topology c =
      perform_all
        (exchange_declare exchange
          ∷ queue_declare dlq none
          ∷ queue_bind dlq exchange dlq_routing_key
          ∷ queue_declare queue (some queue_args)
          ∷ queue_bind queue exchange routing_key
          ∷ [])
        c

  -- The `try` block and its `except`
  after_topology : Try (Unit {0}) → Ending (Unit {0})
  after_topology (ok _) = returned tt
  after_topology (raised e) = if is_amqp e then exited 1 else crashed e

  -- The `finally` block, where an exception of close() replaces what came before.
  finish : Ending (Unit {0}) → Bool → Try (Unit {0}) → Ending (Unit {0})
  finish ending false close = ending
  finish ending true (ok _) = ending
  finish ending true (raised e) = crashed e

  -- sys.exit(0) at the end
  abbrev pub exit_zero : Ending (Unit {0}) → Ending (Unit {0})
  exit_zero (returned _) = exited 0
  exit_zero (exited code) = exited code
  exit_zero (crashed e) = crashed e

  with_connection :
      Ending (Unit {0})
      → Try (Unit {0})
      → Bool
      → Try (Unit {0})
      → Server
      → Ending (Unit {0}) × Server
  unfolding declare_topology after_topology finish
  with_connection (returned _) channel is_open close c =
      let (r, c') = then_calls (channel, c) declare_topology in
      (exit_zero (finish (after_topology r) is_open close), c')
  with_connection (exited code) channel is_open close c = (exited code, c)
  with_connection (crashed e) channel is_open close c = (crashed e, c)

  -- `channel` is how connection.channel() ends, `is_open` what the `finally` block finds, and
  -- `close` how connection.close() ends.
  unfoldable pub main :
      Option String
      → (ℕ → Connect)
      → Try (Unit {0})
      → Bool
      → Try (Unit {0})
      → Server
      → Ending (Unit {0}) × Server
  unfolding with_connection get_connection
  main url connects channel is_open close c =
      with_connection (get_connection url connects).0 channel is_open close c
