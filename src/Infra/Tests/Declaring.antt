-- ===== src/Infra/Tests/Declaring.antt =====
-- Runs of infra/rabbitmq_setup.py over a server that logs its calls.
use crypto_streaming_lakehou.Base.{
  ℕ, zero, suc, String, text_eq, eq_refl, ◌≡◌, ◌≢◌, refl, Bool, true, false, ◌&&◌, ◌||◌, Option,
  none, some, List, [], ◌∷◌, Try, ok, arith, if◌then◌else◌,
}
use crypto_streaming_lakehou.Infra.Topology.{
  exchange, queue, dlq, routing_key, dlq_routing_key, QueueArgs, queue_args, Connect, opened,
  refused, returned, exited, ChannelCall, exchange_declare, queue_declare, queue_bind, connect_loop,
  get_connection, perform_all, declare_topology, main,
}
use crypto_streaming_lakehou.Infra.Topology.Connecting.{RefusesFirst, get_connection_lem}
use crypto_streaming_lakehou.Infra.Topology.Routes.{Rabbit, IsSetUp, main-IsSetUp}

-- The server is the list of the calls, the latest first.
abbrev perform : ChannelCall → List ChannelCall → Try (Unit {0}) × List ChannelCall
perform call log = (ok tt, call ∷ log)

abbrev is_bound : String → String → String → List ChannelCall → Bool
is_bound x key q [] = false
is_bound x key q (queue_bind p y k ∷ log) =
    (text_eq q p && text_eq x y && text_eq key k) || is_bound x key q log
is_bound x key q (_ ∷ log) = is_bound x key q log

abbrev args_in : String → List ChannelCall → Option QueueArgs
args_in q [] = none
args_in q (queue_declare p (some args) ∷ log) = if text_eq q p then some args else args_in q log
args_in q (_ ∷ log) = args_in q log

or_true : (b : Bool) → (b || true) ≡ true
or_true true = refl
or_true false = refl

still_bound :
    (call : ChannelCall) (x key q : String) (log : List ChannelCall)
    → is_bound x key q log ≡ true
    → is_bound x key q (call ∷ log) ≡ true
still_bound (queue_bind p y k) x key q log h =
    rw h (or_true (text_eq q p && text_eq x y && text_eq key k))
still_bound (exchange_declare y) x key q log h = h
still_bound (queue_declare p args) x key q log h = h

abbrev logging : Rabbit perform
logging = record {
  Routes = λ x key q log. is_bound x key q log ≡ true;
  args_of = args_in;
  bind_routes = λ q x key log h. rw (eq_refl q, eq_refl x, eq_refl key) refl;
  declare_args = λ q args log h. rw (eq_refl q) refl;
  keeps_routes = still_bound;
  bind_keeps_args = λ q x key p log. refl;
}

-- Two attempts fail, and all later ones connect.
abbrev late : ℕ → Connect
late zero = refused
late (suc zero) = refused
late (suc (suc i)) = opened

late_refuses : RefusesFirst late 2
late_refuses zero h = refl
late_refuses (suc zero) h = refl
late_refuses (suc (suc i)) h = absurd (omega (arith, h))

given : ◌≢◌ {A = String} "amqp://rabbitmq" ""
given h = cc

get_connection_lem_instance :
    get_connection (some "amqp://rabbitmq") late
    ≡ (returned tt, record { attempts = 3; slept = 10 })
get_connection_lem_instance =
    get_connection_lem "amqp://rabbitmq" late 2 given (omega arith) late_refuses (λ _. refl)

abbrev calls : List ChannelCall
calls =
    queue_bind queue exchange routing_key
    ∷ queue_declare queue (some queue_args)
    ∷ queue_bind dlq exchange dlq_routing_key
    ∷ queue_declare dlq none
    ∷ exchange_declare exchange
    ∷ []

exits_with_zero :
    main perform (some "amqp://rabbitmq") late (ok tt) true (ok tt) [] ≡ (exited 0, calls)
unfolding main get_connection connect_loop declare_topology perform_all
exits_with_zero = refl

main-IsSetUp_example : IsSetUp perform logging calls
main-IsSetUp_example =
    main-IsSetUp perform logging (some "amqp://rabbitmq") late (ok tt) true (ok tt) [] calls
      exits_with_zero
