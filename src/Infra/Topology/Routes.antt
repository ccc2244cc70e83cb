-- ===== src/Infra/Topology/Routes.antt =====
-- What infra/rabbitmq_setup.py leaves on the server.
use crypto_streaming_lakehou.Base.{
  ℕ, zero, suc, text_eq, ◌≡◌, ◌≢◌, refl, subst, ap, ◌∙◌, String, Bool, true, false, Option, some,
  none, Try, ok, raised, arith, if◌then◌else◌,
}
use crypto_streaming_lakehou.Infra.Topology.{
  exchange, queue, dlq, routing_key, dlq_routing_key, QueueArgs, queue_args, Connect, opened,
  refused, broken, Waited, wait, no_wait, connect_retries, after_connect, connect_loop, Ending,
  returned, exited, crashed, ChannelCall, exchange_declare, queue_declare, queue_bind, then_calls,
  perform_all, declare_topology, after_topology, finish, exit_zero, with_connection, get_connection,
  main,
}

-- What RabbitMQ documents of these calls: which queues an exchange passes a message with this key
-- to, and the arguments of the queues. A call that returns has its effect, and none of them undoes
-- an earlier binding or changes the arguments of a queue.
pub record Rabbit {Server : Type 0} (perform : ChannelCall → Server → Try (Unit {0}) × Server)
    : Type 1 where
  pub Routes : String → String → String → Server → Type 0
  pub args_of : String → Server → Option QueueArgs
  pub bind_routes :
      (q x key : String) (c : Server)
      → (perform (queue_bind q x key) c).0 ≡ ok tt
      → Routes x key q (perform (queue_bind q x key) c).1
  pub declare_args :
      (q : String) (args : QueueArgs) (c : Server)
      → (perform (queue_declare q (some args)) c).0 ≡ ok tt
      → args_of q (perform (queue_declare q (some args)) c).1 ≡ some args
  pub keeps_routes :
      (call : ChannelCall) (x key q : String) (c : Server)
      → Routes x key q c
      → Routes x key q (perform call c).1
  pub bind_keeps_args :
      (q x key p : String) (c : Server) → args_of p (perform (queue_bind q x key) c).1 ≡ args_of p c

module _ {Server : Type 0} (perform : ChannelCall → Server → Try (Unit {0}) × Server)
    (rabbit : Rabbit perform) where
  open rabbit use {Routes, args_of, bind_routes, declare_args, keeps_routes, bind_keeps_args}

  -- A call that returns, and the calls after it
  first_returns :
      (p : Try (Unit {0}) × Server) (next : Server → Try (Unit {0}) × Server) (c' : Server)
      → then_calls perform p next ≡ (ok tt, c')
      → (p.0 ≡ ok tt) × (next p.1 ≡ (ok tt, c'))
  first_returns (ok _, c) next c' h = (refl, h)
  first_returns (raised e, c) next c' h = cc

  -- Trades reach the main queue, and what it rejects reaches the dead-letter queue.
  pub record IsSetUp (c : Server) : Type 0 where
    pub trades_route : Routes exchange routing_key queue c
    pub args_set : args_of queue c ≡ some queue_args
    pub dead_letters_route :
        Routes queue_args.dead_letter_exchange queue_args.dead_letter_routing_key dlq c

  declared : (c c' : Server) → declare_topology perform c ≡ (ok tt, c') → IsSetUp c'
  unfolding declare_topology perform_all
  declared c c' h =
      let x = perform (exchange_declare exchange) c in
      let d = perform (queue_declare dlq none) x.1 in
      let b = perform (queue_bind dlq exchange dlq_routing_key) d.1 in
      let m = perform (queue_declare queue (some queue_args)) b.1 in
      let n = perform (queue_bind queue exchange routing_key) m.1 in
      let (xs, h1) = first_returns x _ c' h in
      let (ds, h2) = first_returns d _ c' h1 in
      let (bs, h3) = first_returns b _ c' h2 in
      let (ms, h4) = first_returns m _ c' h3 in
      let (ns, h5) = first_returns n _ c' h4 in
      let set_up : IsSetUp n.1 = record {
        trades_route = bind_routes queue exchange routing_key m.1 ns;
        args_set =
            bind_keeps_args queue exchange routing_key queue m.1
            ∙ declare_args queue queue_args b.1 ms;
        dead_letters_route =
            keeps_routes (queue_bind queue exchange routing_key) exchange dlq_routing_key dlq m.1 (
              keeps_routes (queue_declare queue (some queue_args)) exchange dlq_routing_key dlq b.1
                (bind_routes dlq exchange dlq_routing_key d.1 bs));
      } in
      subst IsSetUp (ap (λ p. p.1) h5) set_up

  only_after_topology :
      (r : Try (Unit {0})) (is_open : Bool) (close : Try (Unit {0}))
      → exit_zero perform (finish perform (after_topology perform r) is_open close) ≡ exited 0
      → r ≡ ok tt
  unfolding after_topology finish
  only_after_topology (ok _) is_open close h = refl
  only_after_topology (raised e) is_open close h = ground arith

  exits_zero :
      (w : Ending (Unit {0})) (channel : Try (Unit {0})) (is_open : Bool) (close : Try (Unit {0}))
      (c c' : Server)
      → w ≢ exited 0
      → with_connection perform w channel is_open close c ≡ (exited 0, c')
      → IsSetUp c'
  unfolding with_connection
  exits_zero (exited code) channel is_open close c c' fails h = absurd (fails (ap (λ p. p.0) h))
  exits_zero (crashed e) channel is_open close c c' fails h = cc
  exits_zero (returned _) (raised e) is_open close c c' fails h =
      cc (only_after_topology (raised e) is_open close (ap (λ p. p.0) h))
  exits_zero (returned _) (ok _) is_open close c c' fails h =
      let result = declare_topology perform c in
      let all = only_after_topology result.0 is_open close (ap (λ p. p.0) h) in
      declared c c' (both result all (ap (λ p. p.1) h))
    where
      both : (p : Try (Unit {0}) × Server) → p.0 ≡ ok tt → p.1 ≡ c' → p ≡ (ok tt, c')
      both (r, s) e f = rw (e, f) refl

  after_connect-fails :
      (k : Connect) (w : Waited) (rest : Ending (Unit {0}) × Waited)
      → rest.0 ≢ exited 0
      → (after_connect k w rest).0 ≢ exited 0
  unfolding after_connect
  after_connect-fails opened w rest fails = λ h. cc h
  after_connect-fails refused w rest fails = fails
  after_connect-fails (broken e) w rest fails = λ h. cc h

  connect_loop-fails :
      (connects : ℕ → Connect) (left : ℕ) (w : Waited) → (connect_loop connects left w).0 ≢ exited 0
  unfolding connect_loop
  connect_loop-fails connects zero w = λ h. cc h
  connect_loop-fails connects (suc left) w =
      after_connect-fails (connects w.attempts) w (connect_loop connects left (wait w))
        (connect_loop-fails connects left (wait w))

  get_connection-fails :
      (url : Option String) (connects : ℕ → Connect) → (get_connection url connects).0 ≢ exited 0
  unfolding get_connection
  get_connection-fails none connects = λ h. cc h
  get_connection-fails (some url) connects = either (text_eq url "")
    where
      either :
          (b : Bool)
          → (if b then (exited 1, no_wait) else connect_loop connects connect_retries no_wait).0
            ≢ exited 0
      either true = λ h. cc h
      either false = connect_loop-fails connects connect_retries no_wait

  -- If the script exits with 0, then, whatever failed on the way and whatever the server held
  -- before, the exchange passes trades to the main queue, this queue has its limits and its
  -- dead-letter exchange and key, and the exchange passes messages with that key to the dead-letter
  -- queue. The server is assumed to do what RabbitMQ documents of the calls.
  pub main-IsSetUp :
      (url : Option String) (connects : ℕ → Connect) (channel : Try (Unit {0})) (is_open : Bool)
      (close : Try (Unit {0})) (c c' : Server)
      → main perform url connects channel is_open close c ≡ (exited 0, c')
      → IsSetUp c'
  unfolding main
  main-IsSetUp url connects channel is_open close c c' h =
      exits_zero (get_connection url connects).0 channel is_open close c c'
        (get_connection-fails url connects) h
