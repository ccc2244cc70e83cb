-- ===== src/Producer/Tests/Publishing.antt =====
-- Runs of producer/publisher.py and of the drain in producer/main.py.
use crypto_streaming_lakehou.Base.{
  ℕ, zero, suc, ◌*◌, ◌≤◌, String, ◌≡◌, refl, true, some, is_some, List, [], ◌∷◌, ◌++◌, ok, arith,
}
use crypto_streaming_lakehou.Producer.Publisher.{
  Confirm, acked, unroutable, amqp_failed, Publisher, after_call, attempt, publish,
}
use crypto_streaming_lakehou.Producer.Publisher.Delivery.{Settles, publish-Settles, publish_acked}
use crypto_streaming_lakehou.Producer.Publisher.Queue.{
  IsBounded, Kept, publish_all, publish_all_keeps, publish_all-IsBounded,
}
use crypto_streaming_lakehou.Producer.Drain.{Line, timeout, complete, drain_retry_queue}
use crypto_streaming_lakehou.Producer.Drain.Timeout.{
  Sleeps, drain_retry_queue-returns, drain_retry_queue_times_out,
}

-- The first call fails, the second is a NACK, and all later ones are confirmed.
abbrev flaky : ℕ → Confirm
flaky zero = amqp_failed
flaky (suc zero) = unroutable
flaky (suc (suc i)) = acked

abbrev down : ℕ → Confirm
down i = amqp_failed

abbrev holding : Publisher String
holding = record { retry_queue = "m0" ∷ []; calls = 0; confirmed = [] }

publish-Settles_example :
    Settles "m1" holding (publish down "m1" holding) × ((publish down "m1" holding).1.calls ≤ 3)
publish-Settles_example = publish-Settles down "m1" holding

publish_acked_instance :
    let (r, p') = publish flaky "m1" holding in
    (r ≡ ok true) × (p'.confirmed ≡ "m1" ∷ []) × (p'.calls ≡ 3)
publish_acked_instance = publish_acked flaky 2 "m1" holding (omega arith) (refl, (refl, tt)) refl

nothing_lost : (publish_all flaky ("m1" ∷ "m2" ∷ []) holding).0 ≡ ok tt
unfolding publish_all publish attempt after_call
nothing_lost = refl

publish_all_keeps_example :
    Kept ("m1" ∷ "m2" ∷ []) holding (publish_all flaky ("m1" ∷ "m2" ∷ []) holding).1
publish_all_keeps_example =
    publish_all_keeps flaky ("m1" ∷ "m2" ∷ []) holding (omega arith) nothing_lost

publish_all-IsBounded_instance : IsBounded (publish_all down ("m1" ∷ "m2" ∷ []) holding).1
publish_all-IsBounded_instance = publish_all-IsBounded down ("m1" ∷ "m2" ∷ []) holding (omega arith)

-- Half a second from each reading to the next
abbrev clock : ℕ → ℕ
clock i = 500 * i

sleeps : Sleeps clock
sleeps = (omega arith, λ i. omega arith)

drain_retry_queue-returns_instance : is_some (drain_retry_queue clock (λ _. holding)) ≡ true
drain_retry_queue-returns_instance = drain_retry_queue-returns clock (λ _. holding) sleeps

drain_retry_queue_times_out_instance :
    (lines : List Line) × (drain_retry_queue clock (λ _. holding)
      ≡ some (lines ++ timeout 1 ∷ complete ∷ []))
drain_retry_queue_times_out_instance = drain_retry_queue_times_out clock holding sleeps refl
