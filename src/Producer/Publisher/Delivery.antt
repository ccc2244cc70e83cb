-- ===== src/Producer/Publisher/Delivery.antt =====
-- What becomes of a message in producer/publisher.py.
use native.Mathlib.Nat.{add-zero}
use crypto_streaming_lakehou.Base.{
  ℕ, zero, suc, ◌+◌, ◌-◌, ◌≤◌, ◌<◌, ◌≡◌, refl, ap, Bool, true, false, List, [], ◌∷◌, ◌++◌, length,
  length-append, length-drop, Try, ok, raised, arith, if◌then◌else◌, ltb,
}
use crypto_streaming_lakehou.Producer.Publisher.{
  Confirm, acked, unroutable, amqp_failed, crashed, Publisher, append_bounded, after_call, attempt,
  publish, retry_queue_max,
}

length-append_bounded {ℓ} :
    {A : Type ℓ} (n : ℕ) (x : A) (q : List A)
    → length q ≤ n
    → 0 < n
    → length (append_bounded n x q) ≡ (if ltb (length q) n then length q + 1 else n)
unfolding append_bounded
length-append_bounded n x q h pos =
    rw (length-drop (length q + 1 - n) (q ++ x ∷ [])) (ground (arith, length-append q (x ∷ [])))

-- A failure after which the loop tries again
abbrev pub is_retried : Confirm → Bool
is_retried unroutable = true
is_retried amqp_failed = true
is_retried _ = false

module _ {Bytes : Type 0} where
  -- What publishing may come to: the broker has confirmed the message; or the message is held, and
  -- the oldest one held is dropped if there is no room; or an exception that is no AMQPError leaves
  -- it in neither place.
  abbrev pub Settles : Bytes → Publisher Bytes → Try Bool × Publisher Bytes → Type 0
  Settles m p (ok true, p') =
      (p'.confirmed ≡ p.confirmed ++ m ∷ []) × (p'.retry_queue ≡ p.retry_queue)
  Settles m p (ok false, p') =
      (p'.confirmed ≡ p.confirmed)
      × (p'.retry_queue ≡ append_bounded retry_queue_max m p.retry_queue)
  Settles m p (raised e, p') = (p'.confirmed ≡ p.confirmed) × (p'.retry_queue ≡ p.retry_queue)

  after_call-Settles :
      (c : Confirm) (again : Publisher Bytes → Try Bool × Publisher Bytes) (m : Bytes)
      (p q : Publisher Bytes)
      → Settles m p (again q)
      → q.confirmed ≡ p.confirmed
      → q.retry_queue ≡ p.retry_queue
      → Settles m p (after_call c again m q)
  unfolding after_call
  after_call-Settles acked again m p q ih e f = (ap (λ l. l ++ m ∷ []) e, f)
  after_call-Settles unroutable again m p q ih e f = ih
  after_call-Settles amqp_failed again m p q ih e f = ih
  after_call-Settles (crashed x) again m p q ih e f = (e, f)

  abbrev CallsWithin : ℕ → ℕ → Try Bool × Publisher Bytes → Type 0
  CallsWithin low high (r, p) = (low ≤ p.calls) × (p.calls ≤ high)

  after_call-CallsWithin :
      (c : Confirm) (again : Publisher Bytes → Try Bool × Publisher Bytes) (m : Bytes)
      (q : Publisher Bytes) (low high : ℕ)
      → CallsWithin low high (again q)
      → low ≤ q.calls
      → q.calls ≤ high
      → CallsWithin low high (after_call c again m q)
  unfolding after_call
  after_call-CallsWithin acked again m q low high ih e f = (e, f)
  after_call-CallsWithin unroutable again m q low high ih e f = ih
  after_call-CallsWithin amqp_failed again m q low high ih e f = ih
  after_call-CallsWithin (crashed x) again m q low high ih e f = (e, f)

  after_call_retried :
      (c : Confirm) (again : Publisher Bytes → Try Bool × Publisher Bytes) (m : Bytes)
      (q : Publisher Bytes)
      → is_retried c ≡ true
      → after_call c again m q ≡ again q
  unfolding after_call
  after_call_retried acked again m q h = cc
  after_call_retried unroutable again m q h = refl
  after_call_retried amqp_failed again m q h = refl
  after_call_retried (crashed e) again m q h = cc

  after_call_acked :
      (c : Confirm) (again : Publisher Bytes → Try Bool × Publisher Bytes) (m : Bytes)
      (q : Publisher Bytes)
      → c ≡ acked
      → after_call c again m q ≡ (ok true, record q { confirmed = q.confirmed ++ m ∷ [] })
  unfolding after_call
  after_call_acked c again m q h = rw h refl

-- The next `n` calls of basic_publish fail with an AMQPError.
abbrev pub FailsFor : (ℕ → Confirm) → ℕ → ℕ → Type 0
FailsFor broker from zero = Unit
FailsFor broker from (suc n) = (is_retried (broker from) ≡ true) × FailsFor broker (from + 1) n

module _ {Bytes : Type 0} (broker : ℕ → Confirm) where
  attempt-Settles :
      (left : ℕ) (m : Bytes) (p q : Publisher Bytes)
      → q.confirmed ≡ p.confirmed
      → q.retry_queue ≡ p.retry_queue
      → Settles m p (attempt broker left m q)
  unfolding attempt
  attempt-Settles zero m p q e f = (e, ap (append_bounded retry_queue_max m) f)
  attempt-Settles (suc left) m p q e f =
      let called = record q { calls = q.calls + 1 } in
      after_call-Settles (broker q.calls) (λ r. attempt broker left m r) m p called
        (attempt-Settles left m p called e f) e f

  attempt-CallsWithin :
      (left : ℕ) (m : Bytes) (q : Publisher Bytes) (low : ℕ)
      → low ≤ q.calls
      → CallsWithin low (q.calls + left) (attempt broker left m q)
  unfolding attempt
  attempt-CallsWithin zero m q low h = omega arith
  attempt-CallsWithin (suc left) m q low h =
      let called = record q { calls = q.calls + 1 } in
      after_call-CallsWithin (broker q.calls) (λ r. attempt broker left m r) m called low
        (q.calls + suc left)
        (let (a, b) = attempt-CallsWithin left m called low (omega arith) in (a, omega (arith, b)))
        (omega arith) (omega arith)

  -- `publish` calls the broker at most three times. If it returns True, the broker has confirmed
  -- the message, once, and the retry queue is as before; if it returns False, the message is the
  -- last one of the retry queue and the broker has confirmed nothing; if an exception leaves it,
  -- which is none of pika's AMQPErrors, the message is neither confirmed nor held.
  pub publish-Settles :
      (m : Bytes) (p : Publisher Bytes)
      → Settles m p (publish broker m p) × ((publish broker m p).1.calls ≤ p.calls + 3)
  unfolding publish
  publish-Settles m p =
      (attempt-Settles 3 m p p refl refl, (attempt-CallsWithin 3 m p p.calls (omega arith)).1)

  attempt-acked :
      (left failures : ℕ) (m : Bytes) (p : Publisher Bytes)
      → failures < left
      → FailsFor broker p.calls failures
      → broker (p.calls + failures) ≡ acked
      → let (r, p') = attempt broker left m p in
        (r ≡ ok true) × (p'.confirmed ≡ p.confirmed ++ m ∷ []) × (p'.calls ≡ p.calls + failures + 1)
  unfolding attempt
  attempt-acked zero failures m p lt f a = absurd (omega arith)
  attempt-acked (suc left) zero m p lt f a =
      let called = record p { calls = p.calls + 1 } in
      rw
        (after_call_acked (broker p.calls) (λ q. attempt broker left m q) m called
          (rw add-zero at a))
        (refl, refl, omega arith)
  attempt-acked (suc left) (suc n) m p lt f a =
      let called = record p { calls = p.calls + 1 } in
      let at_next : broker (p.calls + 1 + n) ≡ acked = rw (← a) (ap broker (omega arith)) in
      let (r, kept, calls) = attempt-acked left n m called (omega arith) f.1 at_next in
      rw (after_call_retried (broker p.calls) (λ q. attempt broker left m q) m called f.0)
        (r, kept, omega (arith, calls))

  attempt_fails :
      (left : ℕ) (m : Bytes) (p : Publisher Bytes)
      → FailsFor broker p.calls left
      → let (r, p') = attempt broker left m p in (r ≡ ok false) × (p'.calls ≡ p.calls + left)
  unfolding attempt
  attempt_fails zero m p f = (refl, omega arith)
  attempt_fails (suc left) m p f =
      let called = record p { calls = p.calls + 1 } in
      let (r, calls) = attempt_fails left m called f.1 in
      rw (after_call_retried (broker p.calls) (λ q. attempt broker left m q) m called f.0)
        (r, omega (arith, calls))

  -- A message that the broker confirms at the first, second or third attempt, after AMQPErrors at
  -- the attempts before, is reported as delivered, and no attempt follows.
  pub publish_acked :
      (failures : ℕ) (m : Bytes) (p : Publisher Bytes)
      → failures < 3
      → FailsFor broker p.calls failures
      → broker (p.calls + failures) ≡ acked
      → let (r, p') = publish broker m p in
        (r ≡ ok true) × (p'.confirmed ≡ p.confirmed ++ m ∷ []) × (p'.calls ≡ p.calls + failures + 1)
  unfolding publish
  publish_acked failures m p lt f a = attempt-acked 3 failures m p lt f a

  -- After AMQPErrors at three attempts, publish gives up and reports the message as undelivered.
  publish_fails :
      (m : Bytes) (p : Publisher Bytes)
      → FailsFor broker p.calls 3
      → let (r, p') = publish broker m p in (r ≡ ok false) × (p'.calls ≡ p.calls + 3)
  unfolding publish
  publish_fails m p f = attempt_fails 3 m p f
