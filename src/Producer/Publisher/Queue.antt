-- ===== src/Producer/Publisher/Queue.antt =====
-- The retry queue of producer/publisher.py over many messages.
use crypto_streaming_lakehou.Base.{
  ℕ, suc, ◌+◌, ◌-◌, ◌≤◌, ◌<◌, ◌≡◌, refl, sym, ap, ◌∙◌, append-nil, append_assoc, Bool, true, false,
  List, [], ◌∷◌, ◌++◌, length, length-append, length-drop, drop, Try, ok, raised, arith,
}
use crypto_streaming_lakehou.Producer.Publisher.{
  Confirm, Publisher, append_bounded, publish, retry_queue_max,
}
use crypto_streaming_lakehou.Producer.Publisher.Delivery.{Settles, publish-Settles}

drop-cons {ℓ} : {A : Type ℓ} (n k : ℕ) (x : A) (q : List A) → n ≡ suc k → drop n (x ∷ q) ≡ drop k q
drop-cons n k x q e = rw e refl

-- deque(maxlen=n): below its limit the queue grows, and at its limit the oldest element is dropped.
append_bounded-room {ℓ} :
    {A : Type ℓ} (n : ℕ) (x : A) (q : List A) → length q < n → append_bounded n x q ≡ q ++ x ∷ []
unfolding append_bounded
append_bounded-room n x q h = let e : length q + 1 - n ≡ 0 = omega arith in rw e refl

append_bounded-full {ℓ} :
    {A : Type ℓ} (n : ℕ) (x oldest : A) (q : List A)
    → length (oldest ∷ q) ≡ n
    → append_bounded n x (oldest ∷ q) ≡ q ++ x ∷ []
unfolding append_bounded
append_bounded-full n x oldest q h = let e : suc (length q) + 1 - n ≡ 1 = omega arith in rw e refl

length-append_bounded {ℓ} :
    {A : Type ℓ} (n : ℕ) (x : A) (q : List A) → length q ≤ n → length (append_bounded n x q) ≤ n
unfolding append_bounded
length-append_bounded n x q h =
    rw (length-drop (length q + 1 - n) (q ++ x ∷ [])) (omega (arith, length-append q (x ∷ [])))

abbrev pub IsBounded : {Bytes : Type 0} → Publisher Bytes → Type 0
IsBounded p = length p.retry_queue ≤ retry_queue_max

-- Two lists that one list is made of, in the order of each
pub data Merges {Bytes : Type 0} : List Bytes → List Bytes → List Bytes → Type 0 where
  nothing : Merges [] [] []
  to_first : (m : Bytes) (xs ys ms : List Bytes) → Merges xs ys ms → Merges (m ∷ xs) ys (m ∷ ms)
  to_second : (m : Bytes) (xs ys ms : List Bytes) → Merges xs ys ms → Merges xs (m ∷ ys) (m ∷ ms)

-- Each of the messages is confirmed or held, once, behind those that were so before.
pub record Kept {Bytes : Type 0} (ms : List Bytes) (p p' : Publisher Bytes) : Type 0 where
  pub sent : List Bytes
  pub held : List Bytes
  pub confirmed : p'.confirmed ≡ p.confirmed ++ sent
  pub retry_queue : p'.retry_queue ≡ p.retry_queue ++ held
  pub split : Merges sent held ms

-- What follows a message that did not raise
abbrev and_then :
    {Bytes : Type 0}
    → Try Bool × Publisher Bytes
    → (Publisher Bytes → Try (Unit {0}) × Publisher Bytes)
    → Try (Unit {0}) × Publisher Bytes
and_then (ok b, p) next = next p
and_then (raised e, p) next = (raised e, p)

module _ {Bytes : Type 0} where
  Settles-IsBounded :
      (m : Bytes) (p : Publisher Bytes) (r : Try Bool) (p' : Publisher Bytes)
      → Settles m p (r, p')
      → IsBounded p
      → IsBounded p'
  Settles-IsBounded m p (ok true) p' s h = omega (arith, ap length s.1)
  Settles-IsBounded m p (ok false) p' s h =
      omega (arith, ap length s.1, length-append_bounded retry_queue_max m p.retry_queue h)
  Settles-IsBounded m p (raised e) p' s h = omega (arith, ap length s.1)

  -- With room in the queue, a message that is not lost to an exception goes to one of the two.
  Settles-Kept :
      (m : Bytes) (p : Publisher Bytes) (b : Bool) (p' : Publisher Bytes)
      → Settles m p (ok b, p')
      → length p.retry_queue < retry_queue_max
      → Kept (m ∷ []) p p' × (length p'.retry_queue ≤ length p.retry_queue + 1)
  Settles-Kept m p true p' s h = (
    record {
      sent = m ∷ [];
      held = [];
      confirmed = s.0;
      retry_queue = s.1 ∙ sym (append-nil p.retry_queue);
      split = to_first m [] [] [] nothing;
    },
    omega (arith, ap length s.1),
  )
  Settles-Kept m p false p' s h =
      let grown = s.1 ∙ append_bounded-room retry_queue_max m p.retry_queue h in
      (
        record {
          sent = [];
          held = m ∷ [];
          confirmed = s.0 ∙ sym (append-nil p.confirmed);
          retry_queue = grown;
          split = to_second m [] [] [] nothing;
        },
        omega (arith, ap length grown, length-append p.retry_queue (m ∷ [])),
      )

  Merges-append :
      (xs ys ms xs' ys' ms' : List Bytes)
      → Merges xs ys ms
      → Merges xs' ys' ms'
      → Merges (xs ++ xs') (ys ++ ys') (ms ++ ms')
  Merges-append _ _ _ xs' ys' ms' nothing h = h
  Merges-append _ _ _ xs' ys' ms' (to_first m xs ys ms k) h =
      to_first m (xs ++ xs') (ys ++ ys') (ms ++ ms') (Merges-append xs ys ms xs' ys' ms' k h)
  Merges-append _ _ _ xs' ys' ms' (to_second m xs ys ms k) h =
      to_second m (xs ++ xs') (ys ++ ys') (ms ++ ms') (Merges-append xs ys ms xs' ys' ms' k h)

  Kept-append :
      (ms ms' : List Bytes) (p q r : Publisher Bytes)
      → Kept ms p q
      → Kept ms' q r
      → Kept (ms ++ ms') p r
  Kept-append ms ms' p q r one more = record {
    sent = one.sent ++ more.sent;
    held = one.held ++ more.held;
    confirmed =
        more.confirmed
        ∙ ap (λ l. l ++ more.sent) one.confirmed
        ∙ append_assoc p.confirmed one.sent more.sent;
    retry_queue =
        more.retry_queue
        ∙ ap (λ l. l ++ more.held) one.retry_queue
        ∙ append_assoc p.retry_queue one.held more.held;
    split = Merges-append one.sent one.held ms more.sent more.held ms' one.split more.split;
  }

module _ {Bytes : Type 0} (broker : ℕ → Confirm) where
  -- Publishing one message after the other; an exception ends it.
  unfoldable pub publish_all : List Bytes → Publisher Bytes → Try (Unit {0}) × Publisher Bytes
  publish_all [] p = (ok tt, p)
  publish_all (m ∷ ms) p = and_then (publish broker m p) (λ p'. publish_all ms p')

  abbrev KeptIfOk : List Bytes → Publisher Bytes → Try (Unit {0}) × Publisher Bytes → Type 0
  KeptIfOk ms p (r, p') = r ≡ ok tt → Kept ms p p'

  and_then-Kept :
      (m : Bytes) (ms : List Bytes) (p : Publisher Bytes) (r : Try Bool × Publisher Bytes)
      → Settles m p r
      → length p.retry_queue + suc (length ms) ≤ retry_queue_max
      → ((p' : Publisher Bytes)
          → length p'.retry_queue + length ms ≤ retry_queue_max
          → KeptIfOk ms p' (publish_all ms p'))
      → KeptIfOk (m ∷ ms) p (and_then r (λ p'. publish_all ms p'))
  and_then-Kept m ms p (ok b, p') s room next h =
      let (one, grown) = Settles-Kept m p b p' s (omega arith) in
      Kept-append (m ∷ []) ms p p' (publish_all ms p').1 one (next p' (omega arith) h)
  and_then-Kept m ms p (raised e, p') s room next h = cc

  -- As long as there is room for all messages and none is lost to an exception other than an
  -- AMQPError, every message is confirmed by the broker or held in the queue, and not both,
  -- whatever the broker answers: the confirmed messages come behind those that were confirmed
  -- before, the held ones behind those that were held, each in the order of the messages, and
  -- together they are the messages.
  pub publish_all_keeps :
      (ms : List Bytes) (p : Publisher Bytes)
      → length p.retry_queue + length ms ≤ retry_queue_max
      → (publish_all ms p).0 ≡ ok tt
      → Kept ms p (publish_all ms p).1
  unfolding publish_all
  publish_all_keeps [] p room h = record {
    sent = [];
    held = [];
    confirmed = sym (append-nil p.confirmed);
    retry_queue = sym (append-nil p.retry_queue);
    split = nothing;
  }
  publish_all_keeps (m ∷ ms) p room h =
      and_then-Kept m ms p (publish broker m p) (publish-Settles broker m p).0 room
        (publish_all_keeps ms) h

  and_then-IsBounded :
      (ms : List Bytes) (r : Try Bool × Publisher Bytes)
      → IsBounded r.1
      → ((p' : Publisher Bytes) → IsBounded p' → IsBounded (publish_all ms p').1)
      → IsBounded (and_then r (λ p'. publish_all ms p')).1
  and_then-IsBounded ms (ok b, p') h next = next p' h
  and_then-IsBounded ms (raised e, p') h next = h

  -- However the broker answers, a queue of at most 1000 messages never comes to hold more.
  pub publish_all-IsBounded :
      (ms : List Bytes) (p : Publisher Bytes) → IsBounded p → IsBounded (publish_all ms p).1
  unfolding publish_all
  publish_all-IsBounded [] p h = h
  publish_all-IsBounded (m ∷ ms) p h =
      let r = publish broker m p in
      and_then-IsBounded ms r (Settles-IsBounded m p r.0 r.1 (publish-Settles broker m p).0 h)
        (publish_all-IsBounded ms)
