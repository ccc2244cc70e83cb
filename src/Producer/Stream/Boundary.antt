-- ===== src/Producer/Stream/Boundary.antt =====
-- What producer/main.py hands to the broker and to the retry queue.
use crypto_streaming_lakehou.Base.{
  ℕ, zero, suc, ◌+◌, ◌-◌, ◌≡◌, refl, sym, subst, Bool, true, false, List, [], ◌∷◌, ◌++◌, All, drop,
  length, Try, ok, raised, arith,
}
use crypto_streaming_lakehou.Base.Json.{Json}
use crypto_streaming_lakehou.Producer.Trade.{TradeMessage, Pydantic, validate}
use crypto_streaming_lakehou.Producer.Trade.Validation.{IsClean, validate-IsClean}
use crypto_streaming_lakehou.Producer.Publisher.{
  Confirm, Publisher, publish, append_bounded, retry_queue_max,
}
use crypto_streaming_lakehou.Producer.Publisher.Delivery.{Settles, publish-Settles}
use crypto_streaming_lakehou.Producer.Stream.{
  Stream, and_then, after_publish, validate_and_publish, on_validation_error, increment_received,
  increment_valid, increment_invalid, process_trade, process_message,
}
use crypto_streaming_lakehou.Producer.Stream.Traversal.{IsSequential, message_leads}

module _ {A : Type 0} (P : A → Type 0) where
  All-append : (xs : List A) (y : A) → All P xs → P y → All P (xs ++ y ∷ [])
  All-append [] y h p = (p, tt)
  All-append (x ∷ xs) y h p = (h.0, All-append xs y h.1 p)

  All-drop : (n : ℕ) (xs : List A) → All P xs → All P (drop n xs)
  All-drop zero xs h = h
  All-drop (suc n) [] h = tt
  All-drop (suc n) (x ∷ xs) h = All-drop n xs h.1

module _ {Bytes : Type 0} (pydantic : Pydantic) (dump : TradeMessage → Bytes)
    (broker : ℕ → Confirm) where
  -- The bytes of a clean message
  abbrev pub IsCleanDump : Bytes → Type 0
  IsCleanDump m = (t : TradeMessage) × IsClean t × (m ≡ dump t)

  abbrev pub HoldsClean : Publisher Bytes → Type 0
  HoldsClean p = All IsCleanDump p.confirmed × All IsCleanDump p.retry_queue

  -- Code keeps the outgoing messages clean.
  abbrev pub KeepsClean : Stream Bytes → Try (Unit {0}) × Stream Bytes → Type 0
  KeepsClean s (r, t) = HoldsClean s.publisher → HoldsClean t.publisher

  in_sequence_clean :
      (s : Stream Bytes) (first : Try (Unit {0}) × Stream Bytes)
      (next : Stream Bytes → Try (Unit {0}) × Stream Bytes)
      → KeepsClean s first
      → ((t : Stream Bytes) → KeepsClean t (next t))
      → KeepsClean s (and_then first next)
  in_sequence_clean s (raised e, t) next h k = h
  in_sequence_clean s (ok _, t) next h k = λ c. k t (h c)

  pub KeepsClean-IsSequential : IsSequential KeepsClean
  KeepsClean-IsSequential = record { unchanged = λ r s h. h; in_sequence = in_sequence_clean }

  settled_clean :
      (m : Bytes) (p : Publisher Bytes) (x : Try Bool × Publisher Bytes)
      → Settles m p x
      → IsCleanDump m
      → HoldsClean p
      → HoldsClean x.1
  unfolding append_bounded
  settled_clean m p (ok true, q) (e, f) clean h = (
    subst (All IsCleanDump) (sym e) (All-append IsCleanDump p.confirmed m h.0 clean),
    subst (All IsCleanDump) (sym f) h.1,
  )
  settled_clean m p (ok false, q) (e, f) clean h = (
    subst (All IsCleanDump) (sym e) h.0,
    subst (All IsCleanDump) (sym f) (
        All-drop IsCleanDump (length p.retry_queue + 1 - retry_queue_max) (p.retry_queue ++ m ∷ [])
          (All-append IsCleanDump p.retry_queue m h.1 clean)),
  )
  settled_clean m p (raised x, q) (e, f) clean h =
      (subst (All IsCleanDump) (sym e) h.0, subst (All IsCleanDump) (sym f) h.1)

  after_publish_keeps :
      (s : Stream Bytes) (x : Try Bool × Publisher Bytes)
      → (after_publish pydantic dump broker s x).1.publisher ≡ x.1
  unfolding after_publish
  after_publish_keeps s (ok b, p) = refl
  after_publish_keeps s (raised e, p) = refl

  on_error_keeps :
      (x : Try (Unit {0}) × Stream Bytes) → (on_validation_error x).1.publisher ≡ x.1.publisher
  unfolding on_validation_error increment_invalid
  on_error_keeps (ok _, s) = refl
  on_error_keeps (raised e, s) = ground arith

  validated_clean :
      (r : Try TradeMessage) (s : Stream Bytes)
      → ((t : TradeMessage) → r ≡ ok t → IsClean t)
      → HoldsClean s.publisher
      → HoldsClean (validate_and_publish pydantic dump broker r s).1.publisher
  unfolding validate_and_publish increment_valid
  validated_clean (raised e) s clean h = h
  validated_clean (ok t) s clean h =
      subst HoldsClean
        (sym (after_publish_keeps (increment_valid s) (publish broker (dump t) s.publisher)))
        (settled_clean (dump t) s.publisher (publish broker (dump t) s.publisher)
          (publish-Settles broker (dump t) s.publisher).0 (t, clean t refl, refl) h)

  trade_clean :
      (trade : Json) (s : Stream Bytes) → KeepsClean s (process_trade pydantic dump broker trade s)
  unfolding process_trade increment_received
  trade_clean trade s h =
      subst HoldsClean
        (sym (
          on_error_keeps (
            validate_and_publish pydantic dump broker (validate pydantic trade)
              (increment_received s))))
        (validated_clean (validate pydantic trade) (increment_received s)
          (validate-IsClean pydantic trade) h)

  -- If all messages that the broker has confirmed and all in the retry queue are the bytes of clean
  -- trades, they are so after a message too, whatever the message holds and the broker does.
  pub process_message-HoldsClean :
      (v : Json) (s : Stream Bytes)
      → HoldsClean s.publisher
      → HoldsClean (process_message pydantic dump broker v s).1.publisher
  process_message-HoldsClean v s h =
      message_leads pydantic dump broker KeepsClean KeepsClean-IsSequential trade_clean v s h
