-- ===== src/Producer/Publisher.antt =====
-- class RabbitMQPublisher of producer/publisher.py.
pub mod Delivery
pub mod Queue
use crypto_streaming_lakehou.Base.{
  ℕ, zero, suc, ◌+◌, ◌-◌, Bool, true, false, List, [], ◌∷◌, ◌++◌, length, drop, leb, Try, ok,
  raised, ◌>>=◌, Exception, Option, none, some, String, is_some, text_eq, value_error,
  if◌then◌else◌,
}

abbrev pub max_attempts : ℕ
max_attempts = 3

abbrev pub retry_queue_max : ℕ
retry_queue_max = 1000

-- How a call of basic_publish ends, with publisher confirms: it returns on an ACK; it raises
-- UnroutableError, another AMQPError, or something else.
pub data Confirm : Type 0 where
  acked unroutable amqp_failed : Confirm
  crashed : Exception → Confirm

-- The object, and what the broker has seen of it: how many calls of basic_publish there were, and
-- the messages that it confirmed, oldest first.
pub record Publisher (Bytes : Type 0) : Type 0 where
  pub retry_queue : List Bytes
  pub calls : ℕ
  pub confirmed : List Bytes

-- deque(maxlen=n).append: the oldest elements leave when there are more than n.
unfoldable pub append_bounded {ℓ} : {A : Type ℓ} → ℕ → A → List A → List A
append_bounded n x q = drop (length q + 1 - n) (q ++ x ∷ [])

module _ {Bytes : Type 0} where
  -- After the last attempt: the message is kept for inspection.
  unfoldable pub hold : Bytes → Publisher Bytes → Try Bool × Publisher Bytes
  unfolding append_bounded
  hold message p =
      (ok false, record p { retry_queue = append_bounded retry_queue_max message p.retry_queue })

  -- One turn of the loop: a NACK or another AMQPError is logged, and the loop goes on.
  unfoldable pub after_call :
      Confirm
      → (Publisher Bytes → Try Bool × Publisher Bytes)
      → Bytes
      → Publisher Bytes
      → Try Bool × Publisher Bytes
  after_call acked again message called =
      (ok true, record called { confirmed = called.confirmed ++ message ∷ [] })
  after_call unroutable again message called = again called
  after_call amqp_failed again message called = again called
  after_call (crashed e) again message called = (raised e, called)

-- `broker i` is how the i-th call of basic_publish ends.
module _ {Bytes : Type 0} (broker : ℕ → Confirm) where
  -- The rest of the loop, with this many attempts left
  unfoldable pub attempt : ℕ → Bytes → Publisher Bytes → Try Bool × Publisher Bytes
  unfolding hold after_call
  attempt zero message p = hold message p
  attempt (suc left) message p =
      after_call (broker p.calls) (λ q. attempt left message q) message
        (record p { calls = p.calls + 1 })

  unfoldable pub publish : Bytes → Publisher Bytes → Try Bool × Publisher Bytes
  unfolding attempt
  publish message p = attempt max_attempts message p

-- `a or os.environ.get(…)`: an empty text counts as missing.
unfoldable pub or_env : Option String → Option String → Option String
or_env none env = env
or_env (some s) env = if text_eq s "" then env else some s

-- The test `if not value: raise ValueError`
unfoldable pub required : Option String → Try String
required none = raised value_error
required (some s) = if text_eq s "" then raised value_error else ok s

pub record Config : Type 0 where
  pub amqp_url : String
  pub exchange : String
  pub routing_key : String

-- The head of __init__; the three values are arguments, then environment variables.
unfoldable pub configure :
    Option String
    → Option String
    → Option String
    → Option String
    → Option String
    → Option String
    → Try Config
unfolding or_env required
configure amqp_url exchange routing_key env_url env_exchange env_key = do
  u ← required (or_env amqp_url env_url)
  x ← required (or_env exchange env_exchange)
  k ← required (or_env routing_key env_key)
  ok (record { amqp_url = u; exchange = x; routing_key = k })

-- The retry queue and the counts of a publisher that has just connected
abbrev pub connected : {Bytes : Type 0} → Publisher Bytes
connected = record { retry_queue = []; calls = 0; confirmed = [] }
