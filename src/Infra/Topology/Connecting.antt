-- ===== src/Infra/Topology/Connecting.antt =====
-- The retries of `get_connection` in infra/rabbitmq_setup.py.
use crypto_streaming_lakehou.Base.{
  ℕ, zero, suc, ◌+◌, ◌*◌, ◌≤◌, ◌<◌, ◌≡◌, ◌≢◌, refl, String, false, some, ltb, text_eq, eq_iff,
  arith, Bool-cases, inl, inr, if◌then◌else◌,
}
use crypto_streaming_lakehou.Infra.Topology.{
  Connect, opened, refused, Ending, returned, exited, Waited, wait, after_connect, connect_loop,
  get_connection,
}

-- The first attempts, this many, end with AMQPConnectionError.
abbrev pub RefusesFirst : (ℕ → Connect) → ℕ → Type 0
RefusesFirst connects n = (i : ℕ) → i < n → connects i ≡ refused

-- How the loop ends if the first n attempts fail and the next one, if there is one, connects.
abbrev pub outcome_of : ℕ → Ending (Unit {0}) × Waited
outcome_of n =
    if ltb n 5
    then (returned tt, record { attempts = n + 1; slept = 5 * n })
    else (exited 1, record { attempts = 5; slept = 20 })

abbrev waited : ℕ → Waited
waited n = record { attempts = n; slept = if ltb n 5 then 5 * n else 20 }

wait-waited : (i : ℕ) → i < 5 → wait (waited i) ≡ waited (i + 1)
wait-waited i h = ground arith

opens :
    (connects : ℕ → Connect) (n i : ℕ) (w : Waited)
    → i ≡ n
    → n < 5
    → connects n ≡ opened
    → (rest : Ending (Unit {0}) × Waited) → w ≡ waited i
    → after_connect (connects i) w rest ≡ outcome_of n
unfolding after_connect
opens connects n i w same room o rest e = rw (e, same, o) (ground arith)

loops :
    (connects : ℕ → Connect) (n left i : ℕ)
    → i + left ≡ 5
    → i ≤ n
    → n ≤ 5
    → RefusesFirst connects n
    → (n < 5 → connects n ≡ opened)
    → connect_loop connects left (waited i) ≡ outcome_of n
unfolding connect_loop after_connect
loops connects n zero i a b c r o =
    let full : i ≡ 5 = omega (arith, a) in
    let all : n ≡ 5 = omega (arith, a, b, c) in rw (full, all) refl
loops connects n (suc left) i a b c r o = elim (Bool-cases (ltb i n)) [
  | inl more ↦
      let lt : i < n = ground arith in
      rw (r i lt, wait-waited i (omega (arith, a)))
        (loops connects n left (i + 1) (omega (arith, a)) (omega (arith, lt)) c r o)
  | inr last ↦
      let same : i ≡ n = ground arith in
      let room : n < 5 = omega (arith, a, same) in
      opens connects n i (waited i) same room (o room)
        (connect_loop connects left (wait (waited i))) refl
]

-- With a URL that is not empty: if the first n attempts fail and the next one connects, the script
-- has a connection after n + 1 attempts and 5 * n seconds; if all five attempts fail, it exits with
-- 1 after five attempts and 20 seconds.
pub get_connection_lem :
    (url : String) (connects : ℕ → Connect) (n : ℕ)
    → url ≢ ""
    → n ≤ 5
    → RefusesFirst connects n
    → (n < 5 → connects n ≡ opened)
    → get_connection (some url) connects ≡ outcome_of n
unfolding get_connection
get_connection_lem url connects n given c r o =
    let not_empty : text_eq url "" ≡ false = ground (arith, eq_iff url "") in
    rw not_empty (loops connects n 5 0 (omega arith) (omega arith) c r o)
