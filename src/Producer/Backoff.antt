-- ===== src/Producer/Backoff.antt =====
-- producer/utils.py
use native.Mathlib.Nat.{pow-suc}
use crypto_streaming_lakehou.Base.{
  ℕ, zero, suc, ◌*◌, ◌^◌, ◌≤◌, ◌<◌, min, ◌≡◌, refl, ap, ◌∙◌, ◌⊎◌, inl, inr, Try, ok, raised,
  value_error, arith,
}
use crypto_streaming_lakehou.Base.Int.{ℤ, pos, negsuc, ◌<ℤ◌}

-- `base` and `max_delay` are lengths of time in seconds.
unfoldable pub exponential_backoff : ℤ → ℕ → ℕ → Try ℕ
exponential_backoff (negsuc n) base max_delay = raised value_error
exponential_backoff (pos attempt) base max_delay = ok (min (base * 2 ^ attempt) max_delay)

doubled : (base p m : ℕ) → min (base * (p * 2)) m ≡ min (2 * min (base * p) m) m
doubled base p m = omega arith

ok_injective : {a b : ℕ} → ok a ≡ ok b → a ≡ b
ok_injective h = cc

-- For an attempt that has a delay, the next attempt's delay is twice that one, and the first delay
-- is the base, both up to the cap.
exponential_backoff-suc :
    (attempt base max_delay d : ℕ)
    → exponential_backoff (pos attempt) base max_delay ≡ ok d
    → (exponential_backoff (pos 0) base max_delay ≡ ok (min base max_delay))
      × (exponential_backoff (pos (suc attempt)) base max_delay ≡ ok (min (2 * d) max_delay))
unfolding exponential_backoff
exponential_backoff-suc attempt base max_delay d h = (
  ap ok (omega arith),
  ap ok (
      rw (pow-suc 2 attempt)
        (doubled base (2 ^ attempt) max_delay ∙ ap (λ x. min (2 * x) max_delay) (ok_injective h))),
)

pow_pos : (n : ℕ) → 0 < 2 ^ n
pow_pos zero = omega arith
pow_pos (suc n) = omega (arith, pow-suc 2 n, pow_pos n)

positive : (base p m : ℕ) → 0 < base → 0 < p → 0 < m → 0 < min (base * p) m
positive base p m hb hp hm = grind arith

-- Every attempt number that is not negative has a delay, of at least one second and at most the
-- cap, if base and cap are at least one second; a negative one raises ValueError.
pub exponential_backoff_bounds :
    (attempt : ℤ) (base max_delay : ℕ)
    → 0 < base
    → 0 < max_delay
    → ((attempt <ℤ pos 0) × (exponential_backoff attempt base max_delay ≡ raised value_error))
      ⊎ ((d : ℕ) × (exponential_backoff attempt base max_delay ≡ ok d) × (0 < d) × (d ≤ max_delay))
unfolding exponential_backoff
exponential_backoff_bounds (negsuc n) base max_delay hb hm = inl (omega arith, refl)
exponential_backoff_bounds (pos n) base max_delay hb hm = inr (
  min (base * 2 ^ n) max_delay,
  refl,
  positive base (2 ^ n) max_delay hb (pow_pos n) hm,
  omega arith,
)
