-- ===== src/Worker/Retry.antt =====
-- retryAt of worker.go: a delay that doubles up to a maximum, and a bounded jitter.
use native.Mathlib.Nat.{pow-suc, mul_comm, mul_assoc, le-mul_of_pos_right}
use index_01_hook.Base.{
  ℕ, suc, zero, ◌+◌, ◌-◌, ◌*◌, ◌/◌, ◌^◌, ◌<◌, ◌≤◌, ◌≡◌, sym, ap, ◌∙◌, arith, min, ltb,
  if◌then◌else◌, Bool-cases, inl, inr,
}
use index_01_hook.Base.Int.{ℤ, pos, negsuc}
use index_01_hook.Worker.{WorkerConfig}

-- The loop, for the attempts that are left.
unfoldable pub double_delay : ℕ → ℕ → ℕ → ℕ
double_delay maximum zero delay = delay
double_delay maximum (suc n) delay =
    let rest = double_delay maximum n (delay * 2) in
    if ltb delay maximum then (if ltb (maximum / 2) delay then maximum else rest) else delay

abbrev cap : ℕ → ℕ → ℕ
cap maximum delay = if ltb maximum delay then maximum else delay

unfoldable pub backoff_delay : ℕ → ℕ → ℕ → ℕ
unfolding double_delay
backoff_delay base maximum attempt = cap maximum (double_delay maximum (attempt - 1) base)

unfoldable pub jitter_limit : ℕ → ℕ → ℕ
jitter_limit maximum delay =
    let quarter = delay / 4 in
    let remaining = maximum - delay in if ltb remaining quarter then remaining else quarter

-- A jitter out of its bounds counts as none.
abbrev pub bounded_jitter : ℕ → ℤ → ℕ
bounded_jitter limit (pos j) = if ltb limit j then 0 else j
bounded_jitter limit (negsuc j) = 0

unfoldable pub retry_at : WorkerConfig → ℕ → ℕ → ℕ
unfolding backoff_delay jitter_limit
retry_at config now attempt =
    let delay = backoff_delay config.retry_base config.retry_maximum attempt in
    let limit = jitter_limit config.retry_maximum delay in
    now + (delay + bounded_jitter limit (config.jitter limit))

doubled : (delay n : ℕ) → delay * 2 ^ suc n ≡ delay * 2 * 2 ^ n
doubled delay n =
    ap (λ p. delay * p) (pow-suc 2 n ∙ mul_comm (2 ^ n) 2) ∙ sym (mul_assoc delay 2 (2 ^ n))

pow_positive : (n : ℕ) → 0 < 2 ^ n
pow_positive zero = omega arith
pow_positive (suc n) = let rest = pow_positive n in omega arith

min-right : (a b : ℕ) → a ≤ b → min a b ≡ a
min-right a b h = omega arith

-- The loop doubles the delay for each attempt and stops at the maximum.
double_delay-min :
    (maximum n delay : ℕ)
    → delay ≤ maximum
    → double_delay maximum n delay ≡ min maximum (delay * 2 ^ n)
unfolding double_delay
double_delay-min maximum zero delay h = omega arith
double_delay-min maximum (suc n) delay h =
    let grows : delay * 2 ≤ delay * 2 * 2 ^ n = le-mul_of_pos_right (delay * 2) (pow_positive n) in
    elim (Bool-cases (ltb delay maximum)) [
      | inr full ↦
          let at_most : maximum ≤ delay = ground arith in
          rw (full, doubled delay n, min-right maximum (delay * 2 * 2 ^ n) (omega arith))
            (omega arith)
      | inl below ↦ elim (Bool-cases (ltb (maximum / 2) delay)) [
        | inl over ↦
            let half : maximum / 2 < delay = ground arith in
            rw (below, over, doubled delay n, min-right maximum (delay * 2 * 2 ^ n) (omega arith))
        | inr under ↦
            let fits : delay ≤ maximum / 2 = ground arith in
            rw (below, under, doubled delay n)
              (double_delay-min maximum n (delay * 2) (omega arith))
      ]
    ]

-- With a base that is at most the maximum, the doubling loop computes the least of the maximum and
-- the base doubled once for each attempt before.
pub backoff_delay-min :
    (base maximum attempt : ℕ)
    → base ≤ maximum
    → backoff_delay base maximum attempt ≡ min maximum (base * 2 ^ (attempt - 1))
unfolding backoff_delay
backoff_delay-min base maximum attempt h =
    rw (double_delay-min maximum (attempt - 1) base h) (capped maximum (base * 2 ^ (attempt - 1)))
  where
    capped : (a b : ℕ) → cap a (min a b) ≡ min a b
    capped a b = ground arith

-- With a base that is at most the maximum, and whatever the random source gives, the next attempt
-- lies no earlier than the capped doubled delay from now, no later than a quarter of it after
-- that, and never beyond the maximum from now.
pub retry_at-bounds :
    (config : WorkerConfig) (now attempt : ℕ)
    → config.retry_base ≤ config.retry_maximum
    → let delay = min config.retry_maximum (config.retry_base * 2 ^ (attempt - 1)) in
      (now + delay ≤ retry_at config now attempt)
      × (retry_at config now attempt ≤ now + delay + delay / 4)
      × (retry_at config now attempt ≤ now + config.retry_maximum)
unfolding retry_at jitter_limit
retry_at-bounds config now attempt h =
    let delay_is = backoff_delay-min config.retry_base config.retry_maximum attempt h in
    rw (← delay_is) (
      bounds config.retry_maximum (backoff_delay config.retry_base config.retry_maximum attempt)
        (rw delay_is (omega arith))
        (config.jitter (
          jitter_limit config.retry_maximum
            (backoff_delay config.retry_base config.retry_maximum attempt))))
  where
    bounds :
        (maximum delay : ℕ)
        → delay ≤ maximum
        → (j : ℤ)
        → let moment = now + (delay + bounded_jitter (jitter_limit maximum delay) j) in
          (now + delay ≤ moment) × (moment ≤ now + delay + delay / 4) × (moment ≤ now + maximum)
    bounds maximum delay fits (pos j) = (ground arith, ground arith, ground arith)
    bounds maximum delay fits (negsuc j) = (omega arith, omega arith, omega arith)
