-- ===== src/Retry/Bounds.antt =====
-- services/retry_service.py: the bounds and the growth of the delay.
use native.Mathlib.Nat.{pow-suc, pow-le-pow_right}
use schedora.Base.{refl, ℕ, zero, suc, ◌+◌, ◌*◌, ◌/◌, ◌^◌, ◌≤◌, ◌<◌, ◌≡◌, true, arith}
use schedora.Models.{Job, check_job}
use schedora.Enums.{fixed, exponential, jitter}
use schedora.Retry.{second, exponential_delay, calculate_next_retry, should_retry}

lt-pow : (n : ℕ) → n < 2 ^ n
lt-pow zero = omega arith
lt-pow (suc n) = omega (arith, lt-pow n, pow-suc 2 n)

base-le-double : (b n : ℕ) → b ≤ b * 2 ^ n
base-le-double b n = grind (arith, lt-pow n)

exponential_delay_le : (base max_delay r : ℕ) → exponential_delay base max_delay r ≤ max_delay
unfolding exponential_delay
exponential_delay_le base max_delay r = omega arith

exponential_delay_ge :
    (base max_delay r : ℕ) → base ≤ max_delay → base ≤ exponential_delay base max_delay r
unfolding exponential_delay
exponential_delay_ge base max_delay r h = omega (arith, base-le-double base r)

exponential_delay_mono :
    (base max_delay r q : ℕ)
    → r ≤ q
    → exponential_delay base max_delay r ≤ exponential_delay base max_delay q
unfolding exponential_delay
exponential_delay_mono base max_delay r q h =
    let powers : 2 ^ r ≤ 2 ^ q = pow-le-pow_right (omega arith) h in
    let products : base * 2 ^ r ≤ base * 2 ^ q = grind arith in omega arith

exponential_delay_cap :
    (base max_delay r : ℕ)
    → 1 ≤ base
    → max_delay ≤ r
    → exponential_delay base max_delay r ≡ max_delay
unfolding exponential_delay
exponential_delay_cap base max_delay r pos late =
    let products : 2 ^ r ≤ base * 2 ^ r = grind arith in omega (arith, lt-pow r)

-- The retry time lies after `now` by: the base delay under FIXED; between the base delay and the
-- maximal one under EXPONENTIAL; and under JITTER between the base delay and one and a half times
-- the maximal one. The base delay is at most the maximal one, and `uniform b` is at most `b`.
pub calculate_next_retry_bounds :
    (uniform : ℕ → ℕ) (now r m base max_delay : ℕ)
    → ((b : ℕ) → uniform b ≤ b)
    → base ≤ max_delay
    → (calculate_next_retry uniform now r m fixed base max_delay ≡ now + base * second)
      × (now + base * second ≤ calculate_next_retry uniform now r m exponential base max_delay)
      × (calculate_next_retry uniform now r m exponential base max_delay ≤ now + max_delay * second)
      × (now + base * second ≤ calculate_next_retry uniform now r m jitter base max_delay)
      × (2 * calculate_next_retry uniform now r m jitter base max_delay
          ≤ 2 * now + 3 * (max_delay * second))
unfolding calculate_next_retry
calculate_next_retry_bounds uniform now r m base max_delay range h = omega (
  arith,
  exponential_delay_le base max_delay r,
  exponential_delay_ge base max_delay r h,
  range (exponential_delay base max_delay r * second / 2),
)

-- Under EXPONENTIAL a later attempt never waits less.
pub calculate_next_retry_growth :
    (uniform : ℕ → ℕ) (now r q m base max_delay : ℕ)
    → r ≤ q
    → calculate_next_retry uniform now r m exponential base max_delay
      ≤ calculate_next_retry uniform now q m exponential base max_delay
unfolding calculate_next_retry
calculate_next_retry_growth uniform now r q m base max_delay h =
    omega (arith, exponential_delay_mono base max_delay r q h)

-- From the attempt with the number `max_delay` on, with a base delay of at least a second, EXPONENTIAL
-- waits exactly `max_delay` seconds, and JITTER longer than that whenever its jitter is positive.
pub calculate_next_retry_exceeds :
    (uniform : ℕ → ℕ) (now r m base max_delay : ℕ)
    → 1 ≤ base
    → max_delay ≤ r
    → 0 < uniform (max_delay * second / 2)
    → (calculate_next_retry uniform now r m exponential base max_delay ≡ now + max_delay * second)
      × (now + max_delay * second < calculate_next_retry uniform now r m jitter base max_delay)
unfolding calculate_next_retry
calculate_next_retry_exceeds uniform now r m base max_delay pos late some_jitter =
    rw (exponential_delay_cap base max_delay r pos late) (refl, omega arith)

-- For a job that meets the CHECK constraints of its table, `should_retry` allows one more attempt
-- exactly when the row with the incremented `retry_count` still meets them.
pub should_retry-check_job :
    (j : Job)
    → check_job j ≡ true
    → should_retry j.retry_count j.max_retries
      ≡ check_job (record j { retry_count = j.retry_count + 1 })
unfolding should_retry
should_retry-check_job j h = ground arith
