-- ===== src/Retry.antt =====
-- services/retry_service.py. Times are in microseconds; a delay in seconds is scaled when it is
-- added, and `random.uniform(0, b)` is the argument `uniform`, a function of `b` in microseconds.
pub mod Bounds
use schedora.Base.{ℕ, ◌+◌, ◌*◌, ◌/◌, ◌^◌, Bool, ltb}
use Prim.Native.Nat.{min}
use schedora.Enums.{RetryPolicy, fixed, exponential, jitter}

abbrev pub second : ℕ
second = 1_000_000

-- `base_delay * 2 ** retry_count`, capped.
unfoldable pub exponential_delay : ℕ → ℕ → ℕ → ℕ
exponential_delay base_delay max_delay retry_count = min (base_delay * 2 ^ retry_count) max_delay

-- The delay of each policy, in microseconds.
unfoldable pub delay : (ℕ → ℕ) → ℕ → RetryPolicy → ℕ → ℕ → ℕ
unfolding exponential_delay
delay uniform retry_count fixed base_delay max_delay = base_delay * second
delay uniform retry_count exponential base_delay max_delay =
    exponential_delay base_delay max_delay retry_count * second
delay uniform retry_count jitter base_delay max_delay =
    let capped = exponential_delay base_delay max_delay retry_count * second in
    capped + uniform (capped / 2)

-- `max_retries` is an argument that the method does not read.
unfoldable pub calculate_next_retry : (ℕ → ℕ) → ℕ → ℕ → ℕ → RetryPolicy → ℕ → ℕ → ℕ
unfolding delay
calculate_next_retry uniform now retry_count max_retries policy base_delay max_delay =
    now + delay uniform retry_count policy base_delay max_delay

unfoldable pub should_retry : ℕ → ℕ → Bool
should_retry retry_count max_retries = ltb retry_count max_retries
