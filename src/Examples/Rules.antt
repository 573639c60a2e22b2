-- ===== src/Examples/Rules.antt =====
-- services/state_machine.py, services/retry_service.py and worker/handler_registry.py on a few values.
use schedora.Base.{ℕ, ◌≤◌, ◌+◌, ◌*◌, ◌/◌, ◌≡◌, string_eq, arith}
use schedora.Enums.{fixed, exponential, jitter}
use schedora.Retry.{second, calculate_next_retry}
use schedora.Retry.Bounds.{calculate_next_retry_bounds}

abbrev half : ℕ → ℕ
half b = b / 2

half_le : (b : ℕ) → half b ≤ b
half_le b = omega arith

calculate_next_retry_bounds_example :
    (calculate_next_retry half 7 3 5 fixed 60 3600 ≡ 7 + 60 * second)
    × (7 + 60 * second ≤ calculate_next_retry half 7 3 5 exponential 60 3600)
    × (calculate_next_retry half 7 3 5 exponential 60 3600 ≤ 7 + 3600 * second)
    × (7 + 60 * second ≤ calculate_next_retry half 7 3 5 jitter 60 3600)
    × (2 * calculate_next_retry half 7 3 5 jitter 60 3600 ≤ 2 * 7 + 3 * (3600 * second))
calculate_next_retry_bounds_example =
    calculate_next_retry_bounds half 7 3 5 60 3600 half_le (omega arith)
