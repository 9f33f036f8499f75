-- ===== src/Backoff/Growth.antt =====
-- The base of the delay doubles up to its cap, and the delay lies in the upper half of the base.
use node_agent_rs.Base.{ℕ, ◌/◌, ◌≤◌, ◌<◌, arith}
use node_agent_rs.Backoff.{ExponentialBackoff, jitter_bound, advance, next_delay}

-- A delay is at least half of the base that it is drawn for, and below that base if the base is at
-- least two nanoseconds.
pub next_delay_bounds :
    (b : ExponentialBackoff) (random : ℕ → ℕ)
    → ((n : ℕ) → 1 ≤ n → random n < n)
    → let result = next_delay b random in
      (result.1.current / 2 ≤ result.0) × (2 ≤ result.1.current → result.0 < result.1.current)
unfolding next_delay
next_delay_bounds b random draws =
    let base = (advance b).current in ground (arith, draws (jitter_bound (base / 2)))
