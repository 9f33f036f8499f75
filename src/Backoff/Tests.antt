-- ===== src/Backoff/Tests.antt =====
-- Runs of the backoff on concrete inputs, and its theorems at such inputs.
use node_agent_rs.Base.{ℕ, ◌-◌, ◌≤◌, ◌<◌, ◌≡◌, refl, arith}
use node_agent_rs.Backoff.{ExponentialBackoff, advance, next_delay, calls}

-- From one second to thirty.
abbrev reconnect : ExponentialBackoff
reconnect = record { initial = 1000000000; max = 30000000000; current = 0 }

largest : ℕ → ℕ
largest n = n - 1

-- Names what a run of the backoff computes with.
delays : ℕ → ExponentialBackoff → (ℕ → ℕ) → ExponentialBackoff
unfolding calls next_delay advance largest
delays = calls

caps_at_thirty_seconds : (delays 6 reconnect largest).current ≡ 30000000000
unfolding delays
caps_at_thirty_seconds = refl

largest_draw : (n : ℕ) → 1 ≤ n → largest n < n
unfolding largest
largest_draw n h = omega (arith, h)
