-- ===== src/Backoff.antt =====
-- crates/node-agent/src/backoff.rs: the reconnect delay. A `Duration` is its number of nanoseconds; the
-- random number generator is an argument of each call.
pub mod Growth
mod Tests
use node_agent_rs.Base.{
  ℕ, zero, suc, ◌+◌, ◌-◌, ◌*◌, ◌/◌, ◌^◌, min, Bool, true, false, ◌==◌, if◌then◌else◌,
}

-- `Duration::MAX`
abbrev pub duration_max : ℕ
duration_max = 2 ^ 64 * 1000000000 - 1

abbrev pub u64_max : ℕ
u64_max = 2 ^ 64 - 1

pub record ExponentialBackoff : Type 0 where
  pub initial : ℕ
  pub max : ℕ
  pub current : ℕ

unfoldable pub new : ℕ → ℕ → ExponentialBackoff
new initial max = record { initial = initial; max = max; current = 0 }

unfoldable pub reset : ExponentialBackoff → ExponentialBackoff
reset b = record b { current = 0 }

-- `saturating_mul(2).min(self.max)`
unfoldable pub advance : ExponentialBackoff → ExponentialBackoff
advance b = record b {
  current = if b.current == 0 then b.initial else min (min (b.current * 2) duration_max) b.max;
}

abbrev pub jitter_bound : ℕ → ℕ
jitter_bound half = min half u64_max

-- `random n` is the number that `random_range(0..n)` draws.
unfoldable pub next_delay : ExponentialBackoff → (ℕ → ℕ) → ℕ × ExponentialBackoff
next_delay b random =
    let next = advance b in
    let half = next.current / 2 in
    (
      if half == 0
          then next.current
          else if jitter_bound half == 0
          then next.current
          else half + random (jitter_bound half),
      next,
    )

-- `next` of the iterator, so many times.
unfoldable pub calls : ℕ → ExponentialBackoff → (ℕ → ℕ) → ExponentialBackoff
calls zero b random = b
calls (suc n) b random = (next_delay (calls n b random) random).1
