-- ===== src/Traffic/Queue/Capacity.antt =====
-- The queue never holds more than its capacity and the one report in flight.
use node_agent_rs.Base.{ℕ, ◌≡◌, ◌≤◌, length}
use node_agent_rs.Traffic.Queue.{Pipe}

-- The channel holds no more reports than the capacity `c`, which is that of the queue.
abbrev pub IsBounded : ℕ → Pipe → Type 0
IsBounded c p = (p.queue.capacity ≡ c) × (length p.queue.reports ≤ c)
