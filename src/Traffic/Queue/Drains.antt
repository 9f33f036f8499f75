-- ===== src/Traffic/Queue/Drains.antt =====
-- The counters that the runtime has drained are counted once.
use node_agent_rs.Base.{ℕ, ◌+◌, ◌%◌, ◌≡◌, refl, ap, List, [], ◌∷◌, length, arith, Text, ℤ}
use node_agent_rs.Traffic.Aggregator.{Aggregator, CounterKey, u64_mod, observe, event_key, value_or}
use node_agent_rs.Traffic.Aggregator.Totals.{Direction, pick, if_key, pending}
use node_agent_rs.Traffic.Aggregator.Conserve.{pending-observe}
use node_agent_rs.Traffic.Queue.{TrafficDrain, drain_event, observe_runtime_drains}

module _ (d : Direction) (k : CounterKey) where
  -- The bytes that the drains carry for a key.
  unfoldable drained : ℤ → Text → List TrafficDrain → ℕ
  drained now machine_id [] = 0
  drained now machine_id (drain ∷ drains) =
      if_key (event_key (drain_event machine_id drain) (value_or drain.observed_at now)) k
        (pick d drain.uplink_bytes drain.downlink_bytes)
      + drained now machine_id drains

  -- Observing the drains adds the bytes of each to its key, modulo 2^64, and answers how many there
  -- were.
  observe_runtime_drains_adds :
      (a : Aggregator) (now : ℤ) (machine_id : Text) (drains : List TrafficDrain)
      → let result = observe_runtime_drains a now machine_id drains in
        (pending d k result.0.counters % u64_mod
          ≡ (pending d k a.counters + drained now machine_id drains) % u64_mod)
        × (result.1 ≡ length drains)
  unfolding observe_runtime_drains drained
  observe_runtime_drains_adds a now machine_id [] =
      (ap (λ (n : ℕ). n % u64_mod) (omega arith), refl)
  observe_runtime_drains_adds a now machine_id (drain ∷ drains) =
      let event = drain_event machine_id drain in
      let (bytes, count) =
        observe_runtime_drains_adds (observe a now event) now machine_id drains in
      (omega (arith, bytes, pending-observe d k a now event), omega (arith, count))
