-- ===== src/Topology/Manager/Fetch.antt =====
-- A topology that was fetched outside the lock is refused when anything was published meanwhile.
use node_agent_rs.Base.{ℕ, ◌+◌, ◌%◌, ◌≡◌, List, [], ◌∷◌, Result, ok, err}
use node_agent_rs.Traffic.Aggregator.{u64_mod}
use node_agent_rs.Topology.Adapter.{TopologyError}
use node_agent_rs.Topology.Manager.{TopologyManager}
use node_agent_rs.Topology.Manager.Fence.{Op, perform, step}

-- A successful operation publishes once.
abbrev published_by : Result TopologyError (Unit {0}) → ℕ
published_by (ok done) = 1
published_by (err e) = 0

module _ {B : Type 0} where
  -- The publications of some operations.
  unfoldable pub publications : TopologyManager B → List (Op B) → ℕ
  publications m [] = 0
  publications m (op ∷ ops) = published_by (perform m op).0 + publications (step m op) ops

  abbrev Counts : TopologyManager B → Result TopologyError (Unit {0}) × TopologyManager B → Type 0
  Counts m result = result.1.generation ≡ (m.generation + published_by result.0) % u64_mod
