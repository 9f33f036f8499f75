-- ===== src/Topology/Manager/Fence.antt =====
-- The published revision never goes back.
use Prim.Native.String.{String}
use node_agent_rs.Base.{ℕ, ◌≡◌, ◌≤◌, Bool, true, false, Option, List, [], ◌∷◌, Result, err}
use node_agent_rs.Topology.Adapter.{TopologyError, runtime}
use node_agent_rs.Topology.Manager.{
  MachineTopology, TopologyManager, no_machine, apply_initial, Answer, Patch, apply_patch,
  apply_snapshot, apply_authoritative_if_unchanged, stop_operations,
}

-- What happens to a manager: its operations, with the session's cancellation and the runtime's answers.
pub data Op (B : Type 0) : Type 0 where
  initial : Bool → Answer B → MachineTopology B → Op B
  fetched : Bool → Answer B → MachineTopology B → ℕ → Op B
  snapshot : Bool → Answer B → Option (MachineTopology B) → Op B
  patch : Bool → Answer B → String → Option (Patch B) → Op B
  stops : Op B

module _ {B : Type 0} where
  -- An operation's answer and the manager after it; a stop publishes nothing, so its answer is an error.
  unfoldable pub perform :
      TopologyManager B → Op B → Result TopologyError (Unit {0}) × TopologyManager B
  perform m (initial cancelled answer topology) = apply_initial m cancelled answer topology
  perform m (fetched cancelled answer topology token) =
      apply_authoritative_if_unchanged m cancelled answer topology token
  perform m (snapshot cancelled answer topology) = apply_snapshot m cancelled answer topology
  perform m (patch cancelled answer what p) = apply_patch m cancelled answer what p
  perform m stops = (err (runtime [] false), stop_operations m)

  unfoldable pub step : TopologyManager B → Op B → TopologyManager B
  step m op = (perform m op).1

  unfoldable pub run : TopologyManager B → List (Op B) → TopologyManager B
  run m [] = m
  run m (op ∷ ops) = run (step m op) ops

  -- The manager has a machine, and so has what it has published, unless that is at revision 0.
  abbrev pub IsNamed : TopologyManager B → Type 0
  IsNamed m =
      (no_machine m.machine_id ≡ false)
      × (no_machine m.topology.machine_id ≡ true → m.topology.revision ≡ 0)

  -- The revision of `after` is not before that of `before`, and `after` is named.
  abbrev Advances : TopologyManager B → TopologyManager B → Type 0
  Advances before after = (before.topology.revision ≤ after.topology.revision) × IsNamed after
