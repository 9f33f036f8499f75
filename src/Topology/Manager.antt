-- ===== src/Topology/Manager.antt =====
-- crates/node-agent/src/topology/manager.rs: the manager that publishes topologies behind a revision
-- fence. `operation` serializes its operations, so each is one function of the state; what the runtime
-- answers to the topology of an operation is an argument of the operation. A topology is its machine,
-- its revision, the revision of its snapshot, and the rest, `B`.
pub mod Fence
pub mod Fetch
use Prim.Native.String.{String}
use node_agent_rs.Base.{
  ℕ, ◌+◌, ◌%◌, Bool, true, false, ◌&&◌, ◌||◌, not, Option, none, some, List, [], ◌∷◌, ◌++◌, Text,
  codes, Result, ok, err, if◌then◌else◌, ltb, leb, ◌==◌, ◌>>=◌,
}
use node_agent_rs.PortHopping.Ranges.{decimal}
use node_agent_rs.Traffic.Aggregator.{u64_mod}
use node_agent_rs.Topology.Adapter.{
  TopologyError, topology_error, stale_revision, revision_mismatch, invalid_mutation, runtime,
}

-- `u64`'s `Display`; a u64 has at most twenty digits.
abbrev pub number : ℕ → Text
number n = decimal 20 n

pub record MachineTopology (B : Type 0) : Type 0 where
  pub machine_id : Text
  pub revision : ℕ
  pub snapshot_revision : Option ℕ
  pub body : B

abbrev pub no_machine : Text → Bool
no_machine [] = true
no_machine (c ∷ id) = false

-- `PublishedTopology`, with the machine of the manager and its cancellation.
pub record TopologyManager (B : Type 0) : Type 0 where
  pub machine_id : Text
  pub topology : MachineTopology B
  pub generation : ℕ
  pub stopped : Bool

-- The snapshot, if there is one, gets the revision.
abbrev pub snapshot_at : Option ℕ → ℕ → Option ℕ
snapshot_at none revision = none
snapshot_at (some old) revision = some revision

-- What the runtime answers to a topology.
abbrev pub Answer : Type 0 → Type 0
Answer B = MachineTopology B → Result TopologyError (Unit {0})

abbrev required : {A : Type 0} → String → Option A → Result TopologyError A
required what none = err (topology_error invalid_mutation (codes what))
required what (some a) = ok a

-- A partial command: its base and target revision, and what its mutations make of a topology.
pub record Patch (B : Type 0) : Type 0 where
  pub base : ℕ
  pub target : ℕ
  pub edit : MachineTopology B → Result TopologyError (MachineTopology B)

module _ {B : Type 0} where
  unfoldable pub publish : TopologyManager B → MachineTopology B → TopologyManager B
  publish m topology = record m { topology = topology; generation = (m.generation + 1) % u64_mod }

  abbrev pub publication_token : TopologyManager B → ℕ
  publication_token m = m.generation

  unfoldable pub current_revision : TopologyManager B → Option ℕ
  current_revision m = if no_machine m.topology.machine_id then none else some m.topology.revision

  unfoldable pub guard_revision : TopologyManager B → ℕ → Result TopologyError (Unit {0})
  guard_revision m incoming =
      if incoming == 0
      then err (
          topology_error revision_mismatch
            (codes "topology revision mismatch: incoming revision is zero"))
      else if ltb incoming m.topology.revision
      then err (
          topology_error stale_revision (
            codes "stale revision: incoming="
            ++ number incoming
            ++ codes " current="
            ++ number m.topology.revision))
      else ok tt

  unfoldable pub guard_authoritative_revision :
      TopologyManager B → ℕ → Result TopologyError (Unit {0})
  guard_authoritative_revision m incoming =
      if no_machine m.topology.machine_id
        || (m.topology.revision == 0)
        || leb m.topology.revision incoming
      then ok tt
      else err (
          topology_error stale_revision (
            codes "stale authoritative topology: incoming="
            ++ number incoming
            ++ codes " current="
            ++ number m.topology.revision))

  unfoldable pub guard_revision_fence : TopologyManager B → ℕ → ℕ → Result TopologyError (Unit {0})
  guard_revision_fence m base target =
      if (base == 0) || (target == 0)
      then err (
          topology_error revision_mismatch (
            codes "topology revision mismatch: base="
            ++ number base
            ++ codes " target="
            ++ number target))
      else if not (base == m.topology.revision)
      then err (
          topology_error revision_mismatch (
            codes "topology revision mismatch: base="
            ++ number base
            ++ codes " current="
            ++ number m.topology.revision
            ++ codes " target="
            ++ number target))
      else if ltb target base
      then err (
          topology_error stale_revision (
            codes "stale revision: incoming="
            ++ number target
            ++ codes " current="
            ++ number m.topology.revision))
      else ok tt

  -- `begin_operation`: what the cancellations allow once the lock is taken.
  unfoldable pub begin_operation : TopologyManager B → Bool → Result TopologyError (Unit {0})
  begin_operation m session_cancelled =
      if m.stopped
      then err (runtime (codes "topology operations are stopped") false)
      else if session_cancelled
      then err (runtime (codes "control command execution canceled") false)
      else ok tt

  abbrev pub with_machine : TopologyManager B → MachineTopology B → MachineTopology B
  with_machine m topology =
      if no_machine topology.machine_id
      then record topology { machine_id = m.machine_id }
      else topology

  abbrev applied :
      TopologyManager B
      → MachineTopology B
      → Result TopologyError (Unit {0})
      → Result TopologyError (Unit {0}) × TopologyManager B
  applied m topology (err e) = (err e, m)
  applied m topology (ok done) = (ok tt, publish m topology)

  -- `TopologyManager::apply`
  unfoldable pub apply :
      TopologyManager B
      → Answer B
      → MachineTopology B
      → Result TopologyError (Unit {0}) × TopologyManager B
  apply m answer topology = applied m (with_machine m topology) (answer (with_machine m topology))

  abbrev pub apply_if :
      TopologyManager B
      → Answer B
      → Result TopologyError (MachineTopology B)
      → Result TopologyError (Unit {0}) × TopologyManager B
  apply_if m answer (err e) = (err e, m)
  apply_if m answer (ok topology) = apply m answer topology

  unfoldable pub apply_initial :
      TopologyManager B
      → Bool
      → Answer B
      → MachineTopology B
      → Result TopologyError (Unit {0}) × TopologyManager B
  apply_initial m cancelled answer topology = apply_if m answer (do
    _ ← begin_operation m cancelled
    _ ← guard_authoritative_revision m topology.revision
    ok topology)

  unfoldable pub guard_token : TopologyManager B → ℕ → Result TopologyError (Unit {0})
  guard_token m expected =
      if m.generation == expected
      then ok tt
      else err (
          topology_error stale_revision (
            codes "authoritative topology changed during fetch: expected_generation="
            ++ number expected
            ++ codes " current_generation="
            ++ number m.generation))

  unfoldable pub apply_authoritative_if_unchanged :
      TopologyManager B
      → Bool
      → Answer B
      → MachineTopology B
      → ℕ
      → Result TopologyError (Unit {0}) × TopologyManager B
  apply_authoritative_if_unchanged m cancelled answer topology expected = apply_if m answer (do
    _ ← begin_operation m cancelled
    _ ← guard_authoritative_revision m topology.revision
    _ ← guard_token m expected
    ok topology)

  -- The snapshot, already converted by `from_snapshot`.
  unfoldable pub apply_snapshot :
      TopologyManager B
      → Bool
      → Answer B
      → Option (MachineTopology B)
      → Result TopologyError (Unit {0}) × TopologyManager B
  apply_snapshot m cancelled answer snapshot = apply_if m answer (do
    _ ← begin_operation m cancelled
    topology ← required "topology_snapshot payload is required" snapshot
    _ ← guard_revision m topology.revision
    ok topology)

  abbrev pub at_revision : MachineTopology B → ℕ → MachineTopology B
  at_revision topology revision = record topology {
    revision = revision;
    snapshot_revision = snapshot_at topology.snapshot_revision revision;
  }

  -- `apply_delta`, `apply_route_patch` and `apply_user_mutation`, before users are disconnected.
  unfoldable pub apply_patch :
      TopologyManager B
      → Bool
      → Answer B
      → String
      → Option (Patch B)
      → Result TopologyError (Unit {0}) × TopologyManager B
  apply_patch m cancelled answer what patch = apply_if m answer (do
    _ ← begin_operation m cancelled
    p ← required what patch
    _ ← guard_revision_fence m p.base p.target
    next ← p.edit (with_machine m m.topology)
    ok (at_revision next p.target))

  abbrev pub stop_operations : TopologyManager B → TopologyManager B
  stop_operations m = record m { stopped = true }
