-- ===== src/Topology/Adapter.antt =====
-- crates/node-agent/src/topology/manager.rs: the adapter that carries a topology to the port router
-- and to the runtime in one transaction. Both are parameters, with the compiler: operations on a
-- world that holds the live forwarding and the live configuration. `operation` serializes the
-- transactions, so each is one function of the state; a panic of a task is not modelled.
pub mod Failure
pub mod Operations
pub mod Reloading
pub mod Upkeep
pub mod Live
pub mod Rollback
pub mod Apply
pub mod Reload
pub mod Repair
use node_agent_rs.Base.{
  Bool, true, false, ◌&&◌, ◌||◌, not, Option, none, some, List, [], ◌∷◌, ◌++◌, Text, codes, Result,
  ok, err,
}

pub data TopologyErrorKind : Type 0 where
  stale_revision revision_mismatch users_changed_during_refresh : TopologyErrorKind
  invalid_mutation runtime_failed : TopologyErrorKind

pub record TopologyError : Type 0 where
  pub kind : TopologyErrorKind
  pub message : Text
  pub rolled_back : Bool
  pub running : Bool
  pub rollback_stage : Bool

-- `TopologyError::new`
abbrev pub topology_error : TopologyErrorKind → Text → TopologyError
topology_error kind message = record {
  kind = kind;
  message = message;
  rolled_back = false;
  running = true;
  rollback_stage = false;
}

abbrev pub runtime_state : Text → Bool → Bool → TopologyError
runtime_state message rolled_back running = record {
  kind = runtime_failed;
  message = message;
  rolled_back = rolled_back;
  running = running;
  rollback_stage = rolled_back;
}

-- `TopologyError::runtime`
abbrev pub runtime : Text → Bool → TopologyError
runtime message rolled_back = runtime_state message rolled_back true

abbrev pub with_rollback_stage : TopologyError → TopologyError
with_rollback_stage e = record e { rollback_stage = true }

-- `revision_recovery_required`
unfoldable pub revision_recovery_required : TopologyError → Bool
revision_recovery_required e = elim e.kind [
  | stale_revision ↦ true
  | revision_mismatch ↦ true
  | users_changed_during_refresh ↦ false
  | invalid_mutation ↦ false
  | runtime_failed ↦ false
]

pub record RuntimeError : Type 0 where
  pub operation : Text
  pub rollback : Option Text
  pub rolled_back : Bool
  pub state_unchanged : Bool
  pub running : Bool

-- A port router's error: its text, and `is_state_uncertain`.
pub record PortRouterError : Type 0 where
  pub text : Text
  pub uncertain : Bool

pub record ReloadStatus : Type 0 where
  pub running : Bool
  pub rolled_back : Bool

pub record RuntimeHealth : Type 0 where
  pub running : Bool
  pub failure : Option Text

pub record CompileOutput (C : Type 0) : Type 0 where
  pub runtime : C
  pub warnings : List Text

-- What the adapter calls, with `{:?}` of an optional text as `debug`: `W` is the world, `T` the topologies, `C` the runtime configurations and
-- `P` the forwarding plans.
pub record Platform (W T C P : Type 0) : Type 0 where
  pub compile : T → Result Text (CompileOutput C)
  pub build_plan : T → Result Text P
  pub has_machine : T → Bool
  pub same_topology : T → T → Bool
  pub no_topology : T
  pub no_plan : P
  pub reconcile_ports : W → P → Result PortRouterError (Unit {0}) × W
  pub close_ports : W → Result PortRouterError (Unit {0}) × W
  pub apply_config : W → C → Result RuntimeError (Unit {0}) × W
  pub reload_config : W → C → Result RuntimeError ReloadStatus × W
  pub close_runtime : W → Result RuntimeError (Unit {0}) × W
  pub begin_close : W → W
  pub health : W → Option RuntimeHealth
  pub debug : Option Text → Text

pub record PreparedReload (T C P : Type 0) : Type 0 where
  pub candidate : T
  pub desired_plan : P
  pub previous_plan : P
  pub previous_config : Option C
  pub previous_had_topology : Bool
  pub warnings : List Text
  pub configured : Bool

-- `AdapterState`, with the rest of `AdapterInner`.
pub record Adapter (W T C P : Type 0) : Type 0 where
  pub active_topology : T
  pub active_plan : P
  pub active_warnings : List Text
  pub pending_reload : Option (PreparedReload T C P)
  pub closing : Bool
  pub world : W
