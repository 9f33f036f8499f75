-- ===== src/Topology/Adapter/Failure.antt =====
-- crates/node-agent/src/topology/manager.rs: what a transaction does when one of its steps fails.
use node_agent_rs.Base.{
  Bool, true, false, ◌&&◌, ◌||◌, not, Option, none, some, List, [], ◌∷◌, ◌++◌, Text, codes, Result,
  ok, err, if◌then◌else◌,
}
use node_agent_rs.Topology.Adapter.{
  TopologyError, runtime, runtime_state, with_rollback_stage, RuntimeError, PortRouterError,
  Platform, PreparedReload,
}

-- `messages.join("; ")`
abbrev pub join : List Text → Text
join [] = []
join (message ∷ []) = message
join (message ∷ next ∷ rest) = message ++ codes "; " ++ join (next ∷ rest)

abbrev pub is_empty : List Text → Bool
is_empty [] = true
is_empty (message ∷ rest) = false

-- `Display`
abbrev pub display : RuntimeError → Text
display e = elim e.rollback [
  | none ↦
      if e.rolled_back
      then e.operation ++ codes "; previous runtime state restored"
      else e.operation
  | some rollback ↦ e.operation ++ codes "; rollback failed: " ++ rollback
]

pub data RuntimeFailureMode : Type 0 where
  ordinary_apply forced_reload : RuntimeFailureMode

pub record RuntimeFailureState : Type 0 where
  pub operation : Text
  pub rolled_back : Bool
  pub unchanged : Bool
  pub running : Bool

abbrev pub failure_state : RuntimeError → RuntimeFailureState
failure_state e = record {
  operation = display e;
  rolled_back = e.rolled_back;
  unchanged = e.state_unchanged;
  running = e.running;
}

pub record RuntimeRollbackTarget (C P : Type 0) : Type 0 where
  pub port_hopping : P
  pub config : Option C
  pub had_topology : Bool

abbrev pub after_restored_ports : Text → Bool → Result PortRouterError (Unit {0}) → TopologyError
after_restored_ports message had_topology (ok done) =
    if had_topology
    then runtime_state (message ++ codes "; previous forwarding state restored") true true
    else runtime message false
after_restored_ports message had_topology (err rollback) = with_rollback_stage (
    runtime_state
      (message
        ++ codes "; rollback incomplete: restore previous port hopping forwarding state: "
        ++ rollback.text)
      false true)

-- The match on the mode.
abbrev pub restores_in : RuntimeFailureMode → RuntimeFailureState → Bool
restores_in ordinary_apply failure = true
restores_in forced_reload failure = not (failure.rolled_back || failure.unchanged)

abbrev pub is_ordinary : RuntimeFailureMode → Bool
is_ordinary ordinary_apply = true
is_ordinary forced_reload = false

-- The errors of a rollback so far, and what is known of the runtime.
pub record Restoration (W : Type 0) : Type 0 where
  pub world : W
  pub rollback_errors : List Text
  pub restored_runtime : Bool
  pub running : Bool

module _ {W T C P : Type 0} (platform : Platform W T C P) where
  unfoldable pub port_configuration_failure : W → PortRouterError → P → Bool → TopologyError × W
  port_configuration_failure w error previous_plan had_topology =
      let message = codes "configure port hopping forwarding: " ++ error.text in
      let (reply, w') = platform.reconcile_ports w previous_plan in
      if not error.uncertain
      then (runtime message false, w)
      else (after_restored_ports message had_topology reply, w')

  unfoldable pub prepared_reload_protocol_failure :
      W → Text → PreparedReload T C P → TopologyError × W
  prepared_reload_protocol_failure w message pending =
      let (reply, w') = platform.reconcile_ports w pending.previous_plan in
      if not pending.configured
      then (runtime message false, w)
      else (after_restored_ports message pending.previous_had_topology reply, w')

  abbrev pub restored_ports : Bool → Result PortRouterError (Unit {0}) × W → Restoration W
  restored_ports running (ok done, w) = record {
    world = w;
    rollback_errors = [];
    restored_runtime = false;
    running = running;
  }
  restored_ports running (err error, w) = record {
    world = w;
    rollback_errors = (codes "restore previous port hopping forwarding state: " ++ error.text) ∷ [];
    restored_runtime = false;
    running = running;
  }

  abbrev pub restored_config : Restoration W → Result RuntimeError (Unit {0}) × W → Restoration W
  restored_config r (ok done, w) = record r { world = w; restored_runtime = true; running = true }
  restored_config r (err error, w) = record r {
    world = w;
    running = false;
    rollback_errors =
        r.rollback_errors ++ (codes "restore previous shoes configuration: " ++ display error) ∷ [];
  }

  abbrev pub closing_with_intact_runtime : Bool → RuntimeFailureState → Bool
  closing_with_intact_runtime closing failure =
      closing && (failure.unchanged || failure.rolled_back)

  -- The second half of the rollback: the previous configuration, where it is to be restored.
  unfoldable pub restore_runtime :
      Bool → RuntimeFailureState → RuntimeFailureMode → Option C → Restoration W → Restoration W
  restore_runtime closing failure mode none r = r
  restore_runtime closing failure mode (some config) r =
      let restored = restored_config r (platform.apply_config r.world config) in
      if not (closing_with_intact_runtime closing failure) && restores_in mode failure
      then restored
      else r

  abbrev pub runtime_restored : RuntimeFailureState → RuntimeFailureMode → Restoration W → Bool
  runtime_restored failure mode r =
      r.restored_runtime || failure.rolled_back || (is_ordinary mode && failure.unchanged)

  -- The end of the rollback: how the error is classified.
  unfoldable pub classify :
      RuntimeFailureState → RuntimeFailureMode → Bool → Restoration W → TopologyError
  classify failure mode had_topology r =
      let message = codes "start/apply shoes runtime: " ++ failure.operation in
      let complete = is_empty r.rollback_errors in
      let restored = complete && had_topology && r.running && runtime_restored failure mode r in
      let full =
        if not complete
        then message ++ codes "; rollback incomplete: " ++ join r.rollback_errors
        else if restored
        then message ++ codes "; previous topology restored"
        else message in
      let error = runtime_state full restored r.running in
      if not complete || restored then with_rollback_stage error else error

  unfoldable pub runtime_transaction_failure :
      W
      → Bool
      → RuntimeFailureState
      → RuntimeRollbackTarget C P
      → RuntimeFailureMode
      → TopologyError × W
  runtime_transaction_failure w closing failure previous mode =
      let ports =
        restored_ports failure.running (platform.reconcile_ports w previous.port_hopping) in
      let r = restore_runtime closing failure mode previous.config ports in
      (classify failure mode previous.had_topology r, r.world)
