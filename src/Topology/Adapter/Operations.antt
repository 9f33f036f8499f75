-- ===== src/Topology/Adapter/Operations.antt =====
-- crates/node-agent/src/topology/manager.rs: the operations of the adapter. A flag tells whether
-- `begin_close` is called while a transaction runs.
use Prim.Native.String.{String}
use node_agent_rs.Base.{
  Bool, true, false, ◌||◌, Option, none, some, [], ◌++◌, Text, codes, Result, ok, err, ◌>>=◌,
  map_err,
}
use node_agent_rs.Topology.Adapter.{
  TopologyError, runtime, RuntimeError, PortRouterError, Platform, Adapter, CompileOutput,
}
use node_agent_rs.Topology.Adapter.Failure.{
  ordinary_apply, failure_state, RuntimeRollbackTarget, port_configuration_failure,
  runtime_transaction_failure,
}

abbrev pub failed_to : String → Text → TopologyError
failed_to step e = runtime (codes step ++ e) false

-- What a rollback would restore.
pub record Previous (C P : Type 0) : Type 0 where
  pub plan : P
  pub config : Option C
  pub had_topology : Bool

module _ {W T C P : Type 0} (platform : Platform W T C P) where
  -- `AdapterState::default()`
  unfoldable pub for_machine : W → Adapter W T C P
  for_machine w = record {
    active_topology = platform.no_topology;
    active_plan = platform.no_plan;
    active_warnings = [];
    pending_reload = none;
    closing = false;
    world = w;
  }

  unfoldable pub begin_close : Adapter W T C P → Adapter W T C P
  begin_close s = record s { closing = true; world = platform.begin_close s.world }

  abbrev pub compile_candidate : T → Result TopologyError (CompileOutput C)
  compile_candidate t = map_err (failed_to "compile topology: ") (platform.compile t)

  abbrev pub plan_candidate : T → Result TopologyError P
  plan_candidate t =
      map_err (failed_to "build port hopping forwarding configuration: ") (platform.build_plan t)

  abbrev pub previous_config : T → Bool → Result TopologyError (Option C)
  previous_config t false = ok none
  previous_config t true = do
    output ←
        map_err (failed_to "compile previous shoes configuration for rollback: ")
          (platform.compile t)
    ok (some output.runtime)

  unfoldable pub previous_of : Adapter W T C P → Result TopologyError (Previous C P)
  previous_of s = do
    plan ←
        map_err (failed_to "build previous port hopping forwarding configuration: ")
          (platform.build_plan s.active_topology)
    config ← previous_config s.active_topology (platform.has_machine s.active_topology)
    ok (record {
      plan = plan;
      config = config;
      had_topology = platform.has_machine s.active_topology;
    })

  abbrev target : Previous C P → RuntimeRollbackTarget C P
  target previous = record {
    port_hopping = previous.plan;
    config = previous.config;
    had_topology = previous.had_topology;
  }

  abbrev pub fails_with :
      Adapter W T C P → TopologyError × W → Result TopologyError (Unit {0}) × Adapter W T C P
  fails_with s (e, w) = (err e, record s { world = w })

  -- After the runtime has answered.
  abbrev pub apply_runtime :
      Adapter W T C P
      → Bool
      → T
      → CompileOutput C
      → P
      → Previous C P
      → Result RuntimeError (Unit {0}) × W
      → Result TopologyError (Unit {0}) × Adapter W T C P
  apply_runtime s closing candidate output plan previous (err e, w) = fails_with s (
      runtime_transaction_failure platform w closing (failure_state e) (target previous)
        ordinary_apply)
  apply_runtime s closing candidate output plan previous (ok done, w) = (
    ok tt,
    record s {
      active_topology = candidate;
      active_plan = plan;
      active_warnings = output.warnings;
      pending_reload = none;
      world = w;
    },
  )

  -- After the port router has answered.
  abbrev pub apply_ports :
      Adapter W T C P
      → Bool
      → T
      → CompileOutput C
      → P
      → Previous C P
      → Result PortRouterError (Unit {0}) × W
      → Result TopologyError (Unit {0}) × Adapter W T C P
  apply_ports s closing candidate output plan previous (err e, w) =
      fails_with s (port_configuration_failure platform w e previous.plan previous.had_topology)
  apply_ports s closing candidate output plan previous (ok done, w) =
      apply_runtime s closing candidate output plan previous
        (platform.apply_config w output.runtime)

  -- All that is computed before the first mutation.
  unfoldable pub prepare_apply :
      Adapter W T C P → T → Result TopologyError (CompileOutput C × P × Previous C P)
  prepare_apply s candidate = do
    output ← compile_candidate candidate
    plan ← plan_candidate candidate
    previous ← previous_of s
    ok (output, plan, previous)

  abbrev pub apply_prepared :
      Adapter W T C P
      → Bool
      → T
      → Result TopologyError (CompileOutput C × P × Previous C P)
      → Result TopologyError (Unit {0}) × Adapter W T C P
  apply_prepared s closing candidate (err e) = (err e, s)
  apply_prepared s closing candidate (ok (output, plan, previous)) =
      apply_ports s closing candidate output plan previous (platform.reconcile_ports s.world plan)

  -- `TopologyRuntime::apply`
  unfoldable pub apply :
      Adapter W T C P → Bool → T → Result TopologyError (Unit {0}) × Adapter W T C P
  apply s closes candidate =
      apply_prepared s (s.closing || closes) candidate (prepare_apply s candidate)
