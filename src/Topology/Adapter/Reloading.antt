-- ===== src/Topology/Adapter/Reloading.antt =====
-- crates/node-agent/src/topology/manager.rs: the forced reload in its three steps.
use node_agent_rs.Base.{
  Bool, true, false, ◌||◌, not, Option, none, some, codes, Result, ok, err, if◌then◌else◌, ◌>>=◌,
}
use node_agent_rs.Topology.Adapter.{
  TopologyError, runtime, RuntimeError, PortRouterError, ReloadStatus, Platform, PreparedReload,
  Adapter, CompileOutput,
}
use node_agent_rs.Topology.Adapter.Failure.{
  forced_reload, RuntimeFailureState, failure_state, RuntimeRollbackTarget,
  port_configuration_failure, prepared_reload_protocol_failure, runtime_transaction_failure,
}
use node_agent_rs.Topology.Adapter.Operations.{
  Previous, compile_candidate, plan_candidate, previous_of, fails_with,
}

module _ {W T C P : Type 0} (platform : Platform W T C P) where
  abbrev pub is_configured : Option (PreparedReload T C P) → Bool
  is_configured none = false
  is_configured (some pending) = pending.configured

  abbrev pub prepare_pending :
      Adapter W T C P
      → T
      → CompileOutput C
      → P
      → Result TopologyError (Previous C P)
      → Result TopologyError C × Adapter W T C P
  prepare_pending s candidate output plan (err e) = (err e, record s { pending_reload = none })
  prepare_pending s candidate output plan (ok previous) = (
    ok output.runtime,
    record s {
      pending_reload = some (record {
        candidate = candidate;
        desired_plan = plan;
        previous_plan = previous.plan;
        previous_config = previous.config;
        previous_had_topology = previous.had_topology;
        warnings = output.warnings;
        configured = false;
      });
    },
  )

  abbrev pub prepare_with :
      Adapter W T C P
      → T
      → Result TopologyError (CompileOutput C × P)
      → Result TopologyError C × Adapter W T C P
  prepare_with s candidate (err e) = (err e, s)
  prepare_with s candidate (ok (output, plan)) =
      if is_configured s.pending_reload
      then (
        err (runtime (codes "a configured forced reload transaction is already pending") false),
        s,
      )
      else prepare_pending s candidate output plan (previous_of platform s)

  unfoldable pub prepare_reload : Adapter W T C P → T → Result TopologyError C × Adapter W T C P
  prepare_reload s candidate = prepare_with s candidate (do
    output ← compile_candidate platform candidate
    plan ← plan_candidate platform candidate
    ok (output, plan))

  abbrev pub configured_ports :
      Adapter W T C P
      → PreparedReload T C P
      → Result PortRouterError (Unit {0}) × W
      → Result TopologyError (Unit {0}) × Adapter W T C P
  configured_ports s pending (err e, w) =
      fails_with platform (record s { pending_reload = none })
        (port_configuration_failure platform w e pending.previous_plan
          pending.previous_had_topology)
  configured_ports s pending (ok done, w) =
      (ok tt, record s { pending_reload = some (record pending { configured = true }); world = w })

  abbrev pub configure_pending :
      Adapter W T C P
      → T
      → Option (PreparedReload T C P)
      → Result TopologyError (Unit {0}) × Adapter W T C P
  configure_pending s candidate none =
      (err (runtime (codes "forced reload has no prepared transaction") false), s)
  configure_pending s candidate (some pending) =
      if platform.same_topology pending.candidate candidate
      then configured_ports s pending (platform.reconcile_ports s.world pending.desired_plan)
      else (
        err (runtime (codes "forced reload candidate changed after preparation") false),
        record s { pending_reload = none },
      )

  unfoldable pub configure_reload :
      Adapter W T C P → T → Result TopologyError (Unit {0}) × Adapter W T C P
  configure_reload s candidate = configure_pending s candidate s.pending_reload

  abbrev pub status_fails :
      Adapter W T C P → TopologyError × W → Result TopologyError ReloadStatus × Adapter W T C P
  status_fails s (e, w) = (err e, record s { world = w })

  abbrev pub pending_target : PreparedReload T C P → RuntimeRollbackTarget C P
  pending_target pending = record {
    port_hopping = pending.previous_plan;
    config = pending.previous_config;
    had_topology = pending.previous_had_topology;
  }

  abbrev pub no_instance : RuntimeFailureState
  no_instance = record {
    operation = codes "forced reload completed without a running shoes instance";
    rolled_back = false;
    unchanged = false;
    running = false;
  }

  abbrev pub reloaded :
      Adapter W T C P
      → Bool
      → T
      → PreparedReload T C P
      → Result RuntimeError ReloadStatus × W
      → Result TopologyError ReloadStatus × Adapter W T C P
  reloaded s closing candidate pending (err e, w) = status_fails s (
      runtime_transaction_failure platform w closing (failure_state e) (pending_target pending)
        forced_reload)
  reloaded s closing candidate pending (ok status, w) =
      if status.running
      then (
        ok status,
        record s {
          active_topology = candidate;
          active_plan = pending.desired_plan;
          active_warnings = pending.warnings;
          world = w;
        },
      )
      else status_fails s (
          runtime_transaction_failure platform w closing no_instance (pending_target pending)
            forced_reload)

  abbrev pub reload_pending :
      Adapter W T C P
      → Bool
      → T
      → C
      → Option (PreparedReload T C P)
      → Result TopologyError ReloadStatus × Adapter W T C P
  reload_pending s closing candidate prepared none =
      (err (runtime (codes "forced reload has no prepared transaction") false), s)
  reload_pending s closing candidate prepared (some pending) =
      if not (platform.same_topology pending.candidate candidate)
      then status_fails s (
          prepared_reload_protocol_failure platform s.world
            (codes "forced reload candidate changed after port configuration") pending)
      else if not pending.configured
      then (err (runtime (codes "forced reload port hopping was not configured") false), s)
      else reloaded s closing candidate pending (platform.reload_config s.world prepared)

  -- `take` leaves no pending reload.
  unfoldable pub reload_prepared :
      Adapter W T C P → Bool → T → C → Result TopologyError ReloadStatus × Adapter W T C P
  reload_prepared s closes candidate prepared =
      reload_pending (record s { pending_reload = none }) (s.closing || closes) candidate prepared
        s.pending_reload

  abbrev pub reload_chain_prepared :
      T
      → Bool
      → C
      → Result TopologyError (Unit {0}) × Adapter W T C P
      → Result TopologyError ReloadStatus × Adapter W T C P
  reload_chain_prepared candidate closes prepared (err e, s) = (err e, s)
  reload_chain_prepared candidate closes prepared (ok done, s) =
      reload_prepared s closes candidate prepared

  abbrev pub reload_chain_from :
      T
      → Bool
      → Result TopologyError C × Adapter W T C P
      → Result TopologyError ReloadStatus × Adapter W T C P
  reload_chain_from candidate closes (err e, s) = (err e, s)
  reload_chain_from candidate closes (ok prepared, s) =
      reload_chain_prepared candidate closes prepared (configure_reload s candidate)

  -- The three steps, as `reload_from_owned` calls them.
  unfoldable pub reload_chain :
      Adapter W T C P → Bool → T → Result TopologyError ReloadStatus × Adapter W T C P
  reload_chain s closes candidate = reload_chain_from candidate closes (prepare_reload s candidate)
