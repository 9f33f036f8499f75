-- ===== src/Topology/Adapter/Reload.antt =====
-- A forced reload settles as an ordinary apply does.
use node_agent_rs.Base.{
  Bool, true, false, ◌≡◌, ◌||◌, refl, ◌∙◌, ok, none, some, Result-cases, Bool-cases, inl, inr,
  arith,
}
use node_agent_rs.Topology.Adapter.{Platform, Adapter, CompileOutput, PreparedReload}
use node_agent_rs.Topology.Adapter.Failure.{forced_reload, failure_state}
use node_agent_rs.Topology.Adapter.Operations.{Previous, previous_of}
use node_agent_rs.Topology.Adapter.Reloading.{
  is_configured, prepare_reload, configure_reload, reload_prepared, reload_chain, reload_chain_from,
  reloaded, no_instance,
}
use node_agent_rs.Topology.Adapter.Live.{Lawful, IsLive}
use node_agent_rs.Topology.Adapter.Rollback.{port_failure_restores}
use node_agent_rs.Topology.Adapter.Apply.{Settles, failure-IsLive, still-IsLive, previous_plan}

module _ {W T C P : Type 0} (platform : Platform W T C P) (forwarding : W → P) (serving : W → C)
    (lawful : Lawful platform forwarding serving) where
  abbrev configured_reload : T → CompileOutput C → P → Previous C P → PreparedReload T C P
  configured_reload candidate output plan previous = record {
    candidate = candidate;
    desired_plan = plan;
    previous_plan = previous.plan;
    previous_config = previous.config;
    previous_had_topology = previous.had_topology;
    warnings = output.warnings;
    configured = true;
  }

  -- The reload of a prepared and configured candidate.
  reloaded-Settles :
      (s : Adapter W T C P) (w : W) (closing : Bool) (candidate : T) (output : CompileOutput C)
      (plan : P) (previous : Previous C P)
      → IsLive platform forwarding serving s
      → platform.compile candidate ≡ ok output
      → platform.build_plan candidate ≡ ok plan
      → previous_of platform s ≡ ok previous
      → forwarding w ≡ plan
      → serving w ≡ serving s.world
      → let result =
          reloaded platform
            (record s { world = w })
            closing
            candidate
            (configured_reload candidate output plan previous)
            (platform.reload_config w output.runtime) in
        Settles platform forwarding serving lawful s candidate result.0 result.1
  reloaded-Settles s w closing candidate output plan previous live compiled planned before forwards
        kept =
      elim (Result-cases (platform.reload_config w output.runtime).0) [
        | inl (status, e) ↦ elim (Bool-cases status.running) [
          | inl running ↦
              rw (e, running)
                (
                  refl,
                  record {
                    planned = planned;
                    forwards = lawful.reload_forwarding w output.runtime ∙ forwards;
                    serves = λ machine.
                        (output, compiled, lawful.reloads w output.runtime status e running);
                  },
                )
          | inr stopped ↦
              rw (e, stopped)
                (
                  refl,
                  refl,
                  refl,
                  failure-IsLive platform forwarding serving lawful s
                      (platform.reload_config w output.runtime).1 closing (no_instance platform)
                      forced_reload previous live before (λ intact. ground arith),
                )
        ]
        | inr (error, e) ↦ rw e (
          refl,
          refl,
          refl,
          failure-IsLive platform forwarding serving lawful s
              (platform.reload_config w output.runtime).1 closing (failure_state error)
              forced_reload previous live before
              (λ intact. lawful.not_reloaded w output.runtime error e intact ∙ kept),
        )
      ]

  without_pending :
      (s : Adapter W T C P)
      → IsLive platform forwarding serving s
      → IsLive platform forwarding serving (record s { pending_reload = none })
  without_pending s live = record {
    planned = live.planned;
    forwards = live.forwards;
    serves = live.serves;
  }

  -- Configuring and reloading what has been prepared.
  prepared-Settles :
      (s : Adapter W T C P) (closes : Bool) (candidate : T) (output : CompileOutput C) (plan : P)
      (previous : Previous C P)
      → IsLive platform forwarding serving s
      → platform.same_topology candidate candidate ≡ true
      → platform.compile candidate ≡ ok output
      → platform.build_plan candidate ≡ ok plan
      → previous_of platform s ≡ ok previous
      → let pending = record (configured_reload candidate output plan previous) {
        configured = false;
      } in
        let result =
          reload_chain_from platform candidate closes
            (ok output.runtime, record s { pending_reload = some pending }) in
        Settles platform forwarding serving lawful s candidate result.0 result.1
  unfolding configure_reload reload_prepared previous_of
  prepared-Settles s closes candidate output plan previous live itself compiled planned before =
      let reconciled = platform.reconcile_ports s.world plan in
      let idle = record s { pending_reload = none } in
      let idle_live = without_pending s live in
      elim (Result-cases reconciled.0) [
        | inl (done, e) ↦
            rw (itself, e, itself)
              (reloaded-Settles idle reconciled.1 (s.closing || closes) candidate output plan
                previous idle_live compiled planned before (lawful.reconciled s.world plan e)
                (lawful.reconcile_serving s.world plan))
        | inr (error, e) ↦
            rw (itself, e)
              (
                refl,
                refl,
                refl,
                λ rolled.
                    let (forwards, serves) =
                      port_failure_restores platform lawful reconciled.1 error previous.plan
                        previous.had_topology rolled in
                    still-IsLive platform forwarding serving lawful idle _ idle_live
                      (forwards
                        ∙ previous_plan platform forwarding serving lawful s previous live before)
                      (serves ∙ lawful.reconcile_serving s.world plan),
              )
      ]

  -- Of a platform that does what its answers say, and whose topologies equal themselves: if the
  -- published topology is live and no reload is configured, then a forced reload that succeeds
  -- publishes its candidate and makes it live, and one that fails at any step leaves what was
  -- published; if its error says that it was rolled back, that is live again.
  pub reload_chain-Settles :
      (s : Adapter W T C P) (closes : Bool) (candidate : T)
      → IsLive platform forwarding serving s
      → platform.same_topology candidate candidate ≡ true
      → is_configured platform s.pending_reload ≡ false
      → let result = reload_chain platform s closes candidate in
        Settles platform forwarding serving lawful s candidate result.0 result.1
  unfolding reload_chain prepare_reload
  reload_chain-Settles s closes candidate live itself idle =
      elim (Result-cases (platform.compile candidate)) [
        | inr (error, e) ↦ rw e (refl, refl, refl, λ rolled. live)
        | inl (output, compiled) ↦ elim (Result-cases (platform.build_plan candidate)) [
          | inr (error, e) ↦ rw (compiled, e) (refl, refl, refl, λ rolled. live)
          | inl (plan, planned) ↦ elim (Result-cases (previous_of platform s)) [
            | inr (error, e) ↦
                rw (compiled, planned, idle, e) (refl, refl, refl, λ rolled. without_pending s live)
            | inl (previous, before) ↦
                rw (compiled, planned, idle, before)
                  (prepared-Settles s closes candidate output plan previous live itself compiled
                    planned before)
          ]
        ]
      ]
