-- ===== src/Topology/Adapter/Upkeep.antt =====
-- crates/node-agent/src/topology/manager.rs: the repair of a published topology, and the close.
use node_agent_rs.Base.{
  Bool, true, false, ◌||◌, not, Option, none, some, List, [], ◌∷◌, ◌++◌, Text, codes, Result, ok,
  err, if◌then◌else◌, map_err,
}
use node_agent_rs.Topology.Adapter.{
  TopologyError, runtime, runtime_state, RuntimeError, PortRouterError, ReloadStatus, Platform,
  Adapter, CompileOutput, RuntimeHealth,
}
use node_agent_rs.Topology.Adapter.Failure.{join, is_empty, display}
use node_agent_rs.Topology.Adapter.Operations.{failed_to, begin_close}

module _ {W T C P : Type 0} (platform : Platform W T C P) where
  abbrev pub port_failures : Result PortRouterError (Unit {0}) → List Text
  port_failures (ok done) = []
  port_failures (err e) = (codes "reconcile current port hopping forwarding state: " ++ e.text) ∷ []

  abbrev is_some : Option Text → Bool
  is_some none = false
  is_some (some text) = true

  -- The health after a recovery.
  abbrev unhealthy : Text → Option RuntimeHealth → List Text
  unhealthy failure none = (codes "runtime health unavailable after recovery of " ++ failure) ∷ []
  unhealthy failure (some after) =
      if is_some after.failure || not after.running
      then (codes "runtime still unhealthy after recovery of "
          ++ failure
          ++ codes ": "
          ++ platform.debug after.failure)
        ∷ []
      else []

  abbrev pub recovered : Text → Result RuntimeError ReloadStatus × W → List Text × W
  recovered failure (ok status, w) = (unhealthy failure (platform.health w), w)
  recovered failure (err e, w) =
      ((codes "recover stopped shoes listener (" ++ failure ++ codes "): " ++ display e) ∷ [], w)

  abbrev pub failure_of : Option RuntimeHealth → Option Text
  failure_of none = none
  failure_of (some health) = health.failure

  abbrev pub recover_with :
      W → Text → Result TopologyError (CompileOutput C) → Result TopologyError (List Text) × W
  recover_with w failure (err e) = (err e, w)
  recover_with w failure (ok output) =
      let (failures, w') = recovered failure (platform.reload_config w output.runtime) in
      (ok failures, w')

  -- The forced reload of an unhealthy runtime.
  abbrev pub recover : W → T → Option Text → Result TopologyError (List Text) × W
  recover w current none = (ok [], w)
  recover w current (some failure) = recover_with w failure (
      map_err
        (λ e.
          runtime (codes "compile current topology to recover " ++ failure ++ codes ": " ++ e)
            false)
        (platform.compile current))

  abbrev is_running : Option RuntimeHealth → Bool
  is_running none = false
  is_running (some health) = health.running

  abbrev pub finish_reconcile :
      Adapter W T C P
      → T
      → P
      → List Text
      → Result TopologyError (List Text) × W
      → Result TopologyError (Unit {0}) × Adapter W T C P
  finish_reconcile s current plan failures (err e, w) = (err e, record s { world = w })
  finish_reconcile s current plan failures (ok more, w) =
      if is_empty (failures ++ more)
      then (ok tt, record s { active_topology = current; active_plan = plan; world = w })
      else (
        err (runtime_state (join (failures ++ more)) false (is_running (platform.health w))),
        record s { world = w },
      )

  abbrev pub reconcile_with :
      Adapter W T C P
      → T
      → Result TopologyError P
      → Result TopologyError (Unit {0}) × Adapter W T C P
  reconcile_with s current (err e) = (err e, s)
  reconcile_with s current (ok plan) =
      let (reply, w) = platform.reconcile_ports s.world plan in
      finish_reconcile s current plan (port_failures reply)
        (recover w current (failure_of (platform.health w)))

  unfoldable pub reconcile_current :
      Adapter W T C P → T → Result TopologyError (Unit {0}) × Adapter W T C P
  reconcile_current s current = reconcile_with s current (
      map_err (failed_to "build current port hopping forwarding state: ")
        (platform.build_plan current))

  abbrev pub close_ports_of :
      Adapter W T C P → Result PortRouterError (Unit {0}) × W → List Text × Adapter W T C P
  close_ports_of s (ok done, w) =
      ([], record s { active_plan = platform.no_plan; pending_reload = none; world = w })
  close_ports_of s (err e, w) =
      ((codes "close port hopping forwarding: " ++ e.text) ∷ [], record s { world = w })

  abbrev pub close_runtime_of :
      List Text
      → Adapter W T C P
      → Result RuntimeError (Unit {0}) × W
      → Result TopologyError (Unit {0}) × Adapter W T C P
  close_runtime_of failures s (err e, w) = (
    err (
        runtime_state (join (failures ++ (codes "close shoes runtime: " ++ display e) ∷ [])) false
          e.running),
    record s { world = w },
  )
  close_runtime_of failures s (ok done, w) = (
    if is_empty failures then ok tt else err (runtime_state (join failures) false false),
    record s { world = w },
  )

  unfoldable pub close : Adapter W T C P → Result TopologyError (Unit {0}) × Adapter W T C P
  close s =
      let closing = begin_close platform s in
      let (failures, s') = close_ports_of closing (platform.close_ports closing.world) in
      close_runtime_of failures s' (platform.close_runtime s'.world)
