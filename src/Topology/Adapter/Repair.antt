-- ===== src/Topology/Adapter/Repair.antt =====
-- The periodic repair of the published topology, and the close.
use node_agent_rs.Base.{
  true, ◌≡◌, ◌↔◌, refl, ◌∙◌, Result, ok, err, Text, Option, none, some, List, [], ◌∷◌, Result-cases,
  inl, inr, arith,
}
use node_agent_rs.Topology.Adapter.{Platform, Adapter, TopologyError}
use node_agent_rs.Topology.Adapter.Failure.{is_empty}
use node_agent_rs.Topology.Adapter.Operations.{begin_close}
use node_agent_rs.Topology.Adapter.Upkeep.{
  reconcile_current, finish_reconcile, recover, recovered, failure_of, port_failures, close,
}
use node_agent_rs.Topology.Adapter.Live.{Lawful}

module _ {W T C P : Type 0} (platform : Platform W T C P) (forwarding : W → P) (serving : W → C)
    (lawful : Lawful platform forwarding serving) where
  recovered_forwarding :
      (w : W) (failure : Text) (c : C)
      → forwarding (recovered platform failure (platform.reload_config w c)).1 ≡ forwarding w
  recovered_forwarding w failure c = elim (Result-cases (platform.reload_config w c).0) [
    | inl (status, h) ↦ rw h (lawful.reload_forwarding w c)
    | inr (error, h) ↦ rw h (lawful.reload_forwarding w c)
  ]

  recover_forwarding :
      (w : W) (current : T) (failure : Option Text)
      → forwarding (recover platform w current failure).1 ≡ forwarding w
  recover_forwarding w current none = refl
  recover_forwarding w current (some failure) = elim (Result-cases (platform.compile current)) [
    | inl (output, e) ↦ rw (recover, e) (recovered_forwarding w failure output.runtime)
    | inr (error, e) ↦ rw (recover, e) refl
  ]

  port_forwards :
      (w : W) (p : P)
      → is_empty (port_failures platform (platform.reconcile_ports w p).0) ≡ true
      → forwarding (platform.reconcile_ports w p).1 ≡ p
  port_forwards w p h = elim (Result-cases (platform.reconcile_ports w p).0) [
    | inl (done, e) ↦ lawful.reconciled w p e
    | inr (error, e) ↦
        let never : is_empty (port_failures platform (err error)) ≡ true = rw e at h in ground arith
  ]

  -- The plan is forwarded, and the topology is published with it.
  abbrev Repaired : Adapter W T C P → T → P → Type 0
  Repaired after current plan =
      (forwarding after.world ≡ plan)
      × (after.active_topology ≡ current)
      × (after.active_plan ≡ plan)

  finish_repairs :
      (s : Adapter W T C P) (current : T) (plan : P) (failures : List Text)
      (outcome : Result TopologyError (List Text) × W)
      → (is_empty failures ≡ true → forwarding outcome.1 ≡ plan)
      → (finish_reconcile platform s current plan failures outcome).0 ≡ ok tt
      → Repaired (finish_reconcile platform s current plan failures outcome).1 current plan
  finish_repairs s current plan failures (err e, w) ported succeeds = cc
  finish_repairs s current plan [] (ok [], w) ported succeeds = (ported refl, refl, refl)
  finish_repairs s current plan [] (ok (m ∷ more), w) ported succeeds = cc
  finish_repairs s current plan (f ∷ failures) (ok [], w) ported succeeds = cc
  finish_repairs s current plan (f ∷ failures) (ok (m ∷ more), w) ported succeeds = cc

  -- Of a platform that does what its answers say: a repair of a topology that succeeds leaves its
  -- plan forwarded, whatever was forwarded before, and publishes it with that plan.
  pub reconcile_current_repairs :
      (s : Adapter W T C P) (current : T) (plan : P)
      → platform.build_plan current ≡ ok plan
      → (reconcile_current platform s current).0 ≡ ok tt
      → let after = (reconcile_current platform s current).1 in
        (forwarding after.world ≡ plan)
        × (after.active_topology ≡ current)
        × (after.active_plan ≡ plan)
  unfolding reconcile_current
  reconcile_current_repairs s current plan planned =
      let w = (platform.reconcile_ports s.world plan).1 in
      let failure = failure_of platform (platform.health w) in
      rw planned (
        finish_repairs s current plan
          (port_failures platform (platform.reconcile_ports s.world plan).0)
          (recover platform w current failure)
          (λ no_failures.
            recover_forwarding w current failure ∙ port_forwards s.world plan no_failures))

module _ {W T C P : Type 0} (platform : Platform W T C P) where
  -- A close always goes on to the runtime, whatever the port router answers, and it succeeds exactly
  -- where both do.
  pub close_reaches_both :
      (s : Adapter W T C P)
      → let ports = platform.close_ports (platform.begin_close s.world) in
        let runtime = platform.close_runtime ports.1 in
        ((close platform s).1.world ≡ runtime.1)
        × ((close platform s).1.closing ≡ true)
        × (((close platform s).0 ≡ ok tt) ↔ ((ports.0 ≡ ok tt) × (runtime.0 ≡ ok tt)))
  unfolding close begin_close
  close_reaches_both s =
      let ports = platform.close_ports (platform.begin_close s.world) in
      let runtime = platform.close_runtime ports.1 in
      elim (Result-cases ports.0) [
        | inl (done, e) ↦ elim (Result-cases runtime.0) [
          | inl (closed, h) ↦ rw (e, h) (refl, refl, (λ x. (refl, refl), λ x. refl))
          | inr (error, h) ↦ rw (e, h) (refl, refl, (λ x. cc, λ x. cc))
        ]
        | inr (failure, e) ↦ elim (Result-cases runtime.0) [
          | inl (closed, h) ↦ rw (e, h) (refl, refl, (λ x. cc, λ x. cc))
          | inr (error, h) ↦ rw (e, h) (refl, refl, (λ x. cc, λ x. cc))
        ]
      ]
