-- ===== src/Topology/Adapter/Apply.antt =====
-- Applying a topology either publishes it, live, or leaves the previous one published; and it is
-- live again where the error says that it was rolled back.
use node_agent_rs.Base.{
  Bool, true, false, ◌≡◌, ◌||◌, refl, sym, ap, ◌∙◌, Result, ok, err, none, some, Result-cases,
  Bool-cases, inl, inr, arith, >>=-eq-ok, map_err-eq-ok, ok-injective,
}
use node_agent_rs.Topology.Adapter.{Platform, Adapter, CompileOutput, TopologyError}
use node_agent_rs.Topology.Adapter.Failure.{
  RuntimeFailureMode, RuntimeFailureState, ordinary_apply, failure_state,
  runtime_transaction_failure,
}
use node_agent_rs.Topology.Adapter.Operations.{
  Previous, previous_of, prepare_apply, apply_ports, apply_runtime, apply, compile_candidate,
  plan_candidate,
}
use node_agent_rs.Topology.Adapter.Live.{Lawful, IsLive}
use node_agent_rs.Topology.Adapter.Rollback.{
  rolled_back_restores, port_failure_restores, not_rolled_back_without,
}

module _ {W T C P : Type 0} (platform : Platform W T C P) (forwarding : W → P) (serving : W → C)
    (lawful : Lawful platform forwarding serving) where
  -- How a transaction ends.
  abbrev pub Settles :
      {A : Type 0} → Adapter W T C P → T → Result TopologyError A → Adapter W T C P → Type 0
  Settles before candidate (ok a) after =
      (after.active_topology ≡ candidate) × IsLive platform forwarding serving after
  Settles before candidate (err e) after =
      (after.active_topology ≡ before.active_topology)
      × (after.active_plan ≡ before.active_plan)
      × (after.active_warnings ≡ before.active_warnings)
      × (e.rolled_back ≡ true → IsLive platform forwarding serving after)

  -- What has been computed before the first mutation.
  record IsPrepared (s : Adapter W T C P) (candidate : T) (output : CompileOutput C) (plan : P)
      (previous : Previous C P) : Type 0 where
    compiled : platform.compile candidate ≡ ok output
    planned : platform.build_plan candidate ≡ ok plan
    before : previous_of platform s ≡ ok previous

  prepare_apply-IsPrepared :
      (s : Adapter W T C P) (candidate : T) (output : CompileOutput C) (plan : P)
      (previous : Previous C P)
      → prepare_apply platform s candidate ≡ ok (output, plan, previous)
      → IsPrepared s candidate output plan previous
  unfolding prepare_apply
  prepare_apply-IsPrepared s candidate output plan previous e =
      let (o, compiled, e1) = >>=-eq-ok (compile_candidate platform candidate) _ e in
      let (p, planned, e2) = >>=-eq-ok (plan_candidate platform candidate) _ e1 in
      let (q, before, e3) = >>=-eq-ok (previous_of platform s) _ e2 in
      let same : ◌≡◌ {A = CompileOutput C × P × Previous C P} (o, p, q) (output, plan, previous) =
        ok-injective e3 in
      record {
        compiled =
            map_err-eq-ok _ (platform.compile candidate) compiled
            ∙ ap (λ (x : CompileOutput C × P × Previous C P). ok x.0) same;
        planned =
            map_err-eq-ok _ (platform.build_plan candidate) planned
            ∙ ap (λ (x : CompileOutput C × P × Previous C P). ok x.1) same;
        before = before ∙ ap (λ (x : CompileOutput C × P × Previous C P). ok x.2) same;
      }

  -- The previous state of a live adapter, without and with a topology.
  previous_without :
      (s : Adapter W T C P)
      → IsLive platform forwarding serving s
      → platform.has_machine s.active_topology ≡ false
      → previous_of platform s
        ≡ ok (record { plan = s.active_plan; config = none; had_topology = false })
  unfolding previous_of
  previous_without s live no_machine = rw (live.planned, no_machine) refl

  previous_with :
      (s : Adapter W T C P) (output : CompileOutput C)
      → IsLive platform forwarding serving s
      → platform.has_machine s.active_topology ≡ true
      → platform.compile s.active_topology ≡ ok output
      → previous_of platform s
        ≡ ok (record { plan = s.active_plan; config = some output.runtime; had_topology = true })
  unfolding previous_of
  previous_with s output live machine compiled = rw (live.planned, machine, compiled) refl

  pub previous_plan :
      (s : Adapter W T C P) (previous : Previous C P)
      → IsLive platform forwarding serving s
      → previous_of platform s ≡ ok previous
      → previous.plan ≡ s.active_plan
  previous_plan s previous live before =
      elim (Bool-cases (platform.has_machine s.active_topology)) [
        | inl machine ↦
            let (output, compiled, served) = live.serves machine in
            ap (λ (x : Previous C P). x.plan)
              (ok-injective (sym before ∙ previous_with s output live machine compiled))
        | inr no_machine ↦
            ap (λ (x : Previous C P). x.plan)
              (ok-injective (sym before ∙ previous_without s live no_machine))
      ]

  -- A live adapter is live again in a world that forwards and serves the same.
  pub still-IsLive :
      (s : Adapter W T C P) (w : W)
      → IsLive platform forwarding serving s
      → forwarding w ≡ s.active_plan
      → serving w ≡ serving s.world
      → IsLive platform forwarding serving (record s { world = w })
  still-IsLive s w live forwards serves = record {
    planned = live.planned;
    forwards = forwards;
    serves = λ machine.
        let (output, compiled, served) = live.serves machine in (output, compiled, serves ∙ served);
  }

  -- A failure of the runtime that is marked as rolled back.
  pub failure-IsLive :
      (s : Adapter W T C P) (w : W) (closing : Bool) (failure : RuntimeFailureState)
      (mode : RuntimeFailureMode) (previous : Previous C P)
      → IsLive platform forwarding serving s
      → previous_of platform s ≡ ok previous
      → ((failure.rolled_back || failure.unchanged) ≡ true → serving w ≡ serving s.world)
      → let result =
          runtime_transaction_failure platform w closing failure
            (record {
              port_hopping = previous.plan;
              config = previous.config;
              had_topology = previous.had_topology;
            })
            mode in
        result.0.rolled_back ≡ true
        → IsLive platform forwarding serving (record s { world = result.1 })
  failure-IsLive s w closing failure mode previous live before kept rolled =
      elim (Bool-cases (platform.has_machine s.active_topology)) [
        | inl machine ↦
            let (output, compiled, served) = live.serves machine in
            let same : previous ≡ record {
              plan = s.active_plan;
              config = some output.runtime;
              had_topology = true;
            } =
              ok-injective (sym before ∙ previous_with s output live machine compiled) in
            let (forwards, serves) =
              rolled_back_restores platform lawful w closing failure s.active_plan output.runtime
                true mode (λ intact. kept intact ∙ served) (rw same at rolled) in
            rw same (still-IsLive s _ live forwards (serves ∙ sym served))
        | inr no_machine ↦
            let same : previous
                ≡ record { plan = s.active_plan; config = none; had_topology = false } =
              ok-injective (sym before ∙ previous_without s live no_machine) in
            let never =
              not_rolled_back_without platform w closing failure
                (record { port_hopping = s.active_plan; config = none; had_topology = false }) mode
                refl in
            let rolled' : (runtime_transaction_failure platform w closing failure
                  (record { port_hopping = s.active_plan; config = none; had_topology = false })
                  mode).0.rolled_back
                ≡ true =
              rw same at rolled in
            let impossible : false ≡ true = sym never ∙ rolled' in ground arith
      ]

  apply_runtime-Settles :
      (s : Adapter W T C P) (w : W) (closing : Bool) (candidate : T) (output : CompileOutput C)
      (plan : P) (previous : Previous C P)
      → IsLive platform forwarding serving s
      → IsPrepared s candidate output plan previous
      → forwarding w ≡ plan
      → serving w ≡ serving s.world
      → let result =
          apply_runtime platform s closing candidate output plan previous
            (platform.apply_config w output.runtime) in
        Settles s candidate result.0 result.1
  apply_runtime-Settles s w closing candidate output plan previous live prepared forwards kept =
      elim (Result-cases (platform.apply_config w output.runtime).0) [
        | inl (done, e) ↦ rw e (
          refl,
          record {
            planned = prepared.planned;
            forwards = lawful.apply_forwarding w output.runtime ∙ forwards;
            serves = λ machine. (output, prepared.compiled, lawful.applied w output.runtime e);
          },
        )
        | inr (error, e) ↦ rw e (
          refl,
          refl,
          refl,
          failure-IsLive s (platform.apply_config w output.runtime).1 closing (failure_state error)
              ordinary_apply previous live prepared.before
              (λ intact. lawful.not_applied w output.runtime error e intact ∙ kept),
        )
      ]

  apply_ports-Settles :
      (s : Adapter W T C P) (closing : Bool) (candidate : T) (output : CompileOutput C) (plan : P)
      (previous : Previous C P)
      → IsLive platform forwarding serving s
      → IsPrepared s candidate output plan previous
      → let result =
          apply_ports platform s closing candidate output plan previous
            (platform.reconcile_ports s.world plan) in
        Settles s candidate result.0 result.1
  apply_ports-Settles s closing candidate output plan previous live prepared =
      elim (Result-cases (platform.reconcile_ports s.world plan).0) [
        | inl (done, e) ↦ rw e (
            apply_runtime-Settles s (platform.reconcile_ports s.world plan).1 closing candidate
              output plan previous live prepared (lawful.reconciled s.world plan e)
              (lawful.reconcile_serving s.world plan))
        | inr (error, e) ↦ rw e (
          refl,
          refl,
          refl,
          λ rolled.
              let (forwards, serves) =
                port_failure_restores platform lawful (platform.reconcile_ports s.world plan).1
                  error previous.plan previous.had_topology rolled in
              still-IsLive s _ live (forwards ∙ previous_plan s previous live prepared.before)
                (serves ∙ lawful.reconcile_serving s.world plan),
        )
      ]

  -- Of a platform that does what its answers say: if the published topology is live, then an apply
  -- that succeeds publishes its candidate and makes it live, and one that fails leaves what was
  -- published; if its error says that it was rolled back, that is live again.
  pub apply-Settles :
      (s : Adapter W T C P) (closes : Bool) (candidate : T)
      → IsLive platform forwarding serving s
      → let result = apply platform s closes candidate in Settles s candidate result.0 result.1
  unfolding apply
  apply-Settles s closes candidate live = elim (Result-cases (prepare_apply platform s candidate)) [
    | inl ((output, plan, previous), e) ↦ rw e (
        apply_ports-Settles s (s.closing || closes) candidate output plan previous live
          (prepare_apply-IsPrepared s candidate output plan previous e))
    | inr (error, e) ↦ rw e (refl, refl, refl, λ rolled. live)
  ]
