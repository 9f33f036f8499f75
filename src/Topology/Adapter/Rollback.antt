-- ===== src/Topology/Adapter/Rollback.antt =====
-- An error that is marked as rolled back has restored the previous forwarding and configuration.
use node_agent_rs.Base.{
  Bool, true, false, ◌≡◌, ◌||◌, ◌&&◌, not, refl, sym, ap, ◌∙◌, Text, some, codes, List, [], ◌∷◌,
  ◌++◌, Result-cases, Bool-cases, inl, inr, arith,
}
use node_agent_rs.Topology.Adapter.{PortRouterError, Platform}
use node_agent_rs.Topology.Adapter.Failure.{
  is_empty, RuntimeFailureMode, RuntimeFailureState, RuntimeRollbackTarget,
  port_configuration_failure, runtime_transaction_failure, Restoration, restores_in,
  closing_with_intact_runtime, restored_ports, restored_config, restore_runtime, runtime_restored,
  classify, after_restored_ports,
}
use node_agent_rs.Topology.Adapter.Live.{Lawful}

not_empty_last : (messages : List Text) (m : Text) → is_empty (messages ++ m ∷ []) ≡ false
not_empty_last [] m = refl
not_empty_last (x ∷ []) m = refl
not_empty_last (x ∷ y ∷ rest) m = refl

module _ {W T C P : Type 0} (platform : Platform W T C P) where
  classify_rolled_back :
      (failure : RuntimeFailureState) (mode : RuntimeFailureMode) (had : Bool) (r : Restoration W)
      → (classify platform failure mode had r).rolled_back ≡ (
          is_empty r.rollback_errors
          && had
          && r.running
          && runtime_restored platform failure mode r)
  unfolding classify
  classify_rolled_back failure mode had r =
      let restored =
        is_empty r.rollback_errors
        && had
        && r.running
        && runtime_restored platform failure mode r in
      elim (Bool-cases (not (is_empty r.rollback_errors) || restored)) [
        | inl staged ↦ rw staged refl
        | inr plain ↦ rw plain refl
      ]

  -- Without a previous topology, nothing is called rolled back.
  pub not_rolled_back_without :
      (w : W) (closing : Bool) (failure : RuntimeFailureState)
      (previous : RuntimeRollbackTarget C P) (mode : RuntimeFailureMode)
      → previous.had_topology ≡ false
      → (runtime_transaction_failure platform w closing failure previous mode).0.rolled_back ≡ false
  unfolding runtime_transaction_failure
  not_rolled_back_without w closing failure previous mode h =
      let r = restore_runtime platform closing failure mode previous.config (
        restored_ports platform failure.running
          (platform.reconcile_ports w previous.port_hopping)) in
      ground (arith, classify_rolled_back failure mode previous.had_topology r, h)

  module _ {forwarding : W → P} {serving : W → C}
      (lawful : Lawful platform forwarding serving) where
    -- What a rollback is to reach: `c` is served again, if there are no errors and the runtime is
    -- restored or was intact.
    abbrev Reaches : P → C → RuntimeFailureState → Restoration W → Type 0
    Reaches p c failure r =
        is_empty r.rollback_errors ≡ true
        → (r.restored_runtime || failure.rolled_back || failure.unchanged) ≡ true
        → (forwarding r.world ≡ p) × (serving r.world ≡ c)

    restored_ports-Reaches :
        (w : W) (failure : RuntimeFailureState) (p : P) (c : C)
        → ((failure.rolled_back || failure.unchanged) ≡ true → serving w ≡ c)
        → Reaches p c failure
            (restored_ports platform failure.running (platform.reconcile_ports w p))
    restored_ports-Reaches w failure p c kept =
        elim (Result-cases (platform.reconcile_ports w p).0) [
          | inl (done, e) ↦ rw e (λ no_errors intact.
              (lawful.reconciled w p e, lawful.reconcile_serving w p ∙ kept intact))
          | inr (error, e) ↦ rw e (λ no_errors intact. ground arith)
        ]

    restored_config-Reaches :
        (failure : RuntimeFailureState) (p : P) (c : C) (r : Restoration W)
        → (is_empty r.rollback_errors ≡ true → forwarding r.world ≡ p)
        → Reaches p c failure (restored_config platform r (platform.apply_config r.world c))
    restored_config-Reaches failure p c r ported =
        elim (Result-cases (platform.apply_config r.world c).0) [
          | inl (done, e) ↦ rw e (λ no_errors intact.
              (lawful.apply_forwarding r.world c ∙ ported no_errors, lawful.applied r.world c e))
          | inr (error, e) ↦
              rw e (λ no_errors intact. ground (arith, not_empty_last r.rollback_errors, no_errors))
        ]

    restore_runtime-Reaches :
        (closing : Bool) (failure : RuntimeFailureState) (mode : RuntimeFailureMode) (p : P) (c : C)
        (r : Restoration W)
        → (is_empty r.rollback_errors ≡ true → forwarding r.world ≡ p)
        → Reaches p c failure r
        → Reaches p c failure (restore_runtime platform closing failure mode (some c) r)
    unfolding restore_runtime
    restore_runtime-Reaches closing failure mode p c r ported h =
        elim (Bool-cases (
          not (closing_with_intact_runtime platform closing failure) && restores_in mode failure)) [
            | inl restores ↦ rw restores (restored_config-Reaches failure p c r ported)
            | inr leaves ↦ rw leaves h
          ]

    restored_ports_forwards :
        (w : W) (running : Bool) (p : P)
        → let r = restored_ports platform running (platform.reconcile_ports w p) in
          is_empty r.rollback_errors ≡ true → forwarding r.world ≡ p
    restored_ports_forwards w running p = elim (Result-cases (platform.reconcile_ports w p).0) [
      | inl (done, e) ↦ rw e (λ no_errors. lawful.reconciled w p e)
      | inr (error, e) ↦ rw e (λ no_errors. ground arith)
    ]

    -- The previous configuration `c` was served where the failure left the runtime as it was.
    pub rolled_back_restores :
        (w : W) (closing : Bool) (failure : RuntimeFailureState) (p : P) (c : C) (had : Bool)
        (mode : RuntimeFailureMode)
        → ((failure.rolled_back || failure.unchanged) ≡ true → serving w ≡ c)
        → let result =
            runtime_transaction_failure platform w closing failure
              (record { port_hopping = p; config = some c; had_topology = had })
              mode in
          result.0.rolled_back ≡ true → (forwarding result.1 ≡ p) × (serving result.1 ≡ c)
    unfolding runtime_transaction_failure
    rolled_back_restores w closing failure p c had mode kept rolled =
        let ports = restored_ports platform failure.running (platform.reconcile_ports w p) in
        let r = restore_runtime platform closing failure mode (some c) ports in
        let classified = sym (classify_rolled_back failure mode had r) ∙ rolled in
        restore_runtime-Reaches closing failure mode p c ports
          (restored_ports_forwards w failure.running p) (restored_ports-Reaches w failure p c kept)
          (ground (arith, classified)) (ground (arith, classified))

    after_restored_ports_reaches :
        (w : W) (message : Text) (p : P) (had : Bool)
        → (after_restored_ports message had (platform.reconcile_ports w p).0).rolled_back ≡ true
        → forwarding (platform.reconcile_ports w p).1 ≡ p
    after_restored_ports_reaches w message p had rolled =
        elim (Result-cases (platform.reconcile_ports w p).0) [
          | inl (done, e) ↦ lawful.reconciled w p e
          | inr (error, e) ↦
              let never =
                ap (λ r. (after_restored_ports message had r).rolled_back) (sym e) ∙ rolled in
              ground (arith, never)
        ]

    -- An error of the port router that is marked as rolled back has restored the forwarding.
    pub port_failure_restores :
        (w : W) (error : PortRouterError) (p : P) (had : Bool)
        → let result = port_configuration_failure platform w error p had in
          result.0.rolled_back ≡ true → (forwarding result.1 ≡ p) × (serving result.1 ≡ serving w)
    unfolding port_configuration_failure
    port_failure_restores w error p had rolled =
        let message = codes "configure port hopping forwarding: " ++ error.text in
        elim (Bool-cases error.uncertain) [
          | inl uncertain ↦
              let rolled' : (after_restored_ports message had
                    (platform.reconcile_ports w p).0).rolled_back
                  ≡ true =
                rw uncertain at rolled in
              rw uncertain
                (after_restored_ports_reaches w message p had rolled', lawful.reconcile_serving w p)
          | inr certain ↦ let never : false ≡ true = rw certain at rolled in ground arith
        ]
