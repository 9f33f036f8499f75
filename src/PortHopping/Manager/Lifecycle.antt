-- ===== src/PortHopping/Manager/Lifecycle.antt =====
-- A closed manager stays closed over an empty plan; a failed close can be tried again.
use node_agent_rs.Base.{◌≡◌, refl, true, ◌||◌, List, [], ◌∷◌, arith}
use node_agent_rs.PortHopping.Plan.{Plan, empty_plan}
use node_agent_rs.PortHopping.Manager.{
  Outcome, done, success, State, with_backend, apply, reconcile, close, Call, applies, closes, call,
  run,
}

module _ {B E : Type 0} (backend_apply : B → Plan → Outcome E × B) where
  call_final :
      (s : State B) (c : Call backend_apply)
      → (s.closed || s.poisoned) ≡ true
      → (call backend_apply s c).1 ≡ s
  unfolding call reconcile apply close
  call_final s (applies plan) h = ground arith
  call_final s closes h = ground arith

  -- A manager that is closed or poisoned never changes again, and its backend is left alone.
  pub run_final :
      (s : State B) (cs : List (Call backend_apply))
      → (s.closed || s.poisoned) ≡ true
      → run backend_apply s cs ≡ s
  unfolding run
  run_final s [] h = refl
  run_final s (c ∷ cs) h = rw (call_final s c h) (run_final s cs h)

  module _ (installed : B → Plan)
      (installs : (b b' : B) (plan : Plan)
        → backend_apply b plan ≡ (done, b')
        → installed b' ≡ plan) where
    -- A closed manager has no forwarding installed.
    abbrev pub ClosedIsEmpty : State B → Type 0
    ClosedIsEmpty s = s.closed ≡ true → installed s.backend ≡ empty_plan

    call-ClosedIsEmpty :
        (s : State B) (c : Call backend_apply)
        → ClosedIsEmpty s
        → ClosedIsEmpty (call backend_apply s c).1
    unfolding call reconcile apply close
    call-ClosedIsEmpty s (applies plan) h k = ground arith
    call-ClosedIsEmpty s closes h k =
        ground (arith, installs s.backend (backend_apply s.backend empty_plan).1 empty_plan)

    run-ClosedIsEmpty :
        (s : State B) (cs : List (Call backend_apply))
        → ClosedIsEmpty s
        → ClosedIsEmpty (run backend_apply s cs)
    unfolding run
    run-ClosedIsEmpty s [] h = h
    run-ClosedIsEmpty s (c ∷ cs) h =
        run-ClosedIsEmpty (call backend_apply s c).1 cs (call-ClosedIsEmpty s c h)

    close-closed : (s t : State B) → close backend_apply s ≡ (success, t) → t.closed ≡ true
    unfolding close
    close-closed s t h = ground arith

    close-ClosedIsEmpty :
        (s t : State B) → ClosedIsEmpty s → close backend_apply s ≡ (success, t) → ClosedIsEmpty t
    unfolding close
    close-ClosedIsEmpty s t h e k =
        ground (arith, installs s.backend (backend_apply s.backend empty_plan).1 empty_plan)

    -- Given that a backend which reports success has installed the plan: whatever calls came
    -- before it, a successful close leaves no forwarding installed, and no call after it changes
    -- the manager or its backend.
    pub close_for_good :
        (b : B) (before after : List (Call backend_apply)) (t : State B)
        → close backend_apply (run backend_apply (with_backend backend_apply b) before)
          ≡ (success, t)
        → (installed t.backend ≡ empty_plan) × (run backend_apply t after ≡ t)
    unfolding with_backend
    close_for_good b before after t e =
        let s = run backend_apply (with_backend backend_apply b) before in
        let closed = close-closed s t e in
        let empty = run-ClosedIsEmpty (with_backend backend_apply b) before (λ k. cc (k)) in
        (close-ClosedIsEmpty s t empty e closed, run_final t after (ground arith))
