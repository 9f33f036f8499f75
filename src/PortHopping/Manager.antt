-- ===== src/PortHopping/Manager.antt =====
-- crates/node-agent/src/porthopping/manager.rs: the lifecycle of the forwarding backend.
-- The platform backend is a parameter: a state and one operation, which may panic with the lock
-- held and so poison it. `State` is what the mutex holds, with the mutex's poison flag.
pub mod Lifecycle
use node_agent_rs.Base.{
  ℕ, ◌≡◌, refl, Bool, true, false, List, [], ◌∷◌, arith, if◌then◌else◌, Bool-cases, inl, inr, ◌⊎◌,
}
use node_agent_rs.PortHopping.Plan.{Plan, empty_plan}

-- How one call of `Backend::apply` ends.
pub data Outcome (E : Type 0) : Type 0 where
  done : Outcome E
  failed : E → Outcome E
  panicked : Outcome E

-- `BackendResult`: the manager's own errors, the backend's error passed on, or the caller's panic.
pub data Reply (E : Type 0) : Type 0 where
  success : Reply E
  lock_poisoned : Reply E
  router_closed : Reply E
  backend_error : E → Reply E
  unwound : Reply E

pub record State (B : Type 0) : Type 0 where
  pub backend : B
  pub closed : Bool
  pub poisoned : Bool

module _ {B E : Type 0} (backend_apply : B → Plan → Outcome E × B) where
  -- `Manager::with_backend`
  unfoldable pub with_backend : B → State B
  with_backend b = record { backend = b; closed = false; poisoned = false }

  abbrev pub after_apply : State B → Outcome E × B → Reply E × State B
  after_apply s (done, b) = (success, record s { backend = b })
  after_apply s (failed e, b) = (backend_error e, record s { backend = b })
  after_apply s (panicked, b) = (unwound, record s { backend = b; poisoned = true })

  -- `Manager::apply`, and its alias `reconcile`.
  unfoldable pub apply : State B → Plan → Reply E × State B
  apply s desired =
      if s.poisoned
      then (lock_poisoned, s)
      else if s.closed
      then (router_closed, s)
      else after_apply s (backend_apply s.backend desired)

  unfoldable pub reconcile : State B → Plan → Reply E × State B
  reconcile s desired = apply s desired

  abbrev pub after_close : State B → Outcome E × B → Reply E × State B
  after_close s (done, b) = (success, record s { backend = b; closed = true })
  after_close s (failed e, b) = (backend_error e, record s { backend = b })
  after_close s (panicked, b) = (unwound, record s { backend = b; poisoned = true })

  -- `Manager::close`
  unfoldable pub close : State B → Reply E × State B
  close s =
      if s.poisoned
      then (lock_poisoned, s)
      else if s.closed
      then (success, s)
      else after_close s (backend_apply s.backend empty_plan)

  pub data Call : Type 0 where
    applies : Plan → Call
    closes : Call

  unfoldable pub call : State B → Call → Reply E × State B
  call s (applies plan) = reconcile s plan
  call s closes = close s

  -- The calls in the order in which they take the lock.
  unfoldable pub run : State B → List Call → State B
  run s [] = s
  run s (c ∷ cs) = run (call s c).1 cs
