-- ===== src/Topology/Tests.antt =====
-- Runs of the topology code on concrete inputs, and its theorems at such inputs.
use node_agent_rs.Base.{
  Text, text_eq, lookup, tree_insert, text_le, ℕ, ◌≡◌, ◌∷◌, List, ◌||◌, refl, ap, ◌∙◌, Bool, true,
  false, not, [], arith, codes, none, some, Result, ok, err, ◌==◌, if◌then◌else◌,
}
use node_agent_rs.Topology.Adapter.{Platform, Adapter, RuntimeError, PortRouterError}
use node_agent_rs.Topology.Adapter.Operations.{apply, prepare_apply, previous_of}
use node_agent_rs.Topology.Adapter.Reloading.{reload_chain}
use node_agent_rs.Topology.Adapter.Upkeep.{reconcile_current}
use node_agent_rs.Topology.Adapter.Live.{Lawful, IsLive}
use node_agent_rs.Topology.Adapter.Apply.{Settles, apply-Settles}
use node_agent_rs.Topology.Adapter.Reload.{reload_chain-Settles}
use node_agent_rs.Topology.Adapter.Repair.{reconcile_current_repairs}
use node_agent_rs.Topology.Adapter.Failure.{runtime_transaction_failure, restore_runtime, classify}
use node_agent_rs.Topology.Users.{
  UserCredential, UserRefreshChanges, compare_node_users, index_node_users, index_into,
  compare_desired, count_deleted, user_eq, stale_credential_user_ids, stale_ids, active_users,
}
use node_agent_rs.Topology.Manager.{
  MachineTopology, TopologyManager, apply as apply_topology, publish, apply_initial, apply_patch,
  guard_authoritative_revision, guard_revision_fence, begin_operation,
}
use node_agent_rs.Topology.Manager.Fence.{Op, initial, patch, run, step, perform}

-- A world of numbers: the plan that is forwarded and the configuration that is served.
record World : Type 0 where
  forwarded : ℕ
  served : ℕ

abbrev refusal : RuntimeError
refusal = record {
  operation = codes "no such inbound";
  rollback = none;
  rolled_back = false;
  state_unchanged = false;
  running = false;
}

-- The runtime stops at configuration 9, and the port router loses its state at plan 7.
abbrev demo : Platform World ℕ ℕ ℕ
demo = record {
  compile = λ t. ok (record { runtime = t; warnings = [] });
  build_plan = λ t. ok t;
  has_machine = λ t. not (t == 0);
  same_topology = λ t u. t == u;
  no_topology = 0;
  no_plan = 0;
  reconcile_ports = λ w p.
      if p == 7
      then (err (record { text = []; uncertain = true }), record w { forwarded = 0 })
      else (ok tt, record w { forwarded = p });
  close_ports = λ w. (ok tt, record w { forwarded = 0 });
  apply_config = λ w c.
      if c == 9 then (err refusal, record w { served = 0 }) else (ok tt, record w { served = c });
  reload_config = λ w c.
      if c == 9
      then (err refusal, record w { served = 0 })
      else (ok (record { running = true; rolled_back = false }), record w { served = c });
  close_runtime = λ w. (ok tt, record w { served = 0 });
  begin_close = λ w. w;
  health = λ w. some (record { running = true; failure = none });
  debug = λ failure. [];
}

-- The only error of a test is its own.
only_error :
    {E A : Type 0} (test : Bool) (own e : E) (a : A) (w w' : World)
    → (if◌then◌else◌ {A = Result E A × World} test (err own, w) (ok a, w')).0 ≡ err e
    → own ≡ e
only_error true own e a w w' h = cc
only_error false own e a w w' h = cc

demo_Lawful : Lawful demo (λ (w : World). w.forwarded) (λ (w : World). w.served)
demo_Lawful = record {
  reconciled = λ w p e. ground arith;
  not_reconciled = λ w p e h k.
      let uncertain =
        ap (λ (x : PortRouterError). x.uncertain) (only_error (p == 7) _ e tt _ _ h) ∙ k in
      ground arith;
  reconcile_serving = λ w p. ground arith;
  applied = λ w c e. ground arith;
  not_applied = λ w c e h k.
      let intact =
        ap (λ (x : RuntimeError). x.rolled_back || x.state_unchanged)
          (only_error (c == 9) refusal e tt _ _ h)
        ∙ k in
      ground arith;
  apply_forwarding = λ w c. ground arith;
  reloads = λ w c status e h. ground arith;
  not_reloaded = λ w c e h k.
      let intact =
        ap (λ (x : RuntimeError). x.rolled_back || x.state_unchanged)
          (only_error (c == 9) refusal e (record { running = true; rolled_back = false }) _ _ h)
        ∙ k in
      ground arith;
  reload_forwarding = λ w c. ground arith;
}

abbrev live_adapter : Adapter World ℕ ℕ ℕ
live_adapter = record {
  active_topology = 4;
  active_plan = 4;
  active_warnings = [];
  pending_reload = none;
  closing = false;
  world = record { forwarded = 4; served = 4 };
}

live_adapter-IsLive :
    IsLive demo (λ (w : World). w.forwarded) (λ (w : World). w.served) live_adapter
live_adapter-IsLive = record {
  planned = refl;
  forwards = refl;
  serves = λ machine. (record { runtime = 4; warnings = [] }, refl, refl);
}

-- A configuration that the runtime refuses is undone.
rolls_back : (apply demo live_adapter false 9).1 ≡ live_adapter
unfolding apply prepare_apply previous_of runtime_transaction_failure restore_runtime classify
rolls_back = refl

apply-Settles_example :
    let result = apply demo live_adapter false 9 in
    Settles demo
      (λ (w : World). w.forwarded)
      (λ (w : World). w.served)
      demo_Lawful
      live_adapter
      9
      result.0
      result.1
apply-Settles_example =
    apply-Settles demo (λ (w : World). w.forwarded) (λ (w : World). w.served) demo_Lawful
      live_adapter false 9 live_adapter-IsLive

reload_chain-Settles_example :
    let result = reload_chain demo live_adapter false 5 in
    Settles demo
      (λ (w : World). w.forwarded)
      (λ (w : World). w.served)
      demo_Lawful
      live_adapter
      5
      result.0
      result.1
reload_chain-Settles_example =
    reload_chain-Settles demo (λ (w : World). w.forwarded) (λ (w : World). w.served) demo_Lawful
      live_adapter false 5 live_adapter-IsLive refl refl

-- The forwarding has drifted.
abbrev drifted : Adapter World ℕ ℕ ℕ
drifted = record live_adapter { world = record { forwarded = 3; served = 4 } }

repairs_drift : (reconcile_current demo drifted 4).0 ≡ ok tt
unfolding reconcile_current
repairs_drift = refl

reconcile_current_repairs_example :
    let after = (reconcile_current demo drifted 4).1 in
    (after.world.forwarded ≡ 4) × (after.active_topology ≡ 4) × (after.active_plan ≡ 4)
reconcile_current_repairs_example =
    reconcile_current_repairs demo (λ (w : World). w.forwarded) (λ (w : World). w.served)
      demo_Lawful drifted 4 4 refl repairs_drift

abbrev at : ℕ → MachineTopology (Unit {0})
at revision = record {
  machine_id = codes "m";
  revision = revision;
  snapshot_revision = none;
  body = tt;
}

abbrev manager : TopologyManager (Unit {0})
manager = record { machine_id = codes "m"; topology = at 3; generation = 1; stopped = false }

-- A new topology, and a partial command on top of it.
abbrev demo_ops : List (Op (Unit {0}))
demo_ops =
    initial false (λ t. ok tt) (at 5)
    ∷ patch false (λ t. ok tt) "payload is required"
        (some (record { base = 5; target = 6; edit = λ t. ok t }))
    ∷ []

-- Names what a run of the manager computes with.
runs : TopologyManager (Unit {0}) → List (Op (Unit {0})) → TopologyManager (Unit {0})
unfolding run step perform apply_initial apply_patch begin_operation guard_authoritative_revision
    guard_revision_fence apply_topology publish
runs = run

publishes_both : (run manager demo_ops).topology ≡ at 6
unfolding runs
publishes_both = refl

abbrev user : Text → Text → UserCredential
user id credential = record {
  user_id = id;
  name = [];
  credential = credential;
  status = codes "active";
  upload_speed_limit_bps = 0;
  download_speed_limit_bps = 0;
}

abbrev two_users : List UserCredential
two_users = user (codes "a") (codes "x") ∷ user (codes "b") (codes "y") ∷ []

-- The same users in another order.
abbrev swapped_users : List UserCredential
swapped_users = user (codes "b") (codes "y") ∷ user (codes "a") (codes "x") ∷ []

abbrev no_changes : UserRefreshChanges
no_changes = record { added = 0; updated = 0; deleted = 0; applied = false }

finds_no_changes : compare_node_users two_users swapped_users ≡ ok no_changes
unfolding compare_node_users index_node_users index_into compare_desired count_deleted user_eq
    text_eq lookup tree_insert text_le
finds_no_changes = refl

-- The first user has a new credential, and the second is gone.
closes_both :
    stale_credential_user_ids two_users (user (codes "a") (codes "z") ∷ [])
    ≡ codes "a" ∷ codes "b" ∷ []
unfolding stale_credential_user_ids stale_ids active_users text_eq lookup tree_insert text_le
closes_both = refl
