-- ===== src/Topology/Adapter/Live.antt =====
-- What is live, as seen from outside: the forwarding plan and the runtime configuration, and how
-- the port router and the runtime are documented to change them.
use node_agent_rs.Base.{true, false, ◌≡◌, ◌||◌, ok, err}
use node_agent_rs.Topology.Adapter.{
  RuntimeError, PortRouterError, ReloadStatus, Platform, Adapter, CompileOutput,
}

module _ {W T C P : Type 0} (platform : Platform W T C P) where
  -- A success installs what was asked for; an error that calls the state certain, unchanged or rolled
  -- back leaves it as it was; and neither side touches the other. Where an error does not say so,
  -- anything may be live.
  pub record Lawful (forwarding : W → P) (serving : W → C) : Type 0 where
    pub reconciled :
        (w : W) (p : P)
        → (platform.reconcile_ports w p).0 ≡ ok tt
        → forwarding (platform.reconcile_ports w p).1 ≡ p
    pub not_reconciled :
        (w : W) (p : P) (e : PortRouterError)
        → (platform.reconcile_ports w p).0 ≡ err e
        → e.uncertain ≡ false
        → forwarding (platform.reconcile_ports w p).1 ≡ forwarding w
    pub reconcile_serving : (w : W) (p : P) → serving (platform.reconcile_ports w p).1 ≡ serving w
    pub applied :
        (w : W) (c : C)
        → (platform.apply_config w c).0 ≡ ok tt
        → serving (platform.apply_config w c).1 ≡ c
    pub not_applied :
        (w : W) (c : C) (e : RuntimeError)
        → (platform.apply_config w c).0 ≡ err e
        → (e.rolled_back || e.state_unchanged) ≡ true
        → serving (platform.apply_config w c).1 ≡ serving w
    pub apply_forwarding : (w : W) (c : C) → forwarding (platform.apply_config w c).1 ≡ forwarding w
    pub reloads :
        (w : W) (c : C) (status : ReloadStatus)
        → (platform.reload_config w c).0 ≡ ok status
        → status.running ≡ true
        → serving (platform.reload_config w c).1 ≡ c
    pub not_reloaded :
        (w : W) (c : C) (e : RuntimeError)
        → (platform.reload_config w c).0 ≡ err e
        → (e.rolled_back || e.state_unchanged) ≡ true
        → serving (platform.reload_config w c).1 ≡ serving w
    pub reload_forwarding :
        (w : W) (c : C) → forwarding (platform.reload_config w c).1 ≡ forwarding w

  -- The published topology is live: its plan is forwarded, and, if there is one, its compiled
  -- configuration is served.
  pub record IsLive (forwarding : W → P) (serving : W → C) (s : Adapter W T C P) : Type 0 where
    pub planned : platform.build_plan s.active_topology ≡ ok s.active_plan
    pub forwards : forwarding s.world ≡ s.active_plan
    pub serves :
        platform.has_machine s.active_topology ≡ true
        → (output : CompileOutput C) × (platform.compile s.active_topology ≡ ok output)
          × (serving s.world ≡ output.runtime)
