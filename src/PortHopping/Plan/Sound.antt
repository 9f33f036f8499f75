-- ===== src/PortHopping/Plan/Sound.antt =====
-- What `build_plan` promises of the plan that it returns.
use node_agent_rs.Base.{
  ℕ, ◌≤◌, ◌≡◌, ◌≢◌, refl, sym, ap, ◌∙◌, inl, inr, true, false, List, [], ◌∷◌, ◌==◌, All, arith,
  Text, text_eq, text_eq_iff, Result, ok, >>=-eq-ok, ok-injective, some-injective, Bool-cases,
  lookup, Has,
}
use node_agent_rs.PortHopping.Ranges.{PortRange, covers}
use node_agent_rs.PortHopping.Ranges.Canonical.{covers_below}
use node_agent_rs.PortHopping.Plan.{
  Redirect, Plan, NodeInstance, Hysteria2SalamanderConfig, is_nil, remove_self_redirects,
}
use node_agent_rs.PortHopping.Plan.Redirects.{covers-remove_self_redirects}
use node_agent_rs.PortHopping.Plan.Build.{
  Gathered, nothing_gathered, sort_redirects, check_listen_ports, check_overlaps, finish_plan,
  gather, build_plan,
}
use node_agent_rs.PortHopping.Plan.Gather.{IsSound, OnRecord, Listens, redirect_of}
use node_agent_rs.PortHopping.Plan.Loop.{Hops, gather-Recorded}
use node_agent_rs.PortHopping.Plan.Nodes.{gather-Listens, gather-Has}
use node_agent_rs.PortHopping.Plan.Conflicts.{
  AllDisjoint, Ordered, sort_redirects-All, sort_redirects-Has, sort_redirects-Ordered,
  check_listen_ports_sound, check_overlaps_sound,
}

module _ {E : Type 0} (from_slice : Text → Result E Hysteria2SalamanderConfig) where
  -- A successful run, taken apart.
  record Built (nodes : List NodeInstance) (plan : Plan) : Type 0 where
    final : Gathered
    gathered : gather from_slice nothing_gathered nodes ≡ ok final
    listen_checked : check_listen_ports {E = E} final.original_hopping final.listen_ports ≡ ok tt
    overlap_checked : check_overlaps {E = E} [] (sort_redirects final.redirects) ≡ ok tt
    sorted : plan.redirects ≡ sort_redirects final.redirects

  build_plan-Built :
      (nodes : List NodeInstance) (plan : Plan)
      → build_plan from_slice nodes ≡ ok plan
      → Built nodes plan
  unfolding build_plan finish_plan
  build_plan-Built nodes plan e =
      let (g, p, q) = >>=-eq-ok (gather from_slice nothing_gathered nodes) _ e in
      let (_, r, s) = >>=-eq-ok (check_listen_ports g.original_hopping g.listen_ports) _ q in
      let (_, t, u) = >>=-eq-ok (check_overlaps [] (sort_redirects g.redirects)) _ s in
      record {
        final = g;
        gathered = p;
        listen_checked = r;
        overlap_checked = t;
        sorted = ap (λ (x : Plan). x.redirects) (sym (ok-injective u));
      }

  Built-Recorded :
      (nodes : List NodeInstance) (plan : Plan) (b : Built nodes plan)
      → All (λ r. IsSound r × OnRecord b.final r) plan.redirects
  Built-Recorded nodes plan b = rw b.sorted (
      sort_redirects-All (λ r. IsSound r × OnRecord b.final r) b.final.redirects
        (gather-Recorded from_slice nothing_gathered b.final nodes b.gathered tt))

  IsSound-of_Recorded :
      (g : Gathered) (rs : List Redirect) → All (λ r. IsSound r × OnRecord g r) rs → All IsSound rs
  IsSound-of_Recorded g [] h = tt
  IsSound-of_Recorded g (r ∷ rs) h = (h.0.0, IsSound-of_Recorded g rs h.1)

  -- In a plan that was built, every redirect goes to a nonzero port and forwards normalized
  -- ranges without that port; no two redirects share a port; and they stand in the order of their
  -- node ids.
  pub build_plan-IsSound :
      (nodes : List NodeInstance) (plan : Plan)
      → build_plan from_slice nodes ≡ ok plan
      → All IsSound plan.redirects × AllDisjoint plan.redirects × Ordered [] plan.redirects
  build_plan-IsSound nodes plan e =
      let b = build_plan-Built nodes plan e in
      (
        IsSound-of_Recorded b.final plan.redirects (Built-Recorded nodes plan b),
        rw b.sorted (check_overlaps_sound (sort_redirects b.final.redirects) b.overlap_checked),
        rw b.sorted (sort_redirects-Ordered b.final.redirects),
      )

  redirect_avoids :
      (g : Gathered) (r : Redirect) (id : Text) (port : ℕ)
      → check_listen_ports {E = E} g.original_hopping g.listen_ports ≡ ok tt
      → IsSound r
      → OnRecord g r
      → Listens g id port
      → covers r.ports port ≡ false
  redirect_avoids g r id port checked sound (known, listen, (original, hopping, ports)) listens =
      elim (Bool-cases (text_eq r.node_id id)) [
        | inl same ↦
            let own : r.listen_port ≡ port = some-injective (
              sym listen
              ∙ ap (λ j. lookup j g.listen_ports) ((text_eq_iff r.node_id id).0 same)
              ∙ listens.1) in
            rw (← own) sound.not_self
        | inr differs ↦
            let free =
              check_listen_ports_sound r.node_id id original port g.original_hopping g.listen_ports
                checked hopping listens.1 differs in
            rw (ports, covers-remove_self_redirects original r.listen_port port, free)
      ]

  -- No redirect of a plan takes the listen port of any Hysteria2 node of the topology, its own or
  -- another's.
  pub build_plan_avoids_listeners :
      (nodes : List NodeInstance) (plan : Plan) (node : NodeInstance)
      (config : Hysteria2SalamanderConfig) (original : List PortRange)
      → build_plan from_slice nodes ≡ ok plan
      → Has node nodes
      → Hops from_slice node config original
      → All (λ r. covers r.ports config.listen_port ≡ false) plan.redirects
  build_plan_avoids_listeners nodes plan node config original e member hops =
      let b = build_plan-Built nodes plan e in
      avoid b.final plan.redirects b.listen_checked (Built-Recorded nodes plan b) (λ h.
        gather-Listens from_slice nothing_gathered b.final nodes node config original b.gathered
          member hops h)
    where
      avoid :
          (g : Gathered) (rs : List Redirect)
          → check_listen_ports {E = E} g.original_hopping g.listen_ports ≡ ok tt
          → All (λ r. IsSound r × OnRecord g r) rs
          → (1 ≤ config.listen_port → Listens g node.node_id config.listen_port)
          → All (λ r. covers r.ports config.listen_port ≡ false) rs
      avoid g [] checked h listens = tt
      avoid g (r ∷ rs) checked h listens = (
        elim (Bool-cases (config.listen_port == 0)) [
          | inl zero_port ↦
              covers_below 1 r.ports config.listen_port h.0.0.normalized (ground arith)
          | inr listening ↦
              redirect_avoids g r node.node_id config.listen_port checked h.0.0 h.0.1
                (listens (ground arith))
        ],
        avoid g rs checked h.1 listens,
      )

  nonempty_of_covers : (rs : List PortRange) (p : ℕ) → covers rs p ≡ true → is_nil rs ≡ false
  nonempty_of_covers [] p h = cc
  nonempty_of_covers (r ∷ rs) p h = refl

  -- Every port that a Hysteria2 node of the topology asks for, but for its own listen port, is
  -- forwarded to that listen port by a redirect of the plan.
  pub build_plan_forwards :
      (nodes : List NodeInstance) (plan : Plan) (node : NodeInstance)
      (config : Hysteria2SalamanderConfig) (original : List PortRange) (port : ℕ)
      → build_plan from_slice nodes ≡ ok plan
      → Has node nodes
      → Hops from_slice node config original
      → covers original port ≡ true
      → port ≢ config.listen_port
      → (r : Redirect) × Has r plan.redirects
        × (r.node_id ≡ node.node_id)
        × (r.listen_port ≡ config.listen_port)
        × (covers r.ports port ≡ true)
  build_plan_forwards nodes plan node config original port e member hops asked other =
      let b = build_plan-Built nodes plan e in
      let ports = remove_self_redirects original config.listen_port in
      let kept : covers ports port ≡ true =
        ground (arith, covers-remove_self_redirects original config.listen_port port) in
      (
        redirect_of node.node_id config original,
        rw b.sorted (
            sort_redirects-Has (redirect_of node.node_id config original) b.final.redirects (
              gather-Has from_slice nothing_gathered b.final nodes node config original b.gathered
                member hops (nonempty_of_covers ports port kept))),
        refl,
        refl,
        kept,
      )
