-- ===== src/PortHopping/Plan/Nodes.antt =====
-- What the first loop of `build_plan` records of each Hysteria2 node.
use mathlib.Core.Path.{subst, subst₂}
use node_agent_rs.Base.{
  ℕ, ◌≤◌, ◌≡◌, sym, ap, ◌∙◌, inl, inr, false, List, [], ◌∷◌, arith, Text, text_eq_iff, Result, ok,
  >>=-eq-ok, ok-injective, Has, Has-append_last, Has-append_left,
}
use node_agent_rs.PortHopping.Ranges.{PortRange, parse_port_ranges}
use node_agent_rs.PortHopping.Plan.{
  Redirect, NodeInstance, Hysteria2SalamanderConfig, hysteria2_salamander_id, is_nil,
  remove_self_redirects,
}
use node_agent_rs.PortHopping.Plan.Build.{Gathered, add_node, gather_node, gather}
use node_agent_rs.PortHopping.Plan.Gather.{Listens, Grows-Listens, redirect_of, add_node-redirects}
use node_agent_rs.PortHopping.Plan.Loop.{
  Hops, marked, gather_hysteria-eq-ok, gather_node-eq-ok, gather_node-Grows, pushed-OnRecord,
}

module _ {E : Type 0} (from_slice : Text → Result E Hysteria2SalamanderConfig) where
  -- A node that hops is recorded with the configuration and the ranges that it decodes to.
  gather_node-Hops :
      (g g' : Gathered) (node : NodeInstance) (config : Hysteria2SalamanderConfig)
      (original : List PortRange)
      → gather_node from_slice g node ≡ ok g'
      → Hops from_slice node config original
      → add_node {E = E} (marked from_slice g node) node.node_id config original ≡ ok g'
  gather_node-Hops g g' node config original e h =
      elim (gather_node-eq-ok from_slice g g' node e).1 [
        | inl (skipped, same) ↦
            cc (skipped, (text_eq_iff node.provider_id hysteria2_salamander_id).1 h.provider)
        | inr (hysteria, step) ↦
            let (config', original', decoded, parsed, added) =
              gather_hysteria-eq-ok from_slice (marked from_slice g node) g' node step in
            let same_config : config' ≡ config = ok-injective (sym decoded ∙ h.decoded) in
            let same_ranges : original' ≡ original = ok-injective (
              sym parsed
              ∙ ap (λ (c : Hysteria2SalamanderConfig). parse_port_ranges c.port_hopping) same_config
              ∙ h.parsed) in
            subst₂ (λ c o. add_node {E = E} (marked from_slice g node) node.node_id c o ≡ ok g')
              same_config same_ranges added
      ]

  gather_node-Listens :
      (g g' : Gathered) (node : NodeInstance) (config : Hysteria2SalamanderConfig)
      (original : List PortRange)
      → gather_node from_slice g node ≡ ok g'
      → Hops from_slice node config original
      → 1 ≤ config.listen_port
      → Listens g' node.node_id config.listen_port
  gather_node-Listens g g' node config original e h k =
      let r =
        pushed-OnRecord from_slice (marked from_slice g node) g' node.node_id config original
          (ground (arith, text_eq_iff node.node_id node.node_id))
          (gather_node-Hops g g' node config original e h) k in
      (r.0, r.1)

  gather_node-Has_new :
      (g g' : Gathered) (node : NodeInstance) (config : Hysteria2SalamanderConfig)
      (original : List PortRange)
      → gather_node from_slice g node ≡ ok g'
      → Hops from_slice node config original
      → is_nil (remove_self_redirects original config.listen_port) ≡ false
      → Has (redirect_of node.node_id config original) g'.redirects
  gather_node-Has_new g g' node config original e h k =
      elim (add_node-redirects (marked from_slice g node) g' node.node_id config original
        (gather_node-Hops g g' node config original e h)) [
          | inl (none_left, kept) ↦ cc (none_left, k)
          | inr (some_left, listens, pushed) ↦
              rw pushed (Has-append_last (redirect_of node.node_id config original) g.redirects)
        ]

  gather_node-Has_old :
      (g g' : Gathered) (node : NodeInstance) (r : Redirect)
      → gather_node from_slice g node ≡ ok g'
      → Has r g.redirects
      → Has r g'.redirects
  gather_node-Has_old g g' node r e h = elim (gather_node-eq-ok from_slice g g' node e).1 [
    | inl (skipped, same) ↦ rw (← ap (λ (s : Gathered). s.redirects) same) h
    | inr (hysteria, step) ↦
        let (config, original, _, _, added) =
          gather_hysteria-eq-ok from_slice (marked from_slice g node) g' node step in
        elim (add_node-redirects (marked from_slice g node) g' node.node_id config original added) [
          | inl (none_left, kept) ↦ rw kept h
          | inr (some_left, listens, pushed) ↦
              rw pushed
                (Has-append_left r g.redirects (redirect_of node.node_id config original ∷ []) h)
        ]
  ]

  gather-Has_old :
      (g g' : Gathered) (nodes : List NodeInstance) (r : Redirect)
      → gather from_slice g nodes ≡ ok g'
      → Has r g.redirects
      → Has r g'.redirects
  unfolding gather
  gather-Has_old g g' [] r e h = subst (λ (s : Gathered). Has r s.redirects) (ok-injective e) h
  gather-Has_old g g' (node ∷ rest) r e h =
      let (next, p, q) = >>=-eq-ok (gather_node from_slice g node) _ e in
      gather-Has_old next g' rest r q (gather_node-Has_old g next node r p h)

  gather-Listens_old :
      (g g' : Gathered) (nodes : List NodeInstance) (id : Text) (port : ℕ)
      → gather from_slice g nodes ≡ ok g'
      → Listens g id port
      → Listens g' id port
  unfolding gather
  gather-Listens_old g g' [] id port e h =
      subst (λ (s : Gathered). Listens s id port) (ok-injective e) h
  gather-Listens_old g g' (node ∷ rest) id port e h =
      let (next, p, q) = >>=-eq-ok (gather_node from_slice g node) _ e in
      gather-Listens_old next g' rest id port q
        (Grows-Listens g next node.node_id id port (gather_node-Grows from_slice g next node p) h)

  pub gather-Listens :
      (g g' : Gathered) (nodes : List NodeInstance) (node : NodeInstance)
      (config : Hysteria2SalamanderConfig) (original : List PortRange)
      → gather from_slice g nodes ≡ ok g'
      → Has node nodes
      → Hops from_slice node config original
      → 1 ≤ config.listen_port
      → Listens g' node.node_id config.listen_port
  unfolding gather
  gather-Listens g g' [] node config original e m h k = elim m [ ]
  gather-Listens g g' (first ∷ rest) node config original e (inl here) h k =
      let (next, p, q) = >>=-eq-ok (gather_node from_slice g first) _ e in
      gather-Listens_old next g' rest node.node_id config.listen_port q
        (gather_node-Listens g next node config original (rw here p) h k)
  gather-Listens g g' (first ∷ rest) node config original e (inr later) h k =
      let (next, p, q) = >>=-eq-ok (gather_node from_slice g first) _ e in
      gather-Listens next g' rest node config original q later h k

  pub gather-Has :
      (g g' : Gathered) (nodes : List NodeInstance) (node : NodeInstance)
      (config : Hysteria2SalamanderConfig) (original : List PortRange)
      → gather from_slice g nodes ≡ ok g'
      → Has node nodes
      → Hops from_slice node config original
      → is_nil (remove_self_redirects original config.listen_port) ≡ false
      → Has (redirect_of node.node_id config original) g'.redirects
  unfolding gather
  gather-Has g g' [] node config original e m h k = elim m [ ]
  gather-Has g g' (first ∷ rest) node config original e (inl here) h k =
      let (next, p, q) = >>=-eq-ok (gather_node from_slice g first) _ e in
      gather-Has_old next g' rest (redirect_of node.node_id config original) q
        (gather_node-Has_new g next node config original (rw here p) h k)
  gather-Has g g' (first ∷ rest) node config original e (inr later) h k =
      let (next, p, q) = >>=-eq-ok (gather_node from_slice g first) _ e in
      gather-Has next g' rest node config original q later h k
