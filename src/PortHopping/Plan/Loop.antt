-- ===== src/PortHopping/Plan/Loop.antt =====
-- The whole first loop of `build_plan`: its invariant, and what it records of every node.
use mathlib.Core.Path.{subst}
use node_agent_rs.Base.{
  ◌≤◌, ◌≡◌, refl, sym, ap, ◌∙◌, ◌⊎◌, inl, inr, true, false, List, [], ◌∷◌, All, All-append, arith,
  Text, text_eq, text_eq_iff, Result, ok, map_err, >>=-eq-ok, map_err-eq-ok, ok-injective, lookup,
  lookup-tree_insert,
}
use node_agent_rs.PortHopping.Ranges.{PortRange, IsNormalized, parse_port_ranges}
use node_agent_rs.PortHopping.Ranges.Parse.{parse_port_ranges-IsNormalized}
use node_agent_rs.PortHopping.Plan.{
  Redirect, NodeInstance, Hysteria2SalamanderConfig, hysteria2_salamander_id, undecodable,
  invalid_ports,
}
use node_agent_rs.PortHopping.Plan.Redirects.{
  covers-remove_self_redirects, remove_self_redirects-IsNormalized,
}
use node_agent_rs.PortHopping.Plan.Build.{
  Gathered, seen, add_node, decode_hysteria_config, gather_hysteria, gather_node, gather,
}
use node_agent_rs.PortHopping.Plan.Gather.{
  IsSound, OnRecord, Grows, Grows-OnRecord, redirect_of, add_node-seen, add_node-listen_ports,
  add_node-original_hopping, add_node-redirects, lookup-record_listen_port_ne,
  lookup-record_listen_port_self,
}

redirect_of-IsSound :
    (id : Text) (config : Hysteria2SalamanderConfig) (original : List PortRange)
    → 1 ≤ config.listen_port
    → IsNormalized 1 original
    → IsSound (redirect_of id config original)
redirect_of-IsSound id config original h v = record {
  nonzero = h;
  normalized = remove_self_redirects-IsNormalized 1 original config.listen_port v;
  not_self =
      ground (arith, covers-remove_self_redirects original config.listen_port config.listen_port);
}

module _ {E : Type 0} (from_slice : Text → Result E Hysteria2SalamanderConfig) where
  -- A Hysteria2 node whose configuration decodes and whose port expression parses.
  pub record Hops (node : NodeInstance) (config : Hysteria2SalamanderConfig)
      (original : List PortRange) : Type 0 where
    pub provider : node.provider_id ≡ hysteria2_salamander_id
    pub decoded : decode_hysteria_config from_slice node.provider_config ≡ ok config
    pub parsed : parse_port_ranges config.port_hopping ≡ ok original

  pub gather_hysteria-eq-ok :
      (g g' : Gathered) (node : NodeInstance)
      → gather_hysteria from_slice g node ≡ ok g'
      → (config : Hysteria2SalamanderConfig) × (original : List PortRange) × (decode_hysteria_config
            from_slice node.provider_config
          ≡ ok config)
        × (parse_port_ranges config.port_hopping ≡ ok original)
        × (add_node {E = E} g node.node_id config original ≡ ok g')
  unfolding gather_hysteria
  gather_hysteria-eq-ok g g' node e =
      let (config, p, q) =
        >>=-eq-ok
          (map_err (undecodable node.node_id)
            (decode_hysteria_config from_slice node.provider_config))
          _ e in
      let (original, p', q') =
        >>=-eq-ok (map_err (invalid_ports node.node_id) (parse_port_ranges config.port_hopping)) _
          q in
      (config, original, map_err-eq-ok _ _ p, map_err-eq-ok _ _ p', q')

  -- The state that the loop's body works on.
  abbrev pub marked : Gathered → NodeInstance → Gathered
  marked g node = record g { seen_node_ids = node.node_id ∷ g.seen_node_ids }

  -- A round that succeeds met a new id, and either skipped the node or recorded it.
  pub gather_node-eq-ok :
      (g g' : Gathered) (node : NodeInstance)
      → gather_node from_slice g node ≡ ok g'
      → (seen node.node_id g.seen_node_ids ≡ false)
        × (((text_eq node.provider_id hysteria2_salamander_id ≡ false) × (marked g node ≡ g'))
            ⊎ ((text_eq node.provider_id hysteria2_salamander_id ≡ true)
                × (gather_hysteria from_slice (marked g node) node ≡ ok g')))
  unfolding gather_node
  gather_node-eq-ok g g' node e = ground arith

  pub gather_node-Grows :
      (g g' : Gathered) (node : NodeInstance)
      → gather_node from_slice g node ≡ ok g'
      → Grows g g' node.node_id
  gather_node-Grows g g' node e = elim (gather_node-eq-ok g g' node e).1 [
    | inl (skipped, same) ↦ record {
      fresh = (gather_node-eq-ok g g' node e).0;
      seen_next = ap (λ (h : Gathered). h.seen_node_ids) (sym same);
      listen_others = λ j ne. ap (λ (h : Gathered). lookup j h.listen_ports) (sym same);
      hopping_others = λ j ne. ap (λ (h : Gathered). lookup j h.original_hopping) (sym same);
    }
    | inr (hysteria, step) ↦
        let (config, original, _, _, added) = gather_hysteria-eq-ok (marked g node) g' node step in
        let id = node.node_id in
        record {
          fresh = (gather_node-eq-ok g g' node e).0;
          seen_next = add_node-seen (marked g node) g' id config original added;
          listen_others = λ j ne.
              ap (lookup j) (add_node-listen_ports (marked g node) g' id config original added)
              ∙ lookup-record_listen_port_ne id j config.listen_port g.listen_ports ne;
          hopping_others = λ j ne.
              ap (lookup j) (add_node-original_hopping (marked g node) g' id config original added)
              ∙ ground (arith, lookup-tree_insert id j original g.original_hopping);
        }
  ]

  -- The redirects so far are sound and on record.
  abbrev pub Recorded : Gathered → Type 0
  Recorded g = All (λ r. IsSound r × OnRecord g r) g.redirects

  Grows-All :
      (g g' : Gathered) (id : Text) (rs : List Redirect)
      → Grows g g' id
      → All (λ r. IsSound r × OnRecord g r) rs
      → All (λ r. IsSound r × OnRecord g' r) rs
  Grows-All g g' id [] w h = tt
  Grows-All g g' id (r ∷ rs) w h =
      ((h.0.0, Grows-OnRecord g g' id r w h.0.1), Grows-All g g' id rs w h.1)

  -- The redirect that a round pushes is sound and on record.
  pub pushed-OnRecord :
      (g g' : Gathered) (id : Text) (config : Hysteria2SalamanderConfig) (original : List PortRange)
      → seen id g.seen_node_ids ≡ true
      → add_node {E = E} g id config original ≡ ok g'
      → 1 ≤ config.listen_port
      → OnRecord g' (redirect_of id config original)
  pushed-OnRecord g g' id config original known added h = (
    ap (seen id) (add_node-seen g g' id config original added) ∙ known,
    ap (lookup id) (add_node-listen_ports g g' id config original added)
        ∙ lookup-record_listen_port_self id config.listen_port g.listen_ports h,
    (
      original,
      ap (lookup id) (add_node-original_hopping g g' id config original added)
          ∙ ground (arith, lookup-tree_insert id id original g.original_hopping, text_eq_iff id id),
      refl,
    ),
  )

  pub gather_node-Recorded :
      (g g' : Gathered) (node : NodeInstance)
      → gather_node from_slice g node ≡ ok g'
      → Recorded g
      → Recorded g'
  gather_node-Recorded g g' node e h =
      let old = Grows-All g g' node.node_id g.redirects (gather_node-Grows g g' node e) h in
      elim (gather_node-eq-ok g g' node e).1 [
        | inl (skipped, same) ↦ rw (← ap (λ (s : Gathered). s.redirects) same) old
        | inr (hysteria, step) ↦
            let (config, original, _, parsed, added) =
              gather_hysteria-eq-ok (marked g node) g' node step in
            elim (add_node-redirects (marked g node) g' node.node_id config original added) [
              | inl (none_left, kept) ↦ rw kept old
              | inr (some_left, listens, pushed) ↦ rw pushed (
                  All-append _ g.redirects (redirect_of node.node_id config original ∷ []) old (
                    (
                      redirect_of-IsSound node.node_id config original listens
                          (parse_port_ranges-IsNormalized config.port_hopping original parsed),
                      pushed-OnRecord (marked g node) g' node.node_id config original
                          (ground (arith, text_eq_iff node.node_id node.node_id)) added listens,
                    ),
                    tt,
                  ))
            ]
      ]

  pub gather-Recorded :
      (g g' : Gathered) (nodes : List NodeInstance)
      → gather from_slice g nodes ≡ ok g'
      → Recorded g
      → Recorded g'
  unfolding gather
  gather-Recorded g g' [] e h = subst Recorded (ok-injective e) h
  gather-Recorded g g' (node ∷ rest) e h =
      let (next, p, q) = >>=-eq-ok (gather_node from_slice g node) _ e in
      gather-Recorded next g' rest q (gather_node-Recorded g next node p h)
