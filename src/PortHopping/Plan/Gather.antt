-- ===== src/PortHopping/Plan/Gather.antt =====
-- The first loop of `build_plan`: what is on record of the nodes that it has passed.
use node_agent_rs.Base.{
  ℕ, ◌≤◌, ◌≡◌, ◌∙◌, ◌⊎◌, true, false, some, List, [], ◌∷◌, ◌++◌, arith, Text, text_eq, text_eq_iff,
  ok, lookup, tree_insert, lookup-tree_insert,
}
use node_agent_rs.PortHopping.Ranges.{PortRange, covers, IsNormalized}
use node_agent_rs.PortHopping.Plan.{
  Redirect, Hysteria2SalamanderConfig, is_nil, remove_self_redirects,
}
use node_agent_rs.PortHopping.Plan.Build.{Gathered, seen, record_listen_port, add_node}

-- A redirect that forwards valid ports, none of them its own listen port, to a nonzero port.
pub record IsSound (r : Redirect) : Type 0 where
  pub nonzero : 1 ≤ r.listen_port
  pub normalized : IsNormalized 1 r.ports
  pub not_self : covers r.ports r.listen_port ≡ false

-- What the maps say of a redirect's node.
abbrev pub OnRecord : Gathered → Redirect → Type 0
OnRecord g r =
    (seen r.node_id g.seen_node_ids ≡ true)
    × (lookup r.node_id g.listen_ports ≡ some r.listen_port)
    × ((original : List PortRange) × (lookup r.node_id g.original_hopping ≡ some original)
        × (r.ports ≡ remove_self_redirects original r.listen_port))

-- What the maps say of a Hysteria2 node that listens.
abbrev pub Listens : Gathered → Text → ℕ → Type 0
Listens g id port = (seen id g.seen_node_ids ≡ true) × (lookup id g.listen_ports ≡ some port)

pub lookup-record_listen_port_ne :
    (id j : Text) (port : ℕ) (m : List (Text × ℕ))
    → text_eq id j ≡ false
    → lookup j (record_listen_port id port m) ≡ lookup j m
unfolding record_listen_port
lookup-record_listen_port_ne id j port m h = ground (arith, lookup-tree_insert id j port m)

pub lookup-record_listen_port_self :
    (id : Text) (port : ℕ) (m : List (Text × ℕ))
    → 1 ≤ port
    → lookup id (record_listen_port id port m) ≡ some port
unfolding record_listen_port
lookup-record_listen_port_self id port m h =
    ground (arith, lookup-tree_insert id id port m, text_eq_iff id id)

-- What one round of the loop does to the maps, seen from the other nodes.
pub record Grows (g g' : Gathered) (id : Text) : Type 0 where
  pub fresh : seen id g.seen_node_ids ≡ false
  pub seen_next : g'.seen_node_ids ≡ id ∷ g.seen_node_ids
  pub listen_others :
      (j : Text) → text_eq id j ≡ false → lookup j g'.listen_ports ≡ lookup j g.listen_ports
  pub hopping_others :
      (j : Text) → text_eq id j ≡ false → lookup j g'.original_hopping ≡ lookup j g.original_hopping

pub seen_other :
    (id j : Text) (ids : List Text) → seen id ids ≡ false → seen j ids ≡ true → text_eq id j ≡ false
seen_other id j ids h k = ground (arith, text_eq_iff id j)

pub Grows-OnRecord :
    (g g' : Gathered) (id : Text) (r : Redirect) → Grows g g' id → OnRecord g r → OnRecord g' r
Grows-OnRecord g g' id r w (known, listen, (original, hopping, ports)) =
    let other = seen_other id r.node_id g.seen_node_ids w.fresh known in
    (
      ground (arith, w.seen_next),
      w.listen_others r.node_id other ∙ listen,
      (original, w.hopping_others r.node_id other ∙ hopping, ports),
    )

pub Grows-Listens :
    (g g' : Gathered) (id j : Text) (port : ℕ)
    → Grows g g' id
    → Listens g j port
    → Listens g' j port
Grows-Listens g g' id j port w (known, listen) =
    let other = seen_other id j g.seen_node_ids w.fresh known in
    (ground (arith, w.seen_next), w.listen_others j other ∙ listen)

abbrev pub redirect_of : Text → Hysteria2SalamanderConfig → List PortRange → Redirect
redirect_of id config original = record {
  node_id = id;
  listen_port = config.listen_port;
  ports = remove_self_redirects original config.listen_port;
}

module _ {E : Type 0} (g g' : Gathered) (id : Text) (config : Hysteria2SalamanderConfig)
    (original : List PortRange) (step : add_node {E = E} g id config original ≡ ok g') where
  pub add_node-seen : g'.seen_node_ids ≡ g.seen_node_ids
  unfolding add_node
  add_node-seen = ground arith

  pub add_node-listen_ports :
      g'.listen_ports ≡ record_listen_port id config.listen_port g.listen_ports
  unfolding add_node
  add_node-listen_ports = ground arith

  pub add_node-original_hopping : g'.original_hopping ≡ tree_insert id original g.original_hopping
  unfolding add_node
  add_node-original_hopping = ground arith

  -- The node's redirect is pushed, unless it has no ports.
  pub add_node-redirects :
      ((is_nil (redirect_of id config original).ports ≡ true) × (g'.redirects ≡ g.redirects))
      ⊎ ((is_nil (redirect_of id config original).ports ≡ false)
          × (1 ≤ config.listen_port)
          × (g'.redirects ≡ g.redirects ++ redirect_of id config original ∷ []))
  unfolding add_node
  add_node-redirects = ground arith
