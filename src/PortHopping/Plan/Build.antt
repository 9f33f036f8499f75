-- ===== src/PortHopping/Plan/Build.antt =====
-- `build_plan` of plan.rs: its first loop over the nodes, then the two conflict checks.
use node_agent_rs.Base.{
  ℕ, Bool, ◌&&◌, ◌||◌, not, Option, none, some, List, [], ◌∷◌, ◌++◌, ◌==◌, if◌then◌else◌, any, Text,
  codes, text_eq, text_le, Result, ok, err, ◌>>=◌, map_err, tree_insert,
}
use node_agent_rs.PortHopping.Ranges.{PortRange, contains, parse_port_ranges}
use node_agent_rs.PortHopping.Plan.{
  Redirect, Plan, NodeInstance, Hysteria2SalamanderConfig, default_config, hysteria2_salamander_id,
  PlanError, duplicate_node, undecodable, invalid_ports, listen_port_required, listen_conflict,
  overlap, is_nil, remove_self_redirects, first_overlap,
}

-- `u8::is_ascii_whitespace`
unfoldable pub is_ascii_whitespace : ℕ → Bool
is_ascii_whitespace c = (c == 9) || (c == 10) || (c == 12) || (c == 13) || (c == 32)

unfoldable pub without_whitespace : Text → Text
without_whitespace [] = []
without_whitespace (c ∷ s) =
    if is_ascii_whitespace c then without_whitespace s else c ∷ without_whitespace s

-- The variables of the first loop.
pub record Gathered : Type 0 where
  pub redirects : List Redirect
  pub listen_ports : List (Text × ℕ)
  pub original_hopping : List (Text × List PortRange)
  pub seen_node_ids : List Text

abbrev pub nothing_gathered : Gathered
nothing_gathered = record {
  redirects = [];
  listen_ports = [];
  original_hopping = [];
  seen_node_ids = [];
}

abbrev pub seen : Text → List Text → Bool
seen id ids = any (λ s. text_eq s id) ids

-- `if config.listen_port != 0 { listen_ports.insert(..) }`
unfoldable pub record_listen_port : Text → ℕ → List (Text × ℕ) → List (Text × ℕ)
record_listen_port id port m = if port == 0 then m else tree_insert id port m

-- `redirects.sort_by` of the node ids, which is stable.
unfoldable pub insert_redirect : Redirect → List Redirect → List Redirect
insert_redirect r [] = r ∷ []
insert_redirect r (x ∷ xs) =
    if text_le r.node_id x.node_id then r ∷ x ∷ xs else x ∷ insert_redirect r xs

unfoldable pub sort_redirects : List Redirect → List Redirect
sort_redirects [] = []
sort_redirects (r ∷ rs) = insert_redirect r (sort_redirects rs)

module _ {E : Type 0} where
  -- The end of the first loop's body, once the node's configuration and ports are known.
  unfoldable pub add_node :
      Gathered → Text → Hysteria2SalamanderConfig → List PortRange → Result (PlanError E) Gathered
  add_node g id config original =
      let ports = remove_self_redirects original config.listen_port in
      let g' = record g {
        listen_ports = record_listen_port id config.listen_port g.listen_ports;
        original_hopping = tree_insert id original g.original_hopping;
      } in
      if is_nil ports
      then ok g'
      else if config.listen_port == 0
      then err (listen_port_required id)
      else ok (record g' {
        redirects =
            g.redirects
            ++ record { node_id = id; listen_port = config.listen_port; ports = ports } ∷ [];
      })

  -- The second check: no range of a node holds the listen port of another node.
  unfoldable pub check_listen_port :
      Text → PortRange → List (Text × ℕ) → Result (PlanError E) (Unit {0})
  check_listen_port id range [] = ok tt
  check_listen_port id range ((other, port) ∷ rest) =
      if not (text_eq id other) && contains range port
      then err (listen_conflict id range other port)
      else check_listen_port id range rest

  unfoldable pub check_ranges :
      Text → List PortRange → List (Text × ℕ) → Result (PlanError E) (Unit {0})
  check_ranges id [] listen_ports = ok tt
  check_ranges id (range ∷ rest) listen_ports = do
    _ ← check_listen_port id range listen_ports
    check_ranges id rest listen_ports

  unfoldable pub check_listen_ports :
      List (Text × List PortRange) → List (Text × ℕ) → Result (PlanError E) (Unit {0})
  check_listen_ports [] listen_ports = ok tt
  check_listen_ports ((id, ranges) ∷ rest) listen_ports = do
    _ ← check_ranges id ranges listen_ports
    check_listen_ports rest listen_ports

  unfoldable pub overlap_error :
      Redirect → Redirect → Option PortRange → Result (PlanError E) (Unit {0})
  overlap_error left right none = ok tt
  overlap_error left right (some range) = err (overlap left.node_id right.node_id range)

  -- The third check: `right` against the redirects before it.
  unfoldable pub check_lefts : List Redirect → Redirect → Result (PlanError E) (Unit {0})
  unfolding overlap_error
  check_lefts [] right = ok tt
  check_lefts (left ∷ rest) right = do
    _ ← overlap_error left right (first_overlap left.ports right.ports)
    check_lefts rest right

  unfoldable pub check_overlaps : List Redirect → List Redirect → Result (PlanError E) (Unit {0})
  check_overlaps before [] = ok tt
  check_overlaps before (right ∷ rest) = do
    _ ← check_lefts before right
    check_overlaps (before ++ right ∷ []) rest

  unfoldable pub finish_plan : Gathered → Result (PlanError E) Plan
  finish_plan g = do
    let redirects = sort_redirects g.redirects
    _ ← check_listen_ports g.original_hopping g.listen_ports
    _ ← check_overlaps [] redirects
    ok (record { redirects = redirects })

module _ {E : Type 0} (from_slice : Text → Result E Hysteria2SalamanderConfig) where
  unfoldable pub decode_hysteria_config : Text → Result E Hysteria2SalamanderConfig
  decode_hysteria_config bytes =
      if text_eq (without_whitespace bytes) (codes "null")
      then ok default_config
      else from_slice bytes

  unfoldable pub gather_hysteria : Gathered → NodeInstance → Result (PlanError E) Gathered
  gather_hysteria g node = do
    config ← map_err (undecodable node.node_id) (decode_hysteria_config node.provider_config)
    original ← map_err (invalid_ports node.node_id) (parse_port_ranges config.port_hopping)
    add_node g node.node_id config original

  -- The body of the first loop.
  unfoldable pub gather_node : Gathered → NodeInstance → Result (PlanError E) Gathered
  gather_node g node =
      let g' = record g { seen_node_ids = node.node_id ∷ g.seen_node_ids } in
      if seen node.node_id g.seen_node_ids
      then err (duplicate_node node.node_id)
      else if not (text_eq node.provider_id hysteria2_salamander_id)
      then ok g'
      else gather_hysteria g' node

  unfoldable pub gather : Gathered → List NodeInstance → Result (PlanError E) Gathered
  gather g [] = ok g
  gather g (node ∷ rest) = do g' ← gather_node g node; gather g' rest

  -- `build_plan(topology)`, of the topology's nodes.
  unfoldable pub build_plan : List NodeInstance → Result (PlanError E) Plan
  build_plan nodes = gather nothing_gathered nodes >>= finish_plan
