-- ===== src/PortHopping/Tests.antt =====
-- Runs of the port hopping code on concrete inputs, and its theorems at such inputs.
use node_agent_rs.Base.{
  ℕ, ◌≡◌, refl, true, false, if◌then◌else◌, List, [], ◌∷◌, All, arith, Text, codes, text_eq,
  text_le, Result, ok, err, some, inl, ◌≤◌, map, Has, tree_insert, lookup,
}
use node_agent_rs.PortHopping.Ranges.{
  PortRange, PortRangeError, contains, covers, parse_port_ranges, normalize_port_ranges,
  merge_port_ranges, IsNormalized, trim, trim_start, is_whitespace, split, parse_items, parse_item,
  parse_bounds, parse_port, parse_u16, is_ascii_digit, nonzero_port, make_range, merge_sorted,
  sort_ranges, merge_from, insert_range, range_le, decimal, format_range, join, empty_item,
  out_of_range, invalid_item, reversed_range,
}
use node_agent_rs.PortHopping.Ranges.Merge.{merge_port_ranges-IsNormalized}
use node_agent_rs.PortHopping.Ranges.Parse.{parse_port_ranges-IsNormalized}
use node_agent_rs.PortHopping.Ranges.RoundTrip.{parse_port_ranges-join}
use node_agent_rs.PortHopping.Plan.{
  Plan, PlanError, Redirect, NodeInstance, Hysteria2SalamanderConfig, hysteria2_salamander_id,
  empty_plan, remove_self_redirects, first_overlap, plan_is_empty,
}
use node_agent_rs.PortHopping.Plan.Redirects.{first_overlap-some}
use node_agent_rs.PortHopping.Plan.Build.{
  build_plan, gather, gather_node, gather_hysteria, decode_hysteria_config, without_whitespace,
  is_ascii_whitespace, add_node, record_listen_port, finish_plan, sort_redirects, insert_redirect,
  check_listen_ports, check_ranges, check_listen_port, check_overlaps, check_lefts, overlap_error,
}
use node_agent_rs.PortHopping.Plan.Gather.{IsSound}
use node_agent_rs.PortHopping.Plan.Loop.{Hops}
use node_agent_rs.PortHopping.Plan.Conflicts.{AllDisjoint, Ordered}
use node_agent_rs.PortHopping.Plan.Sound.{
  build_plan-IsSound, build_plan_avoids_listeners, build_plan_forwards,
}
use node_agent_rs.PortHopping.Manager.{
  Outcome, done, failed, with_backend, apply, reconcile, close, applies, closes, call, run,
}
use node_agent_rs.PortHopping.Manager.Lifecycle.{close_for_good}

abbrev range : ℕ → ℕ → PortRange
range a b = record { start = a; end = b }

abbrev provider_ranges : List PortRange
provider_ranges = range 100 210 ∷ range 300 301 ∷ []

abbrev scattered : List PortRange
scattered = range 200 210 ∷ range 100 100 ∷ range 101 199 ∷ range 300 301 ∷ range 301 301 ∷ []

-- Names what a run of the parser computes with.
parse : Text → Result PortRangeError (List PortRange)
unfolding parse_port_ranges trim trim_start is_whitespace split parse_items parse_item parse_bounds
    parse_port parse_u16 is_ascii_digit nonzero_port make_range merge_port_ranges merge_sorted
    sort_ranges merge_from insert_range range_le
parse = parse_port_ranges

parses_like_the_provider :
    parse_port_ranges (codes " 200-210,100,101-199,300-301,301 ") ≡ ok provider_ranges
unfolding parse
parses_like_the_provider = refl

parses_in_order : parse_port_ranges (codes "300-301,100-210") ≡ ok provider_ranges
unfolding parse
parses_in_order = refl

refuses_empty_item : parse_port_ranges (codes "1,") ≡ err empty_item
unfolding parse
refuses_empty_item = refl

refuses_large_port :
    parse_port_ranges (codes "65536") ≡ err (invalid_item (codes "65536") out_of_range)
unfolding parse
refuses_large_port = refl

refuses_reversed_range : parse_port_ranges (codes "2-1") ≡ err (reversed_range (codes "2-1"))
unfolding parse
refuses_reversed_range = refl

normalizes_443 : normalize_port_ranges (codes " 1000-1002 , 443") ≡ ok (codes "443,1000-1002")
unfolding normalize_port_ranges parse decimal format_range join
normalizes_443 = refl

merge_port_ranges-IsNormalized_example : IsNormalized 1 (merge_port_ranges scattered)
merge_port_ranges-IsNormalized_example = merge_port_ranges-IsNormalized 1 scattered (omega arith)

parse_port_ranges-IsNormalized_example : IsNormalized 1 provider_ranges
parse_port_ranges-IsNormalized_example =
    parse_port_ranges-IsNormalized (codes " 200-210,100,101-199,300-301,301 ") provider_ranges
      parses_like_the_provider

parse_port_ranges-join_example :
    parse_port_ranges (join (map format_range provider_ranges)) ≡ ok provider_ranges
parse_port_ranges-join_example = parse_port_ranges-join provider_ranges (omega arith)

first_overlap_found : first_overlap provider_ranges (range 205 400 ∷ []) ≡ some (range 205 210)
unfolding first_overlap
first_overlap_found = refl

first_overlap-some_example :
    (205 ≤ 210)
    × ((p : ℕ)
        → contains (range 205 210) p ≡ true
        → (covers provider_ranges p ≡ true) × (covers (range 205 400 ∷ []) p ≡ true))
first_overlap-some_example =
    first_overlap-some provider_ranges (range 205 400 ∷ []) (range 205 210) first_overlap_found

-- A decoder for the tests: the text before the bar is the listen port's, here always 443.
demo_slice : Text → Result Text Hysteria2SalamanderConfig
demo_slice bytes = ok (record { listen_port = 443; port_hopping = bytes })

abbrev hopping_node : NodeInstance
hopping_node = record {
  node_id = codes "node-a";
  provider_id = hysteria2_salamander_id;
  provider_config = codes "440-445";
}

abbrev vless_node : NodeInstance
vless_node = record {
  node_id = codes "node-0";
  provider_id = codes "vless-reality-vision@1";
  provider_config = [];
}

abbrev demo_nodes : List NodeInstance
demo_nodes = hopping_node ∷ vless_node ∷ []

abbrev demo_plan : Plan
demo_plan = record {
  redirects =
      record {
        node_id = codes "node-a";
        listen_port = 443;
        ports = range 440 442 ∷ range 444 445 ∷ [];
      }
      ∷ [];
}

build : List NodeInstance → Result (PlanError Text) Plan
unfolding parse build_plan gather gather_node gather_hysteria decode_hysteria_config
    without_whitespace is_ascii_whitespace add_node record_listen_port finish_plan sort_redirects
    insert_redirect check_listen_ports check_ranges check_listen_port check_overlaps check_lefts
    overlap_error remove_self_redirects first_overlap demo_slice contains tree_insert lookup text_eq
    text_le
build = build_plan demo_slice

builds_demo_plan : build_plan demo_slice demo_nodes ≡ ok demo_plan
unfolding build
builds_demo_plan = refl

build_plan-IsSound_example :
    All IsSound demo_plan.redirects
    × AllDisjoint demo_plan.redirects
    × Ordered [] demo_plan.redirects
build_plan-IsSound_example = build_plan-IsSound demo_slice demo_nodes demo_plan builds_demo_plan

demo_Hops :
    Hops demo_slice hopping_node
      (record { listen_port = 443; port_hopping = codes "440-445" })
      (range 440 445 ∷ [])
unfolding build
demo_Hops = record { provider = refl; decoded = refl; parsed = refl }

build_plan_avoids_listeners_example : All (λ r. covers r.ports 443 ≡ false) demo_plan.redirects
build_plan_avoids_listeners_example =
    build_plan_avoids_listeners demo_slice demo_nodes demo_plan hopping_node
      (record { listen_port = 443; port_hopping = codes "440-445" }) (range 440 445 ∷ [])
      builds_demo_plan (inl refl) demo_Hops

build_plan_forwards_example :
    (r : Redirect) × Has r demo_plan.redirects
    × (r.node_id ≡ codes "node-a")
    × (r.listen_port ≡ 443)
    × (covers r.ports 444 ≡ true)
unfolding contains
build_plan_forwards_example =
    build_plan_forwards demo_slice demo_nodes demo_plan hopping_node
      (record { listen_port = 443; port_hopping = codes "440-445" }) (range 440 445 ∷ []) 444
      builds_demo_plan (inl refl) demo_Hops refl (omega arith)

-- A backend that remembers its plan and refuses any plan with redirects.
fussy_backend : Plan → Plan → Outcome Text × Plan
fussy_backend old desired = if plan_is_empty desired then (done, desired) else (failed [], old)

-- A backend that refuses every plan.
broken_backend : Plan → Plan → Outcome Text × Plan
broken_backend old desired = (failed [], old)

fussy_installs : (old new desired : Plan) → fussy_backend old desired ≡ (done, new) → new ≡ desired
unfolding fussy_backend
fussy_installs old new desired h = ground arith

close_for_good_example :
    (empty_plan ≡ empty_plan)
    × (run fussy_backend
          (record { backend = empty_plan; closed = true; poisoned = false })
          (applies demo_plan ∷ closes ∷ [])
        ≡ record { backend = empty_plan; closed = true; poisoned = false })
unfolding run call reconcile apply close with_backend fussy_backend plan_is_empty
close_for_good_example =
    close_for_good fussy_backend (λ p. p) fussy_installs empty_plan (applies demo_plan ∷ [])
      (applies demo_plan ∷ closes ∷ [])
      (record { backend = empty_plan; closed = true; poisoned = false }) refl
