-- ===== src/PortHopping/Plan.antt =====
-- crates/node-agent/src/porthopping/plan.rs: the forwarding plan of a machine topology.
-- `from_slice` is serde_json's decoder, a parameter; of the decoded configuration the plan reads
-- two fields. The BTreeMaps are lists in key order, the HashSet is a list of the ids seen.
pub mod Redirects
pub mod Build
pub mod Gather
pub mod Loop
pub mod Nodes
pub mod Conflicts
pub mod Sound
use node_agent_rs.Base.{
  ℕ, suc, ◌+◌, ◌-◌, ◌≤◌, min, max, Bool, true, false, ◌&&◌, ◌||◌, not, Option, none, some, List, [],
  ◌∷◌, ◌++◌, ltb, leb, ◌==◌, if◌then◌else◌, any, Text, codes, text_eq, text_le, Result, ok, err,
  ◌>>=◌, map_err, tree_insert, length,
}
use node_agent_rs.PortHopping.Ranges.{
  PortRange, PortRangeError, contains, parse_port_ranges, format_range,
}

pub record Redirect : Type 0 where
  pub node_id : Text
  pub listen_port : ℕ
  pub ports : List PortRange

pub record Plan : Type 0 where
  pub redirects : List Redirect

-- `Plan::default`
abbrev pub empty_plan : Plan
empty_plan = record { redirects = [] }

abbrev pub is_nil {ℓ} : {A : Type ℓ} → List A → Bool
is_nil [] = true
is_nil (x ∷ xs) = false

-- `Plan::is_empty`
unfoldable pub plan_is_empty : Plan → Bool
plan_is_empty plan = is_nil plan.redirects

total_rules : List Redirect → ℕ
total_rules [] = 0
total_rules (r ∷ rs) = length r.ports + total_rules rs

unfoldable pub rule_count : Plan → ℕ
unfolding total_rules
rule_count plan = total_rules plan.redirects

-- The fields of `NodeInstance` that the plan reads; `provider_config` is the raw JSON.
pub record NodeInstance : Type 0 where
  pub node_id : Text
  pub provider_id : Text
  pub provider_config : Text

-- The fields of `Hysteria2SalamanderConfig` that the plan reads.
pub record Hysteria2SalamanderConfig : Type 0 where
  pub listen_port : ℕ
  pub port_hopping : Text

abbrev pub default_config : Hysteria2SalamanderConfig
default_config = record { listen_port = 0; port_hopping = [] }

abbrev pub hysteria2_salamander_id : Text
hysteria2_salamander_id = codes "hysteria2-salamander@1"

-- `PlanError`, a constructor for each message; `E` is the decoder's error.
pub data PlanError (E : Type 0) : Type 0 where
  duplicate_node : Text → PlanError E
  undecodable : Text → E → PlanError E
  invalid_ports : Text → PortRangeError → PlanError E
  listen_port_required : Text → PlanError E
  listen_conflict : Text → PortRange → Text → ℕ → PlanError E
  overlap : Text → Text → PortRange → PlanError E

-- What one range leaves of itself without the listen port.
split_off : PortRange → ℕ → List PortRange
split_off r listen_port =
    (if ltb r.start listen_port then record { start = r.start; end = listen_port - 1 } ∷ [] else [])
    ++ (if ltb listen_port r.end then record { start = listen_port + 1; end = r.end } ∷ [] else [])

unfoldable pub remove_self_redirects : List PortRange → ℕ → List PortRange
unfolding split_off
remove_self_redirects [] listen_port = []
remove_self_redirects (r ∷ rs) listen_port =
    (if contains r listen_port then split_off r listen_port else r ∷ [])
    ++ remove_self_redirects rs listen_port

-- The inner loop of `first_overlap`.
first_overlap_with : PortRange → List PortRange → Option PortRange
first_overlap_with first [] = none
first_overlap_with first (second ∷ rest) =
    let start = max first.start second.start in
    let end = min first.end second.end in
    if leb start end
    then some (record { start = start; end = end })
    else first_overlap_with first rest

abbrev pub or_else {ℓ} : {A : Type ℓ} → Option A → Option A → Option A
or_else none b = b
or_else (some a) b = some a

unfoldable pub first_overlap : List PortRange → List PortRange → Option PortRange
unfolding first_overlap_with
first_overlap [] right = none
first_overlap (first ∷ rest) right =
    or_else (first_overlap_with first right) (first_overlap rest right)
