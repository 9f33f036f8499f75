-- ===== src/Topology/Users.antt =====
-- crates/node-agent/src/topology/manager.rs: the users of a node: their comparison for a refresh, and
-- those whose connections a publication closes. A BTreeMap is the list of its entries.
pub mod Compare
pub mod Stale
use Prim.Native.String.{String}
use node_agent_rs.Base.{
  ℕ, suc, ◌+◌, Bool, true, false, ◌&&◌, ◌||◌, not, Option, none, some, List, [], ◌∷◌, ◌++◌, Text,
  codes, Result, ok, err, if◌then◌else◌, ◌==◌, ◌>>=◌, text_eq, lookup, tree_insert,
}
use node_agent_rs.Topology.Adapter.{TopologyError, topology_error, invalid_mutation}

pub record UserCredential : Type 0 where
  pub user_id : Text
  pub name : Text
  pub credential : Text
  pub status : Text
  pub upload_speed_limit_bps : ℕ
  pub download_speed_limit_bps : ℕ

unfoldable pub user_eq : UserCredential → UserCredential → Bool
user_eq u v =
    text_eq u.user_id v.user_id
    && text_eq u.name v.name
    && text_eq u.credential v.credential
    && text_eq u.status v.status
    && (u.upload_speed_limit_bps == v.upload_speed_limit_bps)
    && (u.download_speed_limit_bps == v.download_speed_limit_bps)

abbrev pub Users : Type 0
Users = List (Text × UserCredential)

abbrev pub is_empty : Text → Bool
is_empty [] = true
is_empty (c ∷ cs) = false

abbrev pub is_some : Option UserCredential → Bool
is_some none = false
is_some (some user) = true

-- The loop of `index_node_users`.
unfoldable pub index_into : Text → List UserCredential → Users → Result TopologyError Users
index_into source [] indexed = ok indexed
index_into source (user ∷ users) indexed =
    let rest = index_into source users (tree_insert user.user_id user indexed) in
    if is_empty user.user_id
    then err
        (topology_error invalid_mutation (source ++ codes " user list contains an empty user_id"))
    else if is_some (lookup user.user_id indexed)
    then err (
        topology_error invalid_mutation
          (source ++ codes " user list contains duplicate user_id " ++ user.user_id))
    else rest

unfoldable pub index_node_users : List UserCredential → String → Result TopologyError Users
index_node_users users source = index_into (codes source) users []

pub record UserRefreshChanges : Type 0 where
  pub added : ℕ
  pub updated : ℕ
  pub deleted : ℕ
  pub applied : Bool

abbrev pub compare_entry :
    Option UserCredential → UserCredential → UserRefreshChanges → UserRefreshChanges
compare_entry none desired changes = record changes { added = suc changes.added }
compare_entry (some current) desired changes =
    if user_eq current desired then changes else record changes { updated = suc changes.updated }

-- The loop over the desired users.
unfoldable pub compare_desired : Users → Users → UserRefreshChanges
compare_desired current [] = record { added = 0; updated = 0; deleted = 0; applied = false }
compare_desired current ((id, user) ∷ desired) =
    compare_entry (lookup id current) user (compare_desired current desired)

-- The loop over the current users.
unfoldable pub count_deleted : Users → Users → ℕ
count_deleted [] desired = 0
count_deleted ((id, user) ∷ current) desired =
    let rest = count_deleted current desired in
    if is_some (lookup id desired) then rest else suc rest

unfoldable pub compare_node_users :
    List UserCredential → List UserCredential → Result TopologyError UserRefreshChanges
compare_node_users current desired = do
  indexed ← index_node_users current "current"
  wanted ← index_node_users desired "desired"
  ok (record (compare_desired indexed wanted) { deleted = count_deleted indexed wanted })

-- `!user.user_id.is_empty() && user.status != "disabled"`
abbrev pub is_active : UserCredential → Bool
is_active user = not (is_empty user.user_id) && not (text_eq user.status (codes "disabled"))

-- `collect` into the map of the active users; of two with one id the later stays.
unfoldable pub active_users : List UserCredential → Users → Users
active_users [] collected = collected
active_users (user ∷ users) collected =
    active_users users
      (if is_active user then tree_insert user.user_id user collected else collected)

abbrev pub has_other_credential : UserCredential → Option UserCredential → Bool
has_other_credential user none = true
has_other_credential user (some desired) = not (text_eq desired.credential user.credential)

unfoldable pub stale_ids : List UserCredential → Users → List Text
stale_ids [] desired = []
stale_ids (user ∷ users) desired =
    let rest = stale_ids users desired in
    if is_active user && has_other_credential user (lookup user.user_id desired)
    then user.user_id ∷ rest
    else rest

unfoldable pub stale_credential_user_ids : List UserCredential → List UserCredential → List Text
stale_credential_user_ids current desired = stale_ids current (active_users desired [])
