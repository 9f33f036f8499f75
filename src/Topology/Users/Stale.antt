-- ===== src/Topology/Users/Stale.antt =====
-- The users whose connections are closed are those that lost their access or their credential.
use node_agent_rs.Base.{
  ◌≡◌, true, ◌&&◌, Option, none, some, List, [], ◌∷◌, Text, Has, if◌then◌else◌, text_eq,
}
use node_agent_rs.Topology.Users.{UserCredential, Users, is_active, has_other_credential}

abbrev or_else : Option UserCredential → Option UserCredential → Option UserCredential
or_else none o = o
or_else (some u) o = some u

-- The last active user of a list with an id.
unfoldable pub last_active : Text → List UserCredential → Option UserCredential
last_active id [] = none
last_active id (user ∷ users) =
    or_else (last_active id users)
      (if is_active user && text_eq user.user_id id then some user else none)

-- The user is active in the current list, and has no access, or another credential, in `desired`.
pub record IsStale (current desired : List UserCredential) (id : Text) : Type 0 where
  pub user : UserCredential
  pub listed : Has user current
  pub active : is_active user ≡ true
  pub named : user.user_id ≡ id
  pub lost : has_other_credential user (last_active id desired) ≡ true
