-- ===== src/Topology/Users/Compare.antt =====
-- A comparison that finds no change has compared the same users.
use node_agent_rs.Base.{
  suc, ◌≡◌, ◌↔◌, refl, ap, ◌∙◌, sym, true, Option, none, some, List, [], ◌∷◌, Text, ok,
  if◌then◌else◌, text_eq, text_eq_iff, lookup, lookup-tree_insert, tree_insert, arith, >>=-eq-ok,
  ok-injective, Option-cases, Bool-cases, inl, inr,
}
use node_agent_rs.Topology.Users.{
  UserCredential, Users, user_eq, index_into, index_node_users, compare_desired, count_deleted,
  compare_node_users, UserRefreshChanges, is_some,
}

user_eq_iff : (u v : UserCredential) → (user_eq u v ≡ true) ↔ (u ≡ v)
unfolding user_eq
user_eq_iff u v = ground (
  arith,
  text_eq_iff u.user_id v.user_id,
  text_eq_iff u.name v.name,
  text_eq_iff u.credential v.credential,
  text_eq_iff u.status v.status,
)

-- The first user of a list with an id.
unfoldable pub find_user : Text → List UserCredential → Option UserCredential
find_user id [] = none
find_user id (user ∷ users) = if text_eq user.user_id id then some user else find_user id users

abbrev or_else : Option UserCredential → Option UserCredential → Option UserCredential
or_else none o = o
or_else (some u) o = some u

-- What is indexed stays: a duplicate is refused.
index_into_keeps :
    (source id : Text) (u : UserCredential) (users : List UserCredential) (start indexed : Users)
    → lookup id start ≡ some u
    → index_into source users start ≡ ok indexed
    → lookup id indexed ≡ some u
unfolding index_into
index_into_keeps source id u [] start indexed e h = ap (lookup id) (sym (ok-injective h)) ∙ e
index_into_keeps source id u (user ∷ users) start indexed e h = ground (
  arith,
  text_eq_iff user.user_id id,
  lookup-tree_insert user.user_id id user start,
  index_into_keeps source id u users (tree_insert user.user_id user start) indexed,
)

lookup-index_into :
    (source id : Text) (users : List UserCredential) (start indexed : Users)
    → index_into source users start ≡ ok indexed
    → lookup id start ≡ none
    → lookup id indexed ≡ find_user id users
unfolding index_into find_user
lookup-index_into source id [] start indexed h e = ap (lookup id) (sym (ok-injective h)) ∙ e
lookup-index_into source id (user ∷ users) start indexed h e = ground (
  arith,
  lookup-tree_insert user.user_id id user start,
  index_into_keeps source id user users (tree_insert user.user_id user start) indexed,
  lookup-index_into source id users (tree_insert user.user_id user start) indexed,
)

unchanged_desired :
    (current desired : Users) (id : Text) (user : UserCredential)
    → (compare_desired current desired).added ≡ 0
    → (compare_desired current desired).updated ≡ 0
    → lookup id desired ≡ some user
    → lookup id current ≡ some user
unfolding compare_desired lookup
unchanged_desired current [] id user a u h = cc
unchanged_desired current ((j, wanted) ∷ desired) id user a u h =
    elim (Option-cases (lookup j current)) [
      | inl absent ↦
          let none_added : suc (compare_desired current desired).added ≡ 0 = rw absent at a in
          ground arith
      | inr (have, present) ↦ elim (Bool-cases (user_eq have wanted)) [
        | inl same ↦
            let added = rw (present, same) at a in
            let updated = rw (present, same) at u in
            ground (
              arith,
              text_eq_iff j id,
              user_eq_iff have wanted,
              unchanged_desired current desired id user added updated,
            )
        | inr differs ↦
            let none_updated : suc (compare_desired current desired).updated ≡ 0 =
              rw (present, differs) at u in
            ground arith
      ]
    ]

unchanged_current :
    (current desired : Users) (id : Text) (user : UserCredential)
    → count_deleted current desired ≡ 0
    → lookup id current ≡ some user
    → is_some (lookup id desired) ≡ true
unfolding count_deleted lookup
unchanged_current [] desired id user d h = cc
unchanged_current ((j, have) ∷ current) desired id user d h =
    ground (arith, text_eq_iff j id, unchanged_current current desired id user)

-- If a comparison of two user lists finds no one added, updated or deleted, then the lists have the
-- same user under every id.
compare_node_users_unchanged :
    (current desired : List UserCredential) (changes : UserRefreshChanges) (id : Text)
    → compare_node_users current desired ≡ ok changes
    → changes.added ≡ 0
    → changes.updated ≡ 0
    → changes.deleted ≡ 0
    → find_user id current ≡ find_user id desired
unfolding compare_node_users index_node_users
compare_node_users_unchanged current desired changes id h a u d =
    let (indexed, e1, e2) = >>=-eq-ok (index_node_users current "current") _ h in
    let (wanted, e3, e4) = >>=-eq-ok (index_node_users desired "desired") _ e2 in
    let same = ok-injective e4 in
    let found = lookup-index_into _ id current [] indexed e1 (unfold lookup in refl) in
    let desires = lookup-index_into _ id desired [] wanted e3 (unfold lookup in refl) in
    let added = ap (λ (x : UserRefreshChanges). x.added) same ∙ a in
    let updated = ap (λ (x : UserRefreshChanges). x.updated) same ∙ u in
    let deleted = ap (λ (x : UserRefreshChanges). x.deleted) same ∙ d in
    sym found
    ∙ elim (Option-cases (lookup id wanted)) [
      | inr (user, present) ↦
          unchanged_desired indexed wanted id user added updated present ∙ sym present
      | inl absent ↦ elim (Option-cases (lookup id indexed)) [
        | inl gone ↦ gone ∙ sym absent
        | inr (user, present) ↦
            let kept : is_some none ≡ true =
              ap is_some (sym absent) ∙ unchanged_current indexed wanted id user deleted present in
            ground arith
      ]
    ]
    ∙ desires
