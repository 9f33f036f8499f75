-- ===== src/Engine/Users/Generations.antt =====
-- What becomes of a removed generation: no lookup finds its record, its id waits, its report stays.
use node_agent_rs.Base.{
  ℕ, ◌≡◌, ◌≢◌, ◌<◌, some, List, Text, text_eq_iff, lookup, insert, lookup-insert, lookup-remove,
  inl, inr, arith,
}
use node_agent_rs.Engine.Shoes.{Shoes}
use node_agent_rs.Engine.Credentials.{Entry}
use node_agent_rs.Engine.Indexes.{Indexes}
use node_agent_rs.Engine.Users.{
  Registry, DrainingUser, UserInfo, context_of, new_entry, republish_vmess, next_cell_after,
}
use node_agent_rs.Engine.Users.Consistent.{id_of}
use node_agent_rs.Engine.Users.Valid.{IsValid, HasRecord}
use node_agent_rs.Engine.Users.Upserted.{has_record}
use node_agent_rs.Engine.Users.Ends.{Cleared}
use node_agent_rs.Engine.Users.Removes.{generation_of, revoked}
use node_agent_rs.Engine.Users.Runs.{Step, Reach, here, next, Step-cases, ends_of, Reach-IsValid}

module _ (s : Shoes) where
  -- No user has the record at the address.
  abbrev pub Nobody : ℕ → List (Text × Entry s.VmessAuthKey) → Type 0
  Nobody a users =
      (i : Text) (e : Entry s.VmessAuthKey) → lookup i users ≡ some e → e.context.address ≢ a

  -- No user has the record at the address, and none will be given it.
  pub record IsRetired (a : ℕ) (r : Registry s) : Type 0 where
    pub allocated : a < r.next_cell
    pub nobody : Nobody a r.users

  retired_insert :
      (a : ℕ) (users : List (Text × Entry s.VmessAuthKey)) (before after : ℕ) (id : Text)
      (e : Entry s.VmessAuthKey)
      → HasRecord s id e users before after
      → a < before
      → Nobody a users
      → (a < after) × Nobody a (insert id e users)
  retired_insert a users before after id e (inl (fresh, at, up)) below nobody = (
    omega arith,
    λ i d is same. ground (arith, lookup-insert i id e users, text_eq_iff id i, nobody i d),
  )
  retired_insert a users before after id e (inr (old, was, at, up)) below nobody = (
    omega arith,
    λ i d is same.
        ground (arith, lookup-insert i id e users, text_eq_iff id i, nobody i d, nobody id old),
  )

  IsRetired-Step :
      (a : ℕ) {r r' : Registry s} (st : Step s r r') → IsValid s r → IsRetired a r → IsRetired a r'
  unfolding republish_vmess new_entry context_of next_cell_after
  IsRetired-Step a {r} {r'} st valid h =
      Step-cases s (IsRetired a) st valid
        (λ id spec c filed admitted valid'.
          let (below, nobody) =
            retired_insert a r.users r.next_cell (next_cell_after s r (lookup id r.users)) id
              (new_entry s (context_of s r id (lookup id r.users)) c) (has_record s r valid id c)
              h.allocated h.nobody in
          record { allocated = below; nobody = nobody })
        (λ id e dropped was valid'. record {
          allocated = h.allocated;
          nobody = λ i d is. ground (arith, lookup-remove i id r.users, h.nobody i d);
        })
        (record { allocated = h.allocated; nobody = h.nobody })
        (λ results keeps. record { allocated = h.allocated; nobody = h.nobody })
        (λ g own e. rw e.is (record { allocated = h.allocated; nobody = h.nobody }))
        (λ analysis heap. record { allocated = h.allocated; nobody = h.nobody })

  pub IsRetired-Reach :
      (a : ℕ) {first r : Registry s}
      → IsValid s first
      → Reach s first r
      → IsRetired a first
      → IsRetired a r
  IsRetired-Reach a valid here h = h
  IsRetired-Reach a valid (next before step) h =
      IsRetired-Step a step (Reach-IsValid s valid before) (IsRetired-Reach a valid before h)

  -- The record of a removed user is retired at once.
  pub IsRetired-removed :
      (r : Registry s) (id : Text) (e : Entry s.VmessAuthKey) (dropped : Indexes s.VmessAuthKey)
      → IsValid s r
      → lookup id r.users ≡ some e
      → IsRetired e.context.address (republish_vmess s (revoked s r id e dropped))
  unfolding republish_vmess
  IsRetired-removed r id e dropped valid was = record {
    allocated = valid.separate.cells id e was;
    nobody = λ i d is same.
        ground
          (arith, lookup-remove i id r.users, text_eq_iff id i, valid.separate.own_cells i id d e);
  }

  -- The tombstone of an id stays until the removal of its own generation ends.
  pub Drains-Step :
      (id : Text) (g : DrainingUser s.VmessAuthKey) {r r' : Registry s} (st : Step s r r')
      → IsValid s r
      → ((h : DrainingUser s.VmessAuthKey) → ends_of s st ≡ some h → h.address ≢ g.address)
      → lookup id r.draining ≡ some g
      → lookup id r'.draining ≡ some g
  unfolding republish_vmess
  Drains-Step id g {r} {r'} st valid stale drains =
      Step-cases s (λ x. lookup id x.draining ≡ some g) st valid
        (λ i spec c filed admitted valid'. drains)
        (λ i e dropped was valid'. ground (
          arith,
          lookup-insert id (id_of e) (generation_of s r e) r.draining,
          text_eq_iff (id_of e) id,
          valid.agree.named i e,
          valid.separate.apart i e,
        ))
        drains (λ results keeps. drains)
        (λ h own e. rw e.is (kept h e.draining (stale h own) e.cleared)) (λ analysis heap. drains)
    where
      kept :
          (h : DrainingUser s.VmessAuthKey) (after : List (Text × DrainingUser s.VmessAuthKey))
          → h.address ≢ g.address
          → Cleared s r h r.draining after
          → lookup id after ≡ some g
      kept h after other (inl same) = rw same drains
      kept h after other (inr (current, is, own, gone)) = rw gone (
          ground
            (arith, lookup-remove id (id_of h.entry) r.draining, text_eq_iff (id_of h.entry) id))

  -- A final report that is stored stays.
  Stored-Step :
      (a : ℕ) (info : UserInfo) {r r' : Registry s} (st : Step s r r')
      → IsValid s r
      → r.results a ≡ some info
      → r'.results a ≡ some info
  unfolding republish_vmess
  Stored-Step a info {r} {r'} st valid stored =
      Step-cases s (λ x. x.results a ≡ some info) st valid
        (λ id spec c filed admitted valid'. stored) (λ id e dropped was valid'. stored) stored
        (λ results keeps. keeps a info stored) (λ g own e. rw e.is (e.keeps a info stored))
        (λ analysis heap. stored)

  pub Stored-Reach :
      (a : ℕ) (info : UserInfo) {first r : Registry s}
      → IsValid s first
      → Reach s first r
      → first.results a ≡ some info
      → r.results a ≡ some info
  Stored-Reach a info valid here h = h
  Stored-Reach a info valid (next before step) h =
      Stored-Step a info step (Reach-IsValid s valid before) (Stored-Reach a info valid before h)
