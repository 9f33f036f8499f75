-- ===== src/Engine/Users/Removes.antt =====
-- Removing a user on a valid registry: every key of the user is dropped, and the id is draining.
use node_agent_rs.Base.{
  ℕ, ◌+◌, ◌≡◌, refl, ap, ◌∙◌, true, none, some, List, if◌then◌else◌, Text, text_eq, text_eq_iff,
  lookup, insert, remove, lookup-insert, lookup-remove, ok, arith,
}
use node_agent_rs.Engine.Kinds.{CredentialKinds}
use node_agent_rs.Engine.Shoes.{Shoes, write_cell}
use node_agent_rs.Engine.Credentials.{Entry}
use node_agent_rs.Engine.Indexes.{Indexes, drop_keys}
use node_agent_rs.Engine.Indexes.Owned.{IsSound-remove, IsComplete-remove}
use node_agent_rs.Engine.Indexes.Keys.{indexed, Without}
use node_agent_rs.Engine.Indexes.Prefixes.{Counts}
use node_agent_rs.Engine.Indexes.Forms.{Form, index_of, Fits, drop_keys_total}
use node_agent_rs.Engine.Users.{Registry, DrainingUser, republish_vmess}
use node_agent_rs.Engine.Users.Removal.{revoke_user, begin_remove}
use node_agent_rs.Engine.Users.Consistent.{
  id_of, entry_key, entry_weight, IsConsistent, remove-HasDistinctKeys, total-remove,
}
use node_agent_rs.Engine.Users.Upserts.{Fits-old}
use node_agent_rs.Engine.Users.Valid.{IsValid, IsSeparate}

module _ (s : Shoes) (kinds : CredentialKinds) (users : List (Text × Entry s.VmessAuthKey))
    (ix : Indexes s.VmessAuthKey) (c : IsConsistent s kinds users ix) (id : Text)
    (e : Entry s.VmessAuthKey) (was : lookup id users ≡ some e) where
  module _ (after : Indexes s.VmessAuthKey)
      (without : (f : Form) → Without (entry_key f e) (index_of f ix) (index_of f after))
      (down : Counts s none e.credentials.anytls_hash ix.anytls_prefixes
        after.anytls_prefixes) where
    removed :
        (i : Text)
        → lookup i (remove id users) ≡ (if text_eq (id_of e) i then none else lookup i users)
    removed i = rw (c.named id e was) (lookup-remove i id users)

    here : lookup (id_of e) users ≡ some e
    here = ap (λ i. lookup i users) (c.named id e was) ∙ was

    kept : IsConsistent s kinds (remove id users) after
    kept = record {
      distinct = remove-HasDistinctKeys id users c.distinct;
      named = λ i d h. ground (arith, lookup-remove i id users, c.named i d);
      sound = λ f.
          IsSound-remove id_of (entry_key f) (λ i. lookup i users) (indexed (index_of f ix))
            (λ i. lookup i (remove id users)) (indexed (index_of f after)) (c.sound f)
            (c.complete f) e here removed (without f).left;
      complete = λ f.
          IsComplete-remove id_of (entry_key f) (λ i. lookup i users) (indexed (index_of f ix))
            (λ i. lookup i (remove id users)) (indexed (index_of f after)) (c.sound f)
            (c.complete f) e here removed (without f).left c.named;
      allocated = λ f. (without f).as_allocated ∙ c.allocated f;
      prefixes_allocated = down.as_allocated ∙ c.prefixes_allocated;
      no_zero = down.no_zero;
      prefixes_counted = λ p. omega (
        arith,
        down.counts p,
        c.prefixes_counted p,
        rw was at (total-remove (entry_weight s p) id users c.distinct),
      );
    }

  -- The keys of the user are dropped without a panic.
  pub drop_total :
      (after : Indexes s.VmessAuthKey) × (drop_keys s e.credentials ix ≡ ok after)
      × IsConsistent s kinds (remove id users) after
  drop_total =
      let fits : Fits e.credentials ix = rw was at (Fits-old s kinds users ix c id) in
      let (after, dropped, without, down) = drop_keys_total s e.credentials ix fits c.no_zero in
      (after, dropped, kept after without down)

module _ (s : Shoes) (users : List (Text × Entry s.VmessAuthKey))
    (draining : List (Text × DrainingUser s.VmessAuthKey)) (next generation : ℕ) (id : Text)
    (e : Entry s.VmessAuthKey) (g : DrainingUser s.VmessAuthKey)
    (h : IsSeparate s users draining next generation) (was : lookup id users ≡ some e)
    (named : id_of e ≡ id) (of_entry : g.entry ≡ e) (at : g.address ≡ generation) where
  left : (i : Text) → lookup i (remove id users) ≡ (if text_eq id i then none else lookup i users)
  left i = lookup-remove i id users

  drained :
      (i : Text)
      → lookup i (insert (id_of e) g draining)
        ≡ (if text_eq (id_of e) i then some g else lookup i draining)
  drained i = lookup-insert i (id_of e) g draining

  -- The removed user takes its record with it.
  IsSeparate-remove :
      IsSeparate s (remove id users) (insert (id_of e) g draining) next (generation + 1)
  IsSeparate-remove = record {
    apart = λ i d hi.
        ground (arith, left i, drained i, text_eq_iff (id_of e) i, text_eq_iff id i, h.apart i d);
    drains_named = λ i f hi. ground (arith, drained i, text_eq_iff (id_of e) i, h.drains_named i f);
    cells = λ i d hi. ground (arith, left i, h.cells i d);
    drained_cells = λ i f hi. ground (arith, drained i, h.drained_cells i f, h.cells id e);
    own_cells = λ i j c d hi hj same. ground (arith, left i, left j, h.own_cells i j c d);
    apart_cells = λ i j d f hi hj same.
        ground
          (arith, left i, drained j, text_eq_iff id i, h.own_cells i id d e, h.apart_cells i j d f);
    generations = λ i f hi. ground (arith, drained i, h.generations i f);
  }

module _ (s : Shoes) (r : Registry s) where
  -- The generation of a user that is removed.
  abbrev pub generation_of : Entry s.VmessAuthKey → DrainingUser s.VmessAuthKey
  generation_of e = record { address = r.next_generation; entry = e }

  -- The registry that the part of `remove` under the lock leaves, for the indexes that it drops to.
  abbrev pub revoked : Text → Entry s.VmessAuthKey → Indexes s.VmessAuthKey → Registry s
  revoked id e dropped = record r {
    heap = write_cell e.context.address (s.revoke_connections (r.heap e.context.address)) r.heap;
    users = remove id r.users;
    draining = insert e.context.id (generation_of e) r.draining;
    next_generation = r.next_generation + 1;
    indexes = dropped;
  }

module _ (s : Shoes) (r : Registry s) (valid : IsValid s r) (tag id : Text) where
  pub begin_remove_live :
      (e : Entry s.VmessAuthKey)
      → lookup id r.users ≡ some e
      → (dropped : Indexes s.VmessAuthKey) × (begin_remove s r tag id
          ≡ ok ((generation_of s r e, true), republish_vmess s (revoked s r id e dropped)))
        × IsValid s (republish_vmess s (revoked s r id e dropped))
  unfolding begin_remove revoke_user republish_vmess
  begin_remove_live e was =
      let (dropped, drops, agree) = drop_total s r.kinds r.users r.indexes valid.agree id e was in
      (
        dropped,
        rw (begin_remove, was) (rw drops refl),
        record {
          agree = agree;
          snapshot = refl;
          separate =
              IsSeparate-remove s r.users r.draining r.next_cell r.next_generation id e
                (generation_of s r e) valid.separate was (valid.agree.named id e was) refl refl;
        },
      )
