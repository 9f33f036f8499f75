-- ===== src/Engine/Users/Upserted.antt =====
-- `upsert` on a valid registry: it refuses, or the registry stays valid and has the user.
use node_agent_rs.Base.{◌≡◌, refl, Text, lookup, insert, ok, Option-cases, inl, inr}
use node_agent_rs.Engine.Shoes.{Shoes, write_cell}
use node_agent_rs.Engine.Credentials.{UserSpec, Credentials}
use node_agent_rs.Engine.Indexes.{Indexes}
use node_agent_rs.Engine.Users.{
  Registry, republish_vmess, context_of, cell_of, next_cell_after, configure, new_entry,
  replace_user, admit, upsert_locked,
}
use node_agent_rs.Engine.Users.Upserts.{replace_total_at}
use node_agent_rs.Engine.Users.Admitted.{admit-eq-ok, parse_credentials-wanted}
use node_agent_rs.Engine.Users.Valid.{IsValid, HasRecord, IsSeparate-insert}

module _ (s : Shoes) (r : Registry s) where
  -- The registry that `upsert_locked` leaves, for the indexes that it files.
  abbrev pub upserted : Text → UserSpec → Credentials → Indexes s.VmessAuthKey → Registry s
  upserted id spec c filed =
      let previous = lookup id r.users in
      let context = context_of s r id previous in
      record r {
        heap =
            write_cell context.address (configure s r.analysis spec (cell_of s r previous)) r.heap;
        next_cell = next_cell_after s r previous;
        indexes = filed;
        users = insert id (new_entry s context c) r.users;
      }

module _ (s : Shoes) (r : Registry s) (valid : IsValid s r) where
  pub context_id : (id : Text) → (context_of s r id (lookup id r.users)).id ≡ id
  unfolding context_of
  context_id id = elim (Option-cases (lookup id r.users)) [
    | inl fresh ↦ rw fresh refl
    | inr (old, was) ↦ rw was (valid.agree.named id old was)
  ]

  pub has_record :
      (id : Text) (c : Credentials)
      → HasRecord s id
          (new_entry s (context_of s r id (lookup id r.users)) c)
          r.users
          r.next_cell
          (next_cell_after s r (lookup id r.users))
  unfolding context_of next_cell_after new_entry
  has_record id c = elim (Option-cases (lookup id r.users)) [
    | inl fresh ↦ inl (fresh, rw fresh refl, rw fresh refl)
    | inr (old, was) ↦ inr (old, was, rw was refl, rw was refl)
  ]

  module _ (id : Text) (spec : UserSpec) (c : Credentials)
      (admitted : admit s r spec ≡ ok (id, c)) where
    -- An admitted user is added without a panic.
    pub upsert_admitted :
        (filed : Indexes s.VmessAuthKey) × (upsert_locked s r spec
          ≡ ok
              (new_entry s (context_of s r id (lookup id r.users)) c, upserted s r id spec c filed))
        × IsValid s (republish_vmess s (upserted s r id spec c filed))
    unfolding upsert_locked replace_user new_entry republish_vmess
    upsert_admitted =
        let (named, idle, parsed, free) = admit-eq-ok s r spec id c admitted in
        let (retired, filed, retire_ok, file_ok, agree) =
          replace_total_at s r.kinds r.users r.indexes valid.agree id
            (new_entry s (context_of s r id (lookup id r.users)) c) (context_id id) free
            (parse_credentials-wanted s r.kinds id spec c parsed) in
        (
          filed,
          rw (admitted, retire_ok, file_ok) refl,
          record {
            agree = agree;
            snapshot = refl;
            separate =
                IsSeparate-insert s r.users r.draining r.next_cell
                  (next_cell_after s r (lookup id r.users)) r.next_generation id
                  (new_entry s (context_of s r id (lookup id r.users)) c) valid.separate idle
                  (has_record id c);
          },
        )
