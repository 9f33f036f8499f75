-- ===== src/Engine/Users/Reached.antt =====
-- What holds of every registry that calls, removals and connections lead to from a new one.
use mathlib.Core.Path.{subst}
use node_agent_rs.Base.{
  ◌≡◌, ◌≢◌, ◌↔◌, refl, sym, ap, ◌∙◌, Bool, true, some, if◌then◌else◌, Text, lookup, ok, err,
  ok-injective, some-injective, inl, inr, arith,
}
use node_agent_rs.Engine.Kinds.{CredentialKinds}
use node_agent_rs.Engine.Shoes.{Shoes, UserContext}
use node_agent_rs.Engine.Credentials.{
  UserSpec, resolved_id, invalid_user, not_collected, still_disconnecting, Entry,
}
use node_agent_rs.Engine.Indexes.{refused, panicked}
use node_agent_rs.Engine.Indexes.Forms.{Form}
use node_agent_rs.Engine.Users.{
  Registry, DrainingUser, UserInfo, new_registry, id_of_spec, republish_vmess, refuse_draining,
  admit, upsert_locked, upsert,
}
use node_agent_rs.Engine.Users.Removal.{begin_remove, is_drained, finish, finish_unstored, complete}
use node_agent_rs.Engine.Users.Consistent.{id_of, entry_key}
use node_agent_rs.Engine.Users.Valid.{IsValid}
use node_agent_rs.Engine.Users.Removes.{revoked}
use node_agent_rs.Engine.Users.Ends.{finish_stores}
use node_agent_rs.Engine.Users.Found.{Holder, find, find_iff}
use node_agent_rs.Engine.Users.Initial.{new_registry-IsValid}
use node_agent_rs.Engine.Users.Runs.{
  Step, Reach, ends_of, upsert_cases, begin_remove_cases, Reach-IsValid, Step-IsValid,
}
use node_agent_rs.Engine.Users.Generations.{
  IsRetired, IsRetired-Reach, IsRetired-removed, Drains-Step, Stored-Reach,
}

module _ (s : Shoes) where
  refused_while_draining :
      (r : Registry s) (id : Text) (g : DrainingUser s.VmessAuthKey) (spec : UserSpec)
      → lookup id r.draining ≡ some g
      → id_of_spec (resolved_id spec) ≡ ok id
      → upsert s r spec
        ≡ err (
            refused (
              invalid_user (if is_drained s r g then not_collected id else still_disconnecting id)))
  unfolding upsert upsert_locked admit refuse_draining is_drained
  refused_while_draining r id g spec drains named = rw named (rw drains refl)

  finish_again :
      (r : Registry s) (g : DrainingUser s.VmessAuthKey) (info : UserInfo)
      → r.results g.address ≡ some info
      → finish s r g ≡ some (info, r)
  unfolding finish finish_unstored
  finish_again r g info stored = rw stored refl

module _ (s : Shoes) (kinds : CredentialKinds) (r : Registry s)
    (reached : Reach s (new_registry s kinds) r) where
  valid : IsValid s r
  valid = Reach-IsValid s (new_registry-IsValid s kinds) reached

  -- On a registry that was reached from a new one, no addition or removal of a user panics.
  pub calls_never_panic :
      (spec : UserSpec) (tag id : Text)
      → (upsert s r spec ≢ err panicked) × (begin_remove s r tag id ≢ err panicked)
  calls_never_panic spec tag id = (
    λ h. elim (upsert_cases s r valid spec) [
      | inl (error, refusal, answer) ↦ ground arith
      | inr (i, c, filed, admitted, answer, valid') ↦ ground arith
    ],
    λ h. elim (begin_remove_cases s r valid tag id) [
      | inl (e, dropped, was, answer, valid') ↦ ground arith
      | inr (inl (g, drains, answer)) ↦ ground arith
      | inr (inr (absent, unknown, answer)) ↦ ground arith
    ],
  )

  -- On a registry that was reached from a new one, each lookup by a credential finds a context
  -- exactly if it is that of a live and enabled user who has that credential now.
  pub find-Holder :
      (f : Form) (key : Text) (context : UserContext)
      → (find s r f key ≡ some context) ↔ Holder s r f key context
  find-Holder f key context = find_iff s r valid f key context

  -- On a registry that was reached from a new one, two live users with one credential are one.
  pub credential_owner_unique :
      (f : Form) (key i j : Text) (e d : Entry s.VmessAuthKey)
      → lookup i r.users ≡ some e
      → lookup j r.users ≡ some d
      → entry_key f e ≡ some key
      → entry_key f d ≡ some key
      → i ≡ j
  credential_owner_unique f key i j e d at_i at_j has_e has_d =
      let same : e ≡ d = some-injective (
        sym (valid.agree.complete f i key e at_i has_e)
        ∙ valid.agree.complete f j key d at_j has_d) in
      sym (valid.agree.named i e at_i) ∙ ap id_of same ∙ valid.agree.named j d at_j

  -- After the removal of a user from a registry that was reached from a new one, whatever follows,
  -- no lookup by a credential finds the record of that user.
  pub removed_stays_out :
      (tag id : Text) (g : DrainingUser s.VmessAuthKey) (after later : Registry s)
      → begin_remove s r tag id ≡ ok ((g, true), after)
      → Reach s after later
      → (f : Form) (key : Text) (context : UserContext) → find s later f key ≡ some context
      → context.address ≢ g.entry.context.address
  removed_stays_out tag id g after later h run f key context found =
      elim (begin_remove_cases s r valid tag id) [
        | inl (e, dropped, was, begun, valid') ↦
            let same = ok-injective (sym begun ∙ h) in
            let of_entry : e ≡ g.entry =
              ap (λ (p : (DrainingUser s.VmessAuthKey × Bool) × Registry s). p.0.0.entry) same in
            let at : republish_vmess s (revoked s r id e dropped) ≡ after =
              ap (λ (p : (DrainingUser s.VmessAuthKey × Bool) × Registry s). p.1) same in
            let retired = IsRetired-Reach s e.context.address (subst (IsValid s) at valid') run (
              subst (IsRetired s e.context.address) at
                (IsRetired-removed s r id e dropped valid was)) in
            let holder =
              (find_iff s later (Reach-IsValid s (subst (IsValid s) at valid') run) f key context).0
                found in
            λ address. retired.nobody holder.id holder.entry holder.live (
              ap (λ (c : UserContext). c.address) holder.is
              ∙ address
              ∙ ap (λ (d : Entry s.VmessAuthKey). d.context.address) (sym of_entry))
        | inr (inl (old, drains, begun)) ↦ absurd (ground (arith, ok-injective (sym begun ∙ h)))
        | inr (inr (absent, unknown, begun)) ↦ absurd (ground arith)
      ]

  -- On a registry that was reached from a new one, while an id is draining, a step that does not
  -- end the removal of that very generation leaves it so, and the id cannot be added.
  pub draining_holds :
      (id : Text) (g : DrainingUser s.VmessAuthKey) (later : Registry s) (st : Step s r later)
      → lookup id r.draining ≡ some g
      → ((h : DrainingUser s.VmessAuthKey) → ends_of s st ≡ some h → h.address ≢ g.address)
      → (lookup id later.draining ≡ some g)
        × ((spec : UserSpec)
            → id_of_spec (resolved_id spec) ≡ ok id
            → upsert s later spec
              ≡ err (
                  refused (
                    invalid_user
                      (if is_drained s later g then not_collected id else still_disconnecting id))))
  draining_holds id g later st drains stale =
      let still = Drains-Step s id g st valid stale drains in
      (still, λ spec named. refused_while_draining s later id g spec still named)

  -- A final report that was given of a generation, on a registry that was reached from a new one, is
  -- given again of it, whatever follows, and nothing is written for it.
  pub report_stays :
      (g : DrainingUser s.VmessAuthKey) (info : UserInfo) (after later : Registry s)
      → finish s r g ≡ some (info, after)
      → Reach s after later
      → finish s later g ≡ some (info, later)
  report_stays g info after later h run = finish_again s later g info (
      Stored-Reach s g.address info (Step-IsValid s (Step.finishes r after g info h) valid) run
        (finish_stores s r g info after h))
