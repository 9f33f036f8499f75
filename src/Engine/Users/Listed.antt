-- ===== src/Engine/Users/Listed.antt =====
-- `from_users` builds what adding the users one by one builds, and does not panic.
use mathlib.Core.Path.{subst}
use node_agent_rs.Base.{
  ◌≡◌, ◌≢◌, refl, sym, ap, ◌∙◌, Bool, true, false, Option, none, some, List, [], ◌∷◌, Text, lookup,
  Result, ok, err, ◌>>=◌, >>=-eq-ok, >>=-eq-err, ok-injective, map_err, refuse_if, inl, inr, arith,
}
use node_agent_rs.Engine.Kinds.{CredentialKinds}
use node_agent_rs.Engine.Shoes.{Shoes}
use node_agent_rs.Engine.Credentials.{
  UserSpec, EngineError, Credentials, Entry, is_some, resolved_id,
}
use node_agent_rs.Engine.Indexes.{Failure, refused, panicked, file_keys}
use node_agent_rs.Engine.Users.{
  Registry, DrainingUser, user_info, id_of_spec, refuse_draining, new_registry, candidates, upsert,
  replace_user, republish_vmess, retire_previous, new_entry, context_of, cell_of, next_cell_after,
  upsert_locked, admit, add_users, from_users, required_id,
}
use node_agent_rs.Engine.Users.Valid.{IsValid}
use node_agent_rs.Engine.Users.Initial.{new_registry-IsValid}
use node_agent_rs.Engine.Users.Runs.{upserts, upsert_cases, Step-IsValid}

same_bind :
    {E A B : Type 0} (m : Result E A) (f g : A → Result E B)
    → ((a : A) → f a ≡ g a)
    → (m >>= f) ≡ (m >>= g)
same_bind (ok a) f g h = h a
same_bind (err e) f g h = refl

-- `upsert` of each user in turn, which publishes the snapshot each time.
abbrev pub upsert_each : (s : Shoes) → Registry s → List UserSpec → Result Failure (Registry s)
upsert_each s r [] = ok r
upsert_each s r (user ∷ users) = do (info, added) ← upsert s r user; upsert_each s added users

-- The snapshot plays no part in `upsert_locked`.
module _ (s : Shoes) where
  abbrev snap : List (Entry s.VmessAuthKey) → Registry s → Registry s
  snap x r = record r { vmess_candidates = x }

  abbrev snapped :
      List (Entry s.VmessAuthKey)
      → Result Failure (Entry s.VmessAuthKey × Registry s)
      → Result Failure (Entry s.VmessAuthKey × Registry s)
  snapped x (ok (e, r)) = ok (e, snap x r)
  snapped x (err e) = err e

  snapped_bind :
      {A : Type 0} (x : List (Entry s.VmessAuthKey)) (m : Result Failure A)
      (f g : A → Result Failure (Entry s.VmessAuthKey × Registry s))
      → ((a : A) → f a ≡ snapped x (g a))
      → (m >>= f) ≡ snapped x (m >>= g)
  snapped_bind x (ok a) f g h = h a
  snapped_bind x (err e) f g h = refl

  context_of-snap :
      (x : List (Entry s.VmessAuthKey)) (r : Registry s) (id : Text)
      (o : Option (Entry s.VmessAuthKey))
      → context_of s (snap x r) id o ≡ context_of s r id o
  unfolding context_of
  context_of-snap x r id none = refl
  context_of-snap x r id (some e) = refl

  cell_of-snap :
      (x : List (Entry s.VmessAuthKey)) (r : Registry s) (o : Option (Entry s.VmessAuthKey))
      → cell_of s (snap x r) o ≡ cell_of s r o
  unfolding cell_of
  cell_of-snap x r none = refl
  cell_of-snap x r (some e) = refl

  next_cell_after-snap :
      (x : List (Entry s.VmessAuthKey)) (r : Registry s) (o : Option (Entry s.VmessAuthKey))
      → next_cell_after s (snap x r) o ≡ next_cell_after s r o
  unfolding next_cell_after
  next_cell_after-snap x r none = refl
  next_cell_after-snap x r (some e) = refl

  replace_user-snap :
      (x : List (Entry s.VmessAuthKey)) (r : Registry s) (id : Text) (spec : UserSpec)
      (c : Credentials)
      → replace_user s (snap x r) id spec c ≡ snapped x (replace_user s r id spec c)
  unfolding replace_user
  replace_user-snap x r id spec c =
      snapped_bind x (retire_previous s (lookup id r.users) c r.indexes) _ _ λ retired.
        rw
          (
            context_of-snap x r id (lookup id r.users),
            cell_of-snap x r (lookup id r.users),
            next_cell_after-snap x r (lookup id r.users),
          )
          (snapped_bind x
            (file_keys s (new_entry s (context_of s r id (lookup id r.users)) c) retired) _ _
            λ filed. refl)

  refuse_draining-snap :
      (x : List (Entry s.VmessAuthKey)) (r : Registry s) (id : Text)
      (o : Option (DrainingUser s.VmessAuthKey))
      → refuse_draining s (snap x r) id o ≡ refuse_draining s r id o
  unfolding refuse_draining
  refuse_draining-snap x r id none = refl
  refuse_draining-snap x r id (some g) = refl

  admit-snap :
      (x : List (Entry s.VmessAuthKey)) (r : Registry s) (spec : UserSpec)
      → admit s (snap x r) spec ≡ admit s r spec
  unfolding admit
  admit-snap x r spec =
      same_bind (id_of_spec (resolved_id spec)) _ _
        λ id. rw (refuse_draining-snap x r id (lookup id r.draining)) refl

  upsert_locked-snap :
      (x : List (Entry s.VmessAuthKey)) (r : Registry s) (spec : UserSpec)
      → upsert_locked s (snap x r) spec ≡ snapped x (upsert_locked s r spec)
  unfolding upsert_locked
  upsert_locked-snap x r spec = rw (admit-snap x r spec) (
      snapped_bind x (map_err refused (admit s r spec)) _ _ λ p. replace_user-snap x r p.0 spec p.1)

  upsert-republish :
      (r added : Registry s) (spec : UserSpec) (e : Entry s.VmessAuthKey)
      → upsert_locked s r spec ≡ ok (e, added)
      → upsert s (republish_vmess s r) spec
        ≡ ok (user_info s (republish_vmess s added) e.context, republish_vmess s added)
  unfolding upsert republish_vmess
  upsert-republish r added spec e h =
      let at : upsert_locked s (snap (candidates s r.users) r) spec
          ≡ ok (e, snap (candidates s r.users) added) =
        upsert_locked-snap (candidates s r.users) r spec ∙ ap (snapped (candidates s r.users)) h in
      rw at refl

  upsert-republish_panic :
      (r : Registry s) (spec : UserSpec)
      → upsert_locked s r spec ≡ err panicked
      → upsert s (republish_vmess s r) spec ≡ err panicked
  unfolding upsert republish_vmess
  upsert-republish_panic r spec h =
      let at : upsert_locked s (snap (candidates s r.users) r) spec ≡ err panicked =
        upsert_locked-snap (candidates s r.users) r spec ∙ ap (snapped (candidates s r.users)) h in
      rw at refl

  add_users-upsert_each :
      (users : List UserSpec) (r after : Registry s)
      → add_users s r users ≡ ok after
      → upsert_each s (republish_vmess s r) users ≡ ok (republish_vmess s after)
  unfolding add_users
  add_users-upsert_each [] r after h = ap (λ x. ok (republish_vmess s x)) (ok-injective h)
  add_users-upsert_each (user ∷ users) r after h =
      let (id, named, h1) = >>=-eq-ok (required_id (resolved_id user)) _ h in
      let (u, fresh, h2) = >>=-eq-ok (refuse_if (is_some (lookup id r.users)) _) _ h1 in
      let ((e, added), locked, rest) = >>=-eq-ok (upsert_locked s r user) _ h2 in
      rw (upsert-republish r added user e locked) (add_users-upsert_each users added after rest)

  required_id_refuses : (o : Option Text) → required_id o ≢ err panicked
  required_id_refuses none h = ground arith
  required_id_refuses (some id) h = ground arith

  refuse_if_refuses : (b : Bool) (e : EngineError) → refuse_if b (refused e) ≢ err panicked
  refuse_if_refuses true e h = ground arith
  refuse_if_refuses false e h = ground arith

  add_users_never_panics :
      (users : List UserSpec) (r : Registry s)
      → IsValid s (republish_vmess s r)
      → add_users s r users ≢ err panicked
  unfolding add_users
  add_users_never_panics [] r valid h = ground arith
  add_users_never_panics (user ∷ users) r valid h =
      elim (>>=-eq-err (required_id (resolved_id user)) _ h) [
        | inl unnamed ↦ required_id_refuses (resolved_id user) unnamed
        | inr (id, named, h1) ↦ elim (>>=-eq-err (refuse_if (is_some (lookup id r.users)) _) _ h1) [
          | inl twice ↦ refuse_if_refuses (is_some (lookup id r.users)) _ twice
          | inr (u, fresh, h2) ↦ elim (>>=-eq-err (upsert_locked s r user) _ h2) [
            | inl panics ↦ elim (upsert_cases s (republish_vmess s r) valid user) [
              | inl (error, refusal, answer) ↦
                  absurd (ground (arith, upsert-republish_panic r user panics))
              | inr (i, c, filed, admitted, answer, valid') ↦
                  absurd (ground (arith, upsert-republish_panic r user panics))
            ]
            | inr ((e, added), locked, h3) ↦
                add_users_never_panics users added
                  (Step-IsValid s
                    (upserts (republish_vmess s r) (republish_vmess s added) user _
                      (upsert-republish r added user e locked))
                    valid)
                  h3
          ]
        ]
      ]

  republish-new :
      (kinds : CredentialKinds) → republish_vmess s (new_registry s kinds) ≡ new_registry s kinds
  unfolding republish_vmess new_registry candidates
  republish-new kinds = refl

  -- If `from_users` succeeds, it gives the registry that adding the users one by one to a new one
  -- gives; and it does not panic.
  pub from_users-upsert_each :
      (kinds : CredentialKinds) (users : List UserSpec)
      → ((r : Registry s)
          → from_users s kinds users ≡ ok r
          → upsert_each s (new_registry s kinds) users ≡ ok r)
        × (from_users s kinds users ≢ err panicked)
  unfolding from_users
  from_users-upsert_each kinds users = (
    λ r h.
        let (after, added, published) = >>=-eq-ok (add_users s (new_registry s kinds) users) _ h in
        subst (λ x. upsert_each s x users ≡ ok r) (republish-new kinds)
          (add_users-upsert_each users (new_registry s kinds) after added ∙ published),
    λ h. elim (>>=-eq-err (add_users s (new_registry s kinds) users) _ h) [
      | inl panics ↦
          add_users_never_panics users (new_registry s kinds)
            (subst (IsValid s) (sym (republish-new kinds)) (new_registry-IsValid s kinds)) panics
      | inr (after, added, published) ↦ absurd (ground arith)
    ],
  )
