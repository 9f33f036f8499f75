-- ===== src/Engine/Users/Sealers.antt =====
-- Whom the VMess walk finds: a live and enabled user whose key opens the auth id, if there is any.
use mathlib.Core.Option
use mathlib.Core.Path.{subst}
use node_agent_rs.Base.{
  ℕ, ◌≡◌, ◌≢◌, refl, sym, ap, ◌∙◌, true, not, none, some, List, [], ◌∷◌, if◌then◌else◌, Text,
  text_eq, text_eq_iff, lookup, Option-cases, Bool-cases, some-injective, inl, inr, arith,
}
use node_agent_rs.Engine.Kinds.{CredentialKinds}
use node_agent_rs.Engine.Shoes.{Shoes}
use node_agent_rs.Engine.Credentials.{Entry, is_some}
use node_agent_rs.Engine.Users.{Registry, candidates, new_registry}
use node_agent_rs.Engine.Users.Consistent.{HasDistinctKeys}
use node_agent_rs.Engine.Users.Initial.{new_registry-IsValid}
use node_agent_rs.Engine.Users.Runs.{Reach, Reach-IsValid}
use node_agent_rs.Engine.Users.Lookups.{
  VmessIdentity, is_enabled, accept_vmess, first_vmess, find_vmess_auth_id,
}

lookup_later :
    {V : Type 0} (k i : Text) (v w : V) (m : List (Text × V))
    → lookup k m ≡ none
    → lookup i m ≡ some w
    → lookup i ((k, v) ∷ m) ≡ some w
unfolding lookup
lookup_later k i v w m fresh at = ground (arith, text_eq_iff k i)

module _ (s : Shoes) (r : Registry s) where
  -- The key of the entry opens the auth id, and the identity is what the handshake needs of it.
  pub record Sealed (entry : Entry s.VmessAuthKey) (auth_id : Text) (identity : VmessIdentity)
      : Type 0 where
    pub key : s.VmessAuthKey
    pub has : entry.vmess ≡ some key
    pub opens : s.open_auth_id key auth_id ≡ some identity.timestamp
    pub enabled : is_enabled s r entry.context ≡ true
    pub user : entry.context ≡ identity.user
    pub instruction : s.instruction_key key ≡ identity.instruction_key

  -- The identity is that of a live user who sealed the auth id.
  pub record Sealer (auth_id : Text) (identity : VmessIdentity) : Type 0 where
    pub id : Text
    pub entry : Entry s.VmessAuthKey
    pub live : lookup id r.users ≡ some entry
    pub sealed : Sealed entry auth_id identity

  accept_open :
      (e : Entry s.VmessAuthKey) (auth_id : Text) (key : s.VmessAuthKey) (timestamp : ℕ)
      → e.vmess ≡ some key
      → s.open_auth_id key auth_id ≡ some timestamp
      → accept_vmess s r e auth_id ≡ (
          if not (is_enabled s r e.context)
          then none
          else some (record {
            user = e.context;
            instruction_key = s.instruction_key key;
            timestamp = timestamp;
          }))
  unfolding accept_vmess Option.bind
  accept_open e auth_id key timestamp has opens = rw has (rw opens refl)

  accept_vmess-Sealed :
      (e : Entry s.VmessAuthKey) (auth_id : Text) (identity : VmessIdentity)
      → accept_vmess s r e auth_id ≡ some identity
      → Sealed e auth_id identity
  unfolding accept_vmess Option.bind
  accept_vmess-Sealed e auth_id identity h = elim (Option-cases e.vmess) [
    | inl unkeyed ↦ absurd (ground arith)
    | inr (key, has) ↦ elim (Option-cases (s.open_auth_id key auth_id)) [
      | inl closed ↦ absurd (ground arith)
      | inr (timestamp, opens) ↦
          let answer = accept_open e auth_id key timestamp has opens in
          elim (Bool-cases (is_enabled s r e.context)) [
            | inl on ↦
                let same = some-injective (sym (answer ∙ rw on refl) ∙ h) in
                record {
                  key = key;
                  has = has;
                  opens = opens ∙ ap (λ (i : VmessIdentity). some i.timestamp) same;
                  enabled = on;
                  user = ap (λ (i : VmessIdentity). i.user) same;
                  instruction = ap (λ (i : VmessIdentity). i.instruction_key) same;
                }
            | inr off ↦ absurd (ground arith)
          ]
    ]
  ]

  Sealed-accept_vmess :
      (e : Entry s.VmessAuthKey) (auth_id : Text) (identity : VmessIdentity)
      → Sealed e auth_id identity
      → accept_vmess s r e auth_id ≢ none
  unfolding accept_vmess Option.bind
  Sealed-accept_vmess e auth_id identity h at =
      ground (arith, accept_open e auth_id h.key identity.timestamp h.has h.opens)

  accept_unkeyed :
      (e : Entry s.VmessAuthKey) (auth_id : Text)
      → e.vmess ≡ none
      → accept_vmess s r e auth_id ≡ none
  unfolding accept_vmess Option.bind
  accept_unkeyed e auth_id unkeyed = rw unkeyed refl

  candidates_keyed :
      (id : Text) (e : Entry s.VmessAuthKey) (users : List (Text × Entry s.VmessAuthKey))
      → is_some e.vmess ≡ true
      → candidates s ((id, e) ∷ users) ≡ e ∷ candidates s users
  unfolding candidates
  candidates_keyed id e users keyed = rw keyed refl

  -- The walk asks the first user of the map, and then the others.
  first_vmess-some :
      (id : Text) (e : Entry s.VmessAuthKey) (users : List (Text × Entry s.VmessAuthKey))
      (auth_id : Text) (identity : VmessIdentity)
      → accept_vmess s r e auth_id ≡ some identity
      → first_vmess s r (candidates s ((id, e) ∷ users)) auth_id ≡ some identity
  unfolding first_vmess
  first_vmess-some id e users auth_id identity h = elim (Option-cases e.vmess) [
    | inl unkeyed ↦ absurd (ground (arith, accept_unkeyed e auth_id unkeyed))
    | inr (key, has) ↦ rw (candidates_keyed id e users (ap is_some has)) (rw (first_vmess, h) refl)
  ]

  first_vmess-none :
      (id : Text) (e : Entry s.VmessAuthKey) (users : List (Text × Entry s.VmessAuthKey))
      (auth_id : Text)
      → accept_vmess s r e auth_id ≡ none
      → first_vmess s r (candidates s ((id, e) ∷ users)) auth_id
        ≡ first_vmess s r (candidates s users) auth_id
  unfolding first_vmess candidates
  first_vmess-none id e users auth_id h = elim (Option-cases e.vmess) [
    | inl unkeyed ↦ rw unkeyed refl
    | inr (key, has) ↦ rw (candidates_keyed id e users (ap is_some has)) (rw (first_vmess, h) refl)
  ]

  -- The first user of the map whose key opens the auth id is found.
  first_vmess-Sealed :
      (users : List (Text × Entry s.VmessAuthKey)) (auth_id : Text) (identity : VmessIdentity)
      → HasDistinctKeys users
      → first_vmess s r (candidates s users) auth_id ≡ some identity
      → (id : Text) × (e : Entry s.VmessAuthKey) × (lookup id users ≡ some e)
        × Sealed e auth_id identity
  unfolding lookup first_vmess candidates
  first_vmess-Sealed [] auth_id identity distinct h = absurd (ground arith)
  first_vmess-Sealed ((j, d) ∷ users) auth_id identity (fresh, distinct) h =
      elim (Option-cases (accept_vmess s r d auth_id)) [
        | inr (first, accepted) ↦
            let same : first ≡ identity =
              some-injective (sym (first_vmess-some j d users auth_id first accepted) ∙ h) in
            (
              j,
              d,
              ground (arith, text_eq_iff j j),
              accept_vmess-Sealed d auth_id identity (accepted ∙ ap some same),
            )
        | inl passed ↦
            let (id, e, at, sealed) =
              first_vmess-Sealed users auth_id identity distinct
                (sym (first_vmess-none j d users auth_id passed) ∙ h) in
            (id, e, lookup_later j id d e users fresh at, sealed)
      ]

  -- A walk that finds nobody has passed every user.
  first_vmess_passed :
      (users : List (Text × Entry s.VmessAuthKey)) (auth_id : Text)
      → first_vmess s r (candidates s users) auth_id ≡ none
      → (id : Text) (e : Entry s.VmessAuthKey) → lookup id users ≡ some e
      → accept_vmess s r e auth_id ≡ none
  unfolding lookup
  first_vmess_passed [] auth_id h id e at = absurd (ground arith)
  first_vmess_passed ((j, d) ∷ users) auth_id h id e at =
      elim (Option-cases (accept_vmess s r d auth_id)) [
        | inr (first, accepted) ↦
            absurd (ground (arith, first_vmess-some j d users auth_id first accepted))
        | inl passed ↦ elim (Bool-cases (text_eq j id)) [
          | inl same ↦ subst (λ x. accept_vmess s r x auth_id ≡ none) (ground arith) passed
          | inr differs ↦
              first_vmess_passed users auth_id (sym (first_vmess-none j d users auth_id passed) ∙ h)
                id e (ground arith)
        ]
      ]

module _ (s : Shoes) (kinds : CredentialKinds) (r : Registry s)
    (reached : Reach s (new_registry s kinds) r) where
  -- On a registry that was reached from a new one, `find_vmess_auth_id` answers only identities of
  -- live and enabled users whose key opens the auth id, and finds one if there is such a user.
  pub find_vmess_auth_id-Sealer :
      (auth_id : Text)
      → ((identity : VmessIdentity)
          → find_vmess_auth_id s r auth_id ≡ some identity
          → Sealer s r auth_id identity)
        × (find_vmess_auth_id s r auth_id ≡ none
            → (identity : VmessIdentity) → ¬ Sealer s r auth_id identity)
  unfolding find_vmess_auth_id
  find_vmess_auth_id-Sealer auth_id =
      let valid = Reach-IsValid s (new_registry-IsValid s kinds) reached in
      let walk = ap (λ entries. first_vmess s r entries auth_id) valid.snapshot in
      (
        λ identity found.
            let (id, e, live, sealed) =
              first_vmess-Sealed s r r.users auth_id identity valid.agree.distinct
                (sym walk ∙ found) in
            record { id = id; entry = e; live = live; sealed = sealed },
        λ nobody identity h.
            Sealed-accept_vmess s r h.entry auth_id identity h.sealed
              (first_vmess_passed s r r.users auth_id (sym walk ∙ nobody) h.id h.entry h.live),
      )
