-- ===== src/Engine/Users/Identities.antt =====
-- What the lookups of TUIC and of Shadowsocks hand out: the user, and the secret of their session.
use mathlib.Core.Option
use node_agent_rs.Base.{
  ◌≡◌, ◌↔◌, Bool, refl, sym, ap, ◌∙◌, true, false, not, ◌||◌, Option, none, some, if◌then◌else◌,
  Text, text_eq, text_eq_iff, lookup, some-injective, arith,
}
use node_agent_rs.Engine.Kinds.{CredentialKinds}
use node_agent_rs.Engine.Shoes.{Shoes}
use node_agent_rs.Engine.Credentials.{ShadowsocksCredential, Entry}
use node_agent_rs.Engine.Indexes.Forms.{Form, index_of}
use node_agent_rs.Engine.Users.{Registry, new_registry}
use node_agent_rs.Engine.Users.Consistent.{id_of, entry_key}
use node_agent_rs.Engine.Users.Initial.{new_registry-IsValid}
use node_agent_rs.Engine.Users.Runs.{Reach, Reach-IsValid}
use node_agent_rs.Engine.Users.Found.{get_entry-indexed}
use node_agent_rs.Engine.Users.Lookups.{
  get_entry, is_enabled, TuicIdentity, ShadowsocksIdentity, find_tuic_uuid,
  find_shadowsocks_psk_hash,
}

bind_iff :
    {A B : Type 0} (o : Option A) (f : A → Option B) (b : B)
    → (Option.bind o f ≡ some b) ↔ ((a : A) × (o ≡ some a) × (f a ≡ some b))
unfolding Option.bind
bind_iff none f b = (λ h. absurd (ground arith), λ h. absurd (ground (arith, h.1)))
bind_iff (some a) f b = (λ h. (a, refl, h), λ h. ap f (some-injective h.1) ∙ h.2)

guard_iff :
    {B : Type 0} (known enabled : Bool) (x b : B)
    → ((if not known || not enabled then none else some x) ≡ some b)
      ↔ ((known ≡ true) × (enabled ≡ true) × (x ≡ b))
guard_iff true true x b = (λ h. (refl, refl, some-injective h), λ h. ap some h.2)
guard_iff true false x b = (λ h. absurd (ground arith), λ h. absurd (ground (arith, h.1)))
guard_iff false enabled x b = (λ h. absurd (ground arith), λ h. absurd (ground (arith, h.0)))

module _ (s : Shoes) (r : Registry s) where
  -- The entry has the uuid and the password of the identity, and is enabled.
  pub record IsTuic (uuid : Text) (identity : TuicIdentity) (entry : Entry s.VmessAuthKey)
      : Type 0 where
    pub has : entry.credentials.uuid ≡ some uuid
    pub password : entry.credentials.tuic_password ≡ some identity.password
    pub enabled : is_enabled s r entry.context ≡ true
    pub user : entry.context ≡ identity.user

  -- The entry has a pre-shared key of the hash, that of the identity, and is enabled.
  pub record IsShadowsocks (hash : Text) (identity : ShadowsocksIdentity)
      (entry : Entry s.VmessAuthKey) : Type 0 where
    pub has : entry.credentials.shadowsocks ≡ some (record { psk = identity.psk; hash = hash })
    pub enabled : is_enabled s r entry.context ≡ true
    pub user : entry.context ≡ identity.user

  -- Some live user is as the predicate says.
  abbrev pub Live : (Entry s.VmessAuthKey → Type 0) → Type 0
  Live P = (id : Text) × (e : Entry s.VmessAuthKey) × (lookup id r.users ≡ some e) × P e

  IsTuic-iff :
      (uuid : Text) (identity : TuicIdentity) (e : Entry s.VmessAuthKey)
      → (Option.bind e.credentials.tuic_password (λ password.
            Option.bind e.credentials.uuid λ expected.
              if not (text_eq expected uuid) || not (is_enabled s r e.context)
              then none
              else some (record { user = e.context; password = password }))
          ≡ some identity)
        ↔ IsTuic uuid identity e
  IsTuic-iff uuid identity e = (
    λ h.
        let (password, has_password, rest) =
          (bind_iff e.credentials.tuic_password _ identity).0 h in
        let (expected, has, passes) = (bind_iff e.credentials.uuid _ identity).0 rest in
        let (known, enabled, is) = (guard_iff _ _ _ identity).0 passes in
        record {
          has = has ∙ ap some ((text_eq_iff expected uuid).0 known);
          password = has_password ∙ ap (λ (i : TuicIdentity). some i.password) is;
          enabled = enabled;
          user = ap (λ (i : TuicIdentity). i.user) is;
        },
    λ h. (bind_iff e.credentials.tuic_password _ identity).1 (
      identity.password,
      h.password,
      (bind_iff e.credentials.uuid _ identity).1 (
        uuid,
        h.has,
        (guard_iff _ _ _ identity).1 (
          (text_eq_iff uuid uuid).1 refl,
          h.enabled,
          ap (λ c. record { user = c; password = identity.password }) h.user,
        ),
      ),
    ),
  )

  IsShadowsocks-iff :
      (hash : Text) (identity : ShadowsocksIdentity) (e : Entry s.VmessAuthKey)
      → (Option.bind e.credentials.shadowsocks (λ credential.
            if not (text_eq credential.hash hash) || not (is_enabled s r e.context)
            then none
            else some (record { user = e.context; psk = credential.psk }))
          ≡ some identity)
        ↔ IsShadowsocks hash identity e
  IsShadowsocks-iff hash identity e = (
    λ h.
        let (credential, has, passes) = (bind_iff e.credentials.shadowsocks _ identity).0 h in
        let (known, enabled, is) = (guard_iff _ _ _ identity).0 passes in
        record {
          has =
              has
              ∙ ap some (
                  own credential ((text_eq_iff credential.hash hash).0 known)
                    (ap (λ (i : ShadowsocksIdentity). i.psk) is));
          enabled = enabled;
          user = ap (λ (i : ShadowsocksIdentity). i.user) is;
        },
    λ h. (bind_iff e.credentials.shadowsocks _ identity).1 (
      record { psk = identity.psk; hash = hash },
      h.has,
      (guard_iff _ _ _ identity).1 (
        (text_eq_iff hash hash).1 refl,
        h.enabled,
        ap (λ c. record { user = c; psk = identity.psk }) h.user,
      ),
    ),
  )
    where
      own :
          (c : ShadowsocksCredential)
          → c.hash ≡ hash
          → c.psk ≡ identity.psk
          → c ≡ record { psk = identity.psk; hash = hash }
      own c same_hash same_psk = λ i. record { psk = same_psk i; hash = same_hash i }

module _ (s : Shoes) (kinds : CredentialKinds) (r : Registry s)
    (reached : Reach s (new_registry s kinds) r) where
  -- A lookup through an index answers for the live user who has the key.
  by_index :
      {I : Type 0} (f : Form) (key : Text) (P : Entry s.VmessAuthKey → Type 0)
      (answer : Entry s.VmessAuthKey → Option I) (identity : I)
      → ((e : Entry s.VmessAuthKey) → (answer e ≡ some identity) ↔ P e)
      → ((e : Entry s.VmessAuthKey) → P e → entry_key f e ≡ some key)
      → (Option.bind (get_entry (index_of f r.indexes) key) answer ≡ some identity) ↔ Live s r P
  by_index f key P answer identity answers keyed =
      let agree = (Reach-IsValid s (new_registry-IsValid s kinds) reached).agree in
      let same = get_entry-indexed s r (index_of f r.indexes) key in
      let at = bind_iff (get_entry (index_of f r.indexes) key) answer identity in
      (
        λ h.
            let (e, found, answered) = at.0 h in
            (id_of e, e, (agree.sound f key e (sym same ∙ found)).1, (answers e).0 answered),
        λ h.
            let (id, e, live, is) = h in
            at.1 (e, same ∙ agree.complete f id key e live (keyed e is), (answers e).1 is),
      )

  -- On a registry that was reached from a new one, `find_tuic_uuid` and `find_shadowsocks_psk_hash`
  -- answer an identity exactly if some live and enabled user has the credential asked for, and the
  -- identity is that user's record with the password or the key that they have now.
  pub find_identity_iff :
      (key : Text)
      → ((identity : TuicIdentity)
          → (find_tuic_uuid s r key ≡ some identity) ↔ Live s r (IsTuic s r key identity))
        × ((identity : ShadowsocksIdentity)
            → (find_shadowsocks_psk_hash s r key ≡ some identity)
              ↔ Live s r (IsShadowsocks s r key identity))
  unfolding find_tuic_uuid find_shadowsocks_psk_hash
  find_identity_iff key = (
    λ identity.
        by_index Form.by_uuid key (IsTuic s r key identity) _ identity (IsTuic-iff s r key identity)
          λ e is. is.has,
    λ identity.
        by_index Form.by_psk_hash key (IsShadowsocks s r key identity) _ identity
          (IsShadowsocks-iff s r key identity)
          λ e is. ap (Option.map λ (c : ShadowsocksCredential). c.hash) is.has,
  )
