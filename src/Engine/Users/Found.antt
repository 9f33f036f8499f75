-- ===== src/Engine/Users/Found.antt =====
-- Whom the lookups of the protocol handlers find: the enabled users, by the credential they have now.
use mathlib.Core.Option
use mathlib.Core.Path.{subst}
use node_agent_rs.Base.{
  ◌≡◌, ◌↔◌, refl, sym, ◌∙◌, true, not, ◌||◌, Option, none, some, if◌then◌else◌, Text, text_eq,
  text_eq_iff, some-injective, lookup, arith,
}
use node_agent_rs.Engine.Shoes.{Shoes, UserContext}
use node_agent_rs.Engine.Credentials.{ShadowsocksCredential, Entry}
use node_agent_rs.Engine.Indexes.{Index, psk_hash}
use node_agent_rs.Engine.Indexes.Keys.{indexed}
use node_agent_rs.Engine.Indexes.Forms.{Form, index_of}
use node_agent_rs.Engine.Users.{Registry}
use node_agent_rs.Engine.Users.Consistent.{id_of, entry_key}
use node_agent_rs.Engine.Users.Valid.{IsValid}
use node_agent_rs.Engine.Users.Lookups.{
  get_entry, is_enabled, accept, find_by, find_uuid, find_trojan_hash, find_password,
  find_password_sha256, find_naive_basic, find_shadowsocks_psk_hash, ShadowsocksIdentity,
}

module _ (s : Shoes) (r : Registry s) where
  -- The context is that of an enabled user who has the key in the form.
  pub record Holder (f : Form) (key : Text) (context : UserContext) : Type 0 where
    pub id : Text
    pub entry : Entry s.VmessAuthKey
    pub live : lookup id r.users ≡ some entry
    pub has : entry_key f entry ≡ some key
    pub enabled : is_enabled s r entry.context ≡ true
    pub is : entry.context ≡ context

  pub get_entry-indexed : (i : Index s.VmessAuthKey) (k : Text) → get_entry i k ≡ indexed i k
  get_entry-indexed none k = refl
  get_entry-indexed (some m) k = refl

  accept_iff :
      (e : Entry s.VmessAuthKey) (o : Option Text) (k : Text) (context : UserContext)
      → (Option.bind o (λ expected. accept s r e expected k) ≡ some context)
        ↔ ((o ≡ some k) × (is_enabled s r e.context ≡ true) × (e.context ≡ context))
  unfolding Option.bind accept
  accept_iff e none k context = ground arith
  accept_iff e (some expected) k context = ground (arith, text_eq_iff expected k)

  entry_iff :
      (f : Form) (o : Option (Entry s.VmessAuthKey)) (key : Text) (context : UserContext)
      → (Option.bind o (λ e. Option.bind (entry_key f e) (λ expected. accept s r e expected key))
          ≡ some context)
        ↔ ((e : Entry s.VmessAuthKey) × (o ≡ some e)
            × (entry_key f e ≡ some key)
            × (is_enabled s r e.context ≡ true)
            × (e.context ≡ context))
  unfolding Option.bind
  entry_iff f none key context = (λ h. absurd (ground arith), λ h. absurd (ground (arith, h.1)))
  entry_iff f (some e) key context =
      let here = accept_iff e (entry_key f e) key context in
      (
        λ h. let (has, enabled, is) = here.0 h in (e, refl, has, enabled, is),
        λ h.
            let (d, same, has, enabled, at) = h in
            let is : e ≡ d = some-injective same in
            here.1 (
              subst
                (λ x.
                  (entry_key f x ≡ some key)
                  × (is_enabled s r x.context ≡ true)
                  × (x.context ≡ context))
                (sym is) (has, enabled, at)),
      )

  -- What a handler is told of a key, by the form of its credential.
  abbrev pub find : Form → Text → Option UserContext
  find Form.by_uuid key = find_uuid s r key
  find Form.by_trojan_hash key = find_trojan_hash s r key
  find Form.by_password key = find_password s r key
  find Form.by_psk_hash key =
      Option.map (λ (i : ShadowsocksIdentity). i.user) (find_shadowsocks_psk_hash s r key)
  find Form.by_anytls_hash key = find_password_sha256 s r key
  find Form.by_naive_encoded key = find_naive_basic s r key

  psk_entry :
      (o : Option (Entry s.VmessAuthKey)) (hash : Text)
      → Option.map
          (λ (i : ShadowsocksIdentity). i.user)
          (Option.bind o λ entry. Option.bind entry.credentials.shadowsocks λ credential.
            if not (text_eq credential.hash hash) || not (is_enabled s r entry.context)
            then none
            else some (record { user = entry.context; psk = credential.psk }))
        ≡ Option.bind o
            (λ e. Option.bind (psk_hash e.credentials) (λ expected. accept s r e expected hash))
  unfolding Option.bind accept
  psk_entry none hash = refl
  psk_entry (some e) hash = psk_of e e.credentials.shadowsocks
    where
      psk_of :
          (e : Entry s.VmessAuthKey) (o : Option ShadowsocksCredential)
          → Option.map
              (λ (i : ShadowsocksIdentity). i.user)
              (Option.bind o λ credential.
                if not (text_eq credential.hash hash) || not (is_enabled s r e.context)
                then none
                else some (record { user = e.context; psk = credential.psk }))
            ≡ Option.bind
                (Option.map (λ (c : ShadowsocksCredential). c.hash) o)
                (λ expected. accept s r e expected hash)
      psk_of e none = refl
      psk_of e (some credential) = ground arith

  find-find_by :
      (f : Form) (key : Text) → find f key ≡ find_by s r (index_of f r.indexes) (entry_key f) key
  unfolding find_uuid find_trojan_hash find_password find_password_sha256 find_naive_basic
      find_shadowsocks_psk_hash find_by
  find-find_by Form.by_uuid key = refl
  find-find_by Form.by_trojan_hash key = refl
  find-find_by Form.by_password key = refl
  find-find_by Form.by_psk_hash key = psk_entry (get_entry r.indexes.by_psk_hash key) key
  find-find_by Form.by_anytls_hash key = refl
  find-find_by Form.by_naive_encoded key = refl

  module _ (valid : IsValid s r) where
    -- A lookup finds the context of a user exactly if the user is live and enabled and has the key.
    find_by-Holder :
        (f : Form) (key : Text) (context : UserContext)
        → (find_by s r (index_of f r.indexes) (entry_key f) key ≡ some context)
          ↔ Holder f key context
    unfolding find_by
    find_by-Holder f key context =
        let at = entry_iff f (get_entry (index_of f r.indexes) key) key context in
        let same = get_entry-indexed (index_of f r.indexes) key in
        (
          λ h.
              let (e, found, has, enabled, is) = at.0 h in
              record {
                id = id_of e;
                entry = e;
                live = (valid.agree.sound f key e (sym same ∙ found)).1;
                has = has;
                enabled = enabled;
                is = is;
              },
          λ h. at.1 (
            h.entry,
            same ∙ valid.agree.complete f h.id key h.entry h.live h.has,
            h.has,
            h.enabled,
            h.is,
          ),
        )

    pub find_iff :
        (f : Form) (key : Text) (context : UserContext)
        → (find f key ≡ some context) ↔ Holder f key context
    find_iff f key context = rw (find-find_by f key) (find_by-Holder f key context)
