-- ===== src/Engine/Users/Lookups.antt =====
-- crates/shoes-engine/src/users.rs: what the protocol handlers ask, `UserRegistry`. A comparison in
-- constant time is an equality.
use mathlib.Core.Option
use node_agent_rs.Base.{
  ℕ, Bool, false, not, ◌||◌, Option, none, some, List, [], ◌∷◌, if◌then◌else◌, Text, text_eq,
  lookup,
}
use node_agent_rs.Engine.Shoes.{Shoes, UserContext}
use node_agent_rs.Engine.Credentials.{Entry, is_some}
use node_agent_rs.Engine.Indexes.{Index}
use node_agent_rs.Engine.Users.{Registry}

pub record ShadowsocksIdentity : Type 0 where
  pub user : UserContext
  pub psk : Text

pub record TuicIdentity : Type 0 where
  pub user : UserContext
  pub password : Text

pub record VmessIdentity : Type 0 where
  pub user : UserContext
  pub instruction_key : Text
  pub timestamp : ℕ

module _ {K : Type 0} where
  -- `self.by_*.as_ref()?.get(key)?`
  abbrev pub get_entry : Index K → Text → Option (Entry K)
  get_entry none key = none
  get_entry (some m) key = lookup key m

abbrev pub contains_prefix : Option (List (Text × ℕ)) → Text → Bool
contains_prefix none prefix = false
contains_prefix (some m) prefix = is_some (lookup prefix m)

module _ (s : Shoes) where
  unfoldable pub is_enabled : Registry s → UserContext → Bool
  is_enabled r context = (s.stats (r.heap context.address)).enabled

  -- `Entry::accept`
  unfoldable pub accept : Registry s → Entry s.VmessAuthKey → Text → Text → Option UserContext
  accept r entry expected presented =
      if not (text_eq expected presented) || not (is_enabled r entry.context)
      then none
      else some entry.context

  -- `find_uuid`, with the field of its index.
  unfoldable pub find_by :
      Registry s
      → Index s.VmessAuthKey
      → (Entry s.VmessAuthKey → Option Text)
      → Text
      → Option UserContext
  find_by r index field key =
      Option.bind (get_entry index key)
        λ entry. Option.bind (field entry) λ expected. accept r entry expected key

  unfoldable pub find_uuid : Registry s → Text → Option UserContext
  unfolding find_by
  find_uuid r = find_by r r.indexes.by_uuid (λ entry. entry.credentials.uuid)

  unfoldable pub find_trojan_hash : Registry s → Text → Option UserContext
  unfolding find_by
  find_trojan_hash r = find_by r r.indexes.by_trojan_hash (λ entry. entry.credentials.trojan_hash)

  unfoldable pub find_password : Registry s → Text → Option UserContext
  unfolding find_by
  find_password r = find_by r r.indexes.by_password (λ entry. entry.credentials.password)

  unfoldable pub find_password_sha256 : Registry s → Text → Option UserContext
  unfolding find_by
  find_password_sha256 r =
      find_by r r.indexes.by_anytls_hash (λ entry. entry.credentials.anytls_hash)

  unfoldable pub find_naive_basic : Registry s → Text → Option UserContext
  unfolding find_by
  find_naive_basic r =
      find_by r r.indexes.by_naive_encoded (λ entry. entry.credentials.naive_encoded)

  unfoldable pub find_shadowsocks_psk_hash : Registry s → Text → Option ShadowsocksIdentity
  find_shadowsocks_psk_hash r hash = Option.bind (get_entry r.indexes.by_psk_hash hash) λ entry.
      Option.bind entry.credentials.shadowsocks λ credential.
        if not (text_eq credential.hash hash) || not (is_enabled r entry.context)
        then none
        else some (record { user = entry.context; psk = credential.psk })

  unfoldable pub find_tuic_uuid : Registry s → Text → Option TuicIdentity
  find_tuic_uuid r uuid = Option.bind (get_entry r.indexes.by_uuid uuid) λ entry.
      Option.bind entry.credentials.tuic_password λ password.
        Option.bind entry.credentials.uuid λ expected.
          if not (text_eq expected uuid) || not (is_enabled r entry.context)
          then none
          else some (record { user = entry.context; password = password })

  -- `Entry::accept_vmess`
  unfoldable pub accept_vmess : Registry s → Entry s.VmessAuthKey → Text → Option VmessIdentity
  accept_vmess r entry auth_id = Option.bind entry.vmess λ key.
      Option.bind (s.open_auth_id key auth_id) λ timestamp.
        if not (is_enabled r entry.context)
        then none
        else some (record {
          user = entry.context;
          instruction_key = s.instruction_key key;
          timestamp = timestamp;
        })

  -- `iter().find_map`
  unfoldable pub first_vmess :
      Registry s → List (Entry s.VmessAuthKey) → Text → Option VmessIdentity
  unfolding accept_vmess
  first_vmess r [] auth_id = none
  first_vmess r (entry ∷ entries) auth_id = elim (accept_vmess r entry auth_id) [
    | some identity ↦ some identity
    | none ↦ first_vmess r entries auth_id
  ]

  unfoldable pub find_vmess_auth_id : Registry s → Text → Option VmessIdentity
  unfolding first_vmess
  find_vmess_auth_id r = first_vmess r r.vmess_candidates

  unfoldable pub has_password_sha256_prefix : Registry s → Text → Bool
  has_password_sha256_prefix r = contains_prefix r.indexes.anytls_prefixes
