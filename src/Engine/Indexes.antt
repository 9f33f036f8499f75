-- ===== src/Engine/Indexes.antt =====
-- crates/shoes-engine/src/users.rs: the protocol indexes of `MemoryUserRegistry`. An index is
-- allocated for the registry's kinds only, and using one that is not is a panic. A DashMap is the
-- list of its entries.
pub mod Owned
pub mod Keys
pub mod Prefixes
pub mod Forms
use mathlib.Core.Option
use node_agent_rs.Base.{
  ℕ, ◌+◌, ◌-◌, Bool, true, false, Option, none, some, List, [], ◌∷◌, ◌==◌, if◌then◌else◌, Text,
  text_eq, lookup, insert, remove, Result, ok, err, ◌>>=◌, ◌>>◌, refuse_if, not, ◌&&◌,
}
use node_agent_rs.Engine.Kinds.{CredentialKinds, is_len}
use node_agent_rs.Engine.Shoes.{Shoes}
use node_agent_rs.Engine.Credentials.{
  EngineError, duplicate_credential, ShadowsocksCredential, Credentials, Entry, is_some,
}

-- A refusal is a value that the code returns; a panic is not.
pub data Failure : Type 0 where
  refused : EngineError → Failure
  panicked : Failure

abbrev pub Index : Type 0 → Type 0
Index K = Option (List (Text × Entry K))

-- `expect`
abbrev pub expect {ℓ} : {A : Type ℓ} → Option A → Result Failure A
expect none = err panicked
expect (some a) = ok a

abbrev pub psk_hash : Credentials → Option Text
psk_hash c = Option.map (λ (shadowsocks : ShadowsocksCredential). shadowsocks.hash) c.shadowsocks

unfoldable pub opt_eq : Option Text → Option Text → Bool
opt_eq none none = true
opt_eq none (some b) = false
opt_eq (some a) none = false
opt_eq (some a) (some b) = text_eq a b

-- The user that the index has under the key, `credential_owner_*`.
unfoldable pub owner : {K : Type 0} → Index K → Text → Option Text
owner none key = none
owner (some m) key = Option.map (λ (entry : Entry _). entry.context.id) (lookup key m)

-- One guard of `check_credentials_unclaimed`.
unfoldable pub claimed_by_other : {K : Type 0} → Text → Index K → Option Text → Option Text
claimed_by_other id index none = none
claimed_by_other id index (some key) = elim (owner index key) [
  | none ↦ none
  | some owner ↦ if text_eq owner id then none else some owner
]

unfoldable pub refuse_claimed :
    {K : Type 0} → Text → Index K → Option Text → Result EngineError (Unit {0})
refuse_claimed id index key = elim (claimed_by_other id index key) [
  | none ↦ ok tt
  | some owner ↦ err (duplicate_credential id owner)
]

-- Drops a key that the user has.
unfoldable pub drop_key : {K : Type 0} → Option Text → Index K → Result Failure (Index K)
drop_key none index = ok index
drop_key (some key) index = do m ← expect index; ok (some (remove key m))

-- Drops a key that the user no longer presents.
unfoldable pub retire_key :
    {K : Type 0} → Option Text → Option Text → Index K → Result Failure (Index K)
unfolding opt_eq drop_key
retire_key previous key index = if opt_eq previous key then ok index else drop_key previous index

unfoldable pub file_key : {K : Type 0} → Option Text → Entry K → Index K → Result Failure (Index K)
file_key none entry index = ok index
file_key (some key) entry index = do m ← expect index; ok (some (insert key entry m))

pub record Indexes (K : Type 0) : Type 0 where
  pub by_uuid : Index K
  pub by_trojan_hash : Index K
  pub by_password : Index K
  pub by_psk_hash : Index K
  pub by_anytls_hash : Index K
  pub by_naive_encoded : Index K
  pub anytls_prefixes : Option (List (Text × ℕ))

-- `bool::then`
abbrev pub allocate : {A : Type 0} → Bool → Option (List A)
allocate true = some []
allocate false = none

-- The indexes of `new`.
unfoldable pub new_indexes : {K : Type 0} → CredentialKinds → Indexes K
new_indexes kinds = record {
  by_uuid = allocate kinds.uuid;
  by_trojan_hash = allocate kinds.trojan_password;
  by_password = allocate kinds.plain_password;
  by_psk_hash = allocate (is_len kinds.shadowsocks_psk);
  by_anytls_hash = allocate kinds.anytls_password;
  by_naive_encoded = allocate kinds.naive_basic;
  anytls_prefixes = allocate kinds.anytls_password;
}

abbrev pub count_of : Option ℕ → ℕ
count_of none = 0
count_of (some n) = n

-- `*map.entry(prefix).or_insert(0) += 1`
unfoldable pub claim : Text → List (Text × ℕ) → List (Text × ℕ)
claim prefix m = insert prefix (count_of (lookup prefix m) + 1) m

-- The occupied entry: `saturating_sub(1)`, removed at zero.
unfoldable pub lower : Text → ℕ → List (Text × ℕ) → List (Text × ℕ)
lower prefix count m = if count - 1 == 0 then remove prefix m else insert prefix (count - 1) m

unfoldable pub release : Text → List (Text × ℕ) → List (Text × ℕ)
unfolding lower
release prefix m = elim (lookup prefix m) [ none ↦ m | some count ↦ lower prefix count m ]

unfoldable pub check_credentials_unclaimed :
    {K : Type 0} → Indexes K → Text → Credentials → Result EngineError (Unit {0})
check_credentials_unclaimed ix id credentials = do
  refuse_claimed id ix.by_uuid credentials.uuid
  refuse_claimed id ix.by_trojan_hash credentials.trojan_hash
  refuse_claimed id ix.by_password credentials.password
  refuse_claimed id ix.by_psk_hash (psk_hash credentials)
  refuse_claimed id ix.by_anytls_hash credentials.anytls_hash
  refuse_claimed id ix.by_naive_encoded credentials.naive_encoded

module _ (s : Shoes) where
  unfoldable pub claim_anytls_prefix :
      Text → Option (List (Text × ℕ)) → Result Failure (Option (List (Text × ℕ)))
  claim_anytls_prefix hash prefixes = do
    m ← expect prefixes
    ok (some (claim (s.password_sha256_prefix hash) m))

  unfoldable pub release_anytls_prefix :
      Text → Option (List (Text × ℕ)) → Result Failure (Option (List (Text × ℕ)))
  release_anytls_prefix hash prefixes = do
    m ← expect prefixes
    ok (some (release (s.password_sha256_prefix hash) m))

  -- The prefix of a hash that was dropped.
  unfoldable pub release_dropped :
      Option Text → Option (List (Text × ℕ)) → Result Failure (Option (List (Text × ℕ)))
  release_dropped none prefixes = ok prefixes
  release_dropped (some hash) prefixes = release_anytls_prefix hash prefixes

  -- The prefix of a hash that was filed: claimed on a new key only.
  unfoldable pub claim_filed :
      Option Text
      → Index s.VmessAuthKey
      → Option (List (Text × ℕ))
      → Result Failure (Option (List (Text × ℕ)))
  claim_filed none index prefixes = ok prefixes
  claim_filed (some hash) index prefixes =
      if is_some (owner index hash) then ok prefixes else claim_anytls_prefix hash prefixes

  unfoldable pub retire_keys :
      Credentials → Credentials → Indexes s.VmessAuthKey → Result Failure (Indexes s.VmessAuthKey)
  retire_keys previous new ix = do
    by_uuid ← retire_key previous.uuid new.uuid ix.by_uuid
    by_trojan_hash ← retire_key previous.trojan_hash new.trojan_hash ix.by_trojan_hash
    by_password ← retire_key previous.password new.password ix.by_password
    by_psk_hash ← retire_key (psk_hash previous) (psk_hash new) ix.by_psk_hash
    by_anytls_hash ← retire_key previous.anytls_hash new.anytls_hash ix.by_anytls_hash
    anytls_prefixes ←
        (if opt_eq previous.anytls_hash new.anytls_hash
          then ok ix.anytls_prefixes
          else release_dropped previous.anytls_hash ix.anytls_prefixes)
    by_naive_encoded ← retire_key previous.naive_encoded new.naive_encoded ix.by_naive_encoded
    ok (record {
      by_uuid = by_uuid;
      by_trojan_hash = by_trojan_hash;
      by_password = by_password;
      by_psk_hash = by_psk_hash;
      by_anytls_hash = by_anytls_hash;
      by_naive_encoded = by_naive_encoded;
      anytls_prefixes = anytls_prefixes;
    })

  unfoldable pub file_keys :
      Entry s.VmessAuthKey → Indexes s.VmessAuthKey → Result Failure (Indexes s.VmessAuthKey)
  file_keys entry ix =
      let new = entry.credentials in
      do
        by_uuid ← file_key new.uuid entry ix.by_uuid
        by_trojan_hash ← file_key new.trojan_hash entry ix.by_trojan_hash
        by_password ← file_key new.password entry ix.by_password
        by_psk_hash ← file_key (psk_hash new) entry ix.by_psk_hash
        by_naive_encoded ← file_key new.naive_encoded entry ix.by_naive_encoded
        by_anytls_hash ← file_key new.anytls_hash entry ix.by_anytls_hash
        anytls_prefixes ← claim_filed new.anytls_hash ix.by_anytls_hash ix.anytls_prefixes
        ok (record {
          by_uuid = by_uuid;
          by_trojan_hash = by_trojan_hash;
          by_password = by_password;
          by_psk_hash = by_psk_hash;
          by_anytls_hash = by_anytls_hash;
          by_naive_encoded = by_naive_encoded;
          anytls_prefixes = anytls_prefixes;
        })

  -- The keys of a removed user.
  unfoldable pub drop_keys :
      Credentials → Indexes s.VmessAuthKey → Result Failure (Indexes s.VmessAuthKey)
  drop_keys old ix = do
    by_uuid ← drop_key old.uuid ix.by_uuid
    by_trojan_hash ← drop_key old.trojan_hash ix.by_trojan_hash
    by_password ← drop_key old.password ix.by_password
    by_psk_hash ← drop_key (psk_hash old) ix.by_psk_hash
    by_anytls_hash ← drop_key old.anytls_hash ix.by_anytls_hash
    anytls_prefixes ← release_dropped old.anytls_hash ix.anytls_prefixes
    by_naive_encoded ← drop_key old.naive_encoded ix.by_naive_encoded
    ok (record {
      by_uuid = by_uuid;
      by_trojan_hash = by_trojan_hash;
      by_password = by_password;
      by_psk_hash = by_psk_hash;
      by_anytls_hash = by_anytls_hash;
      by_naive_encoded = by_naive_encoded;
      anytls_prefixes = anytls_prefixes;
    })
