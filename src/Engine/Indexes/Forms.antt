-- ===== src/Engine/Indexes/Forms.antt =====
-- The six indexes at once: each operation moves every index as it should, and none panics.
use node_agent_rs.Base.{
  ◌≡◌, ◌⊎◌, refl, Bool, true, false, Option, none, if◌then◌else◌, Text, ok, Bool-cases, inl, inr,
}
use node_agent_rs.Engine.Kinds.{CredentialKinds, is_len}
use node_agent_rs.Engine.Shoes.{Shoes}
use node_agent_rs.Engine.Credentials.{Credentials, Entry, is_some}
use node_agent_rs.Engine.Indexes.{
  Index, Indexes, psk_hash, opt_eq, release_dropped, retire_keys, file_keys, drop_keys,
}
use node_agent_rs.Engine.Indexes.Keys.{
  retired_key, Without, With, drop_key-Without, retire_key-Without, file_key-With,
}
use node_agent_rs.Engine.Indexes.Prefixes.{
  Prefixes, HasNoZero, Counts, Counts-refl, release_dropped-Counts, claim_filed-Counts, claimed_key,
}

pub data Form : Type 0 where
  by_uuid by_trojan_hash by_password by_psk_hash by_anytls_hash by_naive_encoded : Form

-- The key under which a form files a user.
abbrev pub key_of : Form → Credentials → Option Text
key_of by_uuid c = c.uuid
key_of by_trojan_hash c = c.trojan_hash
key_of by_password c = c.password
key_of by_psk_hash c = psk_hash c
key_of by_anytls_hash c = c.anytls_hash
key_of by_naive_encoded c = c.naive_encoded

abbrev pub index_of : {K : Type 0} → Form → Indexes K → Index K
index_of by_uuid ix = ix.by_uuid
index_of by_trojan_hash ix = ix.by_trojan_hash
index_of by_password ix = ix.by_password
index_of by_psk_hash ix = ix.by_psk_hash
index_of by_anytls_hash ix = ix.by_anytls_hash
index_of by_naive_encoded ix = ix.by_naive_encoded

-- The kinds that want a form.
abbrev pub wanted : Form → CredentialKinds → Bool
wanted by_uuid k = k.uuid
wanted by_trojan_hash k = k.trojan_password
wanted by_password k = k.plain_password
wanted by_psk_hash k = is_len k.shadowsocks_psk
wanted by_anytls_hash k = k.anytls_password
wanted by_naive_encoded k = k.naive_basic

module _ {K : Type 0} where
  abbrev assemble : (Form → Index K) → Prefixes → Indexes K
  assemble at prefixes = record {
    by_uuid = at by_uuid;
    by_trojan_hash = at by_trojan_hash;
    by_password = at by_password;
    by_psk_hash = at by_psk_hash;
    by_anytls_hash = at by_anytls_hash;
    by_naive_encoded = at by_naive_encoded;
    anytls_prefixes = prefixes;
  }

  index_of-assemble :
      (f : Form) (at : Form → Index K) (prefixes : Prefixes)
      → index_of f (assemble at prefixes) ≡ at f
  index_of-assemble by_uuid at prefixes = refl
  index_of-assemble by_trojan_hash at prefixes = refl
  index_of-assemble by_password at prefixes = refl
  index_of-assemble by_psk_hash at prefixes = refl
  index_of-assemble by_anytls_hash at prefixes = refl
  index_of-assemble by_naive_encoded at prefixes = refl

  -- Every key that the credentials have has its index.
  abbrev pub Fits : Credentials → Indexes K → Type 0
  Fits c ix =
      ((f : Form) → is_some (key_of f c) ≡ true → is_some (index_of f ix) ≡ true)
      × (is_some c.anytls_hash ≡ true → is_some ix.anytls_prefixes ≡ true)

module _ (s : Shoes) where
  pub retire_keys_total :
      (old new : Credentials) (ix : Indexes s.VmessAuthKey)
      → Fits old ix
      → HasNoZero ix.anytls_prefixes
      → (after : Indexes s.VmessAuthKey) × (retire_keys s old new ix ≡ ok after)
        × ((f : Form)
            → Without
                (retired_key (key_of f old) (key_of f new))
                (index_of f ix)
                (index_of f after))
        × Counts s none
            (retired_key old.anytls_hash new.anytls_hash)
            ix.anytls_prefixes
            after.anytls_prefixes
  unfolding retire_keys
  retire_keys_total old new ix (fits, room) no_zero =
      let at =
        λ (f : Form). retire_key-Without (key_of f old) (key_of f new) (index_of f ix) (fits f) in
      let pre = prefixes (Bool-cases (opt_eq old.anytls_hash new.anytls_hash)) in
      (
        assemble (λ f. (at f).0) pre.0,
        rw
            (
              (at by_uuid).1,
              (at by_trojan_hash).1,
              (at by_password).1,
              (at by_psk_hash).1,
              (at by_anytls_hash).1,
              pre.1,
              (at by_naive_encoded).1,
            )
            refl,
        λ f. rw (index_of-assemble f (λ g. (at g).0) pre.0) (at f).2,
        pre.2,
      )
    where
      prefixes :
          (opt_eq old.anytls_hash new.anytls_hash ≡ true)
            ⊎ (opt_eq old.anytls_hash new.anytls_hash ≡ false)
          → (after : Prefixes) × ((if opt_eq old.anytls_hash new.anytls_hash
                then ok ix.anytls_prefixes
                else release_dropped s old.anytls_hash ix.anytls_prefixes)
              ≡ ok after)
            × Counts s none (retired_key old.anytls_hash new.anytls_hash) ix.anytls_prefixes after
      prefixes (inl same) =
          rw same (ix.anytls_prefixes, refl, Counts-refl s ix.anytls_prefixes no_zero)
      prefixes (inr changed) =
          rw changed (release_dropped-Counts s old.anytls_hash ix.anytls_prefixes room no_zero)

  pub file_keys_total :
      (e : Entry s.VmessAuthKey) (ix : Indexes s.VmessAuthKey)
      → Fits e.credentials ix
      → HasNoZero ix.anytls_prefixes
      → (after : Indexes s.VmessAuthKey) × (file_keys s e ix ≡ ok after)
        × ((f : Form) → With (key_of f e.credentials) e (index_of f ix) (index_of f after))
        × Counts s
            (claimed_key s e.credentials.anytls_hash ix.by_anytls_hash)
            none
            ix.anytls_prefixes
            after.anytls_prefixes
  unfolding file_keys
  file_keys_total e ix (fits, room) no_zero =
      let at = λ (f : Form). file_key-With (key_of f e.credentials) e (index_of f ix) (fits f) in
      let pre =
        claim_filed-Counts s e.credentials.anytls_hash ix.by_anytls_hash ix.anytls_prefixes room
          no_zero in
      (
        assemble (λ f. (at f).0) pre.0,
        rw
            (
              (at by_uuid).1,
              (at by_trojan_hash).1,
              (at by_password).1,
              (at by_psk_hash).1,
              (at by_naive_encoded).1,
              (at by_anytls_hash).1,
              pre.1,
            )
            refl,
        λ f. rw (index_of-assemble f (λ g. (at g).0) pre.0) (at f).2,
        pre.2,
      )

  pub drop_keys_total :
      (old : Credentials) (ix : Indexes s.VmessAuthKey)
      → Fits old ix
      → HasNoZero ix.anytls_prefixes
      → (after : Indexes s.VmessAuthKey) × (drop_keys s old ix ≡ ok after)
        × ((f : Form) → Without (key_of f old) (index_of f ix) (index_of f after))
        × Counts s none old.anytls_hash ix.anytls_prefixes after.anytls_prefixes
  unfolding drop_keys
  drop_keys_total old ix (fits, room) no_zero =
      let at = λ (f : Form). drop_key-Without (key_of f old) (index_of f ix) (fits f) in
      let pre = release_dropped-Counts s old.anytls_hash ix.anytls_prefixes room no_zero in
      (
        assemble (λ f. (at f).0) pre.0,
        rw
            (
              (at by_uuid).1,
              (at by_trojan_hash).1,
              (at by_password).1,
              (at by_psk_hash).1,
              (at by_anytls_hash).1,
              pre.1,
              (at by_naive_encoded).1,
            )
            refl,
        λ f. rw (index_of-assemble f (λ g. (at g).0) pre.0) (at f).2,
        pre.2,
      )
