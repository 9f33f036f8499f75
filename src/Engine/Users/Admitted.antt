-- ===== src/Engine/Users/Admitted.antt =====
-- What the checks of `upsert_locked` leave for the writes: keys that are wanted and unclaimed.
use mathlib.Core.Option
use node_agent_rs.Base.{
  ◌≡◌, refl, ap, Bool, true, false, Option, none, some, Text, ok, >>=-eq-ok, ok-injective, lookup,
  arith,
}
use node_agent_rs.Engine.Kinds.{CredentialKinds, ShadowsocksPsk, no_psk, len, mixed, is_len}
use node_agent_rs.Engine.Shoes.{Shoes}
use node_agent_rs.Engine.Credentials.{
  UserSpec, resolved_id, Credentials, ShadowsocksCredential, is_some, when_wanted, parse_uuid_field,
  parse_psk_field, check_fields, parse_credentials, collected,
}
use node_agent_rs.Engine.Indexes.{
  Index, Indexes, psk_hash, claimed_by_other, refuse_claimed, check_credentials_unclaimed,
}
use node_agent_rs.Engine.Indexes.Forms.{Form, key_of, index_of, wanted}
use node_agent_rs.Engine.Users.{Registry, DrainingUser, admit, id_of_spec, refuse_draining}

refuse_claimed_ok :
    {K : Type 0} (id : Text) (ix : Index K) (key : Option Text) {u : Unit {0}}
    → refuse_claimed id ix key ≡ ok u
    → claimed_by_other id ix key ≡ none
unfolding refuse_claimed
refuse_claimed_ok id ix key h = ground arith

-- Credentials that pass the check are claimed by no other user, in any index.
pub check_credentials_unclaimed_sound :
    {K : Type 0} (ix : Indexes K) (id : Text) (c : Credentials) {u : Unit {0}}
    → check_credentials_unclaimed ix id c ≡ ok u
    → (f : Form) → claimed_by_other id (index_of f ix) (key_of f c) ≡ none
unfolding check_credentials_unclaimed
check_credentials_unclaimed_sound ix id c h f =
    let (u1, uuid, h1) = >>=-eq-ok (refuse_claimed id ix.by_uuid c.uuid) _ h in
    let (u2, trojan, h2) = >>=-eq-ok (refuse_claimed id ix.by_trojan_hash c.trojan_hash) _ h1 in
    let (u3, password, h3) = >>=-eq-ok (refuse_claimed id ix.by_password c.password) _ h2 in
    let (u4, psk, h4) = >>=-eq-ok (refuse_claimed id ix.by_psk_hash (psk_hash c)) _ h3 in
    let (u5, anytls, naive) = >>=-eq-ok (refuse_claimed id ix.by_anytls_hash c.anytls_hash) _ h4 in
    elim f as (λ f. claimed_by_other id (index_of f ix) (key_of f c) ≡ none) [
      | Form.by_uuid ↦ refuse_claimed_ok id ix.by_uuid c.uuid uuid
      | Form.by_trojan_hash ↦ refuse_claimed_ok id ix.by_trojan_hash c.trojan_hash trojan
      | Form.by_password ↦ refuse_claimed_ok id ix.by_password c.password password
      | Form.by_psk_hash ↦ refuse_claimed_ok id ix.by_psk_hash (psk_hash c) psk
      | Form.by_anytls_hash ↦ refuse_claimed_ok id ix.by_anytls_hash c.anytls_hash anytls
      | Form.by_naive_encoded ↦ refuse_claimed_ok id ix.by_naive_encoded c.naive_encoded naive
    ]

some_of_map :
    (o : Option ShadowsocksCredential)
    → is_some (Option.map (λ (shadowsocks : ShadowsocksCredential). shadowsocks.hash) o) ≡ true
    → is_some o ≡ true
some_of_map none h = ground arith
some_of_map (some psk) h = refl

when_wanted_some :
    (b : Bool) (f : Text → Text) (o : Option Text) → is_some (when_wanted b f o) ≡ true → b ≡ true
when_wanted_some true f o h = refl
when_wanted_some false f o h = ground arith

module _ (s : Shoes) where
  parse_psk_field_some :
      (password : Option Text) (kind : ShadowsocksPsk) (o : Option ShadowsocksCredential)
      → parse_psk_field s password kind ≡ ok o
      → is_some o ≡ true
      → is_len kind ≡ true
  unfolding parse_psk_field
  parse_psk_field_some none kind o h some_psk = ground arith
  parse_psk_field_some (some password) no_psk o h some_psk = ground arith
  parse_psk_field_some (some password) mixed o h some_psk = ground arith
  parse_psk_field_some (some password) (len n) o h some_psk = refl

  parse_uuid_field_some :
      (uuid : Option Text) (o : Option Text)
      → parse_uuid_field s uuid ≡ ok o
      → is_some o ≡ true
      → is_some uuid ≡ true
  unfolding parse_uuid_field
  parse_uuid_field_some none o h some_uuid = ground arith
  parse_uuid_field_some (some uuid) o h some_uuid = refl

  check_fields_uuid :
      (kinds : CredentialKinds) (spec : UserSpec) {u : Unit {0}}
      → check_fields kinds spec ≡ ok u
      → is_some spec.uuid ≡ true
      → kinds.uuid ≡ true
  unfolding check_fields
  check_fields_uuid kinds spec h some_uuid = ground arith

  parse_credentials-eq-ok :
      (kinds : CredentialKinds) (id : Text) (spec : UserSpec) (c : Credentials)
      → parse_credentials s kinds id spec ≡ ok c
      → (uuid : Option Text) × (psk : Option ShadowsocksCredential) × (check_fields kinds spec
          ≡ ok tt)
        × (parse_uuid_field s spec.uuid ≡ ok uuid)
        × (parse_psk_field s spec.password kinds.shadowsocks_psk ≡ ok psk)
        × (collected s kinds id spec uuid psk ≡ c)
  unfolding parse_credentials
  parse_credentials-eq-ok kinds id spec c h =
      let (u, fields, h1) = >>=-eq-ok (check_fields kinds spec) _ h in
      let (uuid, parsed, h2) = >>=-eq-ok (parse_uuid_field s spec.uuid) _ h1 in
      let (psk, decoded, h3) =
        >>=-eq-ok (parse_psk_field s spec.password kinds.shadowsocks_psk) _ h2 in
      (uuid, psk, fields, parsed, decoded, ok-injective h3)

  collected-wanted :
      (kinds : CredentialKinds) (id : Text) (spec : UserSpec) (uuid : Option Text)
      (psk : Option ShadowsocksCredential)
      → check_fields kinds spec ≡ ok tt
      → parse_uuid_field s spec.uuid ≡ ok uuid
      → parse_psk_field s spec.password kinds.shadowsocks_psk ≡ ok psk
      → (f : Form) → is_some (key_of f (collected s kinds id spec uuid psk)) ≡ true
      → wanted f kinds ≡ true
  unfolding collected
  collected-wanted kinds id spec uuid psk fields parsed decoded Form.by_uuid h =
      check_fields_uuid kinds spec fields (parse_uuid_field_some spec.uuid uuid parsed h)
  collected-wanted kinds id spec uuid psk fields parsed decoded Form.by_trojan_hash h =
      when_wanted_some kinds.trojan_password s.trojan_password_hash spec.password h
  collected-wanted kinds id spec uuid psk fields parsed decoded Form.by_password h =
      when_wanted_some kinds.plain_password (λ password. password) spec.password h
  collected-wanted kinds id spec uuid psk fields parsed decoded Form.by_psk_hash h =
      parse_psk_field_some spec.password kinds.shadowsocks_psk psk decoded (some_of_map psk h)
  collected-wanted kinds id spec uuid psk fields parsed decoded Form.by_anytls_hash h =
      when_wanted_some kinds.anytls_password s.password_sha256 spec.password h
  collected-wanted kinds id spec uuid psk fields parsed decoded Form.by_naive_encoded h =
      when_wanted_some kinds.naive_basic (s.naive_basic_credential id) spec.password h

  -- Credentials that were parsed have keys only in the forms of the kinds.
  pub parse_credentials-wanted :
      (kinds : CredentialKinds) (id : Text) (spec : UserSpec) (c : Credentials)
      → parse_credentials s kinds id spec ≡ ok c
      → (f : Form) → is_some (key_of f c) ≡ true
      → wanted f kinds ≡ true
  parse_credentials-wanted kinds id spec c h f has =
      let (uuid, psk, fields, parsed, decoded, e) = parse_credentials-eq-ok kinds id spec c h in
      collected-wanted kinds id spec uuid psk fields parsed decoded f (rw e has)

  not_draining :
      (r : Registry s) (id : Text) (o : Option (DrainingUser s.VmessAuthKey)) {u : Unit {0}}
      → refuse_draining s r id o ≡ ok u
      → o ≡ none
  unfolding refuse_draining
  not_draining r id none h = refl
  not_draining r id (some draining) h = ground arith

  -- What `admit` leaves: an id that is not draining, with credentials that are wanted and free.
  pub admit-eq-ok :
      (r : Registry s) (spec : UserSpec) (id : Text) (c : Credentials)
      → admit s r spec ≡ ok (id, c)
      → (id_of_spec (resolved_id spec) ≡ ok id)
        × (lookup id r.draining ≡ none)
        × (parse_credentials s r.kinds id spec ≡ ok c)
        × ((f : Form) → claimed_by_other id (index_of f r.indexes) (key_of f c) ≡ none)
  unfolding admit
  admit-eq-ok r spec id c h =
      let (id', named, h1) = >>=-eq-ok (id_of_spec (resolved_id spec)) _ h in
      let (u, idle, h2) = >>=-eq-ok (refuse_draining s r id' (lookup id' r.draining)) _ h1 in
      let (c', parsed, h3) = >>=-eq-ok (parse_credentials s r.kinds id' spec) _ h2 in
      let (u', free, h4) = >>=-eq-ok (check_credentials_unclaimed r.indexes id' c') _ h3 in
      let at : (id', c') ≡ (id, c) = ok-injective h4 in
      let same_id : id' ≡ id = ap (λ (p : Text × Credentials). p.0) at in
      let same : c' ≡ c = ap (λ (p : Text × Credentials). p.1) at in
      (
        rw (← same_id) named,
        rw (← same_id) (not_draining r id' (lookup id' r.draining) idle),
        rw (← same_id, ← same) parsed,
        rw (← same_id, ← same) (check_credentials_unclaimed_sound r.indexes id' c' free),
      )
