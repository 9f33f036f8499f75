-- ===== src/Engine/Credentials.antt =====
-- crates/shoes-engine/src/users.rs: the credentials of a user, and `parse_credentials`; `UserSpec`
-- of crates/shoes-api/src/lib.rs. A message of an error stands as its reason. A wire credential
-- is its bytes.
use mathlib.Core.Option
use node_agent_rs.Base.{
  ℕ, Bool, true, false, not, ◌&&◌, ◌||◌, Option, none, some, ◌==◌, length, Text, Result, ok, ◌>>=◌,
  ◌>>◌, refuse_if, map_err,
}
use node_agent_rs.Engine.Kinds.{
  CredentialKinds, ShadowsocksPsk, no_psk, len, mixed, takes_password, accepted_fields,
}
use node_agent_rs.Engine.Shoes.{Shoes, UserContext}

pub record UserSpec : Type 0 where
  pub id : Option Text
  pub uuid : Option Text
  pub password : Option Text
  pub enabled : Bool
  pub max_conns : Option ℕ
  pub upload_limit_bps : Option ℕ
  pub download_limit_bps : Option ℕ

unfoldable pub resolved_id : UserSpec → Option Text
resolved_id spec = elim spec.id [ some id ↦ some id | none ↦ spec.uuid ]

-- The messages of `EngineError::InvalidUser`.
pub data InvalidUser : Type 0 where
  not_by_uuid : Text → InvalidUser
  not_by_password : Text → InvalidUser
  needs_a_credential : Text → InvalidUser
  tuic_needs_both : InvalidUser
  bad_credential : Text → InvalidUser
  psk_length : ℕ → ℕ → InvalidUser
  needs_an_id : InvalidUser
  not_collected still_disconnecting : Text → InvalidUser
  listed_twice : Text → InvalidUser

pub data EngineError : Type 0 where
  invalid_user : InvalidUser → EngineError
  duplicate_credential : Text → Text → EngineError
  unknown_user : Text → Text → EngineError
  io : Text → EngineError

pub record ShadowsocksCredential : Type 0 where
  pub hash : Text
  pub psk : Text

pub record Credentials : Type 0 where
  pub uuid : Option Text
  pub trojan_hash : Option Text
  pub password : Option Text
  pub shadowsocks : Option ShadowsocksCredential
  pub tuic_password : Option Text
  pub anytls_hash : Option Text
  pub naive_encoded : Option Text

-- The credentials stand together; `vmess` is derived from the uuid.
pub record Entry (K : Type 0) : Type 0 where
  pub context : UserContext
  pub credentials : Credentials
  pub vmess : Option K

abbrev pub is_some {ℓ} : {A : Type ℓ} → Option A → Bool
is_some none = false
is_some (some a) = true

-- `match wanted { true => field.map(f), false => None }`
abbrev pub when_wanted : Bool → (Text → Text) → Option Text → Option Text
when_wanted true f field = Option.map f field
when_wanted false f field = none

-- The refusals at the head of `parse_credentials`.
unfoldable pub check_fields : CredentialKinds → UserSpec → Result EngineError (Unit {0})
check_fields kinds spec = do
  refuse_if (is_some spec.uuid && not kinds.uuid)
      (invalid_user (not_by_uuid (accepted_fields kinds)))
  refuse_if (is_some spec.password && not (takes_password kinds))
      (invalid_user (not_by_password (accepted_fields kinds)))
  refuse_if (not (is_some spec.uuid) && not (is_some spec.password))
      (invalid_user (needs_a_credential (accepted_fields kinds)))
  refuse_if (kinds.tuic && (not (is_some spec.uuid) || not (is_some spec.password)))
      (invalid_user tuic_needs_both)

module _ (s : Shoes) where
  unfoldable pub parse_uuid_field : Option Text → Result EngineError (Option Text)
  parse_uuid_field none = ok none
  parse_uuid_field (some uuid) = do
    bytes ← map_err (λ e. invalid_user (bad_credential e)) (s.parse_uuid uuid)
    ok (some bytes)

  unfoldable pub parse_psk_of_len : Text → ℕ → Result EngineError (Option ShadowsocksCredential)
  parse_psk_of_len password n = do
    psk ← map_err (λ e. invalid_user (bad_credential e)) (s.decode_shadowsocks_psk password)
    refuse_if (not (length psk == n)) (invalid_user (psk_length n (length psk)))
    ok (some (record { hash = s.shadowsocks_psk_hash psk; psk = psk }))

  unfoldable pub parse_psk_field :
      Option Text → ShadowsocksPsk → Result EngineError (Option ShadowsocksCredential)
  unfolding parse_psk_of_len
  parse_psk_field none kind = ok none
  parse_psk_field (some password) no_psk = ok none
  parse_psk_field (some password) mixed = ok none
  parse_psk_field (some password) (len n) = parse_psk_of_len password n

  -- The record at the end of `parse_credentials`.
  unfoldable pub collected :
      CredentialKinds → Text → UserSpec → Option Text → Option ShadowsocksCredential → Credentials
  collected kinds id spec uuid shadowsocks = record {
    uuid = uuid;
    trojan_hash = when_wanted kinds.trojan_password s.trojan_password_hash spec.password;
    password = when_wanted kinds.plain_password (λ password. password) spec.password;
    shadowsocks = shadowsocks;
    tuic_password = when_wanted kinds.tuic (λ password. password) spec.password;
    anytls_hash = when_wanted kinds.anytls_password s.password_sha256 spec.password;
    naive_encoded = when_wanted kinds.naive_basic (s.naive_basic_credential id) spec.password;
  }

  unfoldable pub parse_credentials :
      CredentialKinds → Text → UserSpec → Result EngineError Credentials
  parse_credentials kinds id spec = do
    check_fields kinds spec
    uuid ← parse_uuid_field spec.uuid
    shadowsocks ← parse_psk_field spec.password kinds.shadowsocks_psk
    ok (collected kinds id spec uuid shadowsocks)
