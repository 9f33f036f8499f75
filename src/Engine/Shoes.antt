-- ===== src/Engine/Shoes.antt =====
-- The external crate `shoes`, as crates/shoes-engine uses it: `UserContext` and `credential`.
-- A `UserContext` is a cell of a heap; its id never changes, and stands in the reference to it.
use node_agent_rs.Base.{ℕ, ◌≡◌, Bool, Option, Text, Result, ◌==◌, if◌then◌else◌}

-- `UserContext::stats`, less the id; `UserInfo` has the same counters.
pub record UserStats : Type 0 where
  pub enabled : Bool
  pub tx : ℕ
  pub rx : ℕ
  pub last_traffic_observed_at_unix_millis : ℕ
  pub conns : ℕ
  pub total_conns : ℕ
  pub max_conns : ℕ
  pub upload_limit_bps : ℕ
  pub download_limit_bps : ℕ

-- `Cell` is the state of one `UserContext`.
pub record Shoes : Type 1 where
  pub Cell : Type 0
  pub Analysis : Type 0
  pub VmessAuthKey : Type 0
  pub new_cell : Cell
  pub set_analysis_context : Analysis → Cell → Cell
  pub set_enabled : Bool → Cell → Cell
  pub set_max_conns : ℕ → Cell → Cell
  pub set_speed_limits : ℕ → ℕ → Cell → Cell
  pub revoke_connections : Cell → Cell
  pub kick_connections : Cell → ℕ × Cell
  pub take_traffic : Cell → (ℕ × ℕ) × Cell
  pub stats : Cell → UserStats
  pub parse_uuid : Text → Result Text Text
  pub decode_shadowsocks_psk : Text → Result Text Text
  pub shadowsocks_psk_hash : Text → Text
  pub trojan_password_hash : Text → Text
  pub password_sha256 : Text → Text
  pub password_sha256_prefix : Text → Text
  pub naive_basic_credential : Text → Text → Text
  pub new_vmess_auth_key : Text → VmessAuthKey
  pub open_auth_id : VmessAuthKey → Text → Option ℕ
  pub instruction_key : VmessAuthKey → Text

-- What the settings of a user do to the counters: each writes its own field.
pub record SettingsLaws (s : Shoes) : Type 0 where
  pub enabled_set : (b : Bool) (c : s.Cell) → (s.stats (s.set_enabled b c)).enabled ≡ b
  pub enabled_max_conns :
      (n : ℕ) (c : s.Cell) → (s.stats (s.set_max_conns n c)).enabled ≡ (s.stats c).enabled
  pub enabled_speed_limits :
      (u d : ℕ) (c : s.Cell) → (s.stats (s.set_speed_limits u d c)).enabled ≡ (s.stats c).enabled

-- A reference to a `UserContext`: its immutable id and its address.
pub record UserContext : Type 0 where
  pub id : Text
  pub address : ℕ

module _ {C : Type 0} where
  abbrev pub write_cell : ℕ → C → (ℕ → C) → ℕ → C
  write_cell address cell heap a = if a == address then cell else heap a
