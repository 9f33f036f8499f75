-- ===== src/Engine/Kinds.antt =====
-- crates/shoes-engine/src/users.rs: `CredentialKinds`, the credential forms of an inbound.
pub mod Merge
use node_agent_rs.Base.{
  ℕ, Bool, true, false, not, ◌&&◌, ◌||◌, Option, none, some, List, [], ◌∷◌, ◌++◌, ◌==◌,
  if◌then◌else◌, Text, codes,
}

-- A key of `len n` bytes; `mixed` where two targets disagree.
pub data ShadowsocksPsk : Type 0 where
  no_psk : ShadowsocksPsk
  len : ℕ → ShadowsocksPsk
  mixed : ShadowsocksPsk

pub record CredentialKinds : Type 0 where
  pub uuid : Bool
  pub trojan_password : Bool
  pub plain_password : Bool
  pub shadowsocks_psk : ShadowsocksPsk
  pub tuic : Bool
  pub anytls_password : Bool
  pub naive_basic : Bool

-- `NONE`
abbrev pub no_kinds : CredentialKinds
no_kinds = record {
  uuid = false;
  trojan_password = false;
  plain_password = false;
  shadowsocks_psk = no_psk;
  tuic = false;
  anytls_password = false;
  naive_basic = false;
}

-- `UUID`
abbrev pub uuid_kinds : CredentialKinds
uuid_kinds = record no_kinds { uuid = true }

-- `TROJAN_PASSWORD`
abbrev pub trojan_password_kinds : CredentialKinds
trojan_password_kinds = record no_kinds { trojan_password = true }

-- `PLAIN_PASSWORD`
abbrev pub plain_password_kinds : CredentialKinds
plain_password_kinds = record no_kinds { plain_password = true }

-- `TUIC`
abbrev pub tuic_kinds : CredentialKinds
tuic_kinds = record no_kinds { uuid = true; tuic = true }

-- `ANYTLS_PASSWORD`
abbrev pub anytls_password_kinds : CredentialKinds
anytls_password_kinds = record no_kinds { anytls_password = true }

-- `NAIVE_BASIC`
abbrev pub naive_basic_kinds : CredentialKinds
naive_basic_kinds = record no_kinds { naive_basic = true }

abbrev pub shadowsocks_psk_kinds : ℕ → CredentialKinds
shadowsocks_psk_kinds n = record no_kinds { shadowsocks_psk = len n }

abbrev is_no_psk : ShadowsocksPsk → Bool
is_no_psk no_psk = true
is_no_psk (len n) = false
is_no_psk mixed = false

-- `*self == Self::NONE`
unfoldable pub is_empty : CredentialKinds → Bool
is_empty k =
    not k.uuid
    && not k.trojan_password
    && not k.plain_password
    && is_no_psk k.shadowsocks_psk
    && not k.tuic
    && not k.anytls_password
    && not k.naive_basic

unfoldable pub merge_psk : ShadowsocksPsk → ShadowsocksPsk → ShadowsocksPsk
merge_psk no_psk only = only
merge_psk (len a) no_psk = len a
merge_psk (len a) (len b) = if a == b then len a else mixed
merge_psk (len a) mixed = mixed
merge_psk mixed no_psk = mixed
merge_psk mixed (len b) = mixed
merge_psk mixed mixed = mixed

unfoldable pub merge : CredentialKinds → CredentialKinds → CredentialKinds
unfolding merge_psk
merge k other = record {
  uuid = k.uuid || other.uuid;
  trojan_password = k.trojan_password || other.trojan_password;
  plain_password = k.plain_password || other.plain_password;
  shadowsocks_psk = merge_psk k.shadowsocks_psk other.shadowsocks_psk;
  tuic = k.tuic || other.tuic;
  anytls_password = k.anytls_password || other.anytls_password;
  naive_basic = k.naive_basic || other.naive_basic;
}

-- `matches!(self.shadowsocks_psk, ShadowsocksPsk::Len(_))`
abbrev pub is_len : ShadowsocksPsk → Bool
is_len no_psk = false
is_len (len n) = true
is_len mixed = false

unfoldable pub takes_password : CredentialKinds → Bool
takes_password k =
    k.trojan_password
    || k.plain_password
    || k.tuic
    || k.anytls_password
    || k.naive_basic
    || is_len k.shadowsocks_psk

-- The reasons that `conflict` words.
pub data KindsConflict : Type 0 where
  key_lengths cleartext_and_psk : KindsConflict

-- The guard of the second arm of `conflict`.
unfoldable pub takes_cleartext : CredentialKinds → Bool
takes_cleartext k =
    k.trojan_password || k.plain_password || k.tuic || k.anytls_password || k.naive_basic

unfoldable pub psk_conflict : ShadowsocksPsk → Bool → Option KindsConflict
psk_conflict mixed cleartext = some key_lengths
psk_conflict (len n) cleartext = if cleartext then some cleartext_and_psk else none
psk_conflict no_psk cleartext = none

unfoldable pub conflict : CredentialKinds → Option KindsConflict
unfolding psk_conflict takes_cleartext
conflict k = psk_conflict k.shadowsocks_psk (takes_cleartext k)

-- At most two fields are joined.
unfoldable pub accepted_fields : CredentialKinds → Text
unfolding takes_password
accepted_fields k =
    if k.tuic
    then codes "`uuid` and `password`"
    else if k.uuid
    then codes "`uuid`" ++ (if takes_password k then codes " or `password`" else [])
    else if takes_password k
    then codes "`password`"
    else codes "nothing"
