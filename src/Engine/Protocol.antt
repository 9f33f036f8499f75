-- ===== src/Engine/Protocol.antt =====
-- crates/shoes-engine/src/protocol.rs: how an inbound authenticates. The tree of protocols is that of
-- the external `ServerProxyConfig`, with the fields that the walks read; a target stands as its
-- protocol, and a map of targets as the list of its values. The ciphers are a parameter.
pub mod Leaves
pub mod Governed
use node_agent_rs.Base.{ℕ, Bool, true, false, ◌||◌, Option, none, some, if◌then◌else◌, Text, codes}
use node_agent_rs.Engine.Kinds.{
  CredentialKinds, no_kinds, uuid_kinds, trojan_password_kinds, plain_password_kinds, tuic_kinds,
  anytls_password_kinds, naive_basic_kinds, shadowsocks_psk_kinds, merge,
}
use node_agent_rs.Engine.Credentials.{is_some}

pub data ShadowsocksConfig (C : Type 0) : Type 0 where
  legacy : ShadowsocksConfig C
  aead2022 : C → ShadowsocksConfig C

-- The four collections of `tls` are `tls_targets`, `default_tls_target`, `shadowtls_targets` and
-- `reality_targets`.
mutual
  pub data ServerProxyConfig (C : Type 0) : Type 0 where
    vless vmess trojan hysteria2 tuic_v5 anytls naiveproxy snell port_forward : ServerProxyConfig C
    shadowsocks : ShadowsocksConfig C → ServerProxyConfig C
    http socks mixed_proxy : Option Text → Option Text → ServerProxyConfig C
    tls : Targets C → DefaultTarget C → Targets C → Targets C → ServerProxyConfig C
    websocket : Targets C → ServerProxyConfig C

  pub data Targets (C : Type 0) : Type 0 where
    no_targets : Targets C
    target : ServerProxyConfig C → Targets C → Targets C

  pub data DefaultTarget (C : Type 0) : Type 0 where
    no_default : DefaultTarget C
    default_target : ServerProxyConfig C → DefaultTarget C

-- Why a `users` list would not govern a target: the messages of `unservable_registry_target`.
pub data Unservable : Type 0 where
  no_identity_header : Text → Unservable
  admits_everybody : Text → Unservable
  forwards_everybody : Unservable

-- The external ciphers of Shadowsocks 2022.
pub record Ciphers (C : Type 0) : Type 0 where
  pub supports_multi_user : C → Bool
  pub key_len : C → ℕ
  pub name : C → Text

unfoldable pub unauthenticated_target : Text → Option Text → Option Text → Option Unservable
unauthenticated_target kind username password =
    if is_some username || is_some password then none else some (admits_everybody kind)

abbrev pub or_next : Option Unservable → Option Unservable → Option Unservable
or_next (some reason) otherwise = some reason
or_next none otherwise = otherwise

module _ {C : Type 0} (ciphers : Ciphers C) where
  unfoldable pub shadowsocks_kinds : ShadowsocksConfig C → CredentialKinds
  shadowsocks_kinds legacy = no_kinds
  shadowsocks_kinds (aead2022 cipher) =
      if ciphers.supports_multi_user cipher
      then merge no_kinds (shadowsocks_psk_kinds (ciphers.key_len cipher))
      else no_kinds

  unfoldable pub unservable_shadowsocks : ShadowsocksConfig C → Option Unservable
  unservable_shadowsocks legacy = none
  unservable_shadowsocks (aead2022 cipher) =
      if ciphers.supports_multi_user cipher
      then none
      else some (no_identity_header (ciphers.name cipher))

  unfoldable mutual
    pub credential_kinds : ServerProxyConfig C → CredentialKinds
    credential_kinds vless = merge no_kinds uuid_kinds
    credential_kinds vmess = merge no_kinds uuid_kinds
    credential_kinds trojan = merge no_kinds trojan_password_kinds
    credential_kinds hysteria2 = merge no_kinds plain_password_kinds
    credential_kinds tuic_v5 = merge no_kinds tuic_kinds
    credential_kinds anytls = merge no_kinds anytls_password_kinds
    credential_kinds naiveproxy = merge no_kinds naive_basic_kinds
    credential_kinds snell = no_kinds
    credential_kinds port_forward = no_kinds
    credential_kinds (shadowsocks config) = shadowsocks_kinds config
    credential_kinds (http username password) = no_kinds
    credential_kinds (socks username password) = no_kinds
    credential_kinds (mixed_proxy username password) = no_kinds
    credential_kinds (tls tls_targets default shadowtls_targets reality_targets) =
        merge_targets
          (merge_targets (merge_default (merge_targets no_kinds tls_targets) default)
            shadowtls_targets)
          reality_targets
    credential_kinds (websocket targets) = merge_targets no_kinds targets

    -- `for target in targets { kinds.merge(credential_kinds(&target.protocol)); }`
    pub merge_targets : CredentialKinds → Targets C → CredentialKinds
    merge_targets kinds no_targets = kinds
    merge_targets kinds (target protocol targets) =
        merge_targets (merge kinds (credential_kinds protocol)) targets

    pub merge_default : CredentialKinds → DefaultTarget C → CredentialKinds
    merge_default kinds no_default = kinds
    merge_default kinds (default_target protocol) = merge kinds (credential_kinds protocol)

  unfoldable mutual
    pub unservable_registry_target : ServerProxyConfig C → Option Unservable
    unservable_registry_target vless = none
    unservable_registry_target vmess = none
    unservable_registry_target trojan = none
    unservable_registry_target hysteria2 = none
    unservable_registry_target tuic_v5 = none
    unservable_registry_target anytls = none
    unservable_registry_target naiveproxy = none
    unservable_registry_target snell = none
    unservable_registry_target port_forward = some forwards_everybody
    unservable_registry_target (shadowsocks config) = unservable_shadowsocks config
    unservable_registry_target (http username password) =
        unauthenticated_target (codes "http") username password
    unservable_registry_target (socks username password) =
        unauthenticated_target (codes "socks") username password
    unservable_registry_target (mixed_proxy username password) =
        unauthenticated_target (codes "mixed") username password
    unservable_registry_target (tls tls_targets default shadowtls_targets reality_targets) =
        or_next (first_unservable tls_targets) (
          or_next (unservable_default default)
            (or_next (first_unservable shadowtls_targets) (first_unservable reality_targets)))
    unservable_registry_target (websocket targets) = first_unservable targets

    -- The first reason of a collection.
    pub first_unservable : Targets C → Option Unservable
    first_unservable no_targets = none
    first_unservable (target protocol targets) =
        or_next (unservable_registry_target protocol) (first_unservable targets)

    pub unservable_default : DefaultTarget C → Option Unservable
    unservable_default no_default = none
    unservable_default (default_target protocol) = unservable_registry_target protocol
