-- ===== src/Engine/Tests/Protocol.antt =====
-- The theorems on the protocols of an inbound at concrete trees.
use node_agent_rs.Base.{ℕ, ◌≡◌, ◌↔◌, true, none, map, codes, All}
use node_agent_rs.Engine.Kinds.{conflict}
use node_agent_rs.Engine.Kinds.Merge.{Meaning, Reads}
use node_agent_rs.Engine.Protocol.{
  ServerProxyConfig, vless, trojan, shadowsocks, aead2022, http, tls, no_targets, target,
  default_target, Ciphers, credential_kinds, unservable_registry_target,
}
use node_agent_rs.Engine.Protocol.Leaves.{leaves, conflict-credential_kinds}
use node_agent_rs.Engine.Protocol.Governed.{Authenticates, unservable_registry_target_iff}

-- A cipher is its key length.
abbrev aes : Ciphers ℕ
aes = record { supports_multi_user = λ n. true; key_len = λ n. n; name = λ n. codes "aes" }

-- VLESS and Trojan by name, with an open HTTP proxy as the default.
abbrev mixed_tree : ServerProxyConfig ℕ
mixed_tree =
    tls (target vless (target trojan no_targets)) (default_target (http none none)) no_targets
      (target (shadowsocks (aead2022 16)) no_targets)

conflict-credential_kinds_example :
    (conflict (credential_kinds aes mixed_tree) ≡ none)
    ↔ ((m : Meaning) × All (Reads m) (map (credential_kinds aes) (leaves mixed_tree)))
conflict-credential_kinds_example = conflict-credential_kinds aes mixed_tree

unservable_registry_target_iff_example :
    (unservable_registry_target aes mixed_tree ≡ none) ↔ All (Authenticates aes) (leaves mixed_tree)
unservable_registry_target_iff_example = unservable_registry_target_iff aes mixed_tree
