-- ===== src/Engine/Protocol/Leaves.antt =====
-- The walks over the tree of protocols, by the leaves of the tree.
use mathlib.Core.List.{map-append}
use node_agent_rs.Base.{◌≡◌, ◌↔◌, refl, sym, ap, ◌∙◌, none, List, [], ◌∷◌, ◌++◌, map, All, arith}
use node_agent_rs.Engine.Kinds.{CredentialKinds, ShadowsocksPsk, no_kinds, merge, conflict}
use node_agent_rs.Engine.Kinds.Merge.{
  merge_all, merge_psk_assoc, merge_psk_comm, Meaning, Reads, conflict-merge_all,
}
use node_agent_rs.Engine.Protocol.{
  ServerProxyConfig, vless, vmess, trojan, hysteria2, tuic_v5, anytls, naiveproxy, snell,
  port_forward, shadowsocks, http, socks, mixed_proxy, tls, websocket, Targets, no_targets, target,
  DefaultTarget, no_default, default_target, Ciphers, credential_kinds, merge_targets,
  merge_default,
}

merge_assoc : (a b c : CredentialKinds) → merge (merge a b) c ≡ merge a (merge b c)
unfolding merge
merge_assoc a b c =
    ground (arith, merge_psk_assoc a.shadowsocks_psk b.shadowsocks_psk c.shadowsocks_psk)

merge_none : (a : CredentialKinds) → merge a no_kinds ≡ a
unfolding merge
merge_none a = ground (arith, merge_psk_comm a.shadowsocks_psk ShadowsocksPsk.no_psk)

none_merge : (a : CredentialKinds) → merge no_kinds a ≡ a
unfolding merge
none_merge a = refl

merge_all-append :
    (xs ys : List CredentialKinds) → merge_all (xs ++ ys) ≡ merge (merge_all xs) (merge_all ys)
merge_all-append [] ys = sym (none_merge (merge_all ys))
merge_all-append (x ∷ xs) ys =
    ap (merge x) (merge_all-append xs ys) ∙ sym (merge_assoc x (merge_all xs) (merge_all ys))

module _ {C : Type 0} where
  -- The protocols that nest no other, in the order of the walks.
  abbrev mutual
    pub leaves : ServerProxyConfig C → List (ServerProxyConfig C)
    leaves vless = vless ∷ []
    leaves vmess = vmess ∷ []
    leaves trojan = trojan ∷ []
    leaves hysteria2 = hysteria2 ∷ []
    leaves tuic_v5 = tuic_v5 ∷ []
    leaves anytls = anytls ∷ []
    leaves naiveproxy = naiveproxy ∷ []
    leaves snell = snell ∷ []
    leaves port_forward = port_forward ∷ []
    leaves (shadowsocks config) = shadowsocks config ∷ []
    leaves (http username password) = http username password ∷ []
    leaves (socks username password) = socks username password ∷ []
    leaves (mixed_proxy username password) = mixed_proxy username password ∷ []
    leaves (tls tls_targets default shadowtls_targets reality_targets) =
        leaves_of tls_targets
        ++ (leaves_of_default default ++ (leaves_of shadowtls_targets ++ leaves_of reality_targets))
    leaves (websocket targets) = leaves_of targets

    pub leaves_of : Targets C → List (ServerProxyConfig C)
    leaves_of no_targets = []
    leaves_of (target protocol targets) = leaves protocol ++ leaves_of targets

    pub leaves_of_default : DefaultTarget C → List (ServerProxyConfig C)
    leaves_of_default no_default = []
    leaves_of_default (default_target protocol) = leaves protocol

module _ {C : Type 0} (ciphers : Ciphers C) where
  abbrev kinds_of : List (ServerProxyConfig C) → CredentialKinds
  kinds_of ls = merge_all (map (credential_kinds ciphers) ls)

  kinds_of-append :
      (xs ys : List (ServerProxyConfig C)) → kinds_of (xs ++ ys) ≡ merge (kinds_of xs) (kinds_of ys)
  kinds_of-append xs ys =
      ap merge_all (map-append (credential_kinds ciphers) xs ys)
      ∙ merge_all-append (map (credential_kinds ciphers) xs) (map (credential_kinds ciphers) ys)

  kinds_of-four :
      (a b c d : List (ServerProxyConfig C))
      → merge (merge (merge (kinds_of a) (kinds_of b)) (kinds_of c)) (kinds_of d)
        ≡ kinds_of (a ++ (b ++ (c ++ d)))
  kinds_of-four a b c d =
      merge_assoc (merge (kinds_of a) (kinds_of b)) (kinds_of c) (kinds_of d)
      ∙ merge_assoc (kinds_of a) (kinds_of b) (merge (kinds_of c) (kinds_of d))
      ∙ ap (λ x. merge (kinds_of a) (merge (kinds_of b) x)) (sym (kinds_of-append c d))
      ∙ ap (merge (kinds_of a)) (sym (kinds_of-append b (c ++ d)))
      ∙ sym (kinds_of-append a (b ++ (c ++ d)))

  leaf : (c : ServerProxyConfig C) → credential_kinds ciphers c ≡ kinds_of (c ∷ [])
  leaf c = sym (merge_none (credential_kinds ciphers c))

  mutual
    unfolding credential_kinds merge_targets merge_default

    credential_kinds-leaves :
        (c : ServerProxyConfig C) → credential_kinds ciphers c ≡ kinds_of (leaves c)
    credential_kinds-leaves vless = leaf vless
    credential_kinds-leaves vmess = leaf vmess
    credential_kinds-leaves trojan = leaf trojan
    credential_kinds-leaves hysteria2 = leaf hysteria2
    credential_kinds-leaves tuic_v5 = leaf tuic_v5
    credential_kinds-leaves anytls = leaf anytls
    credential_kinds-leaves naiveproxy = leaf naiveproxy
    credential_kinds-leaves snell = leaf snell
    credential_kinds-leaves port_forward = leaf port_forward
    credential_kinds-leaves (shadowsocks config) = leaf (shadowsocks config)
    credential_kinds-leaves (http username password) = leaf (http username password)
    credential_kinds-leaves (socks username password) = leaf (socks username password)
    credential_kinds-leaves (mixed_proxy username password) = leaf (mixed_proxy username password)
    credential_kinds-leaves (tls a default b c) =
        merge_targets-leaves c _
        ∙ ap (λ x. merge x (kinds_of (leaves_of c)))
            (merge_targets-leaves b _
              ∙ ap (λ x. merge x (kinds_of (leaves_of b)))
                  (merge_default-leaves default _
                    ∙ ap (λ x. merge x (kinds_of (leaves_of_default default)))
                        (merge_targets-leaves a no_kinds ∙ none_merge (kinds_of (leaves_of a)))))
        ∙ kinds_of-four (leaves_of a) (leaves_of_default default) (leaves_of b) (leaves_of c)
    credential_kinds-leaves (websocket targets) =
        merge_targets-leaves targets no_kinds ∙ none_merge (kinds_of (leaves_of targets))

    merge_targets-leaves :
        (ts : Targets C) (k : CredentialKinds)
        → merge_targets ciphers k ts ≡ merge k (kinds_of (leaves_of ts))
    merge_targets-leaves no_targets k = sym (merge_none k)
    merge_targets-leaves (target c ts) k =
        merge_targets-leaves ts (merge k (credential_kinds ciphers c))
        ∙ merge_assoc k (credential_kinds ciphers c) (kinds_of (leaves_of ts))
        ∙ ap (λ x. merge k (merge x (kinds_of (leaves_of ts)))) (credential_kinds-leaves c)
        ∙ ap (merge k) (sym (kinds_of-append (leaves c) (leaves_of ts)))

    merge_default-leaves :
        (d : DefaultTarget C) (k : CredentialKinds)
        → merge_default ciphers k d ≡ merge k (kinds_of (leaves_of_default d))
    merge_default-leaves no_default k = sym (merge_none k)
    merge_default-leaves (default_target c) k = ap (merge k) (credential_kinds-leaves c)

  -- The credential forms of an inbound have no conflict exactly if there is one meaning of
  -- `password` by which every protocol of the tree, however deep, that reads it reads it.
  pub conflict-credential_kinds :
      (c : ServerProxyConfig C)
      → (conflict (credential_kinds ciphers c) ≡ none)
        ↔ ((m : Meaning) × All (Reads m) (map (credential_kinds ciphers) (leaves c)))
  conflict-credential_kinds c =
      rw (credential_kinds-leaves c)
        (conflict-merge_all (map (credential_kinds ciphers) (leaves c)))
