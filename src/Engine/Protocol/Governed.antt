-- ===== src/Engine/Protocol/Governed.antt =====
-- Which inbounds a `users` list governs: those whose every protocol authenticates its clients.
use node_agent_rs.Base.{
  ◌≡◌, ◌↔◌, refl, true, Option, none, some, List, ◌++◌, All, All-append, All-split, ◌≢◌, ◌⊎◌, inl,
  inr, Text, codes, arith,
}
use node_agent_rs.Engine.Protocol.{
  ServerProxyConfig, vless, vmess, trojan, hysteria2, tuic_v5, anytls, naiveproxy, snell,
  port_forward, shadowsocks, http, socks, mixed_proxy, tls, websocket, Targets, no_targets, target,
  DefaultTarget, no_default, default_target, Ciphers, Unservable, or_next,
  unservable_registry_target, first_unservable, unservable_default, unauthenticated_target,
  unservable_shadowsocks, legacy, aead2022,
}
use node_agent_rs.Engine.Protocol.Leaves.{leaves, leaves_of, leaves_of_default}

module _ {C : Type 0} (ciphers : Ciphers C) where
  -- The protocol authenticates every client, by the registry or by a credential of its own.
  abbrev pub Authenticates : ServerProxyConfig C → Type 0
  Authenticates (shadowsocks (aead2022 cipher)) = ciphers.supports_multi_user cipher ≡ true
  Authenticates (shadowsocks legacy) = Unit
  Authenticates (http username password) = (username ≢ none) ⊎ (password ≢ none)
  Authenticates (socks username password) = (username ≢ none) ⊎ (password ≢ none)
  Authenticates (mixed_proxy username password) = (username ≢ none) ⊎ (password ≢ none)
  Authenticates port_forward = ⊥
  Authenticates vless = Unit
  Authenticates vmess = Unit
  Authenticates trojan = Unit
  Authenticates hysteria2 = Unit
  Authenticates tuic_v5 = Unit
  Authenticates anytls = Unit
  Authenticates naiveproxy = Unit
  Authenticates snell = Unit
  Authenticates (tls a d b c) = Unit
  Authenticates (websocket ts) = Unit

  abbrev Servable : ServerProxyConfig C → Type 0
  Servable c = (unservable_registry_target ciphers c ≡ none) ↔ All Authenticates (leaves c)

  authenticated :
      (kind : Text) (username password : Option Text)
      → (unauthenticated_target kind username password ≡ none)
        ↔ (((username ≢ none) ⊎ (password ≢ none)) × Unit {0})
  unfolding unauthenticated_target
  authenticated kind none none = (
    λ h. absurd (ground arith),
    λ h. elim h.0 [ inl n ↦ absurd (n refl) | inr n ↦ absurd (n refl) ],
  )
  authenticated kind (some u) password = (λ h. (inl (λ e. ground arith), tt), λ h. refl)
  authenticated kind none (some p) = (λ h. (inr (λ e. ground arith), tt), λ h. refl)

  or_next-none : (a b : Option Unservable) → (or_next a b ≡ none) ↔ ((a ≡ none) × (b ≡ none))
  or_next-none none b = ground arith
  or_next-none (some reason) b = ground arith

  both :
      (a b : Option Unservable) (xs ys : List (ServerProxyConfig C))
      → (a ≡ none) ↔ All Authenticates xs
      → (b ≡ none) ↔ All Authenticates ys
      → (or_next a b ≡ none) ↔ All Authenticates (xs ++ ys)
  both a b xs ys f g = (
    λ h. let (ea, eb) = (or_next-none a b).0 h in All-append Authenticates xs ys (f.0 ea) (g.0 eb),
    λ h. let (hx, hy) = All-split Authenticates xs ys h in (or_next-none a b).1 (f.1 hx, g.1 hy),
  )

  mutual
    unfolding unservable_registry_target first_unservable unservable_default unservable_shadowsocks

    servable : (c : ServerProxyConfig C) → Servable c
    servable vless = ground arith
    servable vmess = ground arith
    servable trojan = ground arith
    servable hysteria2 = ground arith
    servable tuic_v5 = ground arith
    servable anytls = ground arith
    servable naiveproxy = ground arith
    servable snell = ground arith
    servable port_forward = ground arith
    servable (shadowsocks legacy) = ground arith
    servable (shadowsocks (aead2022 cipher)) = ground arith
    servable (http username password) = authenticated (codes "http") username password
    servable (socks username password) = authenticated (codes "socks") username password
    servable (mixed_proxy username password) = authenticated (codes "mixed") username password
    servable (tls a default b c) = both _ _ (leaves_of a) _ (targets_iff a) (
        both _ _ (leaves_of_default default) _ (default_iff default)
          (both _ _ (leaves_of b) (leaves_of c) (targets_iff b) (targets_iff c)))
    servable (websocket targets) = targets_iff targets

    targets_iff :
        (ts : Targets C) → (first_unservable ciphers ts ≡ none) ↔ All Authenticates (leaves_of ts)
    targets_iff no_targets = ground arith
    targets_iff (target c ts) = both _ _ (leaves c) (leaves_of ts) (servable c) (targets_iff ts)

    default_iff :
        (d : DefaultTarget C)
        → (unservable_default ciphers d ≡ none) ↔ All Authenticates (leaves_of_default d)
    default_iff no_default = ground arith
    default_iff (default_target c) = servable c

  -- An inbound has no target that a `users` list would not govern exactly if every protocol of the
  -- tree, however deep, authenticates its clients.
  pub unservable_registry_target_iff :
      (c : ServerProxyConfig C)
      → (unservable_registry_target ciphers c ≡ none) ↔ All Authenticates (leaves c)
  unservable_registry_target_iff c = servable c
