-- ===== src/Engine/Users/Rotated.antt =====
-- Whom the lookups find after a user was added or updated, and which AnyTLS prefixes are known.
use mathlib.Core.Path.{subst}
use node_agent_rs.Base.{
  ℕ, ◌≡◌, ◌<◌, ◌↔◌, refl, sym, ap, ◌∙◌, true, Option, none, some, List, [], ◌∷◌, Text, text_eq_iff,
  lookup, lookup-insert, ok, Bool-cases, ==_iff, ltb, ltb→lt, text_eq_refl, inl, inr, arith,
}
use node_agent_rs.Engine.Kinds.{CredentialKinds}
use node_agent_rs.Engine.Shoes.{Shoes, SettingsLaws, UserContext}
use node_agent_rs.Engine.Credentials.{UserSpec, Credentials, Entry}
use node_agent_rs.Engine.Indexes.{Indexes}
use node_agent_rs.Engine.Indexes.Forms.{Form, key_of}
use node_agent_rs.Engine.Users.{
  Registry, UserInfo, new_registry, context_of, cell_of, configure, or_zero, new_entry,
  republish_vmess, admit, upsert,
}
use node_agent_rs.Engine.Users.Lookups.{is_enabled, contains_prefix, has_password_sha256_prefix}
use node_agent_rs.Engine.Indexes.Prefixes.{Prefixes, HasNoZero, counted, weight}
use node_agent_rs.Engine.Users.Consistent.{entry_key, HasDistinctKeys, total, entry_weight}
use node_agent_rs.Engine.Users.Valid.{IsValid}
use node_agent_rs.Engine.Users.Upserted.{upserted, context_id}
use node_agent_rs.Engine.Users.Found.{find, find_iff}
use node_agent_rs.Engine.Users.Initial.{new_registry-IsValid}
use node_agent_rs.Engine.Users.Runs.{Reach, upsert_cases, same_state, Reach-IsValid}

module _ (s : Shoes) (laws : SettingsLaws s) where
  configured_enabled :
      (analysis : Option s.Analysis) (spec : UserSpec) (cell : s.Cell)
      → (s.stats (configure s analysis spec cell)).enabled ≡ spec.enabled
  unfolding configure
  configured_enabled analysis spec cell =
      laws.enabled_speed_limits (or_zero spec.upload_limit_bps) (or_zero spec.download_limit_bps) _
      ∙ laws.enabled_max_conns (or_zero spec.max_conns) _
      ∙ laws.enabled_set spec.enabled _

  module _ (r : Registry s) (valid : IsValid s r) (id : Text) (spec : UserSpec) (c : Credentials)
      (filed : Indexes s.VmessAuthKey)
      (valid' : IsValid s (republish_vmess s (upserted s r id spec c filed))) where
    -- The entry that was filed, and the registry after it.
    abbrev entry : Entry s.VmessAuthKey
    entry = new_entry s (context_of s r id (lookup id r.users)) c

    enabled_after :
        is_enabled s
          (republish_vmess s (upserted s r id spec c filed))
          (context_of s r id (lookup id r.users))
        ≡ spec.enabled
    unfolding is_enabled republish_vmess
    enabled_after =
        let at = (context_of s r id (lookup id r.users)).address in
        rw (is_enabled, (==_iff at at).1 refl)
          (configured_enabled r.analysis spec (cell_of s r (lookup id r.users)))

    live_after :
        (e : Entry s.VmessAuthKey) (i : Text)
        → lookup i (republish_vmess s (upserted s r id spec c filed)).users ≡ some e
        → i ≡ id
        → e ≡ entry
    unfolding republish_vmess
    live_after e i h same = ground (arith, lookup-insert i id entry r.users, text_eq_iff id i)

    live_new : lookup id (republish_vmess s (upserted s r id spec c filed)).users ≡ some entry
    unfolding republish_vmess
    live_new = ground (arith, lookup-insert id id entry r.users, text_eq_iff id id)

    reaches :
        (f : Form) (key : Text) (context : UserContext)
        → ((find s (republish_vmess s (upserted s r id spec c filed)) f key ≡ some context)
            × (context.id ≡ id))
          ↔ ((key_of f c ≡ some key)
              × (spec.enabled ≡ true)
              × (context ≡ context_of s r id (lookup id r.users)))
    unfolding new_entry
    reaches f key context =
        let both =
          find_iff s (republish_vmess s (upserted s r id spec c filed)) valid' f key context in
        (
          λ h.
              let holder = both.0 h.0 in
              let own : holder.id ≡ id =
                sym (valid'.agree.named holder.id holder.entry holder.live)
                ∙ ap (λ (x : UserContext). x.id) holder.is
                ∙ h.1 in
              let same : holder.entry ≡ entry = live_after holder.entry holder.id holder.live own in
              (
                ap (λ (e : Entry s.VmessAuthKey). entry_key f e) (sym same) ∙ holder.has,
                sym enabled_after
                    ∙ ap
                        (λ (e : Entry s.VmessAuthKey).
                          is_enabled s (republish_vmess s (upserted s r id spec c filed)) e.context)
                        (sym same)
                    ∙ holder.enabled,
                sym holder.is ∙ ap (λ (e : Entry s.VmessAuthKey). e.context) same,
              ),
          λ h.
              let (has, enabled, is) = h in
              (
                both.1 (record {
                  id = id;
                  entry = entry;
                  live = live_new;
                  has = has;
                  enabled = enabled_after ∙ enabled;
                  is = sym is;
                }),
                ap (λ (x : UserContext). x.id) is ∙ context_id s r valid id,
              ),
        )

  -- After a successful `upsert` on a registry that was reached from a new one, if the settings of a
  -- record write only their own fields, the credentials that lead to the user are exactly the new
  -- ones, if the user is enabled, and they lead to the record that the user had before, if any.
  pub upsert_rotates :
      (kinds : CredentialKinds) (r later : Registry s)
      → Reach s (new_registry s kinds) r
      → (spec : UserSpec) (info : UserInfo) → upsert s r spec ≡ ok (info, later)
      → (id : Text) × (c : Credentials) × (admit s r spec ≡ ok (id, c))
        × ((f : Form) (key : Text) (context : UserContext)
            → ((find s later f key ≡ some context) × (context.id ≡ id)) ↔ (
                (key_of f c ≡ some key)
                × (spec.enabled ≡ true)
                × (context ≡ context_of s r id (lookup id r.users))))
  upsert_rotates kinds r later reached spec info h =
      let valid = Reach-IsValid s (new_registry-IsValid s kinds) reached in
      elim (upsert_cases s r valid spec) [
        | inl (error, refusal, answer) ↦ absurd (ground arith)
        | inr (id, c, filed, admitted, answer, valid') ↦ (
          id,
          c,
          admitted,
          subst
              (λ x.
                (f : Form) (key : Text) (context : UserContext)
                → ((find s x f key ≡ some context) × (context.id ≡ id)) ↔ (
                    (key_of f c ≡ some key)
                    × (spec.enabled ≡ true)
                    × (context ≡ context_of s r id (lookup id r.users))))
              (same_state (upsert s r spec) answer h) (reaches r valid id spec c filed valid'),
        )
      ]

has_weight :
    (s : Shoes) (o : Option Text) (p : Text)
    → 0 < weight s o p
    → (hash : Text) × (o ≡ some hash) × (s.password_sha256_prefix hash ≡ p)
has_weight s none p h = absurd (omega arith)
has_weight s (some hash) p h =
    (hash, refl, ground (arith, text_eq_iff (s.password_sha256_prefix hash) p))

module _ {V : Type 0} (f : V → ℕ) where
  -- A positive total has a value that is not zero, and conversely.
  total_witness :
      (m : List (Text × V))
      → HasDistinctKeys m
      → 0 < total f m
      → (k : Text) × (v : V) × (lookup k m ≡ some v) × (0 < f v)
  unfolding lookup
  total_witness [] d h = absurd (omega arith)
  total_witness ((k, v) ∷ m) (fresh, d) h = elim (Bool-cases (ltb 0 (f v))) [
    | inl own ↦ (k, v, rw (text_eq_refl k) refl, ltb→lt 0 (f v) own)
    | inr other ↦
        let (i, w, at, has) = total_witness m d (ground arith) in
        (i, w, ground (arith, text_eq_iff k i), has)
  ]

  total_positive :
      (m : List (Text × V)) (k : Text) (v : V) → lookup k m ≡ some v → 0 < f v → 0 < total f m
  unfolding lookup
  total_positive [] k v h has = ground arith
  total_positive ((j, w) ∷ m) k v h has = ground (arith, total_positive m k v)

module _ (s : Shoes) (kinds : CredentialKinds) where
  counted_iff :
      (pre : Prefixes) (p : Text)
      → HasNoZero pre
      → (contains_prefix pre p ≡ true) ↔ (0 < counted pre p)
  counted_iff none p h = ground arith
  counted_iff (some m) p h = ground (arith, h p)

  -- On a registry that was reached from a new one, a prefix is known exactly if the AnyTLS hash of
  -- some live user, enabled or not, starts with it.
  pub has_prefix_iff :
      (r : Registry s)
      → Reach s (new_registry s kinds) r
      → (prefix : Text)
      → (has_password_sha256_prefix s r prefix ≡ true) ↔ (
          (id : Text) × (e : Entry s.VmessAuthKey) × (hash : Text) × (lookup id r.users ≡ some e)
          × (e.credentials.anytls_hash ≡ some hash)
          × (s.password_sha256_prefix hash ≡ prefix))
  unfolding has_password_sha256_prefix
  has_prefix_iff r reached prefix =
      let agree = (Reach-IsValid s (new_registry-IsValid s kinds) reached).agree in
      let known = counted_iff r.indexes.anytls_prefixes prefix agree.no_zero in
      let sum = agree.prefixes_counted prefix in
      (
        λ h.
            let (id, e, live, has) =
              total_witness (entry_weight s prefix) r.users agree.distinct
                (omega (arith, known.0 h)) in
            let (hash, is, starts) = has_weight s e.credentials.anytls_hash prefix has in
            (id, e, hash, live, is, starts),
        λ h.
            let (id, e, hash, live, is, starts) = h in
            known.1 (
              omega (
                arith,
                total_positive (entry_weight s prefix) r.users id e live
                    (rw is (ground (arith, text_eq_iff (s.password_sha256_prefix hash) prefix))),
              )),
      )
