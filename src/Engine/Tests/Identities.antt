-- ===== src/Engine/Tests/Identities.antt =====
-- The lookups of VMess, TUIC and Shadowsocks at a concrete registry.
use node_agent_rs.Base.{
  if◌then◌else◌, ◌≡◌, refl, none, some, codes, lookup, insert, remove, text_eq, Result, ok, err,
  ◌↔◌,
}
use node_agent_rs.PortHopping.Ranges.{trim, trim_start, is_whitespace}
use node_agent_rs.Engine.Kinds.{takes_password, accepted_fields}
use node_agent_rs.Engine.Shoes.{Shoes}
use node_agent_rs.Engine.Credentials.{
  UserSpec, resolved_id, parse_uuid_field, parse_psk_field, parse_psk_of_len, check_fields,
  parse_credentials, collected,
}
use node_agent_rs.Engine.Indexes.{
  Failure, opt_eq, owner, claimed_by_other, refuse_claimed, check_credentials_unclaimed, drop_key,
  retire_key, file_key, retire_keys, file_keys, claim, lower, release, claim_anytls_prefix,
  release_anytls_prefix, release_dropped, claim_filed, new_indexes,
}
use node_agent_rs.Engine.Users.{
  Registry, new_registry, user_info, candidates, republish_vmess, id_of_spec, refuse_draining,
  context_of, cell_of, next_cell_after, configure, new_entry, retire_previous, replace_user, admit,
  upsert_locked, upsert,
}
use mathlib.Core.Option
use node_agent_rs.Engine.Users.Lookups.{is_enabled}
use node_agent_rs.Engine.Users.Runs.{upserts, Reach, here, next}
use node_agent_rs.Engine.Tests.{demo, quiet, user}
use node_agent_rs.Engine.Kinds.{tuic_kinds}
use node_agent_rs.Engine.Users.Lookups.{
  VmessIdentity, TuicIdentity, ShadowsocksIdentity, find_vmess_auth_id, first_vmess, accept_vmess,
  find_tuic_uuid, find_shadowsocks_psk_hash,
}
use node_agent_rs.Engine.Users.Sealers.{Sealer, find_vmess_auth_id-Sealer}
use node_agent_rs.Engine.Users.Identities.{Live, IsTuic, IsShadowsocks, find_identity_iff}

-- The auth id of a uuid is the uuid.
abbrev sealing : Shoes
sealing = record demo { open_auth_id = λ key auth_id. if text_eq key auth_id then some 7 else none }

abbrev carol : UserSpec
carol = record (user (codes "carol") (codes "token")) { uuid = some (codes "uuid") }

abbrev first : Registry sealing
first = new_registry sealing tuic_kinds

abbrev added : {A : Type 0} → Result Failure (A × Registry sealing) → Registry sealing
added (ok (a, after)) = after
added (err e) = first

abbrev with_carol : Registry sealing
with_carol = added (upsert sealing first carol)

carol_added :
    upsert sealing first carol ≡ ok (record { id = codes "carol"; stats = quiet }, with_carol)
unfolding upsert upsert_locked admit id_of_spec resolved_id refuse_draining parse_credentials
    check_fields takes_password accepted_fields parse_uuid_field parse_psk_field parse_psk_of_len
    collected check_credentials_unclaimed refuse_claimed claimed_by_other owner replace_user
    context_of cell_of next_cell_after configure new_entry retire_previous retire_keys retire_key
    opt_eq drop_key release_dropped release_anytls_prefix release lower file_keys file_key
    claim_filed claim_anytls_prefix claim new_registry new_indexes republish_vmess candidates
    user_info lookup insert remove text_eq trim trim_start is_whitespace
carol_added = refl

with_carol_reached : Reach sealing first with_carol
with_carol_reached = next here (upserts first with_carol carol _ carol_added)

carol_sealed :
    find_vmess_auth_id sealing with_carol (codes "uuid")
    ≡ some (record {
      user = record { id = codes "carol"; address = 0 };
      instruction_key = codes "uuid";
      timestamp = 7;
    })
unfolding upsert upsert_locked admit id_of_spec resolved_id refuse_draining parse_credentials
    check_fields takes_password accepted_fields parse_uuid_field parse_psk_field parse_psk_of_len
    collected check_credentials_unclaimed refuse_claimed claimed_by_other owner replace_user
    context_of cell_of next_cell_after configure new_entry retire_previous retire_keys retire_key
    opt_eq drop_key release_dropped release_anytls_prefix release lower file_keys file_key
    claim_filed claim_anytls_prefix claim new_registry new_indexes republish_vmess candidates
    user_info lookup insert remove text_eq trim trim_start is_whitespace find_vmess_auth_id
    first_vmess accept_vmess Option.bind is_enabled
carol_sealed = refl

find_vmess_auth_id-Sealer_example :
    ((identity : VmessIdentity)
      → find_vmess_auth_id sealing with_carol (codes "uuid") ≡ some identity
      → Sealer sealing with_carol (codes "uuid") identity)
    × (find_vmess_auth_id sealing with_carol (codes "uuid") ≡ none
        → (identity : VmessIdentity) → ¬ Sealer sealing with_carol (codes "uuid") identity)
find_vmess_auth_id-Sealer_example =
    find_vmess_auth_id-Sealer sealing tuic_kinds with_carol with_carol_reached (codes "uuid")

carol_named :
    find_tuic_uuid sealing with_carol (codes "uuid")
    ≡ some (record { user = record { id = codes "carol"; address = 0 }; password = codes "token" })
unfolding upsert upsert_locked admit id_of_spec resolved_id refuse_draining parse_credentials
    check_fields takes_password accepted_fields parse_uuid_field parse_psk_field parse_psk_of_len
    collected check_credentials_unclaimed refuse_claimed claimed_by_other owner replace_user
    context_of cell_of next_cell_after configure new_entry retire_previous retire_keys retire_key
    opt_eq drop_key release_dropped release_anytls_prefix release lower file_keys file_key
    claim_filed claim_anytls_prefix claim new_registry new_indexes republish_vmess candidates
    user_info lookup insert remove text_eq trim trim_start is_whitespace find_tuic_uuid Option.bind
    is_enabled
carol_named = refl

find_identity_iff_example :
    ((identity : TuicIdentity)
      → (find_tuic_uuid sealing with_carol (codes "uuid") ≡ some identity)
        ↔ Live sealing with_carol (IsTuic sealing with_carol (codes "uuid") identity))
    × ((identity : ShadowsocksIdentity)
        → (find_shadowsocks_psk_hash sealing with_carol (codes "uuid") ≡ some identity)
          ↔ Live sealing with_carol (IsShadowsocks sealing with_carol (codes "uuid") identity))
find_identity_iff_example =
    find_identity_iff sealing tuic_kinds with_carol with_carol_reached (codes "uuid")
