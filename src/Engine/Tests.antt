-- ===== src/Engine/Tests.antt =====
-- Runs of the users of an inbound on concrete inputs.
pub mod Users
pub mod Protocol
pub mod Identities
use node_agent_rs.Base.{
  ℕ, ◌==◌, if◌then◌else◌, ◌≡◌, ◌≢◌, refl, Bool, true, false, Option, none, some, List, [], ◌∷◌, map,
  Text, codes, lookup, insert, remove, text_eq, Result, ok, err, ◌↔◌, ◌⊎◌, inl, inr, arith, All,
}
use node_agent_rs.PortHopping.Ranges.{trim, trim_start, is_whitespace}
use node_agent_rs.Engine.Kinds.{
  CredentialKinds, no_kinds, trojan_password_kinds, anytls_password_kinds, uuid_kinds,
  plain_password_kinds, shadowsocks_psk_kinds, merge, takes_password, accepted_fields, conflict,
  psk_conflict, takes_cleartext, cleartext_and_psk,
}
use node_agent_rs.Engine.Kinds.Merge.{Meaning, cleartext, Reads, merge_all, conflict-merge_all}
use node_agent_rs.Engine.Shoes.{Shoes, SettingsLaws, UserStats, UserContext}
use node_agent_rs.Engine.Credentials.{
  duplicate_credential, UserSpec, resolved_id, Entry, Credentials, parse_uuid_field,
  parse_psk_field, parse_psk_of_len, check_fields, parse_credentials, collected,
}
use node_agent_rs.Engine.Indexes.{
  Failure, refused, Index, opt_eq, owner, claimed_by_other, refuse_claimed,
  check_credentials_unclaimed, drop_key, retire_key, file_key, retire_keys, file_keys, drop_keys,
  claim, lower, release, claim_anytls_prefix, release_anytls_prefix, release_dropped, claim_filed,
  new_indexes,
}
use node_agent_rs.Engine.Users.{
  Registry, DrainingUser, UserInfo, new_registry, user_info, candidates, republish_vmess,
  id_of_spec, refuse_draining, context_of, cell_of, next_cell_after, configure, new_entry,
  retire_previous, replace_user, admit, upsert_locked, upsert, add_users, from_users,
}
use node_agent_rs.Engine.Users.Reports.{
  take_nonzero_traffic, take_each_nonzero, taken_user_info_with_counters, sort_by_id, insert_by_id,
}
use node_agent_rs.Engine.Users.Removal.{
  joined, revoke_user, attach, begin_remove, complete, is_drained, finish, finish_unstored,
  remove_same, clear_draining_generation, collect, end_remove,
}
use mathlib.Core.Option
use node_agent_rs.Engine.Indexes.Forms.{Form}
use node_agent_rs.Engine.Users.Lookups.{find_trojan_hash, find_by, accept, is_enabled}
use node_agent_rs.Engine.Users.Found.{find}
use node_agent_rs.Engine.Users.Runs.{Step, upserts, begins, Reach, here, next}

abbrev pub quiet : UserStats
quiet = record {
  enabled = true;
  tx = 0;
  rx = 0;
  last_traffic_observed_at_unix_millis = 0;
  conns = 0;
  total_conns = 0;
  max_conns = 0;
  upload_limit_bps = 0;
  download_limit_bps = 0;
}

abbrev pub first_code : Text → Text
first_code [] = []
first_code (c ∷ cs) = c ∷ []

abbrev pub demo : Shoes
demo = record {
  Cell = UserStats;
  Analysis = Unit;
  VmessAuthKey = Text;
  new_cell = quiet;
  set_analysis_context = λ analysis cell. cell;
  set_enabled = λ b cell. record cell { enabled = b };
  set_max_conns = λ n cell. record cell { max_conns = n };
  set_speed_limits = λ u d cell. record cell { upload_limit_bps = u; download_limit_bps = d };
  revoke_connections = λ cell. cell;
  kick_connections = λ cell. (cell.conns, cell);
  take_traffic = λ cell. ((cell.tx, cell.rx), record cell { tx = 0; rx = 0 });
  stats = λ cell. cell;
  parse_uuid = λ uuid. ok uuid;
  decode_shadowsocks_psk = λ password. ok password;
  shadowsocks_psk_hash = λ psk. psk;
  trojan_password_hash = λ password. password;
  password_sha256 = λ password. password;
  password_sha256_prefix = first_code;
  naive_basic_credential = λ id password. password;
  new_vmess_auth_key = λ uuid. uuid;
  open_auth_id = λ key auth_id. none;
  instruction_key = λ key. key;
}

pub demo_laws : SettingsLaws demo
demo_laws = record {
  enabled_set = λ b c. refl;
  enabled_max_conns = λ n c. refl;
  enabled_speed_limits = λ u d c. refl;
}

-- Trojan and AnyTLS on two names of one inbound.
abbrev pub two_kinds : CredentialKinds
two_kinds = record no_kinds { trojan_password = true; anytls_password = true }

abbrev pub user : Text → Text → UserSpec
user id password = record {
  id = some id;
  uuid = none;
  password = some password;
  enabled = true;
  max_conns = none;
  upload_limit_bps = none;
  download_limit_bps = none;
}

abbrev pub alice : UserSpec
alice = user (codes "alice") (codes "one")

-- The same user, with another password.
abbrev pub alice_rotated : UserSpec
alice_rotated = user (codes "alice") (codes "two")

abbrev pub empty : Registry demo
empty = new_registry demo two_kinds

abbrev pub state : {A : Type 0} → Registry demo → Result Failure (A × Registry demo) → Registry demo
state r (ok (a, after)) = after
state r (err e) = r

abbrev pub bob : UserSpec
bob = user (codes "bob") (codes "two")

abbrev pub with_alice : Registry demo
with_alice = state empty (upsert demo empty alice)

abbrev pub with_both : Registry demo
with_both = state with_alice (upsert demo with_alice bob)

abbrev pub without_alice : Registry demo
without_alice = state with_both (begin_remove demo with_both (codes "in") (codes "alice"))

abbrev pub rotated : Registry demo
rotated = state with_alice (upsert demo with_alice alice_rotated)

abbrev pub with_alice_entry : Text → Entry Text
with_alice_entry password = record {
  context = record { id = codes "alice"; address = 0 };
  credentials = record {
    uuid = none;
    trojan_hash = some password;
    password = none;
    shadowsocks = none;
    tuic_password = none;
    anytls_hash = some password;
    naive_encoded = none;
  };
  vmess = none;
}

abbrev pub alice_entry : Entry Text
alice_entry = with_alice_entry (codes "one")

abbrev pub bob_context : UserContext
bob_context = record { id = codes "bob"; address = 1 }

abbrev pub alice_generation : DrainingUser Text
alice_generation = record { address = 0; entry = alice_entry }

abbrev pub alice_info : UserInfo
alice_info = record { id = codes "alice"; stats = quiet }

pub alice_added : upsert demo empty alice ≡ ok (alice_info, with_alice)
unfolding upsert upsert_locked admit id_of_spec resolved_id refuse_draining parse_credentials
    check_fields takes_password accepted_fields parse_uuid_field parse_psk_field parse_psk_of_len
    collected check_credentials_unclaimed refuse_claimed claimed_by_other owner replace_user
    context_of cell_of next_cell_after configure new_entry retire_previous retire_keys retire_key
    opt_eq drop_key release_dropped release_anytls_prefix release lower file_keys file_key
    claim_filed claim_anytls_prefix claim new_registry new_indexes republish_vmess candidates
    user_info lookup insert remove text_eq trim trim_start is_whitespace drop_keys begin_remove
    revoke_user attach finish finish_unstored complete is_drained add_users from_users
alice_added = refl

pub alice_live : lookup (codes "alice") with_alice.users ≡ some alice_entry
unfolding upsert upsert_locked admit id_of_spec resolved_id refuse_draining parse_credentials
    check_fields takes_password accepted_fields parse_uuid_field parse_psk_field parse_psk_of_len
    collected check_credentials_unclaimed refuse_claimed claimed_by_other owner replace_user
    context_of cell_of next_cell_after configure new_entry retire_previous retire_keys retire_key
    opt_eq drop_key release_dropped release_anytls_prefix release lower file_keys file_key
    claim_filed claim_anytls_prefix claim new_registry new_indexes republish_vmess candidates
    user_info lookup insert remove text_eq trim trim_start is_whitespace drop_keys begin_remove
    revoke_user attach finish finish_unstored complete is_drained add_users from_users
alice_live = refl

pub bob_added :
    upsert demo with_alice bob ≡ ok (record { id = codes "bob"; stats = quiet }, with_both)
unfolding upsert upsert_locked admit id_of_spec resolved_id refuse_draining parse_credentials
    check_fields takes_password accepted_fields parse_uuid_field parse_psk_field parse_psk_of_len
    collected check_credentials_unclaimed refuse_claimed claimed_by_other owner replace_user
    context_of cell_of next_cell_after configure new_entry retire_previous retire_keys retire_key
    opt_eq drop_key release_dropped release_anytls_prefix release lower file_keys file_key
    claim_filed claim_anytls_prefix claim new_registry new_indexes republish_vmess candidates
    user_info lookup insert remove text_eq trim trim_start is_whitespace drop_keys begin_remove
    revoke_user attach finish finish_unstored complete is_drained add_users from_users
bob_added = refl

pub alice_changed : upsert demo with_alice alice_rotated ≡ ok (alice_info, rotated)
unfolding upsert upsert_locked admit id_of_spec resolved_id refuse_draining parse_credentials
    check_fields takes_password accepted_fields parse_uuid_field parse_psk_field parse_psk_of_len
    collected check_credentials_unclaimed refuse_claimed claimed_by_other owner replace_user
    context_of cell_of next_cell_after configure new_entry retire_previous retire_keys retire_key
    opt_eq drop_key release_dropped release_anytls_prefix release lower file_keys file_key
    claim_filed claim_anytls_prefix claim new_registry new_indexes republish_vmess candidates
    user_info lookup insert remove text_eq trim trim_start is_whitespace drop_keys begin_remove
    revoke_user attach finish finish_unstored complete is_drained add_users from_users
alice_changed = refl

pub alice_removed :
    begin_remove demo with_both (codes "in") (codes "alice")
    ≡ ok ((alice_generation, true), without_alice)
unfolding upsert upsert_locked admit id_of_spec resolved_id refuse_draining parse_credentials
    check_fields takes_password accepted_fields parse_uuid_field parse_psk_field parse_psk_of_len
    collected check_credentials_unclaimed refuse_claimed claimed_by_other owner replace_user
    context_of cell_of next_cell_after configure new_entry retire_previous retire_keys retire_key
    opt_eq drop_key release_dropped release_anytls_prefix release lower file_keys file_key
    claim_filed claim_anytls_prefix claim new_registry new_indexes republish_vmess candidates
    user_info lookup insert remove text_eq trim trim_start is_whitespace drop_keys begin_remove
    revoke_user attach finish finish_unstored complete is_drained add_users from_users
alice_removed = refl

pub alice_draining : lookup (codes "alice") without_alice.draining ≡ some alice_generation
unfolding upsert upsert_locked admit id_of_spec resolved_id refuse_draining parse_credentials
    check_fields takes_password accepted_fields parse_uuid_field parse_psk_field parse_psk_of_len
    collected check_credentials_unclaimed refuse_claimed claimed_by_other owner replace_user
    context_of cell_of next_cell_after configure new_entry retire_previous retire_keys retire_key
    opt_eq drop_key release_dropped release_anytls_prefix release lower file_keys file_key
    claim_filed claim_anytls_prefix claim new_registry new_indexes republish_vmess candidates
    user_info lookup insert remove text_eq trim trim_start is_whitespace drop_keys begin_remove
    revoke_user attach finish finish_unstored complete is_drained add_users from_users
alice_draining = refl

pub alice_drained : is_drained demo without_alice alice_generation ≡ true
unfolding upsert upsert_locked admit id_of_spec resolved_id refuse_draining parse_credentials
    check_fields takes_password accepted_fields parse_uuid_field parse_psk_field parse_psk_of_len
    collected check_credentials_unclaimed refuse_claimed claimed_by_other owner replace_user
    context_of cell_of next_cell_after configure new_entry retire_previous retire_keys retire_key
    opt_eq drop_key release_dropped release_anytls_prefix release lower file_keys file_key
    claim_filed claim_anytls_prefix claim new_registry new_indexes republish_vmess candidates
    user_info lookup insert remove text_eq trim trim_start is_whitespace drop_keys begin_remove
    revoke_user attach finish finish_unstored complete is_drained add_users from_users
alice_drained = refl

pub with_alice_reached : Reach demo empty with_alice
with_alice_reached = next here (upserts empty with_alice alice alice_info alice_added)

pub with_both_reached : Reach demo empty with_both
with_both_reached = next with_alice_reached (upserts with_alice with_both bob _ bob_added)

pub alice_attached :
    begin_remove demo without_alice (codes "in") (codes "alice")
    ≡ ok ((alice_generation, false), without_alice)
unfolding upsert upsert_locked admit id_of_spec resolved_id refuse_draining parse_credentials
    check_fields takes_password accepted_fields parse_uuid_field parse_psk_field parse_psk_of_len
    collected check_credentials_unclaimed refuse_claimed claimed_by_other owner replace_user
    context_of cell_of next_cell_after configure new_entry retire_previous retire_keys retire_key
    opt_eq drop_key release_dropped release_anytls_prefix release lower file_keys file_key
    claim_filed claim_anytls_prefix claim new_registry new_indexes republish_vmess candidates
    user_info lookup insert remove text_eq trim trim_start is_whitespace drop_keys begin_remove
    revoke_user attach finish finish_unstored complete is_drained add_users from_users
alice_attached = refl

pub without_alice_reached : Reach demo empty without_alice
without_alice_reached = next with_both_reached (
    begins with_both without_alice (codes "in") (codes "alice") alice_generation true alice_removed)

-- A credential that another user has is refused.
taken :
    upsert demo with_alice (user (codes "bob") (codes "one"))
    ≡ err (refused (duplicate_credential (codes "bob") (codes "alice")))
unfolding upsert upsert_locked admit id_of_spec resolved_id refuse_draining parse_credentials
    check_fields takes_password accepted_fields parse_uuid_field parse_psk_field parse_psk_of_len
    collected check_credentials_unclaimed refuse_claimed claimed_by_other owner replace_user
    context_of cell_of next_cell_after configure new_entry retire_previous retire_keys retire_key
    opt_eq drop_key release_dropped release_anytls_prefix release lower file_keys file_key
    claim_filed claim_anytls_prefix claim new_registry new_indexes republish_vmess candidates
    user_info lookup insert remove text_eq trim trim_start is_whitespace drop_keys begin_remove
    revoke_user attach finish finish_unstored complete is_drained add_users from_users
taken = refl

abbrev pub finished : Registry demo
finished = elim (finish demo without_alice alice_generation) [
  | none ↦ without_alice
  | some (info, after) ↦ after
]

pub alice_finished : finish demo without_alice alice_generation ≡ some (alice_info, finished)
unfolding upsert upsert_locked admit id_of_spec resolved_id refuse_draining parse_credentials
    check_fields takes_password accepted_fields parse_uuid_field parse_psk_field parse_psk_of_len
    collected check_credentials_unclaimed refuse_claimed claimed_by_other owner replace_user
    context_of cell_of next_cell_after configure new_entry retire_previous retire_keys retire_key
    opt_eq drop_key release_dropped release_anytls_prefix release lower file_keys file_key
    claim_filed claim_anytls_prefix claim new_registry new_indexes republish_vmess candidates
    user_info lookup insert remove text_eq trim trim_start is_whitespace drop_keys begin_remove
    revoke_user attach finish finish_unstored complete is_drained add_users from_users
alice_finished = refl

pub bob_found : find demo without_alice Form.by_trojan_hash (codes "two") ≡ some bob_context
unfolding upsert upsert_locked admit id_of_spec resolved_id refuse_draining parse_credentials
    check_fields takes_password accepted_fields parse_uuid_field parse_psk_field parse_psk_of_len
    collected check_credentials_unclaimed refuse_claimed claimed_by_other owner replace_user
    context_of cell_of next_cell_after configure new_entry retire_previous retire_keys retire_key
    opt_eq drop_key release_dropped release_anytls_prefix release lower file_keys file_key
    claim_filed claim_anytls_prefix claim new_registry new_indexes republish_vmess candidates
    user_info lookup insert remove text_eq trim trim_start is_whitespace drop_keys begin_remove
    revoke_user attach finish finish_unstored complete is_drained add_users from_users
    find_trojan_hash find_by accept is_enabled Option.bind
bob_found = refl

pub alice_gone : find demo without_alice Form.by_trojan_hash (codes "one") ≡ none
unfolding upsert upsert_locked admit id_of_spec resolved_id refuse_draining parse_credentials
    check_fields takes_password accepted_fields parse_uuid_field parse_psk_field parse_psk_of_len
    collected check_credentials_unclaimed refuse_claimed claimed_by_other owner replace_user
    context_of cell_of next_cell_after configure new_entry retire_previous retire_keys retire_key
    opt_eq drop_key release_dropped release_anytls_prefix release lower file_keys file_key
    claim_filed claim_anytls_prefix claim new_registry new_indexes republish_vmess candidates
    user_info lookup insert remove text_eq trim trim_start is_whitespace drop_keys begin_remove
    revoke_user attach finish finish_unstored complete is_drained add_users from_users
    find_trojan_hash find_by accept is_enabled Option.bind
alice_gone = refl

pub both_listed : from_users demo two_kinds (alice ∷ bob ∷ []) ≡ ok with_both
unfolding upsert upsert_locked admit id_of_spec resolved_id refuse_draining parse_credentials
    check_fields takes_password accepted_fields parse_uuid_field parse_psk_field parse_psk_of_len
    collected check_credentials_unclaimed refuse_claimed claimed_by_other owner replace_user
    context_of cell_of next_cell_after configure new_entry retire_previous retire_keys retire_key
    opt_eq drop_key release_dropped release_anytls_prefix release lower file_keys file_key
    claim_filed claim_anytls_prefix claim new_registry new_indexes republish_vmess candidates
    user_info lookup insert remove text_eq trim trim_start is_whitespace drop_keys begin_remove
    revoke_user attach finish finish_unstored complete is_drained add_users from_users
both_listed = refl

-- Bob has moved bytes, Alice has not.
abbrev pub busy : Registry demo
busy = record with_both { heap = λ a. if a == 1 then record quiet { tx = 5 } else quiet }

pub busy_reported :
    (take_nonzero_traffic demo busy).0
    ≡ record { id = codes "bob"; stats = record quiet { tx = 5 } } ∷ []
unfolding upsert upsert_locked admit id_of_spec resolved_id refuse_draining parse_credentials
    check_fields takes_password accepted_fields parse_uuid_field parse_psk_field parse_psk_of_len
    collected check_credentials_unclaimed refuse_claimed claimed_by_other owner replace_user
    context_of cell_of next_cell_after configure new_entry retire_previous retire_keys retire_key
    opt_eq drop_key release_dropped release_anytls_prefix release lower file_keys file_key
    claim_filed claim_anytls_prefix claim new_registry new_indexes republish_vmess candidates
    user_info lookup insert remove text_eq trim trim_start is_whitespace drop_keys begin_remove
    revoke_user attach finish finish_unstored complete is_drained add_users from_users
    take_nonzero_traffic take_each_nonzero taken_user_info_with_counters sort_by_id insert_by_id
busy_reported = refl
