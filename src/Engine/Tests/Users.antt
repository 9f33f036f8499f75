-- ===== src/Engine/Tests/Users.antt =====
-- The theorems on the users of an inbound at concrete registries.
use node_agent_rs.Base.{
  ℕ, refl, ◌≡◌, ◌≢◌, ◌↔◌, true, some, [], ◌∷◌, codes, lookup, ok, err, arith, Text, if◌then◌else◌,
  false,
}
use node_agent_rs.Engine.Shoes.{UserContext}
use node_agent_rs.Engine.Credentials.{
  Entry, UserSpec, Credentials, resolved_id, invalid_user, not_collected, still_disconnecting,
}
use node_agent_rs.Engine.Indexes.{panicked, refused}
use node_agent_rs.Engine.Indexes.Forms.{Form, key_of}
use node_agent_rs.Engine.Users.{Registry, upsert, from_users, admit, context_of, id_of_spec}
use node_agent_rs.Engine.Users.Removal.{begin_remove, finish, is_drained}
use node_agent_rs.Engine.Users.Lookups.{has_password_sha256_prefix}
use node_agent_rs.Engine.Users.Found.{Holder, find}
use node_agent_rs.Engine.Users.Runs.{Step, here, begins}
use node_agent_rs.Engine.Users.Listed.{upsert_each, from_users-upsert_each}
use node_agent_rs.Engine.Users.Reached.{
  calls_never_panic, find-Holder, removed_stays_out, draining_holds, report_stays,
}
use node_agent_rs.Engine.Users.Reports.{list_users, take_all_traffic, take_nonzero_traffic}
use node_agent_rs.Engine.Users.Reports.Sweeps.{TakeLaws, Avoids, take_all_traffic-list_users}
use node_agent_rs.Engine.Users.Reports.Nonzero.{with_traffic, take_nonzero_traffic-take_all_traffic}
use node_agent_rs.Engine.Users.Rotated.{upsert_rotates, has_prefix_iff}
use node_agent_rs.Engine.Tests.{
  busy, demo, demo_laws, two_kinds, empty, alice, bob, alice_rotated, with_alice, with_both,
  without_alice, rotated, alice_entry, bob_context, alice_generation, alice_info, alice_changed,
  alice_removed, alice_draining, with_alice_reached, without_alice_reached, with_both_reached,
  bob_found, alice_attached, finished, alice_finished, first_code,
}

calls_never_panic_example :
    (upsert demo with_alice alice_rotated ≢ err panicked)
    × (begin_remove demo with_alice (codes "in") (codes "alice") ≢ err panicked)
calls_never_panic_example =
    calls_never_panic demo two_kinds with_alice with_alice_reached alice_rotated (codes "in")
      (codes "alice")

find-Holder_example :
    (find demo with_alice Form.by_trojan_hash (codes "one") ≡ some alice_entry.context)
    ↔ Holder demo with_alice Form.by_trojan_hash (codes "one") alice_entry.context
find-Holder_example =
    find-Holder demo two_kinds with_alice with_alice_reached Form.by_trojan_hash (codes "one")
      alice_entry.context

removed_stays_out_example : bob_context.address ≢ alice_generation.entry.context.address
removed_stays_out_example =
    removed_stays_out demo two_kinds with_both with_both_reached (codes "in") (codes "alice")
      alice_generation without_alice without_alice alice_removed here Form.by_trojan_hash
      (codes "two") bob_context bob_found

-- Removing the user again attaches to the generation, and changes nothing.
abbrev again : Step demo without_alice without_alice
again =
    begins without_alice without_alice (codes "in") (codes "alice") alice_generation false
      alice_attached

draining_holds_example :
    (lookup (codes "alice") without_alice.draining ≡ some alice_generation)
    × ((spec : UserSpec)
        → id_of_spec (resolved_id spec) ≡ ok (codes "alice")
        → upsert demo without_alice spec
          ≡ err (
              refused (
                invalid_user (
                  if is_drained demo without_alice alice_generation
                  then not_collected (codes "alice")
                  else still_disconnecting (codes "alice")))))
draining_holds_example =
    draining_holds demo two_kinds without_alice without_alice_reached (codes "alice")
      alice_generation without_alice again alice_draining λ h e. absurd (ground arith)

report_stays_example : finish demo finished alice_generation ≡ some (alice_info, finished)
report_stays_example =
    report_stays demo two_kinds without_alice without_alice_reached alice_generation alice_info
      finished finished alice_finished here

upsert_rotates_example :
    (id : Text) × (c : Credentials) × (admit demo with_alice alice_rotated ≡ ok (id, c))
    × ((f : Form) (key : Text) (context : UserContext)
        → ((find demo rotated f key ≡ some context) × (context.id ≡ id)) ↔ (
            (key_of f c ≡ some key)
            × (alice_rotated.enabled ≡ true)
            × (context ≡ context_of demo with_alice id (lookup id with_alice.users))))
upsert_rotates_example =
    upsert_rotates demo demo_laws two_kinds with_alice rotated with_alice_reached alice_rotated
      alice_info alice_changed

has_prefix_iff_example : (has_password_sha256_prefix demo with_alice (codes "o") ≡ true) ↔ (
    (id : Text) × (e : Entry Text) × (hash : Text) × (lookup id with_alice.users ≡ some e)
    × (e.credentials.anytls_hash ≡ some hash)
    × (first_code hash ≡ codes "o"))
has_prefix_iff_example = has_prefix_iff demo two_kinds with_alice with_alice_reached (codes "o")

from_users-upsert_each_example :
    ((r : Registry demo)
      → from_users demo two_kinds (alice ∷ bob ∷ []) ≡ ok r
      → upsert_each demo empty (alice ∷ bob ∷ []) ≡ ok r)
    × (from_users demo two_kinds (alice ∷ bob ∷ []) ≢ err panicked)
from_users-upsert_each_example = from_users-upsert_each demo two_kinds (alice ∷ bob ∷ [])

take_laws : TakeLaws demo
take_laws = record { takes_tx = λ c. refl; takes_rx = λ c. refl; leaves_zero = λ c. refl }

take_all_traffic-list_users_example :
    ((take_all_traffic demo with_both).0 ≡ list_users demo with_both)
    × ((id : Text) (e : Entry Text)
        → lookup id with_both.users ≡ some e
        → (take_all_traffic demo with_both).1.heap e.context.address
          ≡ record (with_both.heap e.context.address) { tx = 0; rx = 0 })
    × ((a : ℕ)
        → Avoids demo a with_both.users
        → (take_all_traffic demo with_both).1.heap a ≡ with_both.heap a)
take_all_traffic-list_users_example =
    take_all_traffic-list_users demo take_laws two_kinds with_both with_both_reached

take_nonzero_traffic-take_all_traffic_example :
    ((take_nonzero_traffic demo busy).0 ≡ with_traffic (take_all_traffic demo busy).0)
    × ((take_nonzero_traffic demo busy).1 ≡ (take_all_traffic demo busy).1)
take_nonzero_traffic-take_all_traffic_example = take_nonzero_traffic-take_all_traffic demo busy
