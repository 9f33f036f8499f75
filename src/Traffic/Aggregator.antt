-- ===== src/Traffic/Aggregator.antt =====
-- crates/node-agent/src/traffic.rs: the per-user aggregator. The HashMap is a list of its entries,
-- whose order nothing below depends on; the clock is an argument of each call.
pub mod Totals
pub mod Conserve
pub mod History
pub mod Flush
use node_agent_rs.Base.{
  ℕ, suc, ◌+◌, ◌-◌, ◌*◌, ◌%◌, ◌^◌, ◌≤◌, ◌<◌, ◌≡◌, refl, Bool, true, false, ◌&&◌, ◌||◌, not, Option,
  none, some, List, [], ◌∷◌, ◌++◌, leb, ltb, ◌==◌, if◌then◌else◌, Text, text_eq, text_le, ℤ, pos,
  negsuc, int_le, int_eq, int_min, int_max,
}
use node_agent_rs.Traffic.Time.{
  nanos, i64_max, unix_seconds, observation_bucket_start, observation_hour,
}

abbrev pub u64_mod : ℕ
u64_mod = 2 ^ 64

-- `u64::wrapping_add`
abbrev pub wrapping_add : ℕ → ℕ → ℕ
wrapping_add a b = (a + b) % u64_mod

pub record TrafficEvent : Type 0 where
  pub machine_id : Text
  pub node_id : Text
  pub user_id : Text
  pub protocol : Text
  pub uplink_bytes : ℕ
  pub downlink_bytes : ℕ
  pub observed_at : Option ℤ

pub record Report : Type 0 where
  pub machine_id : Text
  pub node_id : Text
  pub user_id : Text
  pub protocol : Text
  pub uplink_bytes : ℕ
  pub downlink_bytes : ℕ
  pub observed_at : ℤ
  pub first_observed_at : ℤ

pub record CounterKey : Type 0 where
  pub machine_id : Text
  pub node_id : Text
  pub user_id : Text
  pub protocol : Text
  pub observation_hour : ℤ

pub record CounterValue : Type 0 where
  pub uplink : ℕ
  pub downlink : ℕ
  pub first_observed_at : ℤ
  pub last_observed_at : ℤ

abbrev pub Counters : Type 0
Counters = List (CounterKey × CounterValue)

pub record Aggregator : Type 0 where
  pub min_report_delta_bytes : ℕ
  pub max_report_delay_seconds : ℤ
  pub counters : Counters

abbrev pub default_report_delta_bytes : ℕ
default_report_delta_bytes = 25 * 1024 * 1024

abbrev pub default_max_report_delay_seconds : ℤ
default_max_report_delay_seconds = pos 1800

-- `Aggregator::with_clock`
unfoldable pub with_clock : ℕ → Aggregator
with_clock min_report_delta_bytes = record {
  min_report_delta_bytes = min_report_delta_bytes;
  max_report_delay_seconds = default_max_report_delay_seconds;
  counters = [];
}

unfoldable pub set_max_report_delay_seconds : Aggregator → ℤ → Aggregator
set_max_report_delay_seconds a seconds = record a { max_report_delay_seconds = seconds }

unfoldable pub key_eq : CounterKey → CounterKey → Bool
key_eq j k =
    text_eq j.machine_id k.machine_id
    && text_eq j.node_id k.node_id
    && text_eq j.user_id k.user_id
    && text_eq j.protocol k.protocol
    && int_eq j.observation_hour k.observation_hour

-- The body of `add_locked` after the entry is found or inserted.
unfoldable pub bump : CounterValue → ℕ → ℕ → ℤ → ℤ → CounterValue
bump v uplink downlink first_observed_at observed_at = record {
  uplink = wrapping_add v.uplink uplink;
  downlink = wrapping_add v.downlink downlink;
  first_observed_at = int_min v.first_observed_at first_observed_at;
  last_observed_at = int_max v.last_observed_at observed_at;
}

unfoldable pub add_locked : Counters → CounterKey → ℕ → ℕ → ℤ → ℤ → Counters
add_locked [] key uplink downlink first_observed_at observed_at =
    (key, bump fresh uplink downlink first_observed_at observed_at) ∷ []
  where
    fresh : CounterValue
    fresh = record {
      uplink = 0;
      downlink = 0;
      first_observed_at = first_observed_at;
      last_observed_at = observed_at;
    }
add_locked ((k, v) ∷ m) key uplink downlink first_observed_at observed_at =
    if key_eq k key
    then (k, bump v uplink downlink first_observed_at observed_at) ∷ m
    else (k, v) ∷ add_locked m key uplink downlink first_observed_at observed_at

abbrev pub value_or : Option ℤ → ℤ → ℤ
value_or none now = now
value_or (some t) now = t

abbrev pub event_key : TrafficEvent → ℤ → CounterKey
event_key event observed_at = record {
  machine_id = event.machine_id;
  node_id = event.node_id;
  user_id = event.user_id;
  protocol = event.protocol;
  observation_hour = observation_hour observed_at;
}

unfoldable pub observe : Aggregator → ℤ → TrafficEvent → Aggregator
observe a now event =
    let observed_at = value_or event.observed_at now in
    record a {
      counters =
          add_locked a.counters (event_key event observed_at) event.uplink_bytes
            event.downlink_bytes observed_at observed_at;
    }

abbrev pub report_key : Report → CounterKey
report_key report = record {
  machine_id = report.machine_id;
  node_id = report.node_id;
  user_id = report.user_id;
  protocol = report.protocol;
  observation_hour = observation_hour report.observed_at;
}

unfoldable pub restore_counters : Counters → List Report → Counters
restore_counters m [] = m
restore_counters m (report ∷ rest) =
    restore_counters
      (if (report.uplink_bytes == 0) && (report.downlink_bytes == 0)
        then m
        else add_locked m (report_key report) report.uplink_bytes report.downlink_bytes
            report.first_observed_at report.observed_at)
      rest

unfoldable pub restore : Aggregator → List Report → Aggregator
restore a reports = record a { counters = restore_counters a.counters reports }

-- The latest representable time.
abbrev pub time_max : ℤ
time_max = pos (i64_max * nanos + (nanos - 1))

-- `checked_add` of a positive number of seconds.
abbrev pub add_seconds : ℤ → ℕ → ℤ
add_seconds (pos n) s = pos (n + s * nanos)
add_seconds (negsuc n) s =
    if ltb n (s * nanos) then pos (s * nanos - suc n) else negsuc (n - s * nanos)

abbrev pub reached : ℤ → ℤ → Bool
reached deadline now = int_le deadline time_max && int_le deadline now

-- The age fallback; a delay of zero or less disables it.
abbrev pub is_overdue : ℤ → CounterValue → ℤ → Bool
is_overdue (pos seconds) v now =
    not (seconds == 0) && reached (add_seconds v.first_observed_at seconds) now
is_overdue (negsuc n) v now = false

unfoldable pub should_report : Aggregator → CounterValue → ℤ → Bool
should_report a v now =
    let total = wrapping_add v.uplink v.downlink in
    if total == 0
    then false
    else if (a.min_report_delta_bytes == 0) || leb a.min_report_delta_bytes total
    then true
    else is_overdue a.max_report_delay_seconds v now

abbrev pub is_zero : CounterValue → Bool
is_zero v = (v.uplink == 0) && (v.downlink == 0)

-- The predicate of `extract_if`.
unfoldable pub extracts : Aggregator → Bool → ℤ → CounterValue → Bool
extracts a force now v = is_zero v || force || should_report a v now

abbrev pub report_of : CounterKey → CounterValue → Report
report_of key v = record {
  machine_id = key.machine_id;
  node_id = key.node_id;
  user_id = key.user_id;
  protocol = key.protocol;
  uplink_bytes = v.uplink;
  downlink_bytes = v.downlink;
  observed_at = observation_bucket_start v.last_observed_at;
  first_observed_at = v.first_observed_at;
}

-- The reports of the extracted counters, zero ones skipped.
unfoldable pub extract : (CounterValue → Bool) → Counters → List Report
extract takes [] = []
extract takes ((k, v) ∷ m) =
    let rest = extract takes m in if takes v && not (is_zero v) then report_of k v ∷ rest else rest

-- What `extract_if` leaves in the map.
unfoldable pub retained : (CounterValue → Bool) → Counters → Counters
retained takes [] = []
retained takes ((k, v) ∷ m) = let rest = retained takes m in if takes v then rest else (k, v) ∷ rest

-- `then_with` on the orders of two keys.
abbrev then_text : Text → Text → Bool → Bool
then_text a b rest = if text_eq a b then rest else text_le a b

abbrev then_time : ℤ → ℤ → Bool → Bool
then_time a b rest = if int_eq a b then rest else int_le a b

-- The order of the reports.
unfoldable pub report_le : Report → Report → Bool
report_le left right = then_time left.first_observed_at right.first_observed_at (
    then_time left.observed_at right.observed_at (
      then_text left.machine_id right.machine_id (
        then_text left.node_id right.node_id
          (then_text left.user_id right.user_id (text_le left.protocol right.protocol)))))

unfoldable pub insert_report : Report → List Report → List Report
insert_report r [] = r ∷ []
insert_report r (x ∷ xs) = if report_le r x then r ∷ x ∷ xs else x ∷ insert_report r xs

-- `sort_unstable_by`
unfoldable pub sort_reports : List Report → List Report
sort_reports [] = []
sort_reports (r ∷ rs) = insert_report r (sort_reports rs)

unfoldable pub flush_inner : Aggregator → ℤ → Bool → List Report × Aggregator
flush_inner a now force = (
  sort_reports (extract (extracts a force now) a.counters),
  record a { counters = retained (extracts a force now) a.counters },
)

unfoldable pub flush : Aggregator → ℤ → List Report × Aggregator
flush a now = flush_inner a now false

unfoldable pub flush_all : Aggregator → ℤ → List Report × Aggregator
flush_all a now = flush_inner a now true
