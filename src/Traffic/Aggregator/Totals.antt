-- ===== src/Traffic/Aggregator/Totals.antt =====
-- The bytes that a set of counters or reports holds for one key, in one direction.
use node_agent_rs.Base.{
  ℕ, ◌+◌, ◌%◌, ◌≡◌, refl, ap, ◌∙◌, ◌↔◌, true, ◌&&◌, List, [], ◌∷◌, ◌++◌, arith, text_eq_iff,
  if◌then◌else◌, Bool-cases, inl, inr, ℤ, int_eq_iff, ◌==◌,
}
use node_agent_rs.Traffic.Aggregator.{
  u64_mod, wrapping_add, CounterKey, CounterValue, Counters, Report, key_eq, bump, add_locked,
  report_key, restore_counters, report_le, insert_report, sort_reports,
}

pub data Direction : Type 0 where
  up down : Direction

abbrev pub pick : Direction → ℕ → ℕ → ℕ
pick up uplink downlink = uplink
pick down uplink downlink = downlink

abbrev pub bytes : Direction → CounterValue → ℕ
bytes d v = pick d v.uplink v.downlink

abbrev pub report_bytes : Direction → Report → ℕ
report_bytes d r = pick d r.uplink_bytes r.downlink_bytes

abbrev pub if_key : CounterKey → CounterKey → ℕ → ℕ
if_key j k n = if key_eq j k then n else 0

pub key_eq_iff : (j k : CounterKey) → (key_eq j k ≡ true) ↔ (j ≡ k)
unfolding key_eq
key_eq_iff j k = ground (
  arith,
  text_eq_iff j.machine_id k.machine_id,
  text_eq_iff j.node_id k.node_id,
  text_eq_iff j.user_id k.user_id,
  text_eq_iff j.protocol k.protocol,
  int_eq_iff j.observation_hour k.observation_hour,
)

module _ (d : Direction) (k : CounterKey) where
  -- The bytes in the counters of a key.
  unfoldable pub pending : Counters → ℕ
  pending [] = 0
  pending ((j, v) ∷ m) = if_key j k (bytes d v) + pending m

  -- The bytes in the reports of a key.
  unfoldable pub reported : List Report → ℕ
  reported [] = 0
  reported (r ∷ rs) = if_key (report_key r) k (report_bytes d r) + reported rs

  pub reported-append : (rs ss : List Report) → reported (rs ++ ss) ≡ reported rs + reported ss
  unfolding reported
  reported-append [] ss = omega arith
  reported-append (r ∷ rs) ss = omega (arith, reported-append rs ss)

  reported-insert_report :
      (r : Report) (rs : List Report) → reported (insert_report r rs) ≡ reported (r ∷ rs)
  unfolding reported insert_report
  reported-insert_report r [] = refl
  reported-insert_report r (x ∷ xs) = elim (Bool-cases (report_le r x)) [
    | inl first ↦ rw first
    | inr later ↦ rw later (omega (arith, reported-insert_report r xs))
  ]

  pub reported-sort_reports : (rs : List Report) → reported (sort_reports rs) ≡ reported rs
  unfolding sort_reports reported
  reported-sort_reports [] = refl
  reported-sort_reports (r ∷ rs) =
      reported-insert_report r (sort_reports rs) ∙ omega (arith, reported-sort_reports rs)

pick-zero : (d : Direction) → pick d 0 0 ≡ 0
pick-zero up = refl
pick-zero down = refl

pub pick-eq_zero : (d : Direction) (u w : ℕ) → ((u == 0) && (w == 0)) ≡ true → pick d u w ≡ 0
pick-eq_zero up u w h = ground arith
pick-eq_zero down u w h = ground arith

bytes-bump :
    (d : Direction) (v : CounterValue) (u w : ℕ) (f o : ℤ)
    → bytes d (bump v u w f o) ≡ wrapping_add (bytes d v) (pick d u w)
unfolding bump
bytes-bump up v u w f o = refl
bytes-bump down v u w f o = refl

module _ (d : Direction) (k : CounterKey) where
  -- `add_locked` adds the bytes to their key and to no other.
  pub pending-add_locked :
      (m : Counters) (key : CounterKey) (u w : ℕ) (f o : ℤ)
      → pending d k (add_locked m key u w f o) % u64_mod
        ≡ (pending d k m + if_key key k (pick d u w)) % u64_mod
  unfolding pending add_locked
  pending-add_locked [] key u w f o = elim (Bool-cases (key_eq key k)) [
    | inl same ↦ rw (same, bytes-bump d _ u w f o, pick-zero d) (omega arith)
    | inr other ↦ rw other
  ]
  pending-add_locked ((j, v) ∷ m) key u w f o = elim (Bool-cases (key_eq j key)) [
    | inl found ↦
        let as_key : key_eq j k ≡ key_eq key k =
          ap (λ (x : CounterKey). key_eq x k) ((key_eq_iff j key).0 found) in
        rw (found, as_key)
          (elim (Bool-cases (key_eq key k)) [
            | inl same ↦ rw (same, bytes-bump d v u w f o) (omega arith)
            | inr other ↦ rw other (omega arith)
          ])
    | inr passed ↦ rw passed (omega (arith, pending-add_locked m key u w f o))
  ]

  -- Restoring adds the bytes of the reports.
  pub pending-restore_counters :
      (m : Counters) (rs : List Report)
      → pending d k (restore_counters m rs) % u64_mod ≡ (pending d k m + reported d k rs) % u64_mod
  unfolding reported restore_counters
  pending-restore_counters m [] = ap (λ (n : ℕ). n % u64_mod) (omega arith)
  pending-restore_counters m (r ∷ rs) =
      elim (Bool-cases ((r.uplink_bytes == 0) && (r.downlink_bytes == 0))) [
        | inl nothing ↦
            rw nothing (omega (arith, pending-restore_counters m rs, zero_report r nothing))
        | inr something ↦ rw something (
            omega (
              arith,
              pending-restore_counters
                  (add_locked m (report_key r) r.uplink_bytes r.downlink_bytes r.first_observed_at
                    r.observed_at)
                  rs,
              pending-add_locked m (report_key r) r.uplink_bytes r.downlink_bytes
                  r.first_observed_at r.observed_at,
            ))
      ]
    where
      zero_report :
          (r : Report)
          → ((r.uplink_bytes == 0) && (r.downlink_bytes == 0)) ≡ true
          → if_key (report_key r) k (report_bytes d r) ≡ 0
      zero_report r h = ground (arith, pick-eq_zero d r.uplink_bytes r.downlink_bytes)
