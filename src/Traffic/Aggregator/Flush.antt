-- ===== src/Traffic/Aggregator/Flush.antt =====
-- What a flush emits: all that is due, oldest traffic first; at shutdown, everything.
use node_agent_rs.Base.{
  ℕ, ◌+◌, ◌≡◌, refl, ap, ◌∙◌, Bool, true, false, ◌&&◌, not, List, [], ◌∷◌, All, arith, Bool-cases,
  inl, inr, ◌⊎◌, ℤ, int_le, int_eq, int_eq_iff, int_le_total, int_le_trans, int_le_refl, Has, pos,
  ◌≤◌, ◌<◌,
}
use node_agent_rs.Traffic.Aggregator.{
  CounterKey, CounterValue, Counters, Report, Aggregator, extracts, extract, retained, report_le,
  insert_report, sort_reports, flush_inner, flush, flush_all, is_zero, report_of, should_report,
  u64_mod, add_seconds, time_max,
}
use node_agent_rs.Traffic.Aggregator.Totals.{Direction, pending, reported, reported-sort_reports}
use node_agent_rs.Traffic.Aggregator.Conserve.{Filed, pending-extract}
use node_agent_rs.Traffic.Aggregator.History.{insert_report-All}

-- The first observation of each report is no later than those of the reports behind it.
abbrev pub OldestFirst : List Report → Type 0
OldestFirst [] = Unit
OldestFirst (r ∷ rs) =
    All (λ s. int_le r.first_observed_at s.first_observed_at ≡ true) rs × OldestFirst rs

report_le-first :
    (r s : Report) → report_le r s ≡ true → int_le r.first_observed_at s.first_observed_at ≡ true
unfolding report_le
report_le-first r s h = elim (Bool-cases (int_eq r.first_observed_at s.first_observed_at)) [
  | inl same ↦
      rw ((int_eq_iff r.first_observed_at s.first_observed_at).0 same)
        (int_le_refl s.first_observed_at)
  | inr differs ↦ rw differs at h
]

not-report_le-first :
    (r s : Report) → report_le r s ≡ false → int_le s.first_observed_at r.first_observed_at ≡ true
unfolding report_le
not-report_le-first r s h = elim (Bool-cases (int_eq r.first_observed_at s.first_observed_at)) [
  | inl same ↦
      rw ((int_eq_iff r.first_observed_at s.first_observed_at).0 same)
        (int_le_refl s.first_observed_at)
  | inr differs ↦ int_le_total r.first_observed_at s.first_observed_at (rw differs at h)
]

All-earlier :
    (a b : ℤ) (rs : List Report)
    → int_le a b ≡ true
    → All (λ s. int_le b s.first_observed_at ≡ true) rs
    → All (λ s. int_le a s.first_observed_at ≡ true) rs
All-earlier a b [] h k = tt
All-earlier a b (r ∷ rs) h k =
    (int_le_trans a b r.first_observed_at h k.0, All-earlier a b rs h k.1)

insert_report-OldestFirst :
    (r : Report) (rs : List Report) → OldestFirst rs → OldestFirst (insert_report r rs)
unfolding insert_report
insert_report-OldestFirst r [] h = (tt, tt)
insert_report-OldestFirst r (x ∷ xs) h = elim (Bool-cases (report_le r x)) [
  | inl first ↦
      let earlier = report_le-first r x first in
      rw first ((earlier, All-earlier r.first_observed_at x.first_observed_at xs earlier h.0), h)
  | inr later ↦ rw later (
    insert_report-All (λ s. int_le x.first_observed_at s.first_observed_at ≡ true) r xs
        (not-report_le-first r x later) h.0,
    insert_report-OldestFirst r xs h.1,
  )
]

sort_reports-OldestFirst : (rs : List Report) → OldestFirst (sort_reports rs)
unfolding sort_reports
sort_reports-OldestFirst [] = tt
sort_reports-OldestFirst (r ∷ rs) =
    insert_report-OldestFirst r (sort_reports rs) (sort_reports-OldestFirst rs)

-- Every flush emits its reports in the order of their first observation.
pub flush_inner-OldestFirst :
    (a : Aggregator) (now : ℤ) (force : Bool) → OldestFirst (flush_inner a now force).0
unfolding flush_inner
flush_inner-OldestFirst a now force =
    sort_reports-OldestFirst (extract (extracts a force now) a.counters)

pending-nil : (d : Direction) (k : CounterKey) → pending d k [] ≡ 0
unfolding pending
pending-nil d k = refl

retained_all : (a : Aggregator) (now : ℤ) (m : Counters) → retained (extracts a true now) m ≡ []
unfolding retained extracts
retained_all a now [] = refl
retained_all a now ((k, v) ∷ m) = ground (arith, retained_all a now m)

-- The flush at shutdown leaves no counter, and reports exactly the bytes of every key.
pub flush_all_drains :
    (a : Aggregator) (now : ℤ) (d : Direction) (k : CounterKey)
    → Filed a.counters
    → ((flush_all a now).1.counters ≡ [])
      × (reported d k (flush_all a now).0 ≡ pending d k a.counters)
unfolding flush_all flush_inner
flush_all_drains a now d k h =
    let takes = extracts a true now in
    let empty = retained_all a now a.counters in
    (
      empty,
      reported-sort_reports d k (extract takes a.counters)
          ∙ omega (
            arith,
            pending-extract d k takes a.counters h,
            ap (pending d k) empty,
            pending-nil d k,
          ),
    )

insert_report-Has_self : (r : Report) (rs : List Report) → Has r (insert_report r rs)
unfolding insert_report
insert_report-Has_self r [] = inl refl
insert_report-Has_self r (x ∷ xs) = elim (Bool-cases (report_le r x)) [
  | inl first ↦ rw first (inl refl)
  | inr later ↦ rw later (inr (insert_report-Has_self r xs))
]

insert_report-Has_other : (r s : Report) (rs : List Report) → Has s rs → Has s (insert_report r rs)
unfolding insert_report
insert_report-Has_other r s [] h = elim h [ ]
insert_report-Has_other r s (x ∷ xs) h = elim (Bool-cases (report_le r x)) [
  | inl first ↦ rw first (inr h)
  | inr later ↦ rw later (elim h [ inl e ↦ inl e | inr k ↦ inr (insert_report-Has_other r s xs k) ])
]

sort_reports-Has : (s : Report) (rs : List Report) → Has s rs → Has s (sort_reports rs)
unfolding sort_reports
sort_reports-Has s [] h = elim h [ ]
sort_reports-Has s (r ∷ rs) (inl e) = rw e (insert_report-Has_self r (sort_reports rs))
sort_reports-Has s (r ∷ rs) (inr h) =
    insert_report-Has_other r s (sort_reports rs) (sort_reports-Has s rs h)

extract-Has :
    (takes : CounterValue → Bool) (m : Counters) (key : CounterKey) (v : CounterValue)
    → Has (key, v) m
    → (takes v && not (is_zero v)) ≡ true
    → Has (report_of key v) (extract takes m)
unfolding extract
extract-Has takes [] key v h t = elim h [ ]
extract-Has takes ((j, w) ∷ m) key v (inl e) t =
    let values : v ≡ w = ap (λ (x : CounterKey × CounterValue). x.1) e in
    let keys : key ≡ j = ap (λ (x : CounterKey × CounterValue). x.0) e in
    rw (← values, ← keys, t) (inl refl)
extract-Has takes ((j, w) ∷ m) key v (inr h) t = elim (Bool-cases (takes w && not (is_zero w))) [
  | inl taken ↦ rw taken (inr (extract-Has takes m key v h t))
  | inr left ↦ rw left (extract-Has takes m key v h t)
]

-- A counter is due: its traffic reaches the threshold, or it is old enough.
abbrev pub IsDue : Aggregator → ℤ → CounterValue → Type 0
IsDue a now v =
    (a.min_report_delta_bytes ≤ v.uplink + v.downlink)
    ⊎ ((seconds : ℕ) × (a.max_report_delay_seconds ≡ pos seconds)
        × (1 ≤ seconds)
        × (int_le (add_seconds v.first_observed_at seconds) now ≡ true)
        × (int_le now time_max ≡ true))

due_reports :
    (a : Aggregator) (now : ℤ) (v : CounterValue)
    → 1 ≤ v.uplink + v.downlink
    → v.uplink + v.downlink < u64_mod
    → IsDue a now v
    → should_report a v now ≡ true
unfolding should_report
due_reports a now v h k (inl reaches) = ground arith
due_reports a now v h k (inr (seconds, delay, some_delay, old, representable)) =
    let shown =
      int_le_trans (add_seconds v.first_observed_at seconds) now time_max old representable in
    rw delay (ground arith)

-- A periodic flush reports every counter with traffic below 2^64 bytes that is due.
pub flush_reports_due :
    (a : Aggregator) (now : ℤ) (key : CounterKey) (v : CounterValue)
    → Has (key, v) a.counters
    → 1 ≤ v.uplink + v.downlink
    → v.uplink + v.downlink < u64_mod
    → IsDue a now v
    → Has (report_of key v) (flush a now).0
unfolding flush flush_inner extracts
flush_reports_due a now key v member some_traffic no_wrap due =
    sort_reports-Has (report_of key v) _ (
      extract-Has (extracts a false now) a.counters key v member
        (ground (arith, due_reports a now v some_traffic no_wrap due)))
