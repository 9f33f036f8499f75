-- ===== src/Traffic/Aggregator/History.antt =====
-- Any history of observations and flushes accounts for every byte.
use node_agent_rs.Base.{
  ℕ, zero, suc, ◌+◌, ◌%◌, ◌≡◌, refl, sym, ap, ◌∙◌, Bool, ◌&&◌, not, List, [], ◌∷◌, ◌++◌, All, arith,
  Bool-cases, inl, inr, ℤ, int_le, int_max, ◌==◌,
}
use node_agent_rs.Traffic.Time.{InRange, observation_hour, observation_bucket_start-InRange}
use node_agent_rs.Traffic.Aggregator.{
  u64_mod, CounterKey, CounterValue, Counters, Report, Aggregator, TrafficEvent, with_clock, key_eq,
  bump, add_locked, report_key, restore_counters, restore, observe, event_key, value_or, extract,
  extracts, retained, is_zero, insert_report, sort_reports, flush_inner, report_le,
}
use node_agent_rs.Traffic.Aggregator.Totals.{
  Direction, pick, if_key, key_eq_iff, pending, reported, reported-append,
}
use node_agent_rs.Traffic.Aggregator.Conserve.{Filed, flush_conserves, pending-observe}

int_max-Filed :
    (hour s t : ℤ)
    → (observation_hour s ≡ hour) × InRange s
    → (observation_hour t ≡ hour) × InRange t
    → (observation_hour (int_max s t) ≡ hour) × InRange (int_max s t)
int_max-Filed hour s t h k = elim (Bool-cases (int_le s t)) [
  | inl later ↦ rw later k
  | inr earlier ↦ rw earlier h
]

add_locked-Filed :
    (m : Counters) (key : CounterKey) (u w : ℕ) (f o : ℤ)
    → (observation_hour o ≡ key.observation_hour) × InRange o
    → Filed m
    → Filed (add_locked m key u w f o)
unfolding add_locked bump
add_locked-Filed [] key u w f o t h = (int_max-Filed key.observation_hour o o t t, tt)
add_locked-Filed ((j, v) ∷ m) key u w f o t (filed, h) = elim (Bool-cases (key_eq j key)) [
  | inl found ↦
      let same = ap (λ (x : CounterKey). x.observation_hour) ((key_eq_iff j key).0 found) in
      rw found
        (int_max-Filed j.observation_hour v.last_observed_at o filed (t.0 ∙ sym same, t.1), h)
  | inr passed ↦ rw passed (filed, add_locked-Filed m key u w f o t h)
]

restore_counters-Filed :
    (m : Counters) (rs : List Report)
    → All (λ r. InRange r.observed_at) rs
    → Filed m
    → Filed (restore_counters m rs)
unfolding restore_counters
restore_counters-Filed m [] t h = h
restore_counters-Filed m (r ∷ rs) t h =
    elim (Bool-cases ((r.uplink_bytes == 0) && (r.downlink_bytes == 0))) [
      | inl nothing ↦ rw nothing (restore_counters-Filed m rs t.1 h)
      | inr something ↦ rw something (
          restore_counters-Filed
            (add_locked m (report_key r) r.uplink_bytes r.downlink_bytes r.first_observed_at
              r.observed_at)
            rs t.1
            (add_locked-Filed m (report_key r) r.uplink_bytes r.downlink_bytes r.first_observed_at
              r.observed_at (refl, t.0) h))
    ]

retained-Filed : (takes : CounterValue → Bool) (m : Counters) → Filed m → Filed (retained takes m)
unfolding retained
retained-Filed takes [] h = tt
retained-Filed takes ((j, v) ∷ m) (filed, h) = elim (Bool-cases (takes v)) [
  | inl taken ↦ rw taken (retained-Filed takes m h)
  | inr left ↦ rw left (filed, retained-Filed takes m h)
]

extract-InRange :
    (takes : CounterValue → Bool) (m : Counters)
    → Filed m
    → All (λ r. InRange r.observed_at) (extract takes m)
unfolding extract
extract-InRange takes [] h = tt
extract-InRange takes ((j, v) ∷ m) (filed, h) = elim (Bool-cases (takes v && not (is_zero v))) [
  | inl taken ↦
      rw taken
        (observation_bucket_start-InRange v.last_observed_at filed.1, extract-InRange takes m h)
  | inr left ↦ rw left (extract-InRange takes m h)
]

pub insert_report-All :
    (P : Report → Type 0) (r : Report) (rs : List Report)
    → P r
    → All P rs
    → All P (insert_report r rs)
unfolding insert_report
insert_report-All P r [] h k = (h, tt)
insert_report-All P r (x ∷ xs) h k = elim (Bool-cases (report_le r x)) [
  | inl first ↦ rw first (h, k)
  | inr later ↦ rw later (k.0, insert_report-All P r xs h k.1)
]

pub sort_reports-All : (P : Report → Type 0) (rs : List Report) → All P rs → All P (sort_reports rs)
unfolding sort_reports
sort_reports-All P [] h = tt
sort_reports-All P (r ∷ rs) h =
    insert_report-All P r (sort_reports rs) h.0 (sort_reports-All P rs h.1)

-- What happens to the aggregator: an observation, or a flush of which the queue takes so many
-- reports before the rest is restored.
pub data Op : Type 0 where
  observes : ℤ → TrafficEvent → Op
  flushes : ℤ → Bool → ℕ → Op

abbrev pub take {ℓ} : {A : Type ℓ} → ℕ → List A → List A
take zero xs = []
take (suc n) [] = []
take (suc n) (x ∷ xs) = x ∷ take n xs

abbrev pub drop {ℓ} : {A : Type ℓ} → ℕ → List A → List A
drop zero xs = xs
drop (suc n) [] = []
drop (suc n) (x ∷ xs) = drop n xs

take-append-drop {ℓ} : {A : Type ℓ} (n : ℕ) (xs : List A) → xs ≡ take n xs ++ drop n xs
take-append-drop zero xs = refl
take-append-drop (suc n) [] = refl
take-append-drop (suc n) (x ∷ xs) = ap (◌∷◌ x) (take-append-drop n xs)

drop-All : (P : Report → Type 0) (n : ℕ) (rs : List Report) → All P rs → All P (drop n rs)
drop-All P zero rs h = h
drop-All P (suc n) [] h = tt
drop-All P (suc n) (r ∷ rs) h = drop-All P n rs h.1

-- The aggregator, and the reports that have left it.
pub record Ledger : Type 0 where
  pub aggregator : Aggregator
  pub sent : List Report

unfoldable pub step : Ledger → Op → Ledger
step l (observes now event) = record l { aggregator = observe l.aggregator now event }
step l (flushes now force n) =
    let (reports, rest) = flush_inner l.aggregator now force in
    record { aggregator = restore rest (drop n reports); sent = l.sent ++ take n reports }

unfoldable pub run : Ledger → List Op → Ledger
run l [] = l
run l (op ∷ ops) = run (step l op) ops

-- The bytes that the observations bring in.
unfoldable pub op_bytes : Direction → CounterKey → Op → ℕ
op_bytes d k (observes now event) =
    if_key (event_key event (value_or event.observed_at now)) k
      (pick d event.uplink_bytes event.downlink_bytes)
op_bytes d k (flushes now force n) = 0

unfoldable pub observed : Direction → CounterKey → List Op → ℕ
observed d k [] = 0
observed d k (op ∷ ops) = op_bytes d k op + observed d k ops

-- The observation's time is in range.
abbrev pub IsTimely : Op → Type 0
IsTimely (observes now event) = InRange (value_or event.observed_at now)
IsTimely (flushes now force n) = Unit

step-Filed :
    (l : Ledger) (op : Op)
    → IsTimely op
    → Filed l.aggregator.counters
    → Filed (step l op).aggregator.counters
unfolding step observe restore flush_inner
step-Filed l (observes now event) t h =
    add_locked-Filed l.aggregator.counters _ event.uplink_bytes event.downlink_bytes _ _ (refl, t) h
step-Filed l (flushes now force n) t h =
    let takes = extracts l.aggregator force now in
    restore_counters-Filed (retained takes l.aggregator.counters) _
      (drop-All _ n (sort_reports (extract takes l.aggregator.counters)) (
        sort_reports-All _ (extract takes l.aggregator.counters)
          (extract-InRange takes l.aggregator.counters h)))
      (retained-Filed takes l.aggregator.counters h)

-- What is counted for a key: what is pending and what was sent.
abbrev counted : Direction → CounterKey → Ledger → ℕ
counted d k l = pending d k l.aggregator.counters + reported d k l.sent

counted-step :
    (d : Direction) (k : CounterKey) (l : Ledger) (op : Op)
    → Filed l.aggregator.counters
    → counted d k (step l op) % u64_mod ≡ (counted d k l + op_bytes d k op) % u64_mod
unfolding step op_bytes
counted-step d k l (observes now event) h =
    omega (arith, pending-observe d k l.aggregator now event)
counted-step d k l (flushes now force n) h =
    let reports = (flush_inner l.aggregator now force).0 in
    omega (
      arith,
      flush_conserves d k l.aggregator now force (take n reports) (drop n reports) h
          (take-append-drop n reports),
      reported-append d k l.sent (take n reports),
    )

counted-run :
    (d : Direction) (k : CounterKey) (l : Ledger) (ops : List Op)
    → Filed l.aggregator.counters
    → All IsTimely ops
    → counted d k (run l ops) % u64_mod ≡ (counted d k l + observed d k ops) % u64_mod
unfolding run observed
counted-run d k l [] h t = ap (λ (n : ℕ). n % u64_mod) (omega arith)
counted-run d k l (op ∷ ops) h t =
    omega
      (arith, counted-step d k l op h, counted-run d k (step l op) ops (step-Filed l op t.0 h) t.1)

-- Of a new aggregator: after any history of observations, flushes and partly refused deliveries,
-- the bytes of each key that are pending or sent are those that were observed for it, modulo 2^64.
pub run_accounts :
    (d : Direction) (k : CounterKey) (min_report_delta_bytes : ℕ) (ops : List Op)
    → All IsTimely ops
    → let l = run (record { aggregator = with_clock min_report_delta_bytes; sent = [] }) ops in
      (pending d k l.aggregator.counters + reported d k l.sent) % u64_mod
      ≡ observed d k ops % u64_mod
unfolding with_clock
run_accounts d k least ops t =
    counted-run d k (record { aggregator = with_clock least; sent = [] }) ops tt t
    ∙ ap (λ (n : ℕ). n % u64_mod) (unfold pending reported in omega arith)
