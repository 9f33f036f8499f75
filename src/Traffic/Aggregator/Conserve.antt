-- ===== src/Traffic/Aggregator/Conserve.antt =====
-- No byte is lost or counted twice between observation, flush and restoration.
use node_agent_rs.Base.{
  ℕ, ◌+◌, ◌%◌, ◌≡◌, ap, ◌∙◌, Bool, true, List, [], ◌∷◌, ◌++◌, All, arith, Bool-cases, inl, inr, ℤ,
}
use node_agent_rs.Traffic.Time.{
  InRange, observation_hour, observation_hour-observation_bucket_start,
}
use node_agent_rs.Traffic.Aggregator.{
  u64_mod, CounterKey, CounterValue, Counters, Report, Aggregator, TrafficEvent, report_key,
  restore, observe, event_key, value_or, extract, extracts, retained, report_of, is_zero,
  flush_inner,
}
use node_agent_rs.Traffic.Aggregator.Totals.{
  Direction, pick, bytes, if_key, pending, reported, reported-append, reported-sort_reports,
  pending-add_locked, pending-restore_counters, pick-eq_zero,
}

-- The key of the counter holds the hour of its last observation, a time in range.
abbrev pub IsFiled : CounterKey × CounterValue → Type 0
IsFiled (key, v) =
    (observation_hour v.last_observed_at ≡ key.observation_hour) × InRange v.last_observed_at

abbrev pub Filed : Counters → Type 0
Filed m = All IsFiled m

-- A filed counter's report goes back to the counter's key.
report_key-report_of :
    (key : CounterKey) (v : CounterValue) → IsFiled (key, v) → report_key (report_of key v) ≡ key
report_key-report_of key v h =
    let same_hour = observation_hour-observation_bucket_start v.last_observed_at h.1 ∙ h.0 in
    λ i. record key { observation_hour = same_hour i }

if_key-zero : (j k : CounterKey) (n : ℕ) → n ≡ 0 → if_key j k n ≡ 0
if_key-zero j k n h = ground arith

module _ (d : Direction) (k : CounterKey) (takes : CounterValue → Bool) where
  zero_bytes : (v : CounterValue) → is_zero v ≡ true → bytes d v ≡ 0
  zero_bytes v h = pick-eq_zero d v.uplink v.downlink h

  -- The bytes of a key are those that stay and those that are reported.
  pub pending-extract :
      (m : Counters)
      → Filed m
      → pending d k m ≡ pending d k (retained takes m) + reported d k (extract takes m)
  unfolding pending reported retained extract
  pending-extract [] h = omega arith
  pending-extract ((j, v) ∷ m) (filed, h) =
      let key : if_key (report_key (report_of j v)) k (bytes d v) ≡ if_key j k (bytes d v) =
        ap (λ (x : CounterKey). if_key x k (bytes d v)) (report_key-report_of j v filed) in
      elim (Bool-cases (takes v)) [
        | inl taken ↦ elim (Bool-cases (is_zero v)) [
          | inl nothing ↦
              rw (taken, nothing)
                (omega
                  (arith, if_key-zero j k (bytes d v) (zero_bytes v nothing), pending-extract m h))
          | inr something ↦ rw (taken, something) (omega (arith, key, pending-extract m h))
        ]
        | inr left ↦ rw left (omega (arith, pending-extract m h))
      ]

module _ (d : Direction) (k : CounterKey) where
  -- However many of the flushed reports are sent, restoring the rest leaves every key with the
  -- bytes that it had, less those that were sent, up to the wrap-around of u64.
  pub flush_conserves :
      (a : Aggregator) (now : ℤ) (force : Bool) (sent unsent : List Report)
      → Filed a.counters
      → (flush_inner a now force).0 ≡ sent ++ unsent
      → (pending d k (restore (flush_inner a now force).1 unsent).counters + reported d k sent)
          % u64_mod
        ≡ pending d k a.counters % u64_mod
  unfolding flush_inner restore
  flush_conserves a now force sent unsent h e =
      let takes = extracts a force now in
      omega (
        arith,
        pending-restore_counters d k (retained takes a.counters) unsent,
        pending-extract d k takes a.counters h,
        reported-sort_reports d k (extract takes a.counters),
        ap (reported d k) e,
        reported-append d k sent unsent,
      )

  -- An observation adds its bytes to the counters of its identity and hour, and to no others.
  pub pending-observe :
      (a : Aggregator) (now : ℤ) (event : TrafficEvent)
      → pending d k (observe a now event).counters % u64_mod
        ≡ (pending d k a.counters
            + if_key
                (event_key event (value_or event.observed_at now))
                k
                (pick d event.uplink_bytes event.downlink_bytes))
          % u64_mod
  unfolding observe
  pending-observe a now event =
      let at = value_or event.observed_at now in
      pending-add_locked d k a.counters (event_key event at) event.uplink_bytes event.downlink_bytes
        at at
