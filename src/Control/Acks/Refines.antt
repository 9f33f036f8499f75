-- ===== src/Control/Acks/Refines.antt =====
-- The store is a bounded queue of entries: every operation answers as the queue does.
use node_agent_rs.Base.{
  ℕ, suc, ◌-◌, ◌≡◌, ◌≤◌, refl, sym, ap, ◌∙◌, Bool, true, false, Option, none, some, List, [], ◌∷◌,
  ◌++◌, length, ltb, if◌then◌else◌, Text, text_eq_iff, lookup, remove, lookup-remove, arith,
  Bool-cases, inl, inr, Option-cases, Result, ok, err,
}
use node_agent_rs.Control.Acks.{
  Ack, AckStore, Command, ExecuteError, key_required, evict, record_ack, complete, replay,
  replay_of, replay_or, executed, execute, is_empty, is_unsuccessful, envelope, redeliver,
}
use node_agent_rs.Control.Acks.Entries.{
  Entries, keys, DistinctKeys, drop, newest, lookup-append_found, lookup-append_none,
  keys-append_last, DistinctKeys-append_last,
}

-- The map and the queue of the store stand for the entries.
abbrev pub Stands : List (Text × Ack) → List Text → Entries → Type 0
Stands seen order m = (order ≡ keys m) × ((k : Text) → lookup k seen ≡ lookup k m) × DistinctKeys m

-- The store stands for the entries, which are within its capacity `c`.
abbrev pub Represents : ℕ → AckStore → Entries → Type 0
Represents c s m = Stands s.seen s.order m × (length m ≤ c) × (s.capacity ≡ c)

length-keys : (m : Entries) → length (keys m) ≡ length m
length-keys [] = refl
length-keys ((k, a) ∷ m) = ap suc (length-keys m)

Stands-remove :
    (seen : List (Text × Ack)) (order : List Text) (k : Text) (a : Ack) (m : Entries)
    → Stands seen order ((k, a) ∷ m)
    → Stands (remove k seen) (keys m) m
unfolding lookup
Stands-remove seen order k a m (e, agree, (fresh, d)) =
    (refl, λ j. ground (arith, lookup-remove j k seen, agree j, text_eq_iff k j, fresh), d)

newest_within : (c : ℕ) (m : Entries) → length m ≤ c → newest c m ≡ m
unfolding newest
newest_within c m h = let e : length m - c ≡ 0 = omega (arith, h) in ap (λ n. drop n m) e

newest_over :
    (c : ℕ) (k : Text) (a : Ack) (m : Entries)
    → ltb c (suc (length m)) ≡ true
    → newest c ((k, a) ∷ m) ≡ newest c m
unfolding newest
newest_over c k a m h =
    let e : suc (length m) - c ≡ suc (length m - c) = ground (arith, h) in
    ap (λ n. drop n ((k, a) ∷ m)) e

-- The eviction loop keeps the newest entries.
evict-Stands :
    (c : ℕ) (seen : List (Text × Ack)) (m : Entries)
    → Stands seen (keys m) m
    → Stands (evict c seen (keys m)).0 (evict c seen (keys m)).1 (newest c m)
unfolding evict
evict-Stands c seen [] h = rw (newest_within c [] (omega arith)) h
evict-Stands c seen ((k, a) ∷ m) h = elim (Bool-cases (ltb c (suc (length m)))) [
  | inl over ↦
      let over' = ap (ltb c) (ap suc (length-keys m)) ∙ over in
      let rest = evict-Stands c (remove k seen) m (Stands-remove seen (k ∷ keys m) k a m h) in
      rw (newest_over c k a m over) (rw (evict, over') rest)
  | inr within ↦
      let within' = ap (ltb c) (ap suc (length-keys m)) ∙ within in
      rw (newest_within c ((k, a) ∷ m) (ground (arith, within))) (rw (evict, within') h)
]

length-newest : (c : ℕ) (m : Entries) → length (newest c m) ≤ c
length-newest c [] = rw (newest_within c [] (omega arith)) (omega arith)
length-newest c ((k, a) ∷ m) = elim (Bool-cases (ltb c (suc (length m)))) [
  | inl over ↦ rw (newest_over c k a m over) (length-newest c m)
  | inr within ↦
      let fits : suc (length m) ≤ c = ground (arith, within) in
      rw (newest_within c ((k, a) ∷ m) fits) fits
]

Stands-append :
    (seen : List (Text × Ack)) (order : List Text) (m : Entries) (k : Text) (a : Ack)
    → Stands seen order m
    → lookup k m ≡ none
    → Stands ((k, a) ∷ seen) (keys (m ++ (k, a) ∷ [])) (m ++ (k, a) ∷ [])
unfolding lookup
Stands-append seen order m k a (e, agree, d) fresh = (
  refl,
  λ j. elim (Option-cases (lookup j m)) [
    | inl absent ↦ ground (arith, lookup-append_none j m ((k, a) ∷ []) absent, agree j, absent)
    | inr (b, present) ↦ ground (
      arith,
      lookup-append_found j b m ((k, a) ∷ []) present,
      agree j,
      present,
      text_eq_iff k j,
      fresh,
    )
  ],
  DistinctKeys-append_last m k a d fresh,
)

-- The part of `complete` under the lock puts an acknowledgement behind the entries and drops the
-- oldest ones for it.
record_ack-Represents :
    (c : ℕ) (s : AckStore) (m : Entries) (k : Text) (a : Ack)
    → Represents c s m
    → lookup k m ≡ none
    → Represents c (record_ack s k a) (newest c (m ++ (k, a) ∷ []))
unfolding record_ack
record_ack-Represents c s m k a ((e, agree, d), fits, size) absent =
    let all = m ++ (k, a) ∷ [] in
    let order : s.order ++ k ∷ [] ≡ keys all =
      ap (λ o. o ++ k ∷ []) e ∙ sym (keys-append_last m k a) in
    let appended = Stands-append s.seen s.order m k a (e, agree, d) absent in
    rw (agree k ∙ absent, order, size)
      (evict-Stands c ((k, a) ∷ s.seen) all appended, length-newest c all, refl)

-- Where the key is not cached: the command is run, and its acknowledgement is kept unless it is
-- unsuccessful.
abbrev run_entry : ℕ → Entries → Command → Ack → Result ExecuteError (Ack × Bool) × Entries
run_entry c m command ack = (
  ok (envelope command ack, false),
  if is_unsuccessful ack.status
      then m
      else newest c (m ++ (command.idempotency_key, envelope command ack) ∷ []),
)

abbrev entry_or :
    Entries
    → Command
    → Option Ack
    → Result ExecuteError (Ack × Bool) × Entries
    → Result ExecuteError (Ack × Bool) × Entries
entry_or m command none otherwise = otherwise
entry_or m command (some ack) otherwise = (ok (redeliver command ack, true), m)

-- What `execute` promises of a queue of entries with capacity `c`.
unfoldable pub execute_entry :
    ℕ → Entries → Command → (Command → Ack) → Result ExecuteError (Ack × Bool) × Entries
execute_entry c m command run =
    let found =
      entry_or m command (lookup command.idempotency_key m) (run_entry c m command (run command)) in
    if is_empty command.idempotency_key then (err key_required, m) else found

-- If the store represents a bounded queue of entries with distinct keys, then `execute` answers
-- what the queue promises, and the store represents the queue that it leaves.
pub execute_refines :
    (c : ℕ) (s : AckStore) (m : Entries) (command : Command) (run : Command → Ack)
    → Represents c s m
    → ((execute s command run).0 ≡ (execute_entry c m command run).0)
      × Represents c (execute s command run).1 (execute_entry c m command run).1
unfolding execute execute_entry replay complete replay_of replay_or executed
execute_refines c s m command run h = elim (Bool-cases (is_empty command.idempotency_key)) [
  | inl no_key ↦ rw no_key (refl, h)
  | inr some_key ↦ elim (Option-cases (lookup command.idempotency_key m)) [
    | inr (ack, present) ↦ rw (some_key, h.0.1 command.idempotency_key ∙ present, present) (refl, h)
    | inl absent ↦ elim (Bool-cases (is_unsuccessful (run command).status)) [
      | inl unsuccessful ↦
          rw (some_key, h.0.1 command.idempotency_key ∙ absent, absent, unsuccessful) (refl, h)
      | inr successful ↦
          rw (some_key, h.0.1 command.idempotency_key ∙ absent, absent, successful)
            (
              refl,
              record_ack-Represents c s m command.idempotency_key (envelope command (run command)) h
                  absent,
            )
    ]
  ]
]
