-- ===== src/Control/Acks/Retention.antt =====
-- How long an acknowledgement is replayed.
use mathlib.Core.Path.{subst}
use mathlib.Core.List.{append_assoc}
use node_agent_rs.Base.{
  ℕ, zero, suc, ◌+◌, ◌-◌, ◌≡◌, ◌≤◌, ◌<◌, refl, ap, ◌∙◌, Bool, true, false, none, some, List, [],
  ◌∷◌, ◌++◌, length, Text, text_eq_iff, lookup, arith, Bool-cases, inl, inr, Option-cases,
  length-append, Result, ok,
}
use node_agent_rs.Control.Acks.{
  Ack, AckStore, Command, ExecuteError, execute, is_empty, is_unsuccessful, envelope, redeliver,
}
use node_agent_rs.Control.Acks.Entries.{Entries, DistinctKeys, drop, newest}
use node_agent_rs.Control.Acks.Refines.{Represents, execute_entry, execute_refines}

-- A call of `execute`: the command, and what running it would answer.
abbrev pub Call : Type 0
Call = Command × (Command → Ack)

-- The store after the calls.
unfoldable pub executes : AckStore → List Call → AckStore
executes s [] = s
executes s ((command, run) ∷ calls) = executes (execute s command run).1 calls

executes_entry : ℕ → Entries → List Call → Entries
executes_entry c m [] = m
executes_entry c m ((command, run) ∷ calls) =
    executes_entry c (execute_entry c m command run).1 calls

executes_refines :
    (c : ℕ) (s : AckStore) (m : Entries) (calls : List Call)
    → Represents c s m
    → Represents c (executes s calls) (executes_entry c m calls)
unfolding executes executes_entry
executes_refines c s m [] h = h
executes_refines c s m ((command, run) ∷ calls) h =
    executes_refines c (execute s command run).1 (execute_entry c m command run).1 calls
      (execute_refines c s m command run h).1

-- The entry is there, with at most `n` entries behind it.
abbrev IsRecent : ℕ → Text → Ack → Entries → Type 0
IsRecent n k a m =
    (front : Entries) × (back : Entries) × (m ≡ front ++ (k, a) ∷ back) × (length back ≤ n)

absurd : (n : ℕ) → suc n ≤ 0 → ⊥
absurd n h = omega (arith, h)

drop-append :
    (n : ℕ) (front back : Entries)
    → n ≤ length front
    → drop n (front ++ back) ≡ drop n front ++ back
drop-append zero front back h = refl
drop-append (suc n) [] back h = elim (absurd n h) [ ]
drop-append (suc n) (x ∷ front) back h = drop-append n front back (omega (arith, h))

newest-IsRecent :
    (c n : ℕ) (k : Text) (a : Ack) (m : Entries) (e : Text × Ack)
    → suc (suc n) ≤ c
    → IsRecent n k a m
    → IsRecent (suc n) k a (newest c (m ++ e ∷ []))
unfolding newest
newest-IsRecent c n k a m e room (front, back, here, close) =
    let all : m ++ e ∷ [] ≡ front ++ (k, a) ∷ (back ++ e ∷ []) =
      ap (λ l. l ++ e ∷ []) here ∙ append_assoc front ((k, a) ∷ back) (e ∷ []) in
    let kept : length (front ++ (k, a) ∷ (back ++ e ∷ [])) - c ≤ length front = omega (
      arith,
      room,
      close,
      length-append front ((k, a) ∷ (back ++ e ∷ [])),
      length-append back (e ∷ []),
    ) in
    let count = length (front ++ (k, a) ∷ (back ++ e ∷ [])) - c in
    (
      drop count front,
      back ++ e ∷ [],
      rw all (drop-append count front ((k, a) ∷ (back ++ e ∷ [])) kept),
      omega (arith, close, length-append back (e ∷ [])),
    )

IsRecent-suc :
    (n : ℕ) (k : Text) (a : Ack) (m : Entries) → IsRecent n k a m → IsRecent (suc n) k a m
IsRecent-suc n k a m (front, back, here, close) = (front, back, here, omega (arith, close))

execute_entry-IsRecent :
    (c n : ℕ) (k : Text) (a : Ack) (m : Entries) (command : Command) (run : Command → Ack)
    → suc (suc n) ≤ c
    → IsRecent n k a m
    → IsRecent (suc n) k a (execute_entry c m command run).1
unfolding execute_entry
execute_entry-IsRecent c n k a m command run room h =
    let same = IsRecent-suc n k a m h in
    elim (Bool-cases (is_empty command.idempotency_key)) [
      | inl no_key ↦ rw no_key same
      | inr some_key ↦ elim (Option-cases (lookup command.idempotency_key m)) [
        | inr (ack, present) ↦ rw (some_key, present) same
        | inl absent ↦ elim (Bool-cases (is_unsuccessful (run command).status)) [
          | inl unsuccessful ↦ rw (some_key, absent, unsuccessful) same
          | inr successful ↦
              rw (some_key, absent, successful)
                (newest-IsRecent c n k a m (command.idempotency_key, envelope command (run command))
                  room h)
        ]
      ]
    ]

executes_entry-IsRecent :
    (c n : ℕ) (k : Text) (a : Ack) (m : Entries) (calls : List Call)
    → suc (n + length calls) ≤ c
    → IsRecent n k a m
    → IsRecent (n + length calls) k a (executes_entry c m calls)
unfolding executes_entry
executes_entry-IsRecent c n k a m [] room (front, back, here, close) =
    (front, back, here, omega (arith, close))
executes_entry-IsRecent c n k a m ((command, run) ∷ calls) room h =
    let (front, back, here, close) =
      executes_entry-IsRecent c (suc n) k a (execute_entry c m command run).1 calls
        (omega (arith, room))
        (execute_entry-IsRecent c n k a m command run (omega (arith, room)) h) in
    (front, back, here, omega (arith, close))

lookup_distinct :
    (k : Text) (a : Ack) (front back : Entries)
    → DistinctKeys (front ++ (k, a) ∷ back)
    → lookup k (front ++ (k, a) ∷ back) ≡ some a
unfolding lookup
lookup_distinct k a [] back d = ground (arith, text_eq_iff k k)
lookup_distinct k a ((j, b) ∷ front) back (fresh, d) =
    ground (arith, text_eq_iff j k, lookup_distinct k a front back d, fresh)

lookup-IsRecent :
    (n : ℕ) (k : Text) (a : Ack) (m : Entries)
    → DistinctKeys m
    → IsRecent n k a m
    → lookup k m ≡ some a
lookup-IsRecent n k a m d (front, back, here, close) =
    rw here (lookup_distinct k a front back (subst DistinctKeys here d))

first-IsRecent :
    (c : ℕ) (m : Entries) (k : Text) (a : Ack)
    → 1 ≤ c
    → IsRecent 0 k a (newest c (m ++ (k, a) ∷ []))
unfolding newest
first-IsRecent c m k a some_room =
    let count = length (m ++ (k, a) ∷ []) - c in
    let kept : count ≤ length m = omega (arith, some_room, length-append m ((k, a) ∷ [])) in
    (drop count m, [], drop-append count m ((k, a) ∷ []) kept, omega arith)

-- An entry is replayed.
execute_entry_found :
    (c : ℕ) (m : Entries) (command : Command) (run : Command → Ack) (k : Text) (a : Ack)
    → command.idempotency_key ≡ k
    → is_empty k ≡ false
    → lookup k m ≡ some a
    → (execute_entry c m command run).0 ≡ ok (redeliver command a, true)
unfolding execute_entry
execute_entry_found c m command run k a same some_key found = simp (same, some_key, found) refl

-- A command that succeeds is executed once: after fewer further calls than the capacity, whatever
-- they are, a delivery with its idempotency key gets the same acknowledgement with its own delivery
-- ids, and is not run.
pub execute_once :
    (c : ℕ) (s : AckStore) (m : Entries) (command again : Command) (run run_again : Command → Ack)
    (calls : List Call)
    → Represents c s m
    → lookup command.idempotency_key m ≡ none
    → is_empty command.idempotency_key ≡ false
    → is_unsuccessful (run command).status ≡ false
    → length calls < c
    → again.idempotency_key ≡ command.idempotency_key
    → let first = execute s command run in
      (first.0 ≡ ok (envelope command (run command), false))
      × ((execute (executes first.1 calls) again run_again).0
          ≡ ok (redeliver again (envelope command (run command)), true))
execute_once c s m command again run run_again calls h absent some_key successful few same =
    let key = command.idempotency_key in
    let ack = envelope command (run command) in
    let first = execute_refines c s m command run h in
    let later =
      executes_refines c (execute s command run).1 (execute_entry c m command run).1 calls
        first.1 in
    let entry : execute_entry c m command run ≡ (ok (ack, false), newest c (m ++ (key, ack) ∷ [])) =
      unfold execute_entry in rw (some_key, absent, successful) refl in
    let recent : IsRecent 0 key ack (execute_entry c m command run).1 =
      rw entry (first-IsRecent c m key ack (omega (arith, few))) in
    let kept =
      lookup-IsRecent (0 + length calls) key ack
        (executes_entry c (execute_entry c m command run).1 calls) later.0.2
        (executes_entry-IsRecent c 0 key ack (execute_entry c m command run).1 calls
          (omega (arith, few)) recent) in
    let replayed =
      execute_refines c (executes (execute s command run).1 calls)
        (executes_entry c (execute_entry c m command run).1 calls) again run_again later in
    (
      first.0 ∙ ap (λ (r : Result ExecuteError (Ack × Bool) × Entries). r.0) entry,
      replayed.0
          ∙ execute_entry_found c (executes_entry c (execute_entry c m command run).1 calls) again
              run_again key ack same some_key kept,
    )
