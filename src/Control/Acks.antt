-- ===== src/Control/Acks.antt =====
-- crates/node-agent/src/control/ack.rs: the replay cache of acknowledgements. `seen` is the list of
-- the HashMap's entries. The execution of a command is a function of the command.
pub mod Entries
pub mod Refines
pub mod Retention
use node_agent_rs.Base.{
  ℕ, Bool, true, false, ◌||◌, Option, none, some, List, [], ◌∷◌, ◌++◌, length, ltb, if◌then◌else◌,
  Text, text_eq, lookup, remove, Result, ok, err,
}

pub data AckStatus : Type 0 where
  accepted applied failed rolled_back : AckStatus

pub record Command : Type 0 where
  pub command_id : Text
  pub operation_id : Text
  pub machine_id : Text
  pub node_id : Text
  pub revision : ℕ
  pub idempotency_key : Text
  pub command_type : Text
  pub payload : List ℕ

pub record Ack : Type 0 where
  pub command_id : Text
  pub operation_id : Text
  pub machine_id : Text
  pub node_id : Text
  pub revision : ℕ
  pub idempotency_key : Text
  pub status : AckStatus
  pub message : Text

pub data ExecuteError : Type 0 where
  key_required : ExecuteError

pub record AckStore : Type 0 where
  pub seen : List (Text × Ack)
  pub order : List Text
  pub capacity : ℕ

unfoldable pub with_capacity : ℕ → AckStore
with_capacity capacity = record { seen = []; order = []; capacity = capacity }

abbrev pub default_ack_store_capacity : ℕ
default_ack_store_capacity = 512

-- `is_empty`
abbrev pub is_empty : Text → Bool
is_empty [] = true
is_empty (c ∷ cs) = false

-- `matches!(ack.status, AckStatus::Failed | AckStatus::RolledBack)`
abbrev pub is_unsuccessful : AckStatus → Bool
is_unsuccessful accepted = false
is_unsuccessful applied = false
is_unsuccessful failed = true
is_unsuccessful rolled_back = true

-- The identifiers of the incoming delivery.
abbrev pub redeliver : Command → Ack → Ack
redeliver command ack = record ack {
  command_id = command.command_id;
  operation_id = command.operation_id;
}

unfoldable pub replay_of : Command → Option Ack → Option Ack
replay_of command none = none
replay_of command (some ack) = some (redeliver command ack)

unfoldable pub replay : AckStore → Command → Result ExecuteError (Option Ack)
replay s command =
    if is_empty command.idempotency_key
    then err key_required
    else ok (replay_of command (lookup command.idempotency_key s.seen))

-- The envelope fields that `complete` writes.
unfoldable pub envelope : Command → Ack → Ack
envelope command ack = record {
  command_id = command.command_id;
  operation_id = command.operation_id;
  machine_id = command.machine_id;
  node_id = command.node_id;
  revision = command.revision;
  idempotency_key = command.idempotency_key;
  status = ack.status;
  message = ack.message;
}

-- The eviction loop; its arguments are the map and the queue.
unfoldable pub evict : ℕ → List (Text × Ack) → List Text → List (Text × Ack) × List Text
evict capacity seen [] = (seen, [])
evict capacity seen (oldest ∷ rest) =
    let evicted = evict capacity (remove oldest seen) rest in
    if ltb capacity (length (oldest ∷ rest)) then evicted else (seen, oldest ∷ rest)

abbrev pub contains_key : Option Ack → Bool
contains_key none = false
contains_key (some ack) = true

-- The part of `complete` under the lock.
unfoldable pub record_ack : AckStore → Text → Ack → AckStore
record_ack s key ack =
    let (seen, order) = evict s.capacity ((key, ack) ∷ s.seen) (s.order ++ key ∷ []) in
    if contains_key (lookup key s.seen) then s else record s { seen = seen; order = order }

unfoldable pub complete : AckStore → Command → Ack → Result ExecuteError Ack × AckStore
complete s command ack =
    let ack' = envelope command ack in
    if is_empty command.idempotency_key
    then (err key_required, s)
    else if is_unsuccessful ack.status
    then (ok ack', s)
    else (ok ack', record_ack s command.idempotency_key ack')

-- The end of `execute`.
unfoldable pub executed :
    Result ExecuteError Ack × AckStore → Result ExecuteError (Ack × Bool) × AckStore
executed (err e, s) = (err e, s)
executed (ok ack, s) = (ok (ack, false), s)

unfoldable pub replay_or :
    AckStore
    → Result ExecuteError (Option Ack)
    → Result ExecuteError (Ack × Bool) × AckStore
    → Result ExecuteError (Ack × Bool) × AckStore
replay_or s (err e) otherwise = (err e, s)
replay_or s (ok (some ack)) otherwise = (ok (ack, true), s)
replay_or s (ok none) otherwise = otherwise

-- A true flag marks a replay, for which the command is not executed.
unfoldable pub execute :
    AckStore → Command → (Command → Ack) → Result ExecuteError (Ack × Bool) × AckStore
execute s command run = replay_or s (replay s command) (executed (complete s command (run command)))
