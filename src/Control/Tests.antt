-- ===== src/Control/Tests.antt =====
-- Runs of the control code on concrete inputs, and its theorems at such inputs.
use node_agent_rs.Base.{
  ◌≡◌, refl, Text, none, true, false, List, [], ◌∷◌, arith, codes, lookup, remove, ok, text_eq,
}
use node_agent_rs.Control.Acks.{
  Command, Ack, applied, failed, AckStore, with_capacity, execute, envelope, redeliver, replay,
  complete, executed, replay_or, record_ack, evict, replay_of,
}
use node_agent_rs.Control.Acks.Refines.{Represents, execute_entry, execute_refines}
use node_agent_rs.Control.Acks.Retention.{Call, executes, execute_once}

abbrev command : Text → Command
command key = record {
  command_id = codes "cmd-1";
  operation_id = codes "operation-1";
  machine_id = codes "machine-1";
  node_id = codes "node-1";
  revision = 7;
  idempotency_key = key;
  command_type = [];
  payload = [];
}

abbrev answers : Command → Ack
answers c = record {
  command_id = [];
  operation_id = [];
  machine_id = [];
  node_id = [];
  revision = 0;
  idempotency_key = [];
  status = applied;
  message = codes "ok";
}

abbrev fails : Command → Ack
fails c = record (answers c) { status = failed }

-- Names what a run of the store computes with.
run_calls : AckStore → List Call → AckStore
unfolding executes execute replay complete executed replay_or record_ack evict remove replay_of
    with_capacity lookup text_eq
run_calls = executes

-- The third key evicts the first, and a failure is not kept.
evicts_the_oldest :
    (run_calls (with_capacity 2) (
      (command (codes "one"), answers)
      ∷ (command (codes "bad"), fails)
      ∷ (command (codes "two"), answers)
      ∷ (command (codes "three"), answers)
      ∷ [])).order
    ≡ codes "two" ∷ codes "three" ∷ []
unfolding run_calls
evicts_the_oldest = refl

starts_empty : Represents 2 (with_capacity 2) []
unfolding with_capacity lookup
starts_empty = ((refl, λ k. refl, tt), omega arith, refl)

execute_refines_example :
    ((execute (with_capacity 2) (command (codes "one")) answers).0
      ≡ (execute_entry 2 [] (command (codes "one")) answers).0)
    × Represents 2
        (execute (with_capacity 2) (command (codes "one")) answers).1
        (execute_entry 2 [] (command (codes "one")) answers).1
execute_refines_example =
    execute_refines 2 (with_capacity 2) [] (command (codes "one")) answers starts_empty

none_cached : lookup {V = Ack} (codes "one") [] ≡ none
unfolding lookup
none_cached = refl

execute_once_example :
    let first = execute (with_capacity 2) (command (codes "one")) answers in
    (first.0 ≡ ok (envelope (command (codes "one")) (answers (command (codes "one"))), false))
    × ((execute
          (executes first.1 ((command (codes "two"), answers) ∷ []))
          (command (codes "one"))
          fails).0
        ≡ ok (
          redeliver
              (command (codes "one"))
              (envelope (command (codes "one")) (answers (command (codes "one")))),
          true,
        ))
execute_once_example =
    execute_once 2 (with_capacity 2) [] (command (codes "one")) (command (codes "one")) answers
      fails ((command (codes "two"), answers) ∷ []) starts_empty none_cached refl refl (omega arith)
      refl
