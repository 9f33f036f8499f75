-- ===== src/Traffic/Tests.antt =====
-- Runs of the traffic code on concrete inputs, and its theorems at such inputs.
use node_agent_rs.Base.{
  ◌≡◌, refl, Bool, true, false, List, [], ◌∷◌, ◌++◌, arith, codes, some, none, inl, ◌+◌, ◌%◌, map,
  Has, ℤ, pos, div_euclid, int_mul, length,
}
use node_agent_rs.Traffic.Time.{
  observation_hour, observation_bucket_start, unix_seconds, system_time_from_unix,
}
use node_agent_rs.Traffic.Aggregator.{
  TrafficEvent, CounterKey, CounterValue, Report, Aggregator, with_clock, observe, add_locked, bump,
  restore, extracts, extract, retained, sort_reports, insert_report, flush_inner, flush, flush_all,
  should_report, report_of, u64_mod,
}
use node_agent_rs.Traffic.Aggregator.Totals.{up, pending, reported}
use node_agent_rs.Traffic.Aggregator.Conserve.{flush_conserves}
use node_agent_rs.Traffic.Aggregator.History.{Op, observes, flushes, run, observed, run_accounts}
use node_agent_rs.Traffic.Aggregator.Flush.{flush_all_drains, flush_reports_due}
use node_agent_rs.Traffic.Queue.{
  TrafficDrain, Pipe, Round, Turn, Sender, polled, report_ready, drain_request, cancelled,
  consume_round, consume_reports, report_to_proto, send, enqueue_inner, flush_queue,
}
use node_agent_rs.Traffic.Queue.Fifo.{pipeline, consume_reports-pipeline}
use node_agent_rs.Traffic.Queue.Delivery.{enqueue_inner_delivers, flush_queue_delivers, IsDelivered}

abbrev hour_key : CounterKey
hour_key = record {
  machine_id = codes "m";
  node_id = codes "n";
  user_id = codes "u";
  protocol = codes "vless";
  observation_hour = pos 0;
}

-- 61 seconds after the epoch.
abbrev demo_time : ℤ
demo_time = pos 61000000000

abbrev demo_event : TrafficEvent
demo_event = record {
  machine_id = codes "m";
  node_id = codes "n";
  user_id = codes "u";
  protocol = codes "vless";
  uplink_bytes = 60;
  downlink_bytes = 50;
  observed_at = some demo_time;
}

abbrev demo_value : CounterValue
demo_value = record {
  uplink = 60;
  downlink = 50;
  first_observed_at = demo_time;
  last_observed_at = demo_time;
}

abbrev demo_aggregator : Aggregator
demo_aggregator = record {
  min_report_delta_bytes = 100;
  max_report_delay_seconds = pos 1800;
  counters = (hour_key, demo_value) ∷ [];
}

abbrev demo_report : Report
demo_report = record {
  machine_id = codes "m";
  node_id = codes "n";
  user_id = codes "u";
  protocol = codes "vless";
  uplink_bytes = 60;
  downlink_bytes = 50;
  observed_at = pos 60000000000;
  first_observed_at = demo_time;
}

observes_demo : observe (with_clock 100) (pos 0) demo_event ≡ demo_aggregator
unfolding observe with_clock add_locked bump observation_hour unix_seconds div_euclid
observes_demo = refl

-- Names what a flush computes with.
flushed : Aggregator → ℤ → Bool → List Report × Aggregator
unfolding flush_inner extracts extract retained should_report sort_reports insert_report
    observation_bucket_start system_time_from_unix unix_seconds div_euclid int_mul
flushed = flush_inner

flushes_demo :
    flush_inner demo_aggregator demo_time false
    ≡ (demo_report ∷ [], record demo_aggregator { counters = [] })
unfolding flushed
flushes_demo = refl

abbrev demo_ops : List Op
demo_ops = observes demo_time demo_event ∷ flushes demo_time false 0 ∷ flushes demo_time true 1 ∷ []

run_accounts_example :
    let l = run (record { aggregator = with_clock 100; sent = [] }) demo_ops in
    (pending up hour_key l.aggregator.counters + reported up hour_key l.sent) % u64_mod
    ≡ observed up hour_key demo_ops % u64_mod
run_accounts_example = run_accounts up hour_key 100 demo_ops (omega arith, (tt, (tt, tt)))

demo_hour : observation_hour demo_time ≡ pos 0
unfolding observation_hour unix_seconds div_euclid
demo_hour = refl

flush_conserves_example :
    (pending up hour_key
          (restore (flush_inner demo_aggregator demo_time false).1 (demo_report ∷ [])).counters
        + reported up hour_key [])
      % u64_mod
    ≡ pending up hour_key demo_aggregator.counters % u64_mod
flush_conserves_example =
    flush_conserves up hour_key demo_aggregator demo_time false [] (demo_report ∷ [])
      ((demo_hour, omega arith), tt) (λ i. (flushes_demo i).0)

flush_all_drains_example :
    ((flush_all demo_aggregator demo_time).1.counters ≡ [])
    × (reported up hour_key (flush_all demo_aggregator demo_time).0
        ≡ pending up hour_key demo_aggregator.counters)
flush_all_drains_example =
    flush_all_drains demo_aggregator demo_time up hour_key ((demo_hour, omega arith), tt)

flush_reports_due_example : Has (report_of hour_key demo_value) (flush demo_aggregator demo_time).0
flush_reports_due_example =
    flush_reports_due demo_aggregator demo_time hour_key demo_value (inl refl) (omega arith)
      (omega arith) (inl (omega arith))

abbrev demo_pipe : Pipe
demo_pipe = record {
  queue = record { reports = report_to_proto demo_report ∷ []; in_flight = none; capacity = 1 };
  consumed = [];
}

abbrev delivering : List Round
delivering =
    record { handover = polled; wakeup = report_ready }
    ∷ record { handover = polled; wakeup = cancelled }
    ∷ record { handover = polled; wakeup = drain_request none }
    ∷ []

consumes_demo : (consume_reports demo_pipe delivering).0.consumed ≡ report_to_proto demo_report ∷ []
unfolding consume_reports consume_round
consumes_demo = refl

consume_reports-pipeline_example :
    pipeline (consume_reports demo_pipe delivering).0 ≡ pipeline demo_pipe
consume_reports-pipeline_example = consume_reports-pipeline demo_pipe delivering

abbrev demo_sender : Sender
demo_sender = record { aggregator = demo_aggregator; pipe = demo_pipe }

-- The channel is full until the consumer has run.
abbrev demo_turns : List Turn
demo_turns =
    record { meanwhile = []; cancelled_by_then = false }
    ∷ record { meanwhile = delivering; cancelled_by_then = false }
    ∷ []

waits_for_room : (enqueue_inner demo_sender (demo_report ∷ []) true demo_turns).1 ≡ 1
unfolding enqueue_inner consume_reports consume_round send
waits_for_room = refl

finds_no_room : (enqueue_inner demo_sender (demo_report ∷ []) false demo_turns).1 ≡ 0
unfolding enqueue_inner consume_reports consume_round send
finds_no_room = refl

enqueue_inner_delivers_example :
    (sent : List Report) × (unsent : List Report) × IsDelivered demo_sender
      (demo_report ∷ [])
      (enqueue_inner demo_sender (demo_report ∷ []) true demo_turns)
      sent
      unsent
enqueue_inner_delivers_example =
    enqueue_inner_delivers demo_sender (demo_report ∷ []) true demo_turns

flush_queue_delivers_example :
    (sent : List Report) × (pipeline (flush_queue demo_sender demo_time demo_turns).0.pipe
      ≡ pipeline demo_pipe ++ map report_to_proto sent)
    × ((flush_queue demo_sender demo_time demo_turns).1 ≡ length sent)
    × ((pending up hour_key (flush_queue demo_sender demo_time demo_turns).0.aggregator.counters
            + reported up hour_key sent)
          % u64_mod
        ≡ pending up hour_key demo_aggregator.counters % u64_mod)
flush_queue_delivers_example =
    flush_queue_delivers up hour_key demo_sender demo_time demo_turns ((demo_hour, omega arith), tt)

abbrev demo_drains : List TrafficDrain
demo_drains =
    record {
      node_id = codes "n";
      user_id = codes "u";
      protocol = codes "vless";
      uplink_bytes = 7;
      downlink_bytes = 8;
      observed_at = none;
    }
    ∷ []
