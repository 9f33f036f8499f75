-- ===== src/Traffic/Queue.antt =====
-- crates/node-agent/src/traffic/stream.rs: the report queue between the aggregator and the panel.
-- The bounded mpsc channel is the list of its items. What the runtime decides at each `select!` is
-- an argument: the answers of a round, or of a turn of the enqueue loop.
pub mod Fifo
pub mod Delivery
pub mod Capacity
pub mod Drains
use node_agent_rs.Base.{
  ℕ, suc, ◌+◌, ◌-◌, Bool, true, false, ◌||◌, ◌&&◌, not, Option, none, some, List, [], ◌∷◌, ◌++◌,
  length, leb, if◌then◌else◌, Text, ℤ,
}
use node_agent_rs.Traffic.Time.{unix_seconds}
use node_agent_rs.Traffic.Aggregator.{
  Aggregator, Report, TrafficEvent, restore, observe, flush, flush_all,
}

-- The protobuf message.
pub record TrafficReport : Type 0 where
  pub machine_id : Text
  pub node_id : Text
  pub user_id : Text
  pub protocol : Text
  pub uplink_bytes : ℕ
  pub downlink_bytes : ℕ
  pub observed_at_unix : ℤ

unfoldable pub report_to_proto : Report → TrafficReport
report_to_proto report = record {
  machine_id = report.machine_id;
  node_id = report.node_id;
  user_id = report.user_id;
  protocol = report.protocol;
  uplink_bytes = report.uplink_bytes;
  downlink_bytes = report.downlink_bytes;
  observed_at_unix = unix_seconds report.observed_at;
}

-- `reports` is the channel, oldest first.
pub record TrafficQueue : Type 0 where
  pub reports : List TrafficReport
  pub in_flight : Option TrafficReport
  pub capacity : ℕ

unfoldable pub with_capacity : ℕ → TrafficQueue
with_capacity capacity = record { reports = []; in_flight = none; capacity = capacity }

abbrev pub traffic_queue_size : ℕ
traffic_queue_size = 256

-- `report_sender.capacity()`: the free places.
abbrev pub free : TrafficQueue → ℕ
free q = q.capacity - length q.reports

abbrev occupied : Option TrafficReport → ℕ
occupied none = 0
occupied (some report) = 1

unfoldable pub queued_len : TrafficQueue → ℕ
queued_len q = (q.capacity - free q) + occupied q.in_flight

-- The queue, and the reports whose consumption the stream has confirmed.
pub record Pipe : Type 0 where
  pub queue : TrafficQueue
  pub consumed : List TrafficReport

-- How the handing over of the report in flight ends. A flag tells whether the session was
-- cancelled by then.
pub data Handover : Type 0 where
  not_sent : Bool → Handover
  polled : Handover
  unpolled : Bool → Handover
  cancelled_waiting : Handover

-- Which branch of the idle `select!` is taken.
pub data Wakeup : Type 0 where
  cancelled : Wakeup
  drain_request : Option (Unit {0}) → Wakeup
  report_ready : Wakeup

pub record Round : Type 0 where
  pub handover : Handover
  pub wakeup : Wakeup

pub data ConsumeStop : Type 0 where
  drain stopped outgoing_closed : ConsumeStop

abbrev stop_of : Bool → ConsumeStop
stop_of true = stopped
stop_of false = outgoing_closed

-- The first half of the loop, with a report in flight.
abbrev pub hand_over : Pipe → TrafficReport → Handover → Pipe × Option ConsumeStop
hand_over p report (not_sent by_cancel) = (p, some (stop_of by_cancel))
hand_over p report polled = (
  record { queue = record p.queue { in_flight = none }; consumed = p.consumed ++ report ∷ [] },
  none,
)
hand_over p report (unpolled by_cancel) = (p, some (stop_of by_cancel))
hand_over p report cancelled_waiting = (p, some stopped)

-- `recv` on the channel; on an empty one it goes on waiting.
abbrev pub receive : Pipe → List TrafficReport → Pipe
receive p [] = p
receive p (report ∷ rest) = record p {
  queue = record p.queue { reports = rest; in_flight = some report };
}

-- The second half of the loop.
abbrev pub wake_up : Pipe → Wakeup → Pipe × Option ConsumeStop
wake_up p cancelled = (p, some stopped)
wake_up p (drain_request none) = (p, some outgoing_closed)
wake_up p (drain_request (some reply)) = (p, some drain)
wake_up p report_ready = (receive p p.queue.reports, none)

abbrev pub dispatch : Option TrafficReport → Pipe → Round → Pipe × Option ConsumeStop
dispatch (some report) p round = hand_over p report round.handover
dispatch none p round = wake_up p round.wakeup

-- One round of the loop of `consume_reports`.
unfoldable pub consume_round : Pipe → Round → Pipe × Option ConsumeStop
consume_round p round = dispatch p.queue.in_flight p round

-- `consume_reports`, until it stops or the rounds end.
unfoldable pub consume_reports : Pipe → List Round → Pipe × Option ConsumeStop
consume_reports p [] = (p, none)
consume_reports p (round ∷ rounds) =
    let (p', stop) = consume_round p round in
    let rest = consume_reports p' rounds in elim stop [ none ↦ rest | some s ↦ (p', some s) ]

-- What happens until a permit is decided: rounds of the consumer, and whether the batch is cancelled.
pub record Turn : Type 0 where
  pub meanwhile : List Round
  pub cancelled_by_then : Bool

pub record Sender : Type 0 where
  pub aggregator : Aggregator
  pub pipe : Pipe

-- `permit.send(report_to_proto(report))`
unfoldable pub send : Pipe → Report → Pipe
send p report = record p {
  queue = record p.queue { reports = p.queue.reports ++ report_to_proto report ∷ [] };
}

abbrev pub full : Pipe → Bool
full p = leb p.queue.capacity (length p.queue.reports)

-- `enqueue_inner`; the number of queued reports is the second part. A batch that waits for capacity
-- goes on to its next turn while the channel is full; where the turns end, it is cancelled.
unfoldable pub enqueue_inner : Sender → List Report → Bool → List Turn → Sender × ℕ
enqueue_inner s [] wait_for_capacity turns = (s, 0)
enqueue_inner s (report ∷ rest) wait_for_capacity [] =
    (record s { aggregator = restore s.aggregator (report ∷ rest) }, 0)
enqueue_inner s (report ∷ rest) wait_for_capacity (turn ∷ turns) =
    let p = (consume_reports s.pipe turn.meanwhile).0 in
    let (s', queued) =
      enqueue_inner (record s { pipe = send p report }) rest wait_for_capacity turns in
    let waited = enqueue_inner (record s { pipe = p }) (report ∷ rest) wait_for_capacity turns in
    if not turn.cancelled_by_then && not (full p)
    then (s', suc queued)
    else if not turn.cancelled_by_then && wait_for_capacity
    then waited
    else (record { aggregator = restore s.aggregator (report ∷ rest); pipe = p }, 0)

-- `flush`, `flush_all` of the queue.
unfoldable pub flush_queue : Sender → ℤ → List Turn → Sender × ℕ
flush_queue s now turns =
    let (reports, rest) = flush s.aggregator now in
    enqueue_inner (record s { aggregator = rest }) reports false turns

unfoldable pub flush_queue_all : Sender → ℤ → List Turn → Sender × ℕ
flush_queue_all s now turns =
    let (reports, rest) = flush_all s.aggregator now in
    enqueue_inner (record s { aggregator = rest }) reports true turns

-- A drained runtime counter; the `TrafficDrain` of runtime.rs.
pub record TrafficDrain : Type 0 where
  pub node_id : Text
  pub user_id : Text
  pub protocol : Text
  pub uplink_bytes : ℕ
  pub downlink_bytes : ℕ
  pub observed_at : Option ℤ

abbrev pub drain_event : Text → TrafficDrain → TrafficEvent
drain_event machine_id d = record {
  machine_id = machine_id;
  node_id = d.node_id;
  user_id = d.user_id;
  protocol = d.protocol;
  uplink_bytes = d.uplink_bytes;
  downlink_bytes = d.downlink_bytes;
  observed_at = d.observed_at;
}

-- The clock is read by `observe` where a drain has no time of its own.
unfoldable pub observe_runtime_drains : Aggregator → ℤ → Text → List TrafficDrain → Aggregator × ℕ
observe_runtime_drains a now machine_id [] = (a, 0)
observe_runtime_drains a now machine_id (d ∷ drains) =
    let (a', count) =
      observe_runtime_drains (observe a now (drain_event machine_id d)) now machine_id drains in
    (a', suc count)
