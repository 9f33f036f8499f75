-- ===== src/Traffic/Queue/Fifo.antt =====
-- The queue is first in, first out, and keeps every report through any stop of the stream.
use mathlib.Core.List.{append_assoc}
use node_agent_rs.Base.{
  ◌≡◌, refl, ◌∙◌, Option, none, some, List, [], ◌∷◌, ◌++◌, Option-cases, inl, inr,
}
use node_agent_rs.Traffic.Aggregator.{Report}
use node_agent_rs.Traffic.Queue.{
  TrafficReport, Pipe, Handover, not_sent, polled, unpolled, cancelled_waiting, Wakeup, cancelled,
  drain_request, report_ready, Round, consume_round, consume_reports, send, report_to_proto,
  hand_over, receive, wake_up, dispatch,
}

abbrev pub slot : Option TrafficReport → List TrafficReport
slot none = []
slot (some report) = report ∷ []

-- Every report that the queue has accepted, oldest first.
unfoldable pub pipeline : Pipe → List TrafficReport
pipeline p = p.consumed ++ slot p.queue.in_flight ++ p.queue.reports

pipeline-hand_over :
    (p : Pipe) (report : TrafficReport) (h : Handover)
    → p.queue.in_flight ≡ some report
    → pipeline (hand_over p report h).0 ≡ pipeline p
unfolding pipeline
pipeline-hand_over p report (not_sent b) e = refl
pipeline-hand_over p report polled e = simp (e, append_assoc)
pipeline-hand_over p report (unpolled b) e = refl
pipeline-hand_over p report cancelled_waiting e = refl

pipeline-receive :
    (p : Pipe) (reports : List TrafficReport)
    → p.queue.in_flight ≡ none
    → p.queue.reports ≡ reports
    → pipeline (receive p reports) ≡ pipeline p
unfolding pipeline
pipeline-receive p [] e h = refl
pipeline-receive p (report ∷ rest) e h = simp (e, h, append_assoc)

pipeline-wake_up :
    (p : Pipe) (w : Wakeup) → p.queue.in_flight ≡ none → pipeline (wake_up p w).0 ≡ pipeline p
pipeline-wake_up p cancelled e = refl
pipeline-wake_up p (drain_request none) e = refl
pipeline-wake_up p (drain_request (some reply)) e = refl
pipeline-wake_up p report_ready e = pipeline-receive p p.queue.reports e refl

pipeline-dispatch :
    (p : Pipe) (round : Round) (in_flight : Option TrafficReport)
    → p.queue.in_flight ≡ in_flight
    → pipeline (dispatch in_flight p round).0 ≡ pipeline p
pipeline-dispatch p round none e = pipeline-wake_up p round.wakeup e
pipeline-dispatch p round (some report) e = pipeline-hand_over p report round.handover e

-- No round of the consumer loses, repeats or reorders a report.
consume_round-pipeline :
    (p : Pipe) (round : Round) → pipeline (consume_round p round).0 ≡ pipeline p
unfolding consume_round
consume_round-pipeline p round = pipeline-dispatch p round p.queue.in_flight refl

-- Whatever the rounds and however the stream stops, the reports that were consumed, the one in
-- flight and those in the channel are, in order, the same as before.
pub consume_reports-pipeline :
    (p : Pipe) (rounds : List Round) → pipeline (consume_reports p rounds).0 ≡ pipeline p
unfolding consume_reports
consume_reports-pipeline p [] = refl
consume_reports-pipeline p (round ∷ rounds) = elim (Option-cases (consume_round p round).1) [
  | inl e ↦
      rw (consume_reports, e)
        (consume_reports-pipeline (consume_round p round).0 rounds ∙ consume_round-pipeline p round)
  | inr (stop, e) ↦ rw (consume_reports, e) (consume_round-pipeline p round)
]

-- Sending puts a report behind all others.
pub pipeline-send :
    (p : Pipe) (report : Report)
    → pipeline (send p report) ≡ pipeline p ++ report_to_proto report ∷ []
unfolding pipeline send
pipeline-send p report = simp append_assoc
