-- ===== src/Traffic/Queue/Delivery.antt =====
-- A batch of reports is queued up to some point, and from there on it goes back to the aggregator.
use mathlib.Core.List.{append_assoc, append-nil}
use node_agent_rs.Base.{
  ℕ, suc, ◌+◌, ◌%◌, ◌≡◌, refl, sym, ap, ◌∙◌, Bool, true, false, ◌&&◌, not, List, [], ◌∷◌, ◌++◌,
  length, Bool-cases, inl, inr, map, ℤ,
}
use node_agent_rs.Traffic.Aggregator.{
  Report, u64_mod, CounterKey, restore, restore_counters, flush, flush_inner, flush_all,
}
use node_agent_rs.Traffic.Aggregator.Totals.{Direction, pending, reported}
use node_agent_rs.Traffic.Aggregator.Conserve.{Filed, flush_conserves}
use node_agent_rs.Traffic.Queue.{
  Pipe, consume_reports, send, report_to_proto, Sender, Turn, full, enqueue_inner, flush_queue,
  flush_queue_all,
}
use node_agent_rs.Traffic.Queue.Fifo.{pipeline, consume_reports-pipeline, pipeline-send}

-- The queue of `after` is that of `before` with the front of the batch behind it, as many reports
-- as are counted; the aggregator has the rest back.
abbrev pub IsDelivered : Sender → List Report → Sender × ℕ → List Report → List Report → Type 0
IsDelivered before batch (after, queued) sent unsent =
    (batch ≡ sent ++ unsent)
    × (pipeline after.pipe ≡ pipeline before.pipe ++ map report_to_proto sent)
    × (after.aggregator ≡ restore before.aggregator unsent)
    × (queued ≡ length sent)

-- Giving the batch up, after rounds of the consumer.
delivers_none :
    (s : Sender) (batch : List Report) (p : Pipe)
    → pipeline p ≡ pipeline s.pipe
    → IsDelivered s batch (record { aggregator = restore s.aggregator batch; pipe = p }, 0) [] batch
delivers_none s batch p kept = (refl, kept ∙ sym (append-nil (pipeline s.pipe)), refl, refl)

-- Sending the first report, and then the rest of the batch.
delivers_more :
    (s : Sender) (r : Report) (rest : List Report) (p : Pipe) (sent unsent : List Report)
    (result : Sender × ℕ)
    → pipeline p ≡ pipeline s.pipe
    → IsDelivered (record s { pipe = send p r }) rest result sent unsent
    → IsDelivered s (r ∷ rest) (result.0, suc result.1) (r ∷ sent) unsent
delivers_more s r rest p sent unsent result kept (e, f, g, h) =
    (ap (◌∷◌ r) e, f ∙ simp (pipeline-send, kept, append_assoc), g, ap suc h)

-- Whatever the consumer does meanwhile, and wherever the batch is cancelled or finds no room, a front
-- of it is queued in order and the rest is restored: no report is dropped or sent twice.
pub enqueue_inner_delivers :
    (s : Sender) (batch : List Report) (wait_for_capacity : Bool) (turns : List Turn)
    → (sent : List Report) × (unsent : List Report) × IsDelivered s batch
        (enqueue_inner s batch wait_for_capacity turns)
        sent
        unsent
unfolding enqueue_inner
enqueue_inner_delivers s [] w turns = (
  [],
  [],
  (refl, sym (append-nil (pipeline s.pipe)), unfold restore restore_counters in refl, refl),
)
enqueue_inner_delivers s (r ∷ rest) w [] = ([], r ∷ rest, delivers_none s (r ∷ rest) s.pipe refl)
enqueue_inner_delivers s (r ∷ rest) w (turn ∷ turns) =
    let p = (consume_reports s.pipe turn.meanwhile).0 in
    let kept = consume_reports-pipeline s.pipe turn.meanwhile in
    let (sent, unsent, h) = enqueue_inner_delivers (record s { pipe = send p r }) rest w turns in
    let (sent', unsent', h') = enqueue_inner_delivers (record s { pipe = p }) (r ∷ rest) w turns in
    elim (Bool-cases (not turn.cancelled_by_then && not (full p))) [
      | inl room ↦
          rw (enqueue_inner, room) (r ∷ sent, unsent, delivers_more s r rest p sent unsent _ kept h)
      | inr no_room ↦ elim (Bool-cases (not turn.cancelled_by_then && w)) [
        | inl waits ↦
            rw (enqueue_inner, no_room, waits)
              (
                sent',
                unsent',
                (h'.0, h'.1 ∙ ap (λ l. l ++ map report_to_proto sent') kept, h'.2, h'.3),
              )
        | inr gives_up ↦
            rw (enqueue_inner, no_room, gives_up) ([], r ∷ rest, delivers_none s (r ∷ rest) p kept)
      ]
    ]

module _ (d : Direction) (k : CounterKey) where
  -- What a flush takes out and the queue accepts, with what is restored, is what was pending.
  delivered_bytes :
      (s : Sender) (now : ℤ) (force : Bool) (result : Sender × ℕ) (sent unsent : List Report)
      → Filed s.aggregator.counters
      → IsDelivered
          (record s { aggregator = (flush_inner s.aggregator now force).1 })
          (flush_inner s.aggregator now force).0
          result
          sent
          unsent
      → (pending d k result.0.aggregator.counters + reported d k sent) % u64_mod
        ≡ pending d k s.aggregator.counters % u64_mod
  delivered_bytes s now force result sent unsent filed (e, f, g, h) =
      rw g (flush_conserves d k s.aggregator now force sent unsent filed e)

  -- A periodic flush of a filed aggregator appends the wire form of some reports to those that the
  -- queue has accepted, and answers how many; for each key, their bytes and those that are pending
  -- afterwards are the bytes that were pending before, modulo 2^64.
  pub flush_queue_delivers :
      (s : Sender) (now : ℤ) (turns : List Turn)
      → Filed s.aggregator.counters
      → let (after, queued) = flush_queue s now turns in
        (sent : List Report) × (pipeline after.pipe ≡ pipeline s.pipe ++ map report_to_proto sent)
        × (queued ≡ length sent)
        × ((pending d k after.aggregator.counters + reported d k sent) % u64_mod
            ≡ pending d k s.aggregator.counters % u64_mod)
  unfolding flush_queue flush
  flush_queue_delivers s now turns filed =
      let (reports, rest) = flush_inner s.aggregator now false in
      let (sent, unsent, h) =
        enqueue_inner_delivers (record s { aggregator = rest }) reports false turns in
      (sent, h.1, h.3, delivered_bytes s now false _ sent unsent filed h)

  -- The same of the flush at shutdown.
  pub flush_queue_all_delivers :
      (s : Sender) (now : ℤ) (turns : List Turn)
      → Filed s.aggregator.counters
      → let (after, queued) = flush_queue_all s now turns in
        (sent : List Report) × (pipeline after.pipe ≡ pipeline s.pipe ++ map report_to_proto sent)
        × (queued ≡ length sent)
        × ((pending d k after.aggregator.counters + reported d k sent) % u64_mod
            ≡ pending d k s.aggregator.counters % u64_mod)
  unfolding flush_queue_all flush_all
  flush_queue_all_delivers s now turns filed =
      let (reports, rest) = flush_inner s.aggregator now true in
      let (sent, unsent, h) =
        enqueue_inner_delivers (record s { aggregator = rest }) reports true turns in
      (sent, h.1, h.3, delivered_bytes s now true _ sent unsent filed h)
