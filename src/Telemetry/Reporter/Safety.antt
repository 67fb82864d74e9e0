-- ===== src/Telemetry/Reporter/Safety.antt =====
-- src/telemetry/reporter.ts: the handling of the answers to a batch, and what is sent.
use dsh_ai_coding.Base.{
  ℕ, ◌+◌, ◌-◌, ◌≡◌, refl, Bool, String, Option, none, some, List, [], ◌∷◌, ltb, by_if, length,
  select, Result, ok, err,
}
use dsh_ai_coding.Telemetry.Event.{GapReason}
use dsh_ai_coding.Telemetry.Queue.Table.{TelemetryStorageError}
use dsh_ai_coding.Telemetry.Queue.Store.{TelemetryQueue, enqueue_gap}
use dsh_ai_coding.Telemetry.Queue.Claims.{
  PendingBatch, QueueGapRange, TelemetryAckInput, acknowledge, report_failure,
}
use dsh_ai_coding.Telemetry.Reporter.Pipeline.{
  TelemetryEventAck, TelemetryBatchRequest, TelemetryBatchResult, Services, Pipeline, backoff_ms,
  reading, ticked, settle, stored, short, released, after_release, after_report, recover_batch,
}
use dsh_ai_coding.Telemetry.Reporter.Drain.{
  range_gap, is_accepted, is_mismatch, mismatch_text, ack_inputs, after_mismatch, after_gap,
  report_rejected, after_acknowledge, apply_result, acknowledge_batch,
}

module _ (io : Services) (S : List (TelemetryBatchRequest × String) → Type 0) where
  abbrev pub Kept : Pipeline → Type 0
  Kept p = S p.sends

  settle-Kept {ℓ} :
      {A : Type ℓ} (p : Pipeline) (r : Result TelemetryStorageError (TelemetryQueue × A))
      → Kept p
      → Kept (settle p r).0
  settle-Kept p (ok (q, a)) h = h
  settle-Kept p (err e) h = h

  pub stored-Kept {ℓ} :
      {A : Type ℓ} (p : Pipeline)
      (call : Bool → TelemetryQueue → Result TelemetryStorageError (TelemetryQueue × A))
      → Kept p
      → Kept (stored io call p).0
  unfolding stored
  stored-Kept p call h = settle-Kept p (call (io.faults p.writes) p.queue) h

  after_release-Kept :
      (safe : String) (r : Pipeline × Result TelemetryStorageError (Unit {0}))
      → Kept r.0
      → Kept (after_release io safe r)
  unfolding after_release
  after_release-Kept safe (p, ok u) h = h
  after_release-Kept safe (p, err e) h = h

  after_report-Kept :
      (batch code safe : String) (r : Pipeline × Result TelemetryStorageError (Unit {0}))
      → Kept r.0
      → Kept (after_report io batch code safe r)
  unfolding after_report
  after_report-Kept batch code safe (p, ok u) h = h
  after_report-Kept batch code safe (p, err e) h =
      after_release-Kept _ (stored io (released batch) p) (stored-Kept p (released batch) h)

  pub recover_batch-Kept :
      (batch code summary : String) (bump : ℕ) (p : Pipeline)
      → Kept p
      → Kept (recover_batch io batch code summary bump p)
  unfolding recover_batch
  recover_batch-Kept batch code summary bump p h =
      let call : Bool → TelemetryQueue → Result TelemetryStorageError (TelemetryQueue × Unit {0}) =
        λ fault q.
          report_failure io.runtime fault q batch code (short io summary)
            (reading io p + backoff_ms p.settings (bump - 1 + 1)) (reading io (ticked io p)) in
      after_report-Kept batch code (short io summary) (stored io call (ticked io (ticked io p)))
        (stored-Kept (ticked io (ticked io p)) call h)

  ack_inputs-sends :
      (acks : List TelemetryEventAck) (p : Pipeline) → (ack_inputs io acks p).0.sends ≡ p.sends
  unfolding ack_inputs
  ack_inputs-sends [] p = refl
  ack_inputs-sends (TelemetryEventAck.accepted id ∷ acks) p = ack_inputs-sends acks p
  ack_inputs-sends (TelemetryEventAck.duplicate id ∷ acks) p = ack_inputs-sends acks p
  ack_inputs-sends (TelemetryEventAck.retryable id s w ∷ acks) p =
      ack_inputs-sends acks (ticked io p)
  ack_inputs-sends (TelemetryEventAck.rejected id w ∷ acks) p = ack_inputs-sends acks p

  after_mismatch-Kept :
      (summary : String) (r : Pipeline × Result TelemetryStorageError (Unit {0}))
      → Kept r.0
      → Kept (after_mismatch io summary r).0
  unfolding after_mismatch
  after_mismatch-Kept summary (p, ok u) h = h
  after_mismatch-Kept summary (p, err e) h = h

  after_gap-Kept :
      (count : ℕ) (r : Pipeline × Result TelemetryStorageError String)
      → Kept r.0
      → Kept (after_gap io count r).0
  unfolding after_gap
  after_gap-Kept count (p, ok u) h = h
  after_gap-Kept count (p, err e) h = h

  report_rejected-Kept :
      (account project : String) (progress : Bool) (range : Option QueueGapRange) (p : Pipeline)
      → Kept p
      → Kept (report_rejected io account project progress range p).0
  unfolding report_rejected
  report_rejected-Kept account project progress none p h = h
  report_rejected-Kept account project progress (some range) p h =
      by_if (λ (r : Pipeline × Result TelemetryStorageError Bool). Kept r.0) (ltb 0 range.count)
        (λ _.
          let call : Bool
              → TelemetryQueue
              → Result TelemetryStorageError (TelemetryQueue × String) =
            λ fault q.
              enqueue_gap io.runtime fault q account (some project) none
                (range_gap GapReason.rejected range) (reading io p) in
          after_gap-Kept range.count (stored io call (ticked io p))
            (stored-Kept (ticked io p) call h))
        (λ _. h)

  after_acknowledge-Kept :
      (account project : String) (count : ℕ)
      (r : Pipeline × Result TelemetryStorageError (Option QueueGapRange))
      → Kept r.0
      → Kept (after_acknowledge io account project count r).0
  unfolding after_acknowledge
  after_acknowledge-Kept account project count (p, err e) h = h
  after_acknowledge-Kept account project count (p, ok range) h =
      report_rejected-Kept account project (ltb 0 count) range _
        (by_if Kept (ltb 0 count) (λ _. h) (λ _. h))

  apply_result-Kept :
      (account project : String) (batch : PendingBatch) (result : TelemetryBatchResult)
      (p : Pipeline)
      → Kept p
      → Kept (apply_result io account project batch result p).0
  unfolding apply_result
  apply_result-Kept account project batch result p h =
      let p' : Pipeline = (ack_inputs io result.results p).0 in
      let acks : List TelemetryAckInput = (ack_inputs io result.results p).1 in
      let call : Bool
          → TelemetryQueue
          → Result TelemetryStorageError (TelemetryQueue × Option QueueGapRange) =
        λ fault q. acknowledge fault q batch.batch_id acks result.server_checkpoint in
      after_acknowledge-Kept account project (length (select is_accepted result.results))
        (stored io call p') (stored-Kept p' call (rw (ack_inputs-sends result.results p) h))

  pub acknowledge_batch-Kept :
      (account project : String) (batch : PendingBatch) (result : TelemetryBatchResult)
      (p : Pipeline)
      → Kept p
      → Kept (acknowledge_batch io account project batch result p).0
  unfolding acknowledge_batch
  acknowledge_batch-Kept account project batch result p h =
      by_if (λ (r : Pipeline × Result TelemetryStorageError Bool). Kept r.0)
        (is_mismatch batch result)
        (λ _.
          let call : Bool
              → TelemetryQueue
              → Result TelemetryStorageError (TelemetryQueue × Unit {0}) =
            λ fault q.
              report_failure io.runtime fault q batch.batch_id "TELEMETRY_ACK_MISMATCH"
                (io.clip (mismatch_text io batch result)) (reading io p + backoff_ms p.settings 1)
                (reading io (ticked io p)) in
          after_mismatch-Kept (io.clip (mismatch_text io batch result))
            (stored io call (ticked io (ticked io p)))
            (stored-Kept (ticked io (ticked io p)) call h))
        (λ _. apply_result-Kept account project batch result p h)
