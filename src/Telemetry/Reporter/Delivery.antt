-- ===== src/Telemetry/Reporter/Delivery.antt =====
-- src/telemetry/reporter.ts: a batch of a revoked project, and a response that does not answer its
-- batch.
use dsh_ai_coding.Base.{
  ℕ, ◌+◌, ◌⊎◌, inl, inr, ◌≡◌, refl, true, false, String, by_if, Result, ok, err,
}
use dsh_ai_coding.Telemetry.Queue.Table.{TelemetryStorageError}
use dsh_ai_coding.Telemetry.Queue.Store.{TelemetryQueue, transaction}
use dsh_ai_coding.Telemetry.Queue.Claims.{PendingBatch, report_failure, fail_batch}
use dsh_ai_coding.Telemetry.Queue.Upkeep.{is_revoked}
use dsh_ai_coding.Telemetry.Queue.Commands.{by_fault}
use dsh_ai_coding.Telemetry.Reporter.Pipeline.{
  TelemetryBatchResult, TelemetryBatchRequest, SendOutcome, Services, Pipeline, backoff_ms, reading,
  ticked, settle,
}
use dsh_ai_coding.Telemetry.Reporter.Drain.{mismatch_text, after_mismatch, acknowledge_batch}
use dsh_ai_coding.Telemetry.Reporter.Answers.{Misses, is_mismatch-Misses}
use dsh_ai_coding.Telemetry.Reporter.Loop.{Turn, stop, raise, after_defer, deliver}

module _ (io : Services) where
  -- A response that does not answer exactly its batch is not applied, be it of another batch, with
  -- another number of acks, with an ack of an event that was not sent, or with two acks of one event:
  -- the queue only reports the failure of the batch, so none of its acks deletes or reschedules a row;
  -- or the storage raised and the queue is as it was.
  pub acknowledge_batch-Misses :
      (account project : String) (batch : PendingBatch) (result : TelemetryBatchResult)
      (p : Pipeline)
      → Misses batch result
      → let r = acknowledge_batch io account project batch result p in
        ((r.1 ≡ ok false)
          × (r.0.failing ≡ true)
          × (r.0.queue
              ≡ fail_batch io.runtime batch.batch_id "TELEMETRY_ACK_MISMATCH"
                  (io.clip (mismatch_text io batch result))
                  (reading io p + backoff_ms p.settings 1)
                  (reading io (ticked io p))
                  p.queue))
        ⊎ ((e : TelemetryStorageError) × (r.1 ≡ err e) × (r.0.queue ≡ p.queue))
  unfolding acknowledge_batch report_failure transaction
  acknowledge_batch-Misses account project batch result p m =
      rw (is_mismatch-Misses batch result m) (
        by_fault
          (λ s.
            let r =
              after_mismatch io (io.clip (mismatch_text io batch result))
                (settle (ticked io (ticked io p)) s) in
            ((r.1 ≡ ok false)
              × (r.0.failing ≡ true)
              × (r.0.queue
                  ≡ fail_batch io.runtime batch.batch_id "TELEMETRY_ACK_MISMATCH"
                      (io.clip (mismatch_text io batch result))
                      (reading io p + backoff_ms p.settings 1) (reading io (ticked io p)) p.queue))
            ⊎ ((e : TelemetryStorageError) × (r.1 ≡ err e) × (r.0.queue ≡ p.queue)))
          p.queue.closed (io.faults p.writes) (inr (TelemetryStorageError.queue_closed, refl, refl))
          (inr (TelemetryStorageError.write_failed, refl, refl)) (inl (refl, refl, refl)))

  -- Nothing new was sent, and the drain has ended in the revoked mode.
  abbrev pub Refused : Pipeline → Pipeline × Turn → Type 0
  Refused p r =
      (r.0.sends ≡ p.sends)
      × (r.0.authorization_revoked ≡ true)
      × ((r.1 ≡ stop) ⊎ ((e : TelemetryStorageError) × (r.1 ≡ raise e)))

  after_defer-Refused :
      (p s : Pipeline) (r : Result TelemetryStorageError (TelemetryQueue × Unit {0}))
      → s.sends ≡ p.sends
      → s.authorization_revoked ≡ true
      → Refused p (after_defer io (settle s r))
  unfolding after_defer
  after_defer-Refused p s (ok (q, u)) h k = (h, k, inl refl)
  after_defer-Refused p s (err e) h k = (h, k, inr (e, refl))

  -- A batch of a revoked pair is not sent, and the drain stops there in the revoked mode.
  pub deliver_revoked :
      (call : ℕ → TelemetryBatchRequest → String → SendOutcome) (account : String) (idle : ℕ)
      (batch : PendingBatch) (p : Pipeline)
      → is_revoked p.queue account batch.project_id ≡ true
      → Refused p (deliver io call account idle batch p)
  unfolding deliver
  deliver_revoked call account idle batch p h =
      by_if (Refused p) (is_revoked p.queue account batch.project_id)
        (λ _.
          after_defer-Refused p (record (ticked io p) { authorization_revoked = true }) _ refl refl)
        (λ live. absurd (cc (h, live)))
