-- ===== src/Telemetry/Reporter/Rounds.antt =====
-- src/telemetry/reporter.ts: what a drain sends, and when it sends nothing.
use dsh_ai_coding.Base.{
  ℕ, zero, suc, ◌+◌, Bool, true, false, String, Option, none, some, is_none, by_if, length, Result,
  ok, err, ◌≡◌, List, ◌∷◌,
}
use dsh_ai_coding.Telemetry.Queue.Table.{TelemetryStorageError}
use dsh_ai_coding.Telemetry.Queue.Claims.{PendingBatch, QueueGapRange, pending_batch}
use dsh_ai_coding.Telemetry.Event.{authorization_revoked}
use dsh_ai_coding.Telemetry.Queue.Store.{TelemetryQueue, enqueue_gap}
use dsh_ai_coding.Telemetry.Queue.Upkeep.{revoke_project, is_revoked, defer_project}
use dsh_ai_coding.Telemetry.Reporter.Pipeline.{
  TelemetryBatchRequest, SendOutcome, sent, revoked, failed, send_threw, user, Services, Pipeline,
  backoff_ms, reading, ticked, stored, short,
}
use dsh_ai_coding.Telemetry.Reporter.Drain.{range_gap, acknowledge_batch}
use dsh_ai_coding.Telemetry.Reporter.Loop.{
  Turn, stop, raise, again, max_attempts_of, after_ack, after_revoked_gap, after_revoke, after_send,
  awaited, request, after_defer, deliver, after_pending, round, rounds, after_expire,
}
use dsh_ai_coding.Telemetry.Reporter.Safety.{
  stored-Kept, recover_batch-Kept, acknowledge_batch-Kept,
}

-- The requests of one drain, after those before it: each is of a batch whose project was not revoked
-- when it was sent, and goes out for the account.
pub data Sent (io : Services) (account : String) (old : List (TelemetryBatchRequest × String))
    : List (TelemetryBatchRequest × String) → Type 0 where
  unsent : Sent io account old old
  sends :
      (p : Pipeline) (batch : PendingBatch)
      → Sent io account old p.sends
      → is_revoked p.queue account batch.project_id ≡ false
      → Sent io account old ((request io batch p, account) ∷ p.sends)

module _ (io : Services) (account : String) (old : List (TelemetryBatchRequest × String)) where
  abbrev S : List (TelemetryBatchRequest × String) → Type 0
  S = Sent io account old

  abbrev HasSent : Pipeline → Type 0
  HasSent p = S p.sends

  after_ack-HasSent :
      (batch : PendingBatch) (idle : ℕ) (r : Pipeline × Result TelemetryStorageError Bool)
      → HasSent r.0
      → HasSent (after_ack io batch idle r).0
  unfolding after_ack
  after_ack-HasSent batch idle (p, ok progress) h = h
  after_ack-HasSent batch idle (p, err e) h = recover_batch-Kept io S batch.batch_id _ _ 1 p h

  after_revoked_gap-HasSent :
      (r : Pipeline × Result TelemetryStorageError String)
      → HasSent r.0
      → HasSent (after_revoked_gap io r).0
  unfolding after_revoked_gap
  after_revoked_gap-HasSent (p, ok id) h = h
  after_revoked_gap-HasSent (p, err e) h = h

  after_revoke-HasSent :
      (project : String) (r : Pipeline × Result TelemetryStorageError QueueGapRange)
      → HasSent r.0
      → HasSent (after_revoke io account project r).0
  unfolding after_revoke
  after_revoke-HasSent project (p, err e) h = h
  after_revoke-HasSent project (p, ok range) h =
      let call : Bool → TelemetryQueue → Result TelemetryStorageError (TelemetryQueue × String) =
        λ fault q.
          enqueue_gap io.runtime fault q account (some project) none
            (range_gap authorization_revoked range) (reading io p) in
      after_revoked_gap-HasSent (stored io call (ticked io p))
        (stored-Kept io S (ticked io p) call h)

  after_send-HasSent :
      (batch : PendingBatch) (idle : ℕ) (outcome : SendOutcome) (p : Pipeline)
      → HasSent p
      → HasSent (after_send io account batch idle outcome p).0
  unfolding after_send
  after_send-HasSent batch idle (sent result) p h =
      after_ack-HasSent batch idle (acknowledge_batch io account batch.project_id batch result p)
        (acknowledge_batch-Kept io S account batch.project_id batch result p h)
  after_send-HasSent batch idle SendOutcome.signed_out p h = h
  after_send-HasSent batch idle revoked p h =
      let call : Bool
          → TelemetryQueue
          → Result TelemetryStorageError (TelemetryQueue × QueueGapRange) =
        λ fault q. revoke_project fault q account batch.project_id in
      after_revoke-HasSent batch.project_id (stored io call p) (stored-Kept io S p call h)
  after_send-HasSent batch idle (failed code summary) p h =
      recover_batch-Kept io S batch.batch_id code summary (max_attempts_of batch.events + 1) p h
  after_send-HasSent batch idle (send_threw message) p h =
      recover_batch-Kept io S batch.batch_id "TELEMETRY_SEND_THREW" (short io message) 1 p h

  after_defer-HasSent :
      (r : Pipeline × Result TelemetryStorageError (Unit {0}))
      → HasSent r.0
      → HasSent (after_defer io r).0
  unfolding after_defer
  after_defer-HasSent (p, ok u) h = h
  after_defer-HasSent (p, err e) h = h

  module _ (call : ℕ → TelemetryBatchRequest → String → SendOutcome) where
    deliver-HasSent :
        (idle : ℕ) (batch : PendingBatch) (p : Pipeline)
        → HasSent p
        → HasSent (deliver io call account idle batch p).0
    unfolding deliver
    deliver-HasSent idle batch p h =
        by_if (λ (r : Pipeline × Turn). HasSent r.0) (is_revoked p.queue account batch.project_id)
          (λ _.
            let barred : Pipeline = record (ticked io p) { authorization_revoked = true } in
            let defer : Bool
                → TelemetryQueue
                → Result TelemetryStorageError (TelemetryQueue × Unit {0}) =
              λ fault q.
                defer_project fault q account batch.project_id (backoff_ms p.settings 1)
                  (reading io p) in
            after_defer-HasSent (stored io defer barred) (stored-Kept io S barred defer h))
          (λ live.
            after_send-HasSent batch idle (call (length p.sends) (request io batch p) account)
              (awaited io (request io batch p) account (length p.sends) p) (sends p batch h live))

    after_pending-HasSent :
        (idle : ℕ) (r : Pipeline × Result TelemetryStorageError (Option PendingBatch))
        → HasSent r.0
        → HasSent (after_pending io call account idle r).0
    unfolding after_pending
    after_pending-HasSent idle (p, err e) h = h
    after_pending-HasSent idle (p, ok none) h = h
    after_pending-HasSent idle (p, ok (some batch)) h = deliver-HasSent idle batch p h

    round-HasSent : (idle : ℕ) (p : Pipeline) → HasSent p → HasSent (round io call account idle p).0
    unfolding round
    round-HasSent idle p h =
        let claim : Bool
            → TelemetryQueue
            → Result TelemetryStorageError (TelemetryQueue × Option PendingBatch) =
          λ fault q. pending_batch io.runtime fault q account (reading io p) in
        after_pending-HasSent idle (stored io claim (ticked io p))
          (stored-Kept io S (ticked io p) claim h)

    rounds-HasSent :
        (fuel idle : ℕ) (p : Pipeline) → HasSent p → HasSent (rounds io call account fuel idle p).0
    unfolding rounds
    rounds-HasSent zero idle p h = h
    rounds-HasSent (suc fuel) idle p h =
        go (round io call account idle p) (round-HasSent idle p h)
          (λ idle' p' h'. rounds-HasSent fuel idle' p' h')
      where
        go :
            (r : Pipeline × Turn)
            → HasSent r.0
            → ((idle' : ℕ) (p' : Pipeline)
                → HasSent p'
                → HasSent (rounds io call account fuel idle' p').0)
            → HasSent
                (elim r.1 as (λ _. Pipeline × Turn) [
                  | stop ↦ (r.0, stop)
                  | raise e ↦ (r.0, raise e)
                  | again idle' ↦ rounds io call account fuel idle' r.0
                ]).0
        go (p', stop) k ih = k
        go (p', raise e) k ih = k
        go (p', again idle') k ih = ih idle' p' k

    pub after_expire-HasSent :
        (fuel : ℕ) (r : Pipeline × Result TelemetryStorageError (Unit {0}))
        → HasSent r.0
        → HasSent (after_expire io call account fuel r).0
    unfolding after_expire
    after_expire-HasSent fuel (p, err e) h = h
    after_expire-HasSent fuel (p, ok u) h = rounds-HasSent fuel 0 p h

-- What a drain sends: nothing, or, where it was neither paused nor stopped by its storage and the
-- account service answered with an account, requests of projects that are not revoked for it.
pub data Guarded (io : Services) (p : Pipeline) : Pipeline → Type 0 where
  quiet : (q : Pipeline) → q.sends ≡ p.sends → Guarded io p q
  sending :
      (q : Pipeline) (account : String)
      → p.paused ≡ false
      → is_none p.storage_error ≡ true
      → io.resolve_account p.resolves ≡ user account
      → Sent io account p.sends q.sends
      → Guarded io p q
