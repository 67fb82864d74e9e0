-- ===== src/Telemetry/Reporter/Loop.antt =====
-- src/telemetry/reporter.ts: the rounds of `runDrain`, and `drainAsync` round it.
use dsh_ai_coding.Base.{
  ℕ, zero, suc, ◌+◌, max, Bool, true, false, ◌||◌, not, String, Option, none, some, List, [], ◌∷◌,
  map, leb, is_none, if◌then◌else◌, length, Result, ok, err,
}
use dsh_ai_coding.Telemetry.Event.{authorization_revoked}
use dsh_ai_coding.Telemetry.Queue.Table.{TelemetryStorageError}
use dsh_ai_coding.Telemetry.Queue.Store.{enqueue_gap}
use dsh_ai_coding.Telemetry.Queue.Claims.{
  PendingBatch, QueuedTelemetryEvent, QueueGapRange, pending_batch,
}
use dsh_ai_coding.Telemetry.Queue.Upkeep.{revoke_project, is_revoked, defer_project, expire_overdue}
use dsh_ai_coding.Telemetry.Reporter.Pipeline.{
  TelemetryBatchRequest, SendOutcome, sent, revoked, failed, send_threw, AccountState, user,
  resolve_threw, send, Services, Pipeline, error_message, backoff_ms, reading, ticked, stored,
  short, note_failure, recover_batch,
}
use dsh_ai_coding.Telemetry.Reporter.Drain.{range_gap, acknowledge_batch}

-- How a round ends: with a `return`, with a throw, or with the next round.
pub data Turn : Type 0 where
  stop : Turn
  raise : TelemetryStorageError → Turn
  again : ℕ → Turn

abbrev pub max_attempts_of : List QueuedTelemetryEvent → ℕ
max_attempts_of [] = 0
max_attempts_of (e ∷ es) = max e.attempts (max_attempts_of es)

module _ (io : Services) where
  abbrev pub request : PendingBatch → Pipeline → TelemetryBatchRequest
  request batch p = record {
    batch_id = batch.batch_id;
    project_id = batch.project_id;
    client_sent_at = reading io p;
    events = map (λ e. e.payload) batch.events;
  }

  unfoldable pub next_turn : Bool → ℕ → Turn
  next_turn true idle = again idle
  next_turn false idle = if leb 2 (idle + 1) then stop else again (idle + 1)

  unfoldable pub after_ack :
      PendingBatch → ℕ → Pipeline × Result TelemetryStorageError Bool → Pipeline × Turn
  unfolding recover_batch next_turn
  after_ack batch idle (p, ok progress) = (p, next_turn progress idle)
  after_ack batch idle (p, err e) = (
    recover_batch io batch.batch_id "TELEMETRY_ACK_FAILED" (short io (error_message e)) 1 p,
    stop,
  )

  unfoldable pub after_revoked_gap :
      Pipeline × Result TelemetryStorageError String → Pipeline × Turn
  after_revoked_gap (p, err e) = (p, raise e)
  after_revoked_gap (p, ok _) = (record p { authorization_revoked = true }, stop)

  unfoldable pub after_revoke :
      String → String → Pipeline × Result TelemetryStorageError QueueGapRange → Pipeline × Turn
  unfolding after_revoked_gap stored
  after_revoke account project (p, err e) = (p, raise e)
  after_revoke account project (p, ok range) = after_revoked_gap (
      stored io
        (λ fault q.
          enqueue_gap io.runtime fault q account (some project) none
            (range_gap authorization_revoked range) (reading io p))
        (ticked io p))

  unfoldable pub after_send : String → PendingBatch → ℕ → SendOutcome → Pipeline → Pipeline × Turn
  unfolding after_ack after_revoke acknowledge_batch recover_batch stored
  after_send account batch idle (sent result) p =
      after_ack batch idle (acknowledge_batch io account batch.project_id batch result p)
  after_send account batch idle SendOutcome.signed_out p = (record p { signed_out = true }, stop)
  after_send account batch idle revoked p =
      after_revoke account batch.project_id
        (stored io (λ fault q. revoke_project fault q account batch.project_id) p)
  after_send account batch idle (failed code summary) p =
      (recover_batch io batch.batch_id code summary (max_attempts_of batch.events + 1) p, stop)
  after_send account batch idle (send_threw message) p =
      (recover_batch io batch.batch_id "TELEMETRY_SEND_THREW" (short io message) 1 p, stop)

  -- The request goes out; what other callers do to the queue meanwhile is done when it returns.
  abbrev pub awaited : TelemetryBatchRequest → String → ℕ → Pipeline → Pipeline
  awaited r account n p = record p {
    queue = io.meanwhile n p.queue;
    sends = (r, account) ∷ p.sends;
    readings = suc p.readings;
  }

  unfoldable pub after_defer : Pipeline × Result TelemetryStorageError (Unit {0}) → Pipeline × Turn
  after_defer (p, ok _) = (p, stop)
  after_defer (p, err e) = (p, raise e)

  unfoldable pub deliver :
      (ℕ → TelemetryBatchRequest → String → SendOutcome)
      → String
      → ℕ
      → PendingBatch
      → Pipeline
      → Pipeline × Turn
  unfolding after_send after_defer is_revoked stored
  deliver call account idle batch p =
      if is_revoked p.queue account batch.project_id
      then after_defer (
          stored io
            (λ fault q.
              defer_project fault q account batch.project_id (backoff_ms p.settings 1)
                (reading io p))
            (record (ticked io p) { authorization_revoked = true }))
      else let n = length p.sends in
        after_send account batch idle (call n (request batch p) account)
          (awaited (request batch p) account n p)

  unfoldable pub after_pending :
      (ℕ → TelemetryBatchRequest → String → SendOutcome)
      → String
      → ℕ
      → Pipeline × Result TelemetryStorageError (Option PendingBatch)
      → Pipeline × Turn
  unfolding deliver
  after_pending call account idle (p, err e) = (p, raise e)
  after_pending call account idle (p, ok none) = (p, stop)
  after_pending call account idle (p, ok (some batch)) = deliver call account idle batch p

  -- One round of the `for (;;)` of `runDrain`.
  unfoldable pub round :
      (ℕ → TelemetryBatchRequest → String → SendOutcome) → String → ℕ → Pipeline → Pipeline × Turn
  unfolding after_pending stored
  round call account idle p =
      after_pending call account idle (
        stored io (λ fault q. pending_batch io.runtime fault q account (reading io p))
          (ticked io p))

  -- The loop. `again` as the result means that the fuel ran out before the loop ended.
  unfoldable pub rounds :
      (ℕ → TelemetryBatchRequest → String → SendOutcome)
      → String
      → ℕ
      → ℕ
      → Pipeline
      → Pipeline × Turn
  unfolding round
  rounds call account zero idle p = (p, again idle)
  rounds call account (suc fuel) idle p =
      let (p', turn) = round call account idle p in
      elim turn [
        | stop ↦ (p', stop)
        | raise e ↦ (p', raise e)
        | again idle' ↦ rounds call account fuel idle' p'
      ]

  unfoldable pub after_expire :
      (ℕ → TelemetryBatchRequest → String → SendOutcome)
      → String
      → ℕ
      → Pipeline × Result TelemetryStorageError (Unit {0})
      → Pipeline × Turn
  unfolding rounds
  after_expire call account fuel (p, err e) = (p, raise e)
  after_expire call account fuel (p, ok _) = rounds call account fuel 0 p

  unfoldable pub with_account :
      (ℕ → TelemetryBatchRequest → String → SendOutcome)
      → ℕ
      → AccountState
      → Pipeline
      → Pipeline × Turn
  unfolding after_expire note_failure stored
  with_account call fuel (resolve_threw message) p =
      (note_failure io send "ACCOUNT_RESOLVE_FAILED" (short io message) p, stop)
  with_account call fuel AccountState.signed_out p =
      (record p { signed_out = true; not_ready = false }, stop)
  with_account call fuel AccountState.not_ready p =
      (record p { signed_out = false; not_ready = true }, stop)
  with_account call fuel (user account) p = after_expire call account fuel (
      stored io (λ fault q. expire_overdue io.runtime fault q (reading io p))
        (record (ticked io p) { signed_out = false }))

  unfoldable pub run_drain : ℕ → Pipeline → Pipeline × Turn
  unfolding with_account
  run_drain fuel p = if p.paused || not (is_none p.storage_error) then (p, stop) else elim io.send [
    | none ↦ (record p { not_ready = true }, stop)
    | some call ↦
        with_account call fuel (io.resolve_account p.resolves)
          (record p { not_ready = false; resolves = suc p.resolves })
  ]

  unfoldable pub caught : Pipeline × Turn → Pipeline
  unfolding note_failure
  caught (p, raise e) = note_failure io send "REPORTER_FAILED" (short io (error_message e)) p
  caught (p, _) = p

  -- `drainAsync`: a throw of the drain becomes a failure of the pipeline.
  unfoldable pub drain_once : ℕ → Pipeline → Pipeline
  unfolding run_drain caught
  drain_once fuel p = caught (run_drain fuel p)
