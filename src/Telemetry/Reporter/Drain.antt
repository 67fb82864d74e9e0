-- ===== src/Telemetry/Reporter/Drain.antt =====
-- src/telemetry/reporter.ts: `acknowledgeBatch` and `runDrain`.
use Prim.Native.String.{◌++◌ as str_append}
use dsh_ai_coding.Base.{
  ℕ, suc, ◌+◌, ◌*◌, max, Bool, true, false, not, ◌||◌, String, Option, none, some, List, [], ◌∷◌,
  map, str_eq, ltb, ◌==◌, if◌then◌else◌, any_of, select, length, Result, ok, err,
}
use dsh_ai_coding.Telemetry.Event.{rejected as rejected_reason, GapReason, TelemetryGapDetail}
use dsh_ai_coding.Telemetry.Queue.Table.{TelemetryStorageError}
use dsh_ai_coding.Telemetry.Queue.Store.{enqueue_gap}
use dsh_ai_coding.Telemetry.Queue.Claims.{
  PendingBatch, TelemetryAckInput, AckStatus, QueueGapRange, acknowledge, report_failure,
}
use dsh_ai_coding.Telemetry.Queue.Upkeep.{distinct}
use dsh_ai_coding.Telemetry.Reporter.Pipeline.{
  TelemetryEventAck, accepted, duplicate, retryable, rejected, TelemetryBatchResult, send, parse,
  Services, Pipeline, backoff_ms, reading, ticked, stored, note_failure,
}

abbrev pub ack_id : TelemetryEventAck → String
ack_id (accepted id) = id
ack_id (duplicate id) = id
ack_id (retryable id s r) = id
ack_id (rejected id r) = id

abbrev pub is_accepted : TelemetryEventAck → Bool
is_accepted (accepted id) = true
is_accepted (duplicate id) = true
is_accepted _ = false

abbrev pub sent_ids : PendingBatch → List String
sent_ids batch = map (λ e. e.event_id) batch.events

-- Whether the response does not answer exactly the batch that was sent.
unfoldable pub is_mismatch : PendingBatch → TelemetryBatchResult → Bool
unfolding distinct
is_mismatch batch result =
    not (str_eq result.batch_id batch.batch_id)
    || not (length result.results == length batch.events)
    || any_of (λ id. not (any_of (str_eq id) (sent_ids batch))) (map ack_id result.results)
    || not (length (distinct [] (map ack_id result.results)) == length batch.events)

-- The gap of a range: absent ids stay absent.
abbrev pub range_gap : GapReason → QueueGapRange → TelemetryGapDetail
range_gap reason range = record {
  reason = reason;
  count = range.count;
  first_event_id = range.first_event_id;
  last_event_id = range.last_event_id;
}

module _ (io : Services) where
  -- The acks as the queue takes them; each retryable one reads the clock.
  unfoldable pub ack_inputs : List TelemetryEventAck → Pipeline → Pipeline × List TelemetryAckInput
  ack_inputs [] p = (p, [])
  ack_inputs (accepted id ∷ acks) p =
      let (p', rest) = ack_inputs acks p in
      (
        p',
        record { event_id = id; status = AckStatus.accepted; next_attempt_at = none; reason = none }
            ∷ rest,
      )
  ack_inputs (duplicate id ∷ acks) p =
      let (p', rest) = ack_inputs acks p in
      (
        p',
        record {
          event_id = id;
          status = AckStatus.duplicate;
          next_attempt_at = none;
          reason = none;
        }
            ∷ rest,
      )
  ack_inputs (retryable id seconds why ∷ acks) p =
      let (p', rest) = ack_inputs acks (ticked io p) in
      (
        p',
        record {
          event_id = id;
          status = AckStatus.retryable;
          next_attempt_at = some (reading io p + max (seconds * 1000) (backoff_ms p.settings 1));
          reason = some why;
        }
            ∷ rest,
      )
  ack_inputs (rejected id why ∷ acks) p =
      let (p', rest) = ack_inputs acks p in
      (
        p',
        record {
          event_id = id;
          status = AckStatus.rejected;
          next_attempt_at = none;
          reason = some why;
        }
            ∷ rest,
      )

  -- The mismatch branch: the whole batch fails closed.
  unfoldable pub after_mismatch :
      String
      → Pipeline × Result TelemetryStorageError (Unit {0})
      → Pipeline × Result TelemetryStorageError Bool
  unfolding note_failure
  after_mismatch summary (p, err e) = (p, err e)
  after_mismatch summary (p, ok _) =
      (note_failure io parse "TELEMETRY_ACK_MISMATCH" summary p, ok false)

  unfoldable pub after_gap :
      ℕ
      → Pipeline × Result TelemetryStorageError String
      → Pipeline × Result TelemetryStorageError Bool
  unfolding note_failure
  after_gap count (p, err e) = (p, err e)
  after_gap count (p, ok _) = (
    note_failure io send "TELEMETRY_EVENT_REJECTED"
        (str_append (io.number_text count) " event(s) permanently rejected") p,
    ok true,
  )

  -- `rejectedRange.count` is at least 1 whenever the queue returns a range.
  unfoldable pub report_rejected :
      String
      → String
      → Bool
      → Option QueueGapRange
      → Pipeline
      → Pipeline × Result TelemetryStorageError Bool
  unfolding after_gap stored
  report_rejected account project progress none p = (p, ok progress)
  report_rejected account project progress (some range) p =
      if ltb 0 range.count
      then after_gap range.count (
          stored io
            (λ fault q.
              enqueue_gap io.runtime fault q account (some project) none
                (range_gap rejected_reason range) (reading io p))
            (ticked io p))
      else (p, ok progress)

  unfoldable pub after_acknowledge :
      String
      → String
      → ℕ
      → Pipeline × Result TelemetryStorageError (Option QueueGapRange)
      → Pipeline × Result TelemetryStorageError Bool
  unfolding report_rejected
  after_acknowledge account project count (p, err e) = (p, err e)
  after_acknowledge account project count (p, ok range) =
      report_rejected account project (ltb 0 count) range (
        if ltb 0 count
        then record p {
          last_accepted_at = some (reading io p);
          failing = false;
          readings = suc p.readings;
        }
        else p)

  unfoldable pub apply_result :
      String
      → String
      → PendingBatch
      → TelemetryBatchResult
      → Pipeline
      → Pipeline × Result TelemetryStorageError Bool
  unfolding after_acknowledge ack_inputs stored
  apply_result account project batch result p =
      let (p', acks) = ack_inputs result.results p in
      after_acknowledge account project (length (select is_accepted result.results))
        (stored io (λ fault q. acknowledge fault q batch.batch_id acks result.server_checkpoint) p')

  abbrev pub mismatch_text : PendingBatch → TelemetryBatchResult → String
  mismatch_text batch result = str_append "batch " (
      str_append batch.batch_id (
        str_append ": ack set mismatch (expected " (
          str_append (io.number_text (length batch.events)) (
            str_append ", got " (
              str_append (io.number_text (length result.results)) (
                str_append ", foreign batch id "
                  (if str_eq result.batch_id batch.batch_id then "no)" else "yes)")))))))

  -- A throw of the queue is the error of the result.
  unfoldable pub acknowledge_batch :
      String
      → String
      → PendingBatch
      → TelemetryBatchResult
      → Pipeline
      → Pipeline × Result TelemetryStorageError Bool
  unfolding is_mismatch after_mismatch apply_result stored
  acknowledge_batch account project batch result p =
      if is_mismatch batch result
      then after_mismatch (io.clip (mismatch_text batch result)) (
          stored io
            (λ fault q.
              report_failure io.runtime fault q batch.batch_id "TELEMETRY_ACK_MISMATCH"
                (io.clip (mismatch_text batch result)) (reading io p + backoff_ms p.settings 1)
                (reading io (ticked io p)))
            (ticked io (ticked io p)))
      else apply_result account project batch result p
