-- ===== src/Telemetry/Reporter/Pipeline.antt =====
-- src/telemetry/reporter.ts: the state of a reporter with its queue, and the services that it is
-- given. A call of the clock, of the storage or of a service takes the next of its answers.
use Prim.Native.String.{◌++◌ as str_append}
use dsh_ai_coding.Base.{
  ℕ, suc, ◌+◌, ◌-◌, ◌*◌, ◌^◌, min, Bool, true, String, Option, some, List, Result, ok, err,
}
use dsh_ai_coding.Telemetry.Event.{TelemetryEventDto}
use dsh_ai_coding.Telemetry.Settings.{TelemetryQueueSettings}
use dsh_ai_coding.Telemetry.Queue.Table.{
  TelemetryStorageError, queue_closed, write_failed, schema_not_recognized,
}
use dsh_ai_coding.Telemetry.Queue.Store.{Runtime, TelemetryQueue}
use dsh_ai_coding.Telemetry.Queue.Claims.{release_claim, report_failure}

pub data TelemetryEventAck : Type 0 where
  accepted : String → TelemetryEventAck
  duplicate : String → TelemetryEventAck
  retryable : String → ℕ → String → TelemetryEventAck
  rejected : String → String → TelemetryEventAck

pub record TelemetryBatchResult : Type 0 where
  pub batch_id : String
  pub server_checkpoint : String
  pub results : List TelemetryEventAck

pub record TelemetryBatchRequest : Type 0 where
  pub batch_id : String
  pub project_id : String
  pub client_sent_at : ℕ
  pub events : List TelemetryEventDto

-- `TelemetrySendOutcome`, and the rejection of the promise.
pub data SendOutcome : Type 0 where
  sent : TelemetryBatchResult → SendOutcome
  signed_out : SendOutcome
  revoked : SendOutcome
  failed : String → String → SendOutcome
  send_threw : String → SendOutcome

pub data AccountState : Type 0 where
  user : String → AccountState
  signed_out : AccountState
  not_ready : AccountState
  resolve_threw : String → AccountState

pub data FailureStage : Type 0 where
  enqueue send parse storage : FailureStage

pub record CollectorFailure : Type 0 where
  pub stage : FailureStage
  pub code : String
  pub at : ℕ
  pub summary : String

-- What stands outside the reporter. The n-th reading of the clock is `clock n`, the n-th storage
-- call raises if `faults n`, and while the n-th send is awaited other callers turn the queue `q`
-- into `meanwhile n q`. `redact` is `sanitizeSensitiveSummary`, `clip` cuts a text to 200 units and
-- `number_text` prints a number.
pub record Services : Type 0 where
  pub runtime : Runtime
  pub clock : ℕ → ℕ
  pub faults : ℕ → Bool
  pub send : Option (ℕ → TelemetryBatchRequest → String → SendOutcome)
  pub resolve_account : ℕ → AccountState
  pub meanwhile : ℕ → TelemetryQueue → TelemetryQueue
  pub redact : String → String
  pub clip : String → String
  pub number_text : ℕ → String

pub record Pipeline : Type 0 where
  pub queue : TelemetryQueue
  pub settings : TelemetryQueueSettings
  pub paused : Bool
  pub signed_out : Bool
  pub not_ready : Bool
  pub authorization_revoked : Bool
  pub failing : Bool
  pub last_failure : Option CollectorFailure
  pub last_accepted_at : Option ℕ
  pub storage_error : Option String
  pub readings : ℕ
  pub writes : ℕ
  pub resolves : ℕ
  pub sends : List (TelemetryBatchRequest × String)

abbrev pub error_message : TelemetryStorageError → String
error_message queue_closed = "telemetry queue is closed"
error_message write_failed = "telemetry queue write failed"
error_message (schema_not_recognized v) =
    str_append "telemetry queue schema version "
      (str_append v " is not recognized; sending stopped")

abbrev pub max_backoff_exponent : ℕ
max_backoff_exponent = 4

unfoldable pub backoff_ms : TelemetryQueueSettings → ℕ → ℕ
backoff_ms s attempts = s.flush_interval_ms * 2 ^ min (attempts - 1) max_backoff_exponent

abbrev pub settle {ℓ} :
    {A : Type ℓ}
    → Pipeline
    → Result TelemetryStorageError (TelemetryQueue × A)
    → Pipeline × Result TelemetryStorageError A
settle p (ok (q, a)) = (record p { queue = q; writes = suc p.writes }, ok a)
settle p (err e) = (record p { writes = suc p.writes }, err e)

-- `releaseClaim` as a call that returns nothing.
abbrev pub released :
    String → Bool → TelemetryQueue → Result TelemetryStorageError (TelemetryQueue × Unit {0})
released batch fault q = elim (release_claim fault q batch) [ ok s ↦ ok (s, tt) | err e ↦ err e ]

module _ (io : Services) where
  -- `this.now()`.
  abbrev pub reading : Pipeline → ℕ
  reading p = io.clock p.readings

  abbrev pub ticked : Pipeline → Pipeline
  ticked p = record p { readings = suc p.readings }

  -- One call of the queue.
  unfoldable pub stored {ℓ} :
      {A : Type ℓ}
      → (Bool → TelemetryQueue → Result TelemetryStorageError (TelemetryQueue × A))
      → Pipeline
      → Pipeline × Result TelemetryStorageError A
  stored call p = settle p (call (io.faults p.writes) p.queue)

  abbrev pub short : String → String
  short text = io.clip (io.redact text)

  -- `this.lastFailure = { …, at: now }; this.failing = true`.
  unfoldable pub note_failure : FailureStage → String → String → Pipeline → Pipeline
  note_failure stage code summary p = record p {
    last_failure = some (record { stage = stage; code = code; at = reading p; summary = summary });
    failing = true;
    readings = suc p.readings;
  }

  -- The inner `try`: the claim is released, or the pipeline stops visibly.
  unfoldable pub after_release :
      String → Pipeline × Result TelemetryStorageError (Unit {0}) → Pipeline
  unfolding note_failure
  after_release safe (p, ok _) = note_failure send "REPORTER_RECOVERY_FAILED" safe p
  after_release safe (p, err e) =
      note_failure send "REPORTER_RECOVERY_FAILED" safe
        (record p { storage_error = some (str_append "claim release failed: " safe) })

  unfoldable pub after_report :
      String → String → String → Pipeline × Result TelemetryStorageError (Unit {0}) → Pipeline
  unfolding note_failure after_release stored
  after_report batch code safe (p, ok _) = note_failure send code safe p
  after_report batch code safe (p, err e) =
      after_release
        (short (
          str_append "recovery failed for batch " (
            str_append batch
              (str_append " (" (str_append code (str_append "): " (error_message e)))))))
        (stored (released batch) p)

  -- `attempts_bump` is the last argument of `recoverBatch`.
  unfoldable pub recover_batch : String → String → String → ℕ → Pipeline → Pipeline
  unfolding after_report stored
  recover_batch batch code summary attempts_bump p = after_report batch code (short summary) (
      stored
        (λ fault q.
          report_failure io.runtime fault q batch code (short summary)
            (reading p + backoff_ms p.settings (attempts_bump - 1 + 1)) (reading (ticked p)))
        (ticked (ticked p)))
