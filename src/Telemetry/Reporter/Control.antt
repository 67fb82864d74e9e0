-- ===== src/Telemetry/Reporter/Control.antt =====
-- src/telemetry/reporter.ts: what the callers of a reporter drive: the timer, pause and resume, the
-- single drain in flight, and the status.
use dsh_ai_coding.Base.{
  ℕ, ◌+◌, Bool, true, false, String, Option, none, some, is_none, if◌then◌else◌,
}
use dsh_ai_coding.Telemetry.Queue.Upkeep.{counts}
use dsh_ai_coding.Telemetry.Reporter.Pipeline.{CollectorFailure, Pipeline}

pub data CollectorMode : Type 0 where
  active paused not_ready signed_out authorization_revoked storage_error failed : CollectorMode

pub data CollectorAuthorizationState : Type 0 where
  authorized revoked unknown : CollectorAuthorizationState

unfoldable pub mode : Pipeline → CollectorMode
mode p = elim p.storage_error [
  | some message ↦ storage_error
  | none ↦
      if p.paused
      then paused
      else if p.signed_out
      then signed_out
      else if p.not_ready
      then not_ready
      else if p.authorization_revoked
      then authorization_revoked
      else if p.failing
      then failed
      else active
]

pub record ReporterStatus : Type 0 where
  pub mode : CollectorMode
  pub queue_event_count : ℕ
  pub queue_byte_count : ℕ
  pub last_accepted_at : Option ℕ
  pub last_failure : Option CollectorFailure
  pub gap_count : ℕ
  pub authorization_state : CollectorAuthorizationState
  pub storage_error : Option String

unfoldable pub status : Pipeline → Option String → ReporterStatus
unfolding mode
status p project = record {
  mode = mode p;
  queue_event_count = (counts p.queue).events;
  queue_byte_count = (counts p.queue).bytes;
  last_accepted_at = p.last_accepted_at;
  last_failure = p.last_failure;
  gap_count = (counts p.queue).gaps;
  authorization_state =
      if p.authorization_revoked then revoked else if is_none project then unknown else authorized;
  storage_error = p.storage_error;
}

unfoldable pub fail_storage : String → Pipeline → Pipeline
fail_storage message p = record p { storage_error = some message }

unfoldable pub clear_revocation : Pipeline → Pipeline
clear_revocation p = record p { authorization_revoked = false }

-- The timer and the promise of the running drain. `started` counts the drains that were started.
pub record DrainSlot : Type 0 where
  pub timer : Bool
  pub in_flight : Bool
  pub queued_drain : Bool
  pub started : ℕ

pub data SlotCall : Type 0 where
  start stop flush finish : SlotCall

-- `drainAsync` up to the start of `runDrain`.
unfoldable pub request_drain : DrainSlot → DrainSlot
request_drain s =
    if s.in_flight
    then record s { queued_drain = true }
    else record s { in_flight = true; started = s.started + 1 }

-- The `finally` of `drainAsync`.
unfoldable pub finish_drain : DrainSlot → DrainSlot
unfolding request_drain
finish_drain s =
    if s.queued_drain
    then request_drain (record s { in_flight = false; queued_drain = false })
    else record s { in_flight = false }

unfoldable pub slot_step : DrainSlot → SlotCall → DrainSlot
unfolding request_drain finish_drain
slot_step s start = if s.timer then s else record s { timer = true }
slot_step s stop = record s { timer = false }
slot_step s flush = request_drain s
slot_step s finish = if s.in_flight then finish_drain s else s

unfoldable pub pause : Pipeline → Pipeline
pause p = record p { paused = true }

-- `resume` clears the flag and requests a drain.
unfoldable pub resume : Pipeline × DrainSlot → Pipeline × DrainSlot
unfolding request_drain
resume (p, s) = (record p { paused = false }, request_drain s)
