-- ===== src/Telemetry/Event.antt =====
-- src/types.ts: the structured event vocabulary of the collector. An instant that the code keeps as
-- an ISO text is the number of milliseconds that the text stands for. Of a field `x?: T | null`,
-- `none` is the absent key and `some none` is null.
use dsh_ai_coding.Base.{ℕ, Bool, true, false, String, Option, none}

pub data TelemetryEventKind : Type 0 where
  session_started session_finished turn_started turn_finished : TelemetryEventKind
  step_started step_finished llm_request llm_response tool_call tool_result : TelemetryEventKind
  approval_requested approval_resolved compaction_completed : TelemetryEventKind
  agent_error delivery_gap : TelemetryEventKind

pub data TelemetryOutcome : Type 0 where
  success error interrupted cancelled blocked max_tokens : TelemetryOutcome

pub record TelemetryTokenUsage : Type 0 where
  pub input_tokens : Option ℕ
  pub output_tokens : Option ℕ
  pub total_tokens : Option ℕ

pub record TelemetryErrorDetail : Type 0 where
  pub name : String
  pub code : Option String
  pub summary : Option String

pub data ApprovalDecision : Type 0 where
  allowed_once rejected cancelled unavailable : ApprovalDecision

pub record TelemetryApprovalDetail : Type 0 where
  pub decision : Option ApprovalDecision

pub record TelemetryCompactionDetail : Type 0 where
  pub kind : Option String

pub data GapReason : Type 0 where
  overflow expired rejected manual_clear authorization_revoked : GapReason

pub record TelemetryGapDetail : Type 0 where
  pub reason : GapReason
  pub count : ℕ
  pub first_event_id : Option String
  pub last_event_id : Option String

-- The optional members, which an event carries only where the source observed them.
pub record Observed : Type 0 where
  pub source_seq : Option ℕ
  pub turn : Option ℕ
  pub step : Option ℕ
  pub duration_ms : Option (Option ℕ)
  pub outcome : Option TelemetryOutcome
  pub provider : Option (Option String)
  pub model : Option (Option String)
  pub tool_name : Option (Option String)
  pub call_id : Option (Option String)
  pub approval_id : Option String
  pub compaction_id : Option String
  pub token_usage : Option TelemetryTokenUsage
  pub error : Option TelemetryErrorDetail
  pub approval : Option TelemetryApprovalDetail
  pub compaction : Option TelemetryCompactionDetail
  pub gap : Option TelemetryGapDetail

abbrev pub unobserved : Observed
unobserved = record {
  source_seq = none;
  turn = none;
  step = none;
  duration_ms = none;
  outcome = none;
  provider = none;
  model = none;
  tool_name = none;
  call_id = none;
  approval_id = none;
  compaction_id = none;
  token_usage = none;
  error = none;
  approval = none;
  compaction = none;
  gap = none;
}

pub record TelemetryEventDto : Type 0 where
  pub event_id : String
  pub installation_id : String
  pub project_id : String
  pub session_id : Option String
  pub kind : TelemetryEventKind
  pub occurred_at : ℕ
  pub source_type : String
  pub observed : Observed
  pub open observed use *

abbrev pub is_gap_kind : TelemetryEventKind → Bool
is_gap_kind delivery_gap = true
is_gap_kind _ = false
