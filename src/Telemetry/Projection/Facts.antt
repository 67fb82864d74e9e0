-- ===== src/Telemetry/Projection/Facts.antt =====
-- src/telemetry/projection.ts: records, facts, the pairing state and the readers of a body.
use dsh_ai_coding.Base.{
  ℕ, ◌-◌, Bool, false, ◌&&◌, String, Option, none, some, List, [], any_of, str_eq, leb, ◌==◌,
  if◌then◌else◌, or_else, get_key, Json, array, object, JsonFields, field_of, items_of, record_of,
  nonempty, boolean_of, finite_of,
}
use dsh_ai_coding.Telemetry.Event.{
  TelemetryEventKind, TelemetryOutcome, success, error, interrupted, cancelled, blocked, max_tokens,
  TelemetryTokenUsage, TelemetryErrorDetail, ApprovalDecision, allowed_once, unavailable, Observed,
}

pub data Channel : Type 0 where
  ops ledger : Channel

-- An instant is a number of milliseconds. The attributes are texts and numbers by key.
pub record SessionTelemetryRecord : Type 0 where
  pub channel : Channel
  pub time : ℕ
  pub attributes : JsonFields
  pub body : Json

pub record ProjectedTelemetryFact : Type 0 where
  pub session_id : String
  pub kind : TelemetryEventKind
  pub occurred_at : ℕ
  pub source_type : String
  pub observed : Observed

pub record Route : Type 0 where
  pub provider : String
  pub model : String

pub record ToolCall : Type 0 where
  pub time : ℕ
  pub name : String

pub record OpenCompaction : Type 0 where
  pub compaction_id : String
  pub start_time : ℕ
  pub kind : Option String
  pub usage : Option TelemetryTokenUsage

-- The key `turn:step` is the pair of the two numbers.
pub record SessionPairing : Type 0 where
  pub route : Option Route
  pub turn_starts : List (ℕ × ℕ)
  pub step_starts : List ((ℕ × ℕ) × ℕ)
  pub tool_calls : List (String × ToolCall)
  pub compaction : Option OpenCompaction

abbrev pub unpaired : SessionPairing
unpaired = record {
  route = none;
  turn_starts = [];
  step_starts = [];
  tool_calls = [];
  compaction = none;
}

-- `sessions` of the projector.
abbrev pub Sessions : Type 0
Sessions = List (String × SessionPairing)

abbrev pub same_step : ℕ × ℕ → ℕ × ℕ → Bool
same_step a b = a.0 == b.0 && a.1 == b.1

abbrev pub pairing : String → Sessions → SessionPairing
pairing session sessions = or_else (get_key str_eq session sessions) unpaired

-- `body[field]`, where the body is an object or a list; a list has no named field.
abbrev pub member : Json → String → Option Json
member (object fields) key = field_of key fields
member _ key = none

abbrev pub read_record : Json → String → Option JsonFields
read_record body key = record_of (member body key)

abbrev pub read_string : Json → String → Option String
read_string body key = nonempty (member body key)

abbrev pub read_boolean : Json → String → Option Bool
read_boolean body key = boolean_of (member body key)

abbrev pub read_number : Json → String → Option ℕ
read_number body key = finite_of (member body key)

abbrev pub number_attribute : Option Json → Option ℕ
number_attribute value = finite_of value

-- The elapsed time, or null if the start is unknown or later than the end.
unfoldable pub duration : ℕ → Option ℕ → Option ℕ
duration now none = none
duration now (some started) = if leb started now then some (now - started) else none

unfoldable pub turn_outcome : Option String → Option TelemetryOutcome
turn_outcome none = none
turn_outcome (some kind) =
    if str_eq kind "completed"
    then some success
    else if str_eq kind "error"
    then some error
    else if str_eq kind "aborted"
    then some cancelled
    else if str_eq kind "blocked"
    then some blocked
    else if str_eq kind "max-tokens"
    then some max_tokens
    else if str_eq kind "interrupted"
    then some interrupted
    else none

unfoldable pub approval_decision : Option String → Option ApprovalDecision
approval_decision none = none
approval_decision (some outcome) =
    if str_eq outcome "allowed-once"
    then some allowed_once
    else if str_eq outcome "rejected"
    then some ApprovalDecision.rejected
    else if str_eq outcome "cancelled"
    then some ApprovalDecision.cancelled
    else if str_eq outcome "unavailable"
    then some unavailable
    else none

abbrev pub token_usage_of : Option JsonFields → Option TelemetryTokenUsage
token_usage_of none = none
token_usage_of (some usage) = some (record {
  input_tokens = finite_of (field_of "inputTokens" usage);
  output_tokens = finite_of (field_of "outputTokens" usage);
  total_tokens = none;
})

-- An `agent-error` body, with the function that cleans a summary.
abbrev pub error_detail_of : (String → String) → Json → Option TelemetryErrorDetail
error_detail_of clean body = elim (read_string body "name") [
  | none ↦ none
  | some name ↦ some (record {
    name = name;
    code = none;
    summary = elim (read_string body "message") [
      | none ↦ none
      | some message ↦ some (clean message)
    ];
  })
]

abbrev pub is_error_block : Json → Bool
is_error_block (object fields) = or_else (boolean_of (field_of "isError" fields)) false
is_error_block _ = false

abbrev pub read_message_error_flag : Json → Bool
read_message_error_flag body = elim (read_record body "message") [
  | none ↦ false
  | some message ↦ elim (field_of "content" message) [
    | some (array content) ↦ any_of is_error_block (items_of content)
    | _ ↦ false
  ]
]
