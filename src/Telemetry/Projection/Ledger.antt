-- ===== src/Telemetry/Projection/Ledger.antt =====
-- src/telemetry/projection.ts: approvals, compactions and the projection of a record.
use dsh_ai_coding.Base.{
  String, Option, none, some, List, [], ◌∷◌, str_eq, if◌then◌else◌, or_else, is_none, set_key,
  delete_key, field_of, nonempty,
}
use dsh_ai_coding.Telemetry.Event.{
  session_finished, approval_requested, approval_resolved, compaction_completed, agent_error,
  success, error, unobserved,
}
use dsh_ai_coding.Telemetry.Projection.Facts.{
  ops, ledger, SessionTelemetryRecord, ProjectedTelemetryFact, OpenCompaction, SessionPairing,
  Sessions, pairing, read_record, read_string, read_number, number_attribute, duration,
  approval_decision, token_usage_of, error_detail_of,
}
use dsh_ai_coding.Telemetry.Projection.Steps.{
  base, seq_of, Projected, turn_start, turn_end, step_start, step_end, request_context,
  assistant_message, tool_called, tool_returned,
}

unfoldable pub approval_asked : SessionTelemetryRecord → String → SessionPairing → Projected
approval_asked r session p = elim (read_string r.body "id") [
  | none ↦ (p, [])
  | some id ↦ (
    p,
    base r session approval_requested "approval/asked" (record unobserved {
      source_seq = seq_of r;
      approval_id = some id;
      tool_name = some (read_string r.body "toolName");
      call_id = some (read_string r.body "callId");
    })
        ∷ [],
  )
]

unfoldable pub approval_decided : SessionTelemetryRecord → String → SessionPairing → Projected
unfolding approval_decision
approval_decided r session p = elim (read_string r.body "id") [
  | none ↦ (p, [])
  | some id ↦ (
    p,
    base r session approval_resolved "approval/decided" (record unobserved {
      source_seq = seq_of r;
      approval_id = some id;
      approval = some (record { decision = approval_decision (read_string r.body "outcome") });
    })
        ∷ [],
  )
]

unfoldable pub compaction_start : SessionTelemetryRecord → SessionPairing → Projected
compaction_start r p = elim (read_string r.body "compactionId") [
  | none ↦ (p, [])
  | some id ↦ (
    record p {
      compaction =
          some (record { compaction_id = id; start_time = r.time; kind = none; usage = none });
    },
    [],
  )
]

-- The kind that is set first stays; a usage that is read replaces the earlier one.
unfoldable pub compaction_summary : SessionTelemetryRecord → SessionPairing → Projected
compaction_summary r p = elim p.compaction [
  | none ↦ (p, [])
  | some running ↦ (
    record p {
      compaction = some (record running {
        kind = some (or_else running.kind "summary");
        usage = elim (token_usage_of (read_record r.body "usage")) [
          | none ↦ running.usage
          | some usage ↦ some usage
        ];
      });
    },
    [],
  )
]

unfoldable pub compaction_prune : SessionPairing → Projected
compaction_prune p = elim p.compaction [
  | none ↦ (p, [])
  | some running ↦ (
    record p { compaction = some (record running { kind = some (or_else running.kind "prune") }) },
    [],
  )
]

-- The open compaction, if it is the one that ends.
abbrev pub ended_compaction : String → SessionPairing → Option OpenCompaction
ended_compaction id p = elim p.compaction [
  | none ↦ none
  | some running ↦ if str_eq running.compaction_id id then some running else none
]

unfoldable pub compaction_end : SessionTelemetryRecord → String → SessionPairing → Projected
unfolding duration
compaction_end r session p = elim (read_string r.body "compactionId") [
  | none ↦ (p, [])
  | some id ↦
      let opened = ended_compaction id p in
      (
        record p { compaction = none },
        base r session compaction_completed "compaction/end" (record unobserved {
          source_seq = seq_of r;
          compaction_id = some id;
          turn = read_number r.body "turn";
          duration_ms = some (
              duration r.time
                (elim opened [ none ↦ none | some running ↦ some running.start_time ]));
          outcome = some (if is_none (read_string r.body "error") then success else error);
          compaction =
              some (record { kind = elim opened [ none ↦ none | some running ↦ running.kind ] });
          token_usage = elim opened [ none ↦ none | some running ↦ running.usage ];
        })
            ∷ [],
      )
]

unfoldable pub project_type : SessionTelemetryRecord → String → SessionPairing → String → Projected
unfolding turn_start turn_end step_start step_end request_context assistant_message tool_called
    tool_returned approval_asked approval_decided compaction_start compaction_summary
    compaction_prune compaction_end
project_type r session p type =
    if str_eq type "turn/start"
    then turn_start r session p
    else if str_eq type "turn/end"
    then turn_end r session p
    else if str_eq type "step/start"
    then step_start r session p
    else if str_eq type "step/end"
    then step_end r session p
    else if str_eq type "request/context"
    then request_context r p
    else if str_eq type "assistant/message"
    then assistant_message r session p
    else if str_eq type "tool/call"
    then tool_called r session p
    else if str_eq type "tool/result"
    then tool_returned r session p
    else if str_eq type "approval/asked"
    then approval_asked r session p
    else if str_eq type "approval/decided"
    then approval_decided r session p
    else if str_eq type "compaction/start"
    then compaction_start r p
    else if str_eq type "compaction/summary"
    then compaction_summary r p
    else if str_eq type "compaction/prune"
    then compaction_prune p
    else if str_eq type "compaction/end"
    then compaction_end r session p
    else (p, [])

-- A text that is not a string or is empty names no type and no operation.
abbrev pub text_attribute : String → SessionTelemetryRecord → Option String
text_attribute key r = nonempty (field_of key r.attributes)

unfoldable pub project_ledger : SessionTelemetryRecord → String → SessionPairing → Projected
unfolding project_type
project_ledger r session p = elim (text_attribute "event.type" r) [
  | none ↦ (p, [])
  | some type ↦ project_type r session p type
]

unfoldable pub project_ops :
    (String → String) → SessionTelemetryRecord → String → List ProjectedTelemetryFact
project_ops clean r session = elim (text_attribute "telemetry.op" r) [
  | none ↦ []
  | some op ↦
      if str_eq op "agent-error"
      then (elim (error_detail_of clean r.body) [
        | none ↦ []
        | some detail ↦
            base r session agent_error "agent-error" (record unobserved {
              turn = number_attribute (field_of "turn" r.attributes);
              step = number_attribute (field_of "step" r.attributes);
              error = some detail;
            })
            ∷ []
      ])
      else if str_eq op "shutdown"
      then base r session session_finished "shutdown" unobserved ∷ []
      else []
]

-- `project`: a ledger record reads and leaves the pairing of its session.
unfoldable pub project :
    (String → String)
    → SessionTelemetryRecord
    → String
    → Sessions
    → Sessions × List ProjectedTelemetryFact
unfolding project_ledger project_ops
project clean r session sessions = elim r.channel [
  | ops ↦ (sessions, project_ops clean r session)
  | ledger ↦
      let (p, facts) = project_ledger r session (pairing session sessions) in
      (set_key str_eq session p sessions, facts)
]

unfoldable pub forget : String → Sessions → Sessions
forget session sessions = delete_key str_eq session sessions
