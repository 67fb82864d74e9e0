-- ===== src/Telemetry/Projection/Steps.antt =====
-- src/telemetry/projection.ts: turns, steps, model replies and tool calls.
use dsh_ai_coding.Base.{
  ℕ, false, String, Option, none, some, List, [], ◌∷◌, str_eq, ◌==◌, if◌then◌else◌, or_else, both,
  get_key, set_key, delete_key, JsonFields, field_of, nonempty,
}
use dsh_ai_coding.Telemetry.Event.{
  TelemetryEventKind, turn_started, turn_finished, step_started, step_finished, llm_request,
  llm_response, tool_call, tool_result, success, error, interrupted, Observed, unobserved,
  TelemetryErrorDetail,
}
use dsh_ai_coding.Telemetry.Projection.Facts.{
  SessionTelemetryRecord, ProjectedTelemetryFact, ToolCall, SessionPairing, same_step, read_record,
  read_string, read_boolean, read_number, number_attribute, duration, turn_outcome, token_usage_of,
  read_message_error_flag,
}

abbrev pub base :
    SessionTelemetryRecord
    → String
    → TelemetryEventKind
    → String
    → Observed
    → ProjectedTelemetryFact
base r session kind source observed = record {
  session_id = session;
  kind = kind;
  occurred_at = r.time;
  source_type = source;
  observed = observed;
}

abbrev pub seq_of : SessionTelemetryRecord → Option ℕ
seq_of r = number_attribute (field_of "event.seq" r.attributes)

-- `route?.provider ?? null` and `route?.model ?? null`.
abbrev pub routed : SessionPairing → Observed → Observed
routed p o = elim p.route [
  | none ↦ record o { provider = some none; model = some none }
  | some route ↦ record o { provider = some (some route.provider); model = some (some route.model) }
]

-- What a record does: the pairing that it leaves and its facts in their order.
abbrev pub Projected : Type 0
Projected = SessionPairing × List ProjectedTelemetryFact

abbrev pub of_turn : SessionTelemetryRecord → Option ℕ → Observed
of_turn r turn = record unobserved { turn = turn; source_seq = seq_of r }

abbrev pub of_step : SessionTelemetryRecord → ℕ → ℕ → Observed
of_step r turn step = record unobserved {
  turn = some turn;
  step = some step;
  source_seq = seq_of r;
}

unfoldable pub turn_start : SessionTelemetryRecord → String → SessionPairing → Projected
turn_start r session p = elim (read_number r.body "turn") [
  | none ↦ (p, [])
  | some turn ↦ (
    record p { turn_starts = set_key ◌==◌ turn r.time p.turn_starts },
    base r session turn_started "turn/start" (of_turn r (some turn)) ∷ [],
  )
]

unfoldable pub turn_end : SessionTelemetryRecord → String → SessionPairing → Projected
unfolding duration turn_outcome
turn_end r session p = elim (both (read_number r.body "turn") (read_record r.body "reason")) [
  | some (turn, reason) ↦ (
    record p { turn_starts = delete_key ◌==◌ turn p.turn_starts },
    base r session turn_finished "turn/end" (record (of_turn r (some turn)) {
      outcome = turn_outcome (nonempty (field_of "kind" reason));
      duration_ms = some (duration r.time (get_key ◌==◌ turn p.turn_starts));
    })
        ∷ [],
  )
  | none ↦ (p, [])
]

-- A step opens the request to its model and itself.
unfoldable pub step_start : SessionTelemetryRecord → String → SessionPairing → Projected
step_start r session p = elim (both (read_number r.body "turn") (read_number r.body "step")) [
  | some (turn, step) ↦ (
    record p { step_starts = set_key same_step (turn, step) r.time p.step_starts },
    base r session llm_request "step/start" (routed p (of_step r turn step))
        ∷ base r session step_started "step/start" (of_step r turn step)
        ∷ [],
  )
  | none ↦ (p, [])
]

unfoldable pub step_end : SessionTelemetryRecord → String → SessionPairing → Projected
unfolding duration
step_end r session p = elim (both (read_number r.body "turn") (read_number r.body "step")) [
  | some (turn, step) ↦ (
    record p { step_starts = delete_key same_step (turn, step) p.step_starts },
    base r session step_finished "step/end" (record (of_step r turn step) {
      duration_ms = some (duration r.time (get_key same_step (turn, step) p.step_starts));
    })
        ∷ [],
  )
  | none ↦ (p, [])
]

unfoldable pub request_context : SessionTelemetryRecord → SessionPairing → Projected
request_context r p = elim (both (read_string r.body "provider") (read_string r.body "model")) [
  | some (provider, model) ↦
      (record p { route = some (record { provider = provider; model = model }) }, [])
  | none ↦ (p, [])
]

unfoldable pub assistant_message : SessionTelemetryRecord → String → SessionPairing → Projected
unfolding duration
assistant_message r session p =
    elim (both (read_number r.body "turn") (read_number r.body "step")) [
      | some (turn, step) ↦ (
        p,
        base r session llm_response "assistant/message" (
              routed p (record (of_step r turn step) {
                duration_ms = some (duration r.time (get_key same_step (turn, step) p.step_starts));
                outcome = some (
                    if or_else (read_boolean r.body "interrupted") false
                    then interrupted
                    else success);
                token_usage = token_usage_of (read_record r.body "usage");
              }))
            ∷ [],
      )
      | none ↦ (p, [])
    ]

unfoldable pub tool_called : SessionTelemetryRecord → String → SessionPairing → Projected
tool_called r session p =
    elim (both (read_number r.body "turn") (
      both (read_number r.body "step")
        (both (read_string r.body "callId") (read_string r.body "name")))) [
          | some (turn, (step, (call, name))) ↦ (
            record p {
              tool_calls = set_key str_eq call (record { time = r.time; name = name }) p.tool_calls;
            },
            base r session tool_call "tool/call" (record (of_step r turn step) {
              call_id = some (some call);
              tool_name = some (some name);
            })
                ∷ [],
          )
          | none ↦ (p, [])
        ]

-- The error that a tool result reports, without its text.
abbrev pub tool_error : Option JsonFields → Option TelemetryErrorDetail
tool_error none = none
tool_error (some source) = some (record {
  name = or_else (nonempty (field_of "name" source)) "ToolError";
  code = nonempty (field_of "code" source);
  summary = none;
})

abbrev pub call_name : Option ToolCall → Option String
call_name none = none
call_name (some call) = some call.name

abbrev pub call_time : Option ToolCall → Option ℕ
call_time none = none
call_time (some call) = some call.time

unfoldable pub tool_returned : SessionTelemetryRecord → String → SessionPairing → Projected
unfolding duration
tool_returned r session p =
    elim (both (read_number r.body "turn")
      (both (read_number r.body "step") (read_string r.body "callId"))) [
        | some (turn, (step, call)) ↦
            let opened = get_key str_eq call p.tool_calls in
            (
              record p { tool_calls = delete_key str_eq call p.tool_calls },
              base r session tool_result "tool/result" (record (of_step r turn step) {
                call_id = some (some call);
                tool_name = some (call_name opened);
                outcome = some (if read_message_error_flag r.body then error else success);
                duration_ms = some (duration r.time (call_time opened));
                error = tool_error (read_record r.body "error");
              })
                  ∷ [],
            )
        | none ↦ (p, [])
      ]
