-- ===== src/Examples/Capture.antt =====
-- src/telemetry/projection.ts and src/telemetry/backend.ts on records of one session.
use dsh_ai_coding.Base.{ℕ, String, number, string, object, JsonFields, field, closed}
use dsh_ai_coding.Telemetry.Projection.Facts.{ledger, SessionTelemetryRecord}

abbrev record_at : ℕ → String → JsonFields → SessionTelemetryRecord
record_at time type body = record {
  channel = ledger;
  time = time;
  attributes = field "event.type" (string type) (field "session.id" (string "s") closed);
  body = object body;
}

abbrev clean : String → String
clean s = s

abbrev turn_one : JsonFields → JsonFields
turn_one rest = field "turn" (number 1) rest

abbrev tool_body : JsonFields
tool_body =
    turn_one
      (field "step" (number 2) (field "callId" (string "c") (field "name" (string "bash") closed)))
