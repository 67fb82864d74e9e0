-- ===== src/Telemetry/Projection/Pairing.antt =====
-- src/telemetry/projection.ts: what is paired within a session.
use dsh_ai_coding.Base.{
  ℕ, ◌≡◌, false, String, Option, none, some, [], ◌∷◌, ◌==◌, arith, str_eq, eq_iff, map, get_key,
  set_key, get_key-set_key, get_key-delete_key, JsonFields,
}
use dsh_ai_coding.Telemetry.Projection.Facts.{
  SessionTelemetryRecord, ProjectedTelemetryFact, SessionPairing, Sessions, pairing, read_number,
  read_record, duration, read_string, ledger,
}
use dsh_ai_coding.Telemetry.Event.{TelemetryEventKind}
use dsh_ai_coding.Telemetry.Projection.Steps.{turn_start, turn_end}
use dsh_ai_coding.Telemetry.Projection.Ledger.{project_ledger, project, text_attribute}

get_key-set_key_other :
    (k j : String) (v : SessionPairing) (m : Sessions)
    → str_eq j k ≡ false
    → get_key str_eq k (set_key str_eq j v m) ≡ get_key str_eq k m
get_key-set_key_other k j v [] h = ground arith
get_key-set_key_other k j v ((i, w) ∷ m) h =
    ground (arith, eq_iff i j, eq_iff i k, eq_iff j k, get_key-set_key_other k j v m h)

-- A record of one session leaves the pairing state of every other session as it was, so no duration
-- and no route is paired across sessions.
pub project-other_session :
    (clean : String → String) (r : SessionTelemetryRecord) (session other : String)
    (sessions : Sessions)
    → str_eq session other ≡ false
    → pairing other (project clean r session sessions).0 ≡ pairing other sessions
unfolding project
project-other_session clean r session other sessions h = ground (
  arith,
  get_key-set_key_other other session (project_ledger r session (pairing session sessions)).0
      sessions h,
)

-- A turn that starts with one record and ends with another finishes with the time between the two,
-- null if the clock went back, and its start is forgotten, so a second end has no duration.
pub turn_end-turn_start :
    (r e : SessionTelemetryRecord) (s : String) (p : SessionPairing) (n : ℕ) (reason : JsonFields)
    → read_number r.body "turn" ≡ some n
    → read_number e.body "turn" ≡ some n
    → read_record e.body "reason" ≡ some reason
    → (map (λ f. f.observed.duration_ms) (turn_end e s (turn_start r s p).0).1
        ≡ some (duration e.time (some r.time)) ∷ [])
      × (get_key ◌==◌ n (turn_end e s (turn_start r s p).0).0.turn_starts ≡ none)
unfolding turn_start turn_end
turn_end-turn_start r e s p n reason hr he hreason = ground (
  arith,
  get_key-set_key ◌==◌ n r.time p.turn_starts (ground arith),
  get_key-delete_key ◌==◌ n (set_key ◌==◌ n r.time p.turn_starts),
)

-- What the fact of a tool result says: its session, kind and time, and the call with the tool's name
-- and the time that it took.
abbrev pub Returned : Type 0
Returned =
    String
    × TelemetryEventKind
    × ℕ
    × Option (Option String)
    × Option (Option String)
    × Option (Option ℕ)

abbrev pub returned_of : ProjectedTelemetryFact → Returned
returned_of f = (
  f.session_id, f.kind, f.occurred_at, f.observed.call_id, f.observed.tool_name,
  f.observed.duration_ms,
)

-- A record of the ledger with this type.
pub record IsLedger (type : String) (r : SessionTelemetryRecord) : Type 0 where
  pub channel : r.channel ≡ ledger
  pub event_type : text_attribute "event.type" r ≡ some type

-- The numbers and the call that the records of a tool carry.
pub record OfCall (call : String) (turn step : ℕ) (r : SessionTelemetryRecord) : Type 0 where
  pub turn_read : read_number r.body "turn" ≡ some turn
  pub step_read : read_number r.body "step" ≡ some step
  pub call_read : read_string r.body "callId" ≡ some call
