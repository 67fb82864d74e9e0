-- ===== src/Telemetry/Queue/Table.antt =====
-- src/telemetry/queue.ts: rows of `telemetry_events`, in the order of their rowid, and the
-- statements that read and change them.
use dsh_ai_coding.Base.{
  ℕ, ◌+◌, Bool, not, String, Option, none, some, List, [], ◌∷◌, map, str_eq, if◌then◌else◌, select,
  any_of,
}
use dsh_ai_coding.Telemetry.Event.{TelemetryEventDto}

pub record EventRow : Type 0 where
  pub event_id : String
  pub account_id : String
  pub project_id : String
  pub session_id : Option String
  pub payload : TelemetryEventDto
  pub bytes : ℕ
  pub created_at : ℕ
  pub attempts : ℕ
  pub next_attempt_at : ℕ
  pub batch_id : Option String
  pub claimed_at : ℕ
  pub is_gap : Bool
  pub last_error_code : Option String
  pub last_error : Option String

abbrev pub has_id : String → EventRow → Bool
has_id id r = str_eq r.event_id id

-- Whether a row of that primary key is there.
abbrev pub has_row : String → List EventRow → Bool
has_row id = any_of (has_id id)

-- `DELETE FROM telemetry_events WHERE event_id = ?`.
unfoldable pub delete_row : String → List EventRow → List EventRow
delete_row id = select (λ r. not (has_id id r))

-- `deleteRows`: one statement for each id.
unfoldable pub delete_rows : List String → List EventRow → List EventRow
delete_rows [] rows = rows
delete_rows (id ∷ ids) rows = delete_rows ids (delete_row id rows)

-- `UPDATE telemetry_events SET … WHERE …`.
unfoldable pub update_where :
    (EventRow → Bool) → (EventRow → EventRow) → List EventRow → List EventRow
update_where p f = map (λ r. if p r then f r else r)

-- One `UPDATE … WHERE event_id = ?` for each id.
unfoldable pub update_rows : (EventRow → EventRow) → List String → List EventRow → List EventRow
update_rows f [] rows = rows
update_rows f (id ∷ ids) rows = update_rows f ids (update_where (has_id id) f rows)

abbrev pub event_ids : List EventRow → List String
event_ids = map (λ r. r.event_id)

abbrev pub is_regular : EventRow → Bool
is_regular r = not r.is_gap

-- `SELECT … WHERE is_gap = 0`.
abbrev pub regular : List EventRow → List EventRow
regular = select is_regular

abbrev pub sum_bytes : List EventRow → ℕ
sum_bytes [] = 0
sum_bytes (r ∷ rows) = r.bytes + sum_bytes rows

abbrev pub sum_gaps : List EventRow → ℕ
sum_gaps [] = 0
sum_gaps (r ∷ rows) = (if r.is_gap then 1 else 0) + sum_gaps rows

abbrev pub is_claimed_by : String → EventRow → Bool
is_claimed_by batch r = elim r.batch_id [ none ↦ Bool.false | some b ↦ str_eq b batch ]

pub data TelemetryStorageError : Type 0 where
  queue_closed write_failed : TelemetryStorageError
  schema_not_recognized : String → TelemetryStorageError
