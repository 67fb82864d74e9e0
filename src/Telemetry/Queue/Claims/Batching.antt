-- ===== src/Telemetry/Queue/Claims/Batching.antt =====
-- src/telemetry/queue.ts: the batch that is selected and claimed.
use dsh_ai_coding.Base.{
  ℕ, suc, ◌+◌, Bool, ◌&&◌, ◌||◌, String, Option, none, some, List, [], ◌∷◌, map, str_eq, ltb, leb,
  is_none, if◌then◌else◌, find_by, select, take, Result,
}
use dsh_ai_coding.Telemetry.Event.{TelemetryEventDto}
use dsh_ai_coding.Telemetry.Settings.{TelemetryQueueSettings}
use dsh_ai_coding.Telemetry.Queue.Table.{EventRow, TelemetryStorageError, update_rows, event_ids}
use dsh_ai_coding.Telemetry.Queue.Store.{Runtime, TelemetryQueue, transaction, release_expired}

pub record QueuedTelemetryEvent : Type 0 where
  pub event_id : String
  pub project_id : String
  pub payload : TelemetryEventDto
  pub bytes : ℕ
  pub attempts : ℕ

pub record PendingBatch : Type 0 where
  pub batch_id : String
  pub project_id : String
  pub events : List QueuedTelemetryEvent

-- `account_id = ? AND next_attempt_at <= ? AND batch_id IS NULL`.
abbrev pub is_due : String → ℕ → EventRow → Bool
is_due account now r =
    str_eq r.account_id account && leb r.next_attempt_at now && is_none r.batch_id

abbrev pub is_due_in : String → String → ℕ → EventRow → Bool
is_due_in account project now r = str_eq r.project_id project && is_due account now r

-- The loop over the selected rows: `count` and `total` are those taken so far.
unfoldable pub fill_batch : TelemetryQueueSettings → ℕ → ℕ → List EventRow → List EventRow
fill_batch s count total [] = []
fill_batch s count total (r ∷ rows) =
    let rest = fill_batch s (count + 1) (total + r.bytes) rows in
    if leb s.batch_max_events count || ltb 0 count && ltb s.batch_max_bytes (total + r.bytes)
    then []
    else r ∷ rest

abbrev pub queued_event : String → EventRow → QueuedTelemetryEvent
queued_event project r = record {
  event_id = r.event_id;
  project_id = project;
  payload = r.payload;
  bytes = r.bytes;
  attempts = r.attempts;
}

-- The rows of the next batch of a project, once expired claims are released.
abbrev pub batch_rows : String → String → ℕ → TelemetryQueue → List EventRow
batch_rows account project now q =
    fill_batch q.settings 0 0
      (take q.settings.batch_max_events (select (is_due_in account project now) q.rows))

module _ (runtime : Runtime) where
  unfoldable pub claim_rows :
      String → ℕ → List EventRow → TelemetryQueue → TelemetryQueue × Option PendingBatch
  claim_rows project now [] q = (q, none)
  claim_rows project now (r ∷ rows) q =
      let batch = runtime.uuid q.drawn in
      (
        record q {
          drawn = suc q.drawn;
          rows =
              update_rows (λ x. record x { batch_id = some batch; claimed_at = now })
                (event_ids (r ∷ rows)) q.rows;
        },
        some (record {
          batch_id = batch;
          project_id = project;
          events = map (queued_event project) (r ∷ rows);
        }),
      )

  unfoldable pub claim_due : String → ℕ → TelemetryQueue → TelemetryQueue × Option PendingBatch
  unfolding claim_rows
  claim_due account now q = elim (find_by (is_due account now) q.rows) [
    | none ↦ (q, none)
    | some first ↦ claim_rows first.project_id now (batch_rows account first.project_id now q) q
  ]

  -- The operation of `pendingBatch`.
  unfoldable pub select_batch : String → ℕ → TelemetryQueue → TelemetryQueue × Option PendingBatch
  unfolding release_expired claim_due
  select_batch account now q = claim_due account now (release_expired now q)

  unfoldable pub pending_batch :
      Bool
      → TelemetryQueue
      → String
      → ℕ
      → Result TelemetryStorageError (TelemetryQueue × Option PendingBatch)
  unfolding transaction select_batch
  pending_batch fault q account now = transaction fault q (select_batch account now)
