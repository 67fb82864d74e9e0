-- ===== src/Telemetry/Queue/Claims/Answering.antt =====
-- src/telemetry/queue.ts: the acks, the release and the failure of a claimed batch.
use dsh_ai_coding.Base.{
  ℕ, zero, suc, ◌+◌, Bool, ◌&&◌, String, Option, none, some, List, [], ◌∷◌, ◌++◌, str_eq, leb,
  or_else, if◌then◌else◌, find_by, any_of, select, length, Result,
}
use dsh_ai_coding.Telemetry.Event.{expired}
use dsh_ai_coding.Telemetry.Settings.{TelemetryQueueSettings}
use dsh_ai_coding.Telemetry.Queue.Table.{
  EventRow, TelemetryStorageError, has_id, delete_row, delete_rows, update_where, update_rows,
  event_ids, is_claimed_by,
}
use dsh_ai_coding.Telemetry.Queue.Store.{
  Runtime, TelemetryQueue, Checkpoint, transaction, record_gap, last_of,
}

pub data AckStatus : Type 0 where
  accepted duplicate retryable rejected : AckStatus

pub record TelemetryAckInput : Type 0 where
  pub event_id : String
  pub status : AckStatus
  pub next_attempt_at : Option ℕ
  pub reason : Option String

pub record QueueGapRange : Type 0 where
  pub count : ℕ
  pub first_event_id : Option String
  pub last_event_id : Option String

-- `Number.MAX_SAFE_INTEGER`.
abbrev pub max_safe_integer : ℕ
max_safe_integer = 9007199254740991

-- The table and the locals of the ack loop.
pub record AckState : Type 0 where
  pub rows : List EventRow
  pub rejected_ids : List String
  pub rejected_gap_count : ℕ

unfoldable pub apply_known : TelemetryAckInput → EventRow → AckStatus → AckState → AckState
apply_known ack row accepted s = record s { rows = delete_row ack.event_id s.rows }
apply_known ack row duplicate s = record s { rows = delete_row ack.event_id s.rows }
apply_known ack row retryable s = record s {
  rows =
      update_where (has_id ack.event_id)
        (λ r. record r {
          next_attempt_at = or_else ack.next_attempt_at max_safe_integer;
          last_error_code = some (or_else ack.reason "RETRYABLE");
          batch_id = none;
        })
        s.rows;
}
apply_known ack row rejected s =
    let deleted = delete_row ack.event_id s.rows in
    if row.is_gap
    then record s { rows = deleted; rejected_gap_count = s.rejected_gap_count + 1 }
    else record s { rows = deleted; rejected_ids = s.rejected_ids ++ ack.event_id ∷ [] }

-- One turn of the loop; `claimed` is what `byEvent` was made of.
unfoldable pub apply_ack : List EventRow → TelemetryAckInput → AckState → AckState
unfolding apply_known
apply_ack claimed ack s = elim (find_by (has_id ack.event_id) claimed) [
  | none ↦ s
  | some row ↦ apply_known ack row ack.status s
]

unfoldable pub apply_acks : List EventRow → List TelemetryAckInput → AckState → AckState
apply_acks claimed [] s = s
apply_acks claimed (ack ∷ acks) s = apply_acks claimed acks (apply_ack claimed ack s)

abbrev pub rejected_range : List String → Option QueueGapRange
rejected_range [] = none
rejected_range (id ∷ ids) = some (record {
  count = length (id ∷ ids);
  first_event_id = some id;
  last_event_id = some (last_of id ids);
})

abbrev pub add_lost : ℕ → Option ℕ → Option ℕ
add_lost zero lost = lost
add_lost (suc n) lost = some (or_else lost 0 + suc n)

-- `INSERT … ON CONFLICT (account_id, project_id) DO UPDATE`.
unfoldable pub put_checkpoint : Checkpoint → List Checkpoint → List Checkpoint
put_checkpoint c [] = c ∷ []
put_checkpoint c (d ∷ ds) =
    if str_eq d.account_id c.account_id && str_eq d.project_id c.project_id
    then c ∷ ds
    else d ∷ put_checkpoint c ds

abbrev pub confirm :
    List EventRow → List TelemetryAckInput → String → List Checkpoint → List Checkpoint
confirm claimed acks checkpoint table =
    elim (find_by (λ r. any_of (λ (a : TelemetryAckInput). has_id a.event_id r) acks) claimed) [
      | none ↦ table
      | some row ↦
          put_checkpoint
            (record {
              account_id = row.account_id;
              project_id = row.project_id;
              checkpoint = checkpoint;
            })
            table
    ]

-- The operation of `acknowledge`.
unfoldable pub apply_batch :
    String
    → List TelemetryAckInput
    → String
    → TelemetryQueue
    → TelemetryQueue × Option QueueGapRange
unfolding apply_acks put_checkpoint
apply_batch batch acks checkpoint q = (
  record q {
    rows = done.rows;
    lost_gap_events = add_lost done.rejected_gap_count q.lost_gap_events;
    checkpoints = confirm claimed acks checkpoint q.checkpoints;
  },
  rejected_range done.rejected_ids,
)
  where
    claimed : List EventRow
    claimed = select (is_claimed_by batch) q.rows

    done : AckState
    done =
        apply_acks claimed acks
          (record { rows = q.rows; rejected_ids = []; rejected_gap_count = 0 })

unfoldable pub acknowledge :
    Bool
    → TelemetryQueue
    → String
    → List TelemetryAckInput
    → String
    → Result TelemetryStorageError (TelemetryQueue × Option QueueGapRange)
unfolding transaction apply_batch
acknowledge fault q batch acks checkpoint = transaction fault q (apply_batch batch acks checkpoint)

-- One statement, with no transaction round it: on a closed or failing database it raises.
unfoldable pub release_claim :
    Bool → TelemetryQueue → String → Result TelemetryStorageError TelemetryQueue
release_claim fault q batch =
    if q.closed
    then Result.err TelemetryStorageError.queue_closed
    else if fault
    then Result.err TelemetryStorageError.write_failed
    else Result.ok (record q {
      rows =
          update_where (is_claimed_by batch) (λ r. record r { batch_id = none; claimed_at = 0 })
            q.rows;
    })

abbrev pub is_exhausted : TelemetryQueueSettings → EventRow → Bool
is_exhausted s r = leb s.max_attempts r.attempts

abbrev pub bump : String → String → ℕ → EventRow → EventRow
bump code message next r = record r {
  attempts = r.attempts + 1;
  next_attempt_at = next;
  last_error_code = some code;
  last_error = some message;
  batch_id = none;
}

module _ (runtime : Runtime) where
  -- Deletes the rows that a test selects and records them as gaps, if there are any.
  unfoldable pub drop_expired : (EventRow → Bool) → ℕ → TelemetryQueue → TelemetryQueue
  unfolding record_gap delete_rows
  drop_expired test now q = elim (select test q.rows) [
    | [] ↦ q
    | r ∷ rows ↦
        record_gap runtime (r ∷ rows) expired now
          (record q { rows = delete_rows (event_ids (r ∷ rows)) q.rows })
  ]

  unfoldable pub expire_exhausted : ℕ → TelemetryQueue → TelemetryQueue
  unfolding drop_expired
  expire_exhausted now q = drop_expired (is_exhausted q.settings) now q

  -- The operation of `reportFailure`.
  unfoldable pub fail_batch : String → String → String → ℕ → ℕ → TelemetryQueue → TelemetryQueue
  unfolding expire_exhausted
  fail_batch batch code message next now q = expire_exhausted now (record q {
    rows =
        update_rows (bump code message next) (event_ids (select (is_claimed_by batch) q.rows))
          q.rows;
  })

  unfoldable pub report_failure :
      Bool
      → TelemetryQueue
      → String
      → String
      → String
      → ℕ
      → ℕ
      → Result TelemetryStorageError (TelemetryQueue × Unit {0})
  unfolding transaction fail_batch
  report_failure fault q batch code message next now =
      transaction fault q (λ s. (fail_batch batch code message next now s, tt))
