-- ===== src/Examples/Queue.antt =====
-- src/telemetry/queue.ts on a queue of two events.
use dsh_ai_coding.Base.{
  suc, ◌+◌, ◌≡◌, refl, Bool, true, false, not, ◌&&◌, any_of, none, some, List, [], ◌∷◌, select,
  length, find_by, All, arith,
}
use dsh_ai_coding.Telemetry.Queue.Table.{update_where, update_rows, has_row, is_claimed_by}
use dsh_ai_coding.Telemetry.Queue.Store.{
  TelemetryQueue, insert_event, enforce_capacity, release_expired,
}
use dsh_ai_coding.Telemetry.Queue.Claims.{
  PendingBatch, QueuedTelemetryEvent, TelemetryAckInput, accepted, fill_batch, is_due, select_batch,
  apply_batch, queued_event, drop_expired,
}
use dsh_ai_coding.Telemetry.Queue.Upkeep.{is_overdue, revoke, is_revoked, in_partition, clear}
use dsh_ai_coding.Telemetry.Queue.Commands.{Command, enqueues, claims, clears, run}
use dsh_ai_coding.Telemetry.Queue.Keys.{Distinct}
use dsh_ai_coding.Telemetry.Queue.Shrinking.{IsSound}
use dsh_ai_coding.Telemetry.Queue.Soundness.{run-IsSound}
use dsh_ai_coding.Telemetry.Queue.Capacity.{Enforced, enforce_capacity-Enforced}
use dsh_ai_coding.Telemetry.Queue.Accounting.{
  accounted, Fresh, insert_event-accounted, drop_expired-accounted,
}
use dsh_ai_coding.Telemetry.Queue.Batches.{IsBatch, select_batch-IsBatch, select_batch-oldest}
use dsh_ai_coding.Telemetry.Queue.Leases.{batch_ids, claim_exclusive}
use dsh_ai_coding.Telemetry.Queue.Marks.{is_in}
use dsh_ai_coding.Telemetry.Queue.Acks.{settles, apply_batch-has_row}
use dsh_ai_coding.Telemetry.Queue.Removal.{revoke_lem}
use dsh_ai_coding.Telemetry.Queue.Clearing.{total, of_account, clear_lem}
use dsh_ai_coding.Examples.Data.{
  runtime, runtime-DistinctUuids, event, row, queue, queue_of, queue-Fresh, event-Unreserved,
}

queue-Distinct : Distinct queue.rows
queue-Distinct = (refl, (refl, tt))

queue-IsSound : IsSound queue
queue-IsSound = record { distinct = queue-Distinct; fits = refl }

abbrev history : List (Bool × Command)
history =
    (false, enqueues (event "e3") "a" 4)
    ∷ (true, claims "a" 5)
    ∷ (false, claims "a" 6)
    ∷ (false, clears "a")
    ∷ []

run-IsSound_example : IsSound (run runtime queue history)
run-IsSound_example = run-IsSound runtime queue history queue-IsSound

insert_event-accounted_example :
    (accounted (insert_event runtime (event "e3") "a" 4 queue).0.rows ≡ suc (accounted queue.rows))
    × Fresh runtime (insert_event runtime (event "e3") "a" 4 queue).0
insert_event-accounted_example =
    insert_event-accounted runtime runtime-DistinctUuids (event "e3") "a" 4 queue queue-Distinct
      queue-Fresh event-Unreserved refl refl

abbrev crowded : TelemetryQueue
crowded = queue_of (row "e1" ∷ row "e2" ∷ row "e3" ∷ row "e4" ∷ [])

enforce_capacity-Enforced_example : Enforced crowded (enforce_capacity runtime 4 crowded)
enforce_capacity-Enforced_example =
    enforce_capacity-Enforced runtime 4 crowded (refl, (refl, (refl, (refl, tt))))

drop_expired-accounted_example :
    accounted (drop_expired runtime (is_overdue queue.settings 200) 200 queue).rows
      + accounted (select (is_overdue queue.settings 200) queue.rows)
    ≡ accounted queue.rows + length (select (is_overdue queue.settings 200) queue.rows)
drop_expired-accounted_example =
    drop_expired-accounted runtime runtime-DistinctUuids (is_overdue queue.settings 200) 200 queue
      queue-Distinct queue-Fresh

abbrev three : TelemetryQueue
three = queue_of (row "e1" ∷ row "e2" ∷ row "e3" ∷ [])

abbrev first_batch : PendingBatch
first_batch = record {
  batch_id = "";
  project_id = "p";
  events = queued_event "p" (row "e1") ∷ queued_event "p" (row "e2") ∷ [];
}

abbrev second_batch : PendingBatch
second_batch = record {
  batch_id = "u";
  project_id = "p";
  events = queued_event "p" (row "e3") ∷ [];
}

first_claim : (select_batch runtime "a" 5 three).1 ≡ some first_batch
unfolding select_batch update_where fill_batch
first_claim = refl

second_claim :
    (select_batch runtime "a" 9 (select_batch runtime "a" 5 three).0).1 ≡ some second_batch
unfolding select_batch update_where fill_batch update_rows
second_claim = refl

select_batch-IsBatch_example : IsBatch "a" 5 (release_expired 5 three) first_batch
select_batch-IsBatch_example = select_batch-IsBatch runtime "a" 5 three first_claim

claim_exclusive_example :
    All (λ id. is_in id (batch_ids first_batch) ≡ false) (batch_ids second_batch)
claim_exclusive_example =
    claim_exclusive runtime "a" "a" 5 9 three (omega arith) first_claim second_claim

oldest_due : find_by (is_due "a" 5) (release_expired 5 three).rows ≡ some (row "e1")
unfolding release_expired update_where
oldest_due = refl

select_batch-oldest_example :
    (b : PendingBatch) × (rest : List QueuedTelemetryEvent) × ((select_batch runtime "a" 5 three).1
      ≡ some b)
    × (b.project_id ≡ "p")
    × (b.events ≡ queued_event "p" (row "e1") ∷ rest)
select_batch-oldest_example =
    select_batch-oldest runtime "a" 5 three (row "e1") (omega arith) oldest_due

abbrev ack : TelemetryAckInput
ack = record { event_id = "e1"; status = accepted; next_attempt_at = none; reason = none }

abbrev held : TelemetryQueue
held = queue_of (record (row "e1") { batch_id = some "b"; claimed_at = 5 } ∷ row "e2" ∷ [])

apply_batch-has_row_example : has_row "e1" (apply_batch "b" (ack ∷ []) "c1" held).0.rows ≡ (
    has_row "e1" held.rows
    && not
        (has_row "e1" (select (is_claimed_by "b") held.rows) && any_of (settles "e1") (ack ∷ [])))
apply_batch-has_row_example = apply_batch-has_row "e1" "b" (ack ∷ []) "c1" held

revoke_lem_example :
    (is_revoked (revoke "a" "p" queue).0 "a" "p" ≡ true)
    × ((revoke "a" "p" queue).0.rows ≡ select (λ r. not (in_partition "a" "p" r)) queue.rows)
    × ((revoke "a" "p" queue).1.count ≡ length (select (in_partition "a" "p") queue.rows))
revoke_lem_example = revoke_lem "a" "p" queue queue-Distinct

clear_lem_example :
    ((clear "a" queue).0.rows ≡ select (λ r. not (of_account "a" r)) queue.rows)
    × (total (clear "a" queue).1 ≡ length (select (of_account "a") queue.rows))
clear_lem_example = clear_lem "a" queue queue-Distinct
