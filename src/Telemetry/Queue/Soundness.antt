-- ===== src/Telemetry/Queue/Soundness.antt =====
-- src/telemetry/queue.ts: the ids and the regular rows after each method.
use dsh_ai_coding.Base.{ℕ, refl, Bool, ◌&&◌, leb, String, List, [], ◌∷◌, select}
use dsh_ai_coding.Telemetry.Queue.Table.{event_ids, is_claimed_by}
use dsh_ai_coding.Telemetry.Queue.Store.{
  Runtime, TelemetryQueue, transaction, insert_gap, insert_event, enqueue, enqueue_gap,
}
use dsh_ai_coding.Telemetry.Queue.Claims.{
  select_batch, pending_batch, apply_batch, acknowledge, release_claim, fail_batch, report_failure,
}
use dsh_ai_coding.Telemetry.Queue.Upkeep.{
  in_partition, revoke, revoke_project, defer, defer_project, clear, projects, is_overdue,
  clear_account, expire, expire_overdue, close,
}
use dsh_ai_coding.Telemetry.Queue.Gaps.{insert_gap-KeepsRegular}
use dsh_ai_coding.Telemetry.Queue.Shrinking.{
  IsSound, Shrinks-delete_rows, Shrinks-update_where, ShrinksQueue, Shrinks-IsSound,
  KeepsRegular-Shrinks,
}
use dsh_ai_coding.Telemetry.Queue.Commands.{
  Command, enqueues, enqueues_gap, claims, acknowledges, releases, reports_failure, revokes, defers,
  clears, expires, closes, after, after_statement, by_fault, transaction_cases, step, run,
}
use dsh_ai_coding.Telemetry.Queue.Operations.{
  select_batch-Shrinks, drop_expired-Shrinks, fail_batch-Shrinks, insert_event-IsSound,
  apply_batch-Shrinks, clear_projects-Shrinks,
}

transaction-IsSound {ℓ} :
    {A : Type ℓ} (fault : Bool) (q : TelemetryQueue)
    (operation : TelemetryQueue → TelemetryQueue × A)
    → IsSound q
    → IsSound (operation q).0
    → IsSound (after q (transaction fault q operation))
transaction-IsSound fault q operation v w =
    transaction_cases (λ r. IsSound (after q r)) fault q operation v v w

transaction-Shrinks {ℓ} :
    {A : Type ℓ} (fault : Bool) (q : TelemetryQueue)
    (operation : TelemetryQueue → TelemetryQueue × A)
    → ShrinksQueue q (operation q).0
    → IsSound q
    → IsSound (after q (transaction fault q operation))
transaction-Shrinks fault q operation h v =
    transaction-IsSound fault q operation v (Shrinks-IsSound q (operation q).0 h v)

revoke-Shrinks :
    (account project : String) (q : TelemetryQueue) → ShrinksQueue q (revoke account project q).0
unfolding revoke
revoke-Shrinks account project q =
    (refl, Shrinks-delete_rows (event_ids (select (in_partition account project) q.rows)) q.rows)

defer-Shrinks :
    (account project : String) (delay now : ℕ) (q : TelemetryQueue)
    → ShrinksQueue q (defer account project delay now q)
unfolding defer
defer-Shrinks account project delay now q = (
  refl,
  Shrinks-update_where (λ r. in_partition account project r && leb r.next_attempt_at now) _ q.rows
      (record { key = λ x. refl; event_weight = λ x. refl; byte_weight = λ x. refl }),
)

release_claim-IsSound :
    (fault : Bool) (q : TelemetryQueue) (batch : String)
    → IsSound q
    → IsSound (after_statement q (release_claim fault q batch))
unfolding release_claim
release_claim-IsSound fault q batch v =
    by_fault (λ r. IsSound (after_statement q r)) q.closed fault v v
      (Shrinks-IsSound q _
        (
          refl,
          Shrinks-update_where (is_claimed_by batch) _ q.rows
              (record { key = λ x. refl; event_weight = λ x. refl; byte_weight = λ x. refl }),
        )
        v)

module _ (runtime : Runtime) where
  -- Every method, on every branch, errors included, keeps the ids of the rows distinct and the
  -- regular rows within both limits.
  pub step-IsSound :
      (q : TelemetryQueue) (fault : Bool) (c : Command)
      → IsSound q
      → IsSound (step runtime q (fault, c))
  unfolding step enqueue enqueue_gap pending_batch acknowledge report_failure revoke_project
      defer_project clear_account expire_overdue close
  step-IsSound q fault (enqueues event account now) v =
      transaction-IsSound fault q (insert_event runtime event account now) v
        (insert_event-IsSound runtime event account now q v)
  step-IsSound q fault (enqueues_gap account project session gap now) v =
      transaction-Shrinks fault q (insert_gap runtime account project session gap now)
        (KeepsRegular-Shrinks q (insert_gap runtime account project session gap now q).0
          (insert_gap-KeepsRegular runtime account project session gap now q))
        v
  step-IsSound q fault (claims account now) v =
      transaction-Shrinks fault q (select_batch runtime account now)
        (select_batch-Shrinks runtime account now q) v
  step-IsSound q fault (acknowledges batch acks checkpoint) v =
      transaction-Shrinks fault q (apply_batch batch acks checkpoint)
        (apply_batch-Shrinks batch acks checkpoint q) v
  step-IsSound q fault (releases batch) v = release_claim-IsSound fault q batch v
  step-IsSound q fault (reports_failure batch code message next now) v =
      transaction-Shrinks fault q (λ s. (fail_batch runtime batch code message next now s, tt))
        (fail_batch-Shrinks runtime batch code message next now q) v
  step-IsSound q fault (revokes account project) v =
      transaction-Shrinks fault q (revoke account project) (revoke-Shrinks account project q) v
  step-IsSound q fault (defers account project delay now) v =
      transaction-Shrinks fault q (λ s. (defer account project delay now s, tt))
        (defer-Shrinks account project delay now q) v
  step-IsSound q fault (clears account) v =
      transaction-Shrinks fault q (clear account)
        (clear_projects-Shrinks account (projects account q.rows) q) v
  step-IsSound q fault (expires now) v =
      transaction-Shrinks fault q (λ s. (expire runtime now s, tt))
        (drop_expired-Shrinks runtime (is_overdue q.settings now) now q) v
  step-IsSound q fault closes v = record { distinct = v.distinct; fits = v.fits }

  -- After every history of calls of the queue's methods, whichever of them fail, the ids of the rows
  -- are distinct and the regular rows are within both limits of the capacity, if this held before.
  pub run-IsSound :
      (q : TelemetryQueue) (cs : List (Bool × Command)) → IsSound q → IsSound (run runtime q cs)
  unfolding run
  run-IsSound q [] v = v
  run-IsSound q ((fault, c) ∷ cs) v =
      run-IsSound (step runtime q (fault, c)) cs (step-IsSound q fault c v)
