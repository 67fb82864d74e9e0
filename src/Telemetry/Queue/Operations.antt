-- ===== src/Telemetry/Queue/Operations.antt =====
-- src/telemetry/queue.ts: the regular rows that each operation on the tables leaves.
use dsh_ai_coding.Base.{
  ℕ, refl, ◌∙◌, inl, inr, Bool, String, Option, none, some, List, [], ◌∷◌, Bool-cases, select,
  find_by,
}
use dsh_ai_coding.Telemetry.Event.{TelemetryEventDto, is_gap_kind, expired}
use dsh_ai_coding.Telemetry.Queue.Table.{
  EventRow, has_id, has_row, delete_rows, event_ids, is_claimed_by,
}
use dsh_ai_coding.Telemetry.Queue.Store.{
  Runtime, TelemetryQueue, lease_over, release_expired, record_gap, insert_event,
}
use dsh_ai_coding.Telemetry.Queue.Claims.{
  TelemetryAckInput, AckStatus, accepted, duplicate, retryable, rejected, AckState, PendingBatch,
  claim_rows, claim_due, select_batch, apply_known, apply_ack, apply_acks, apply_batch,
  drop_expired, fail_batch, batch_rows, is_due, is_exhausted, bump,
}
use dsh_ai_coding.Telemetry.Queue.Upkeep.{in_partition, delete_partition, clear_projects}
use dsh_ai_coding.Telemetry.Queue.Keys.{Distinct-append_one}
use dsh_ai_coding.Telemetry.Queue.Gaps.{record_gap-KeepsRegular}
use dsh_ai_coding.Telemetry.Queue.Capacity.{Enforced, enforce_capacity-Enforced}
use dsh_ai_coding.Telemetry.Queue.Shrinking.{
  IsSound, Shrinks, Shrinks-append_gap, Shrinks-refl, Shrinks-trans, Shrinks-delete_rows,
  Shrinks-delete_row, Shrinks-update_where, Shrinks-update_rows, ShrinksQueue, Shrinks-IsSound,
  KeepsRegular-Shrinks,
}

pub release_expired-Shrinks :
    (now : ℕ) (q : TelemetryQueue) → ShrinksQueue q (release_expired now q)
unfolding release_expired
release_expired-Shrinks now q = (
  refl,
  Shrinks-update_where (lease_over q.settings now) _ q.rows
      (record { key = λ r. refl; event_weight = λ r. refl; byte_weight = λ r. refl }),
)

pub enforced : {q s : TelemetryQueue} → Enforced q s → IsSound s
enforced e = record { distinct = e.distinct; fits = e.fits }

module _ (runtime : Runtime) where
  pub claim_rows-Shrinks :
      (project : String) (now : ℕ) (rows : List EventRow) (q : TelemetryQueue)
      → ShrinksQueue q (claim_rows runtime project now rows q).0
  unfolding claim_rows
  claim_rows-Shrinks project now [] q = (refl, Shrinks-refl q.rows)
  claim_rows-Shrinks project now (r ∷ rows) q = (
    refl,
    Shrinks-update_rows _ (event_ids (r ∷ rows)) q.rows
        (record { key = λ x. refl; event_weight = λ x. refl; byte_weight = λ x. refl }),
  )

  pub claim_due-Shrinks :
      (account : String) (now : ℕ) (q : TelemetryQueue)
      → ShrinksQueue q (claim_due runtime account now q).0
  unfolding claim_due
  claim_due-Shrinks account now q = go (find_by (is_due account now) q.rows)
    where
      go :
          (o : Option EventRow)
          → ShrinksQueue q
              (elim o as (λ _. TelemetryQueue × Option PendingBatch) [
                | none ↦ (q, none)
                | some first ↦
                    claim_rows runtime first.project_id now
                      (batch_rows account first.project_id now q)
                      q
              ]).0
      go none = (refl, Shrinks-refl q.rows)
      go (some first) =
          claim_rows-Shrinks first.project_id now (batch_rows account first.project_id now q) q

  pub select_batch-Shrinks :
      (account : String) (now : ℕ) (q : TelemetryQueue)
      → ShrinksQueue q (select_batch runtime account now q).0
  unfolding select_batch
  select_batch-Shrinks account now q =
      let (same, h) = claim_due-Shrinks account now (release_expired now q) in
      let (same₀, h₀) = release_expired-Shrinks now q in (same ∙ same₀, Shrinks-trans h₀ h)

  pub drop_expired-Shrinks :
      (test : EventRow → Bool) (now : ℕ) (q : TelemetryQueue)
      → ShrinksQueue q (drop_expired runtime test now q)
  unfolding drop_expired
  drop_expired-Shrinks test now q = go (select test q.rows)
    where
      go :
          (doomed : List EventRow)
          → ShrinksQueue q (elim doomed as (λ _. TelemetryQueue) [
            | [] ↦ q
            | r ∷ rows ↦
                record_gap runtime
                  (r ∷ rows)
                  expired
                  now
                  (record q { rows = delete_rows (event_ids (r ∷ rows)) q.rows })
          ])
      go [] = (refl, Shrinks-refl q.rows)
      go (r ∷ rows) =
          let (same, h) = KeepsRegular-Shrinks _ _ (
            record_gap-KeepsRegular runtime (r ∷ rows) expired now
              (record q { rows = delete_rows (event_ids (r ∷ rows)) q.rows })) in
          (same, Shrinks-trans (Shrinks-delete_rows (event_ids (r ∷ rows)) q.rows) h)

  pub fail_batch-Shrinks :
      (batch code message : String) (next now : ℕ) (q : TelemetryQueue)
      → ShrinksQueue q (fail_batch runtime batch code message next now q)
  unfolding fail_batch
  fail_batch-Shrinks batch code message next now q =
      let (same, h) = drop_expired-Shrinks (is_exhausted q.settings) now _ in
      (
        same,
        Shrinks-trans
            (Shrinks-update_rows (bump code message next)
              (event_ids (select (is_claimed_by batch) q.rows)) q.rows
              (record { key = λ x. refl; event_weight = λ x. refl; byte_weight = λ x. refl }))
            h,
      )

  pub insert_event-IsSound :
      (event : TelemetryEventDto) (account : String) (now : ℕ) (q : TelemetryQueue)
      → IsSound q
      → IsSound (insert_event runtime event account now q).0
  unfolding insert_event
  insert_event-IsSound event account now q v = elim (Bool-cases (has_row event.event_id q.rows)) [
    | inl there ↦ rw there v
    | inr absent ↦ elim (Bool-cases (is_gap_kind event.kind)) [
      | inl gap ↦
          rw (absent, gap) (Shrinks-IsSound q _ (refl, Shrinks-append_gap q.rows _ absent refl) v)
      | inr regular_ ↦
          rw (absent, regular_)
            (enforced (
              enforce_capacity-Enforced runtime now _
                (Distinct-append_one q.rows _ absent v.distinct)))
    ]
  ]

pub apply_known-Shrinks :
    (ack : TelemetryAckInput) (row : EventRow) (status : AckStatus) (s : AckState)
    → Shrinks s.rows (apply_known ack row status s).rows
unfolding apply_known
apply_known-Shrinks ack row accepted s = Shrinks-delete_row ack.event_id s.rows
apply_known-Shrinks ack row duplicate s = Shrinks-delete_row ack.event_id s.rows
apply_known-Shrinks ack row retryable s =
    Shrinks-update_where (has_id ack.event_id) _ s.rows
      (record { key = λ x. refl; event_weight = λ x. refl; byte_weight = λ x. refl })
apply_known-Shrinks ack row rejected s = elim (Bool-cases row.is_gap) [
  | inl gap ↦ rw gap (Shrinks-delete_row ack.event_id s.rows)
  | inr regular_ ↦ rw regular_ (Shrinks-delete_row ack.event_id s.rows)
]

pub apply_ack-Shrinks :
    (claimed : List EventRow) (ack : TelemetryAckInput) (s : AckState)
    → Shrinks s.rows (apply_ack claimed ack s).rows
unfolding apply_ack
apply_ack-Shrinks claimed ack s = go (find_by (has_id ack.event_id) claimed)
  where
    go :
        (o : Option EventRow)
        → Shrinks s.rows
            (elim o as (λ _. AckState) [
              | none ↦ s
              | some row ↦ apply_known ack row ack.status s
            ]).rows
    go none = Shrinks-refl s.rows
    go (some row) = apply_known-Shrinks ack row ack.status s

pub apply_acks-Shrinks :
    (claimed : List EventRow) (acks : List TelemetryAckInput) (s : AckState)
    → Shrinks s.rows (apply_acks claimed acks s).rows
unfolding apply_acks
apply_acks-Shrinks claimed [] s = Shrinks-refl s.rows
apply_acks-Shrinks claimed (ack ∷ acks) s =
    Shrinks-trans (apply_ack-Shrinks claimed ack s)
      (apply_acks-Shrinks claimed acks (apply_ack claimed ack s))

pub apply_batch-Shrinks :
    (batch : String) (acks : List TelemetryAckInput) (checkpoint : String) (q : TelemetryQueue)
    → ShrinksQueue q (apply_batch batch acks checkpoint q).0
unfolding apply_batch
apply_batch-Shrinks batch acks checkpoint q = (refl, apply_acks-Shrinks _ acks _)

pub clear_projects-Shrinks :
    (account : String) (ps : List String) (q : TelemetryQueue)
    → ShrinksQueue q (clear_projects account ps q).0
unfolding clear_projects delete_partition
clear_projects-Shrinks account [] q = (refl, Shrinks-refl q.rows)
clear_projects-Shrinks account (p ∷ ps) q =
    let (same, h) = clear_projects-Shrinks account ps (delete_partition account p q).0 in
    (
      same,
      Shrinks-trans
          (Shrinks-delete_rows (event_ids (select (in_partition account p) q.rows)) q.rows) h,
    )
