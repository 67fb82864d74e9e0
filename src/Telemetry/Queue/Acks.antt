-- ===== src/Telemetry/Queue/Acks.antt =====
-- src/telemetry/queue.ts: which rows `acknowledge` deletes.
use dsh_ai_coding.Base.{
  ◌≡◌, refl, ◌∙◌, inl, inr, Bool, true, false, not, ◌&&◌, String, Option, none, some, List, [], ◌∷◌,
  arith, str_eq, eq_iff, by_if, subst, Bool-cases, find_by, any_of, select,
}
use dsh_ai_coding.Telemetry.Queue.Table.{EventRow, has_id, has_row, delete_row, is_claimed_by}
use dsh_ai_coding.Telemetry.Queue.Store.{TelemetryQueue}
use dsh_ai_coding.Telemetry.Queue.Claims.{
  TelemetryAckInput, AckStatus, accepted, duplicate, retryable, rejected, AckState, apply_known,
  apply_ack, apply_acks, apply_batch,
}
use dsh_ai_coding.Telemetry.Queue.Keys.{has_row-update_where}

abbrev pub is_final : AckStatus → Bool
is_final retryable = false
is_final _ = true

-- An ack that takes the event out of the queue.
abbrev pub settles : String → TelemetryAckInput → Bool
settles id ack = str_eq ack.event_id id && is_final ack.status

has_row-delete_row :
    (id j : String) (rows : List EventRow)
    → has_row id (delete_row j rows) ≡ (has_row id rows && not (str_eq j id))
unfolding delete_row
has_row-delete_row id j [] = refl
has_row-delete_row id j (r ∷ rows) =
    ground
      (arith, eq_iff j id, eq_iff r.event_id id, eq_iff r.event_id j, has_row-delete_row id j rows)

has_row_of_find :
    (id : String) (rows : List EventRow) → find_by (has_id id) rows ≡ none → has_row id rows ≡ false
has_row_of_find id [] h = refl
has_row_of_find id (r ∷ rows) h = ground (arith, has_row_of_find id rows)

has_row_of_found :
    (id : String) (rows : List EventRow) (r : EventRow)
    → find_by (has_id id) rows ≡ some r
    → has_row id rows ≡ true
has_row_of_found id [] r h = cc
has_row_of_found id (x ∷ rows) r h = ground (arith, has_row_of_found id rows r)

apply_known-has_row :
    (id : String) (ack : TelemetryAckInput) (row : EventRow) (status : AckStatus) (s : AckState)
    → has_row id (apply_known ack row status s).rows
      ≡ (has_row id s.rows && not (str_eq ack.event_id id && is_final status))
unfolding apply_known
apply_known-has_row id ack row accepted s =
    ground (arith, has_row-delete_row id ack.event_id s.rows)
apply_known-has_row id ack row duplicate s =
    ground (arith, has_row-delete_row id ack.event_id s.rows)
apply_known-has_row id ack row retryable s =
    has_row-update_where id (has_id ack.event_id) _ s.rows (λ r. refl) ∙ ground arith
apply_known-has_row id ack row rejected s =
    by_if
      (λ (t : AckState).
        has_row id t.rows ≡ (has_row id s.rows && not (str_eq ack.event_id id && true)))
      row.is_gap (λ _. ground (arith, has_row-delete_row id ack.event_id s.rows))
      (λ _. ground (arith, has_row-delete_row id ack.event_id s.rows))

apply_ack-has_row :
    (id : String) (claimed : List EventRow) (ack : TelemetryAckInput) (s : AckState)
    → has_row id (apply_ack claimed ack s).rows
      ≡ (has_row id s.rows && not (has_row id claimed && settles id ack))
unfolding apply_ack
apply_ack-has_row id claimed ack s = go (find_by (has_id ack.event_id) claimed) refl
  where
    go :
        (o : Option EventRow)
        → find_by (has_id ack.event_id) claimed ≡ o
        → has_row id
            (elim o as (λ _. AckState) [
              | none ↦ s
              | some row ↦ apply_known ack row ack.status s
            ]).rows
          ≡ (has_row id s.rows && not (has_row id claimed && settles id ack))
    go none e = elim (Bool-cases (str_eq ack.event_id id)) [
      | inl same ↦
          let gone : has_row id claimed ≡ false =
            subst (λ j. has_row j claimed ≡ false) ((eq_iff _ _).0 same)
              (has_row_of_find ack.event_id claimed e) in
          ground (arith, gone)
      | inr other ↦ ground (arith, other)
    ]
    go (some row) e = elim (Bool-cases (str_eq ack.event_id id)) [
      | inl same ↦
          let there : has_row id claimed ≡ true =
            subst (λ j. has_row j claimed ≡ true) ((eq_iff _ _).0 same)
              (has_row_of_found ack.event_id claimed row e) in
          ground (arith, there, apply_known-has_row id ack row ack.status s)
      | inr other ↦ ground (arith, other, apply_known-has_row id ack row ack.status s)
    ]

apply_acks-has_row :
    (id : String) (claimed : List EventRow) (acks : List TelemetryAckInput) (s : AckState)
    → has_row id (apply_acks claimed acks s).rows
      ≡ (has_row id s.rows && not (has_row id claimed && any_of (settles id) acks))
unfolding apply_acks
apply_acks-has_row id claimed [] s = ground arith
apply_acks-has_row id claimed (ack ∷ acks) s =
    apply_acks-has_row id claimed acks (apply_ack claimed ack s)
    ∙ ground (arith, apply_ack-has_row id claimed ack s)

-- `acknowledge` deletes exactly the rows of its batch that have an accepted, duplicate or rejected
-- ack: every other row is still there, also one that only an ack for another batch names.
pub apply_batch-has_row :
    (id batch : String) (acks : List TelemetryAckInput) (checkpoint : String) (q : TelemetryQueue)
    → has_row id (apply_batch batch acks checkpoint q).0.rows ≡ (
        has_row id q.rows
        && not (has_row id (select (is_claimed_by batch) q.rows) && any_of (settles id) acks))
unfolding apply_batch
apply_batch-has_row id batch acks checkpoint q = apply_acks-has_row id _ acks _
