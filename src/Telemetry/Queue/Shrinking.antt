-- ===== src/Telemetry/Queue/Shrinking.antt =====
-- src/telemetry/queue.ts: the statements that delete or mark rows, and a queue that is sound.
use dsh_ai_coding.Base.{◌≤◌, ◌≡◌, ap, Bool, true, false, String, List, [], ◌∷◌, ◌++◌, arith, length}
use dsh_ai_coding.Telemetry.Queue.Table.{
  EventRow, has_row, delete_row, delete_rows, update_where, update_rows, sum_bytes,
}
use dsh_ai_coding.Telemetry.Queue.Store.{TelemetryQueue, within_capacity}
use dsh_ai_coding.Telemetry.Queue.Keys.{
  Distinct, KeepsKey, Distinct-select, Distinct-delete_rows, Distinct-update_where,
  Distinct-update_rows, Distinct-append_one,
}
use dsh_ai_coding.Telemetry.Queue.Tally.{
  tally, one_if_regular, regular_bytes, KeepsWeight, length-regular, sum_bytes-regular,
  tally-append_one, tally-select-le, tally-delete_rows-le, tally-update_where, tally-update_rows,
}
use dsh_ai_coding.Telemetry.Queue.Gaps.{KeepsRegular}

pub record IsSound (q : TelemetryQueue) : Type 0 where
  pub distinct : Distinct q.rows
  pub fits : within_capacity q.settings q.rows ≡ true

-- A table with no more regular rows and bytes than one that fits.
pub record Shrinks (xs ys : List EventRow) : Type 0 where
  pub keeps_key : Distinct xs → Distinct ys
  pub events_le : tally one_if_regular ys ≤ tally one_if_regular xs
  pub bytes_le : tally regular_bytes ys ≤ tally regular_bytes xs

pub Shrinks-refl : (xs : List EventRow) → Shrinks xs xs
Shrinks-refl xs = record { keeps_key = λ d. d; events_le = omega arith; bytes_le = omega arith }

pub Shrinks-trans : {xs ys zs : List EventRow} → Shrinks xs ys → Shrinks ys zs → Shrinks xs zs
Shrinks-trans h k = record {
  keeps_key = λ d. k.keeps_key (h.keeps_key d);
  events_le = omega arith;
  bytes_le = omega arith;
}

pub Shrinks-delete_rows :
    (ids : List String) (rows : List EventRow) → Shrinks rows (delete_rows ids rows)
Shrinks-delete_rows ids rows = record {
  keeps_key = Distinct-delete_rows ids rows;
  events_le = tally-delete_rows-le one_if_regular ids rows;
  bytes_le = tally-delete_rows-le regular_bytes ids rows;
}

pub Shrinks-delete_row : (id : String) (rows : List EventRow) → Shrinks rows (delete_row id rows)
unfolding delete_row
Shrinks-delete_row id rows = record {
  keeps_key = Distinct-select _ rows;
  events_le = tally-select-le one_if_regular _ rows;
  bytes_le = tally-select-le regular_bytes _ rows;
}

-- An update that leaves the id, the kind and the size of a row alone.
pub record KeepsRow (f : EventRow → EventRow) : Type 0 where
  pub key : KeepsKey f
  pub event_weight : KeepsWeight one_if_regular f
  pub byte_weight : KeepsWeight regular_bytes f

pub Shrinks-update_where :
    (p : EventRow → Bool) (f : EventRow → EventRow) (rows : List EventRow)
    → KeepsRow f
    → Shrinks rows (update_where p f rows)
Shrinks-update_where p f rows k = record {
  keeps_key = Distinct-update_where p f rows k.key;
  events_le = omega (arith, tally-update_where one_if_regular p f rows k.event_weight);
  bytes_le = omega (arith, tally-update_where regular_bytes p f rows k.byte_weight);
}

pub Shrinks-update_rows :
    (f : EventRow → EventRow) (ids : List String) (rows : List EventRow)
    → KeepsRow f
    → Shrinks rows (update_rows f ids rows)
Shrinks-update_rows f ids rows k = record {
  keeps_key = Distinct-update_rows f ids rows k.key;
  events_le = omega (arith, tally-update_rows one_if_regular f ids rows k.event_weight);
  bytes_le = omega (arith, tally-update_rows regular_bytes f ids rows k.byte_weight);
}

abbrev pub ShrinksQueue : TelemetryQueue → TelemetryQueue → Type 0
ShrinksQueue q s = (s.settings ≡ q.settings) × Shrinks q.rows s.rows

pub Shrinks-IsSound : (q s : TelemetryQueue) → ShrinksQueue q s → IsSound q → IsSound s
Shrinks-IsSound q s (same, h) v = record {
  distinct = h.keeps_key v.distinct;
  fits = rw same (
      ground (
        arith,
        length-regular q.rows,
        sum_bytes-regular q.rows,
        length-regular s.rows,
        sum_bytes-regular s.rows,
      ));
}

pub KeepsRegular-Shrinks : (q s : TelemetryQueue) → KeepsRegular q s → ShrinksQueue q s
KeepsRegular-Shrinks q s k = (
  k.same_settings,
  record {
    keeps_key = k.keeps_key;
    events_le = omega (
      arith,
      length-regular q.rows,
      length-regular s.rows,
      ap (length {A = EventRow}) k.same_regular,
    );
    bytes_le =
        omega
          (arith, sum_bytes-regular q.rows, sum_bytes-regular s.rows, ap sum_bytes k.same_regular);
  },
)

-- A gap row takes no capacity.
pub Shrinks-append_gap :
    (rows : List EventRow) (r : EventRow)
    → has_row r.event_id rows ≡ false
    → r.is_gap ≡ true
    → Shrinks rows (rows ++ r ∷ [])
Shrinks-append_gap rows r absent gap = record {
  keeps_key = Distinct-append_one rows r absent;
  events_le = ground (arith, tally-append_one one_if_regular rows r);
  bytes_le = ground (arith, tally-append_one regular_bytes rows r);
}
