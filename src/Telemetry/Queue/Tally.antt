-- ===== src/Telemetry/Queue/Tally.antt =====
-- Sums over the rows of the events table: one weight for each measure of the queue.
use dsh_ai_coding.Base.{
  ℕ, zero, suc, ◌+◌, ◌≤◌, ◌≡◌, refl, ◌∙◌, Bool, not, String, List, [], ◌∷◌, ◌++◌, arith,
  if◌then◌else◌, select, take, length,
}
use dsh_ai_coding.Telemetry.Queue.Table.{
  EventRow, has_id, delete_row, delete_rows, update_where, update_rows, regular, sum_bytes,
}
use dsh_ai_coding.Telemetry.Queue.Keys.{drop_first}

unfoldable pub tally : (EventRow → ℕ) → List EventRow → ℕ
tally w [] = 0
tally w (r ∷ rows) = w r + tally w rows

abbrev pub one_if_regular : EventRow → ℕ
one_if_regular r = if r.is_gap then 0 else 1

abbrev pub regular_bytes : EventRow → ℕ
regular_bytes r = if r.is_gap then 0 else r.bytes

-- An update that leaves a weight alone.
abbrev pub KeepsWeight : (EventRow → ℕ) → (EventRow → EventRow) → Type 0
KeepsWeight w f = (r : EventRow) → w (f r) ≡ w r

pub length-regular : (rows : List EventRow) → length (regular rows) ≡ tally one_if_regular rows
unfolding tally
length-regular [] = refl
length-regular (r ∷ rows) = ground (arith, length-regular rows)

pub sum_bytes-regular : (rows : List EventRow) → sum_bytes (regular rows) ≡ tally regular_bytes rows
unfolding tally
sum_bytes-regular [] = refl
sum_bytes-regular (r ∷ rows) = ground (arith, sum_bytes-regular rows)

module _ (w : EventRow → ℕ) where
  pub tally-append : (xs ys : List EventRow) → tally w (xs ++ ys) ≡ tally w xs + tally w ys
  unfolding tally
  tally-append [] ys = omega arith
  tally-append (x ∷ xs) ys = omega (arith, tally-append xs ys)

  pub tally-append_one :
      (xs : List EventRow) (r : EventRow) → tally w (xs ++ r ∷ []) ≡ tally w xs + w r
  unfolding tally
  tally-append_one xs r = omega (arith, tally-append xs (r ∷ []))

  pub tally-select-le :
      (p : EventRow → Bool) (rows : List EventRow) → tally w (select p rows) ≤ tally w rows
  unfolding tally
  tally-select-le p [] = omega arith
  tally-select-le p (r ∷ rows) = ground (arith, tally-select-le p rows)

  pub tally-select-not :
      (p : EventRow → Bool) (rows : List EventRow)
      → tally w rows ≡ tally w (select p rows) + tally w (select (λ r. not (p r)) rows)
  unfolding tally
  tally-select-not p [] = refl
  tally-select-not p (r ∷ rows) = ground (arith, tally-select-not p rows)

  pub tally-drop_first :
      (k : ℕ) (p : EventRow → Bool) (rows : List EventRow)
      → tally w rows ≡ tally w (take k (select p rows)) + tally w (drop_first k p rows)
  unfolding tally drop_first
  tally-drop_first zero p rows = omega arith
  tally-drop_first (suc k) p [] = refl
  tally-drop_first (suc k) p (r ∷ rows) =
      ground (arith, tally-drop_first k p rows, tally-drop_first (suc k) p rows)

  pub tally-delete_rows-le :
      (ids : List String) (rows : List EventRow) → tally w (delete_rows ids rows) ≤ tally w rows
  unfolding delete_rows delete_row
  tally-delete_rows-le [] rows = omega arith
  tally-delete_rows-le (id ∷ ids) rows = omega (
    arith,
    tally-delete_rows-le ids (delete_row id rows),
    tally-select-le (λ r. not (has_id id r)) rows,
  )

  pub tally-update_where :
      (p : EventRow → Bool) (f : EventRow → EventRow) (rows : List EventRow)
      → KeepsWeight w f
      → tally w (update_where p f rows) ≡ tally w rows
  unfolding tally update_where
  tally-update_where p f [] k = refl
  tally-update_where p f (r ∷ rows) k = ground (arith, k r, tally-update_where p f rows k)

  pub tally-update_rows :
      (f : EventRow → EventRow) (ids : List String) (rows : List EventRow)
      → KeepsWeight w f
      → tally w (update_rows f ids rows) ≡ tally w rows
  unfolding update_rows
  tally-update_rows f [] rows k = refl
  tally-update_rows f (id ∷ ids) rows k =
      tally-update_rows f ids (update_where (has_id id) f rows) k
      ∙ tally-update_where (has_id id) f rows k
