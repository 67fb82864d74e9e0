-- ===== src/Telemetry/Queue/Marks.antt =====
-- src/telemetry/queue.ts: one `UPDATE … WHERE event_id = ?` for each id of a list.
use dsh_ai_coding.Base.{
  ◌≡◌, refl, inl, inr, Bool, true, false, String, List, [], ◌∷◌, str_eq, or_true, by_if, Bool-cases,
  any_of, All,
}
use dsh_ai_coding.Telemetry.Queue.Table.{EventRow, has_id, update_where, update_rows, event_ids}

-- Whether an id is in a list.
abbrev pub is_in : String → List String → Bool
is_in id = any_of (λ j. str_eq id j)

-- A row of one of the ids has the property.
abbrev pub Marked : (EventRow → Type 0) → List String → EventRow → Type 0
Marked P ids r = is_in r.event_id ids ≡ true → P r

pub All-weaken {κ μ} :
    {P : EventRow → Type κ} {Q : EventRow → Type μ} (rows : List EventRow)
    → ((r : EventRow) → P r → Q r)
    → All P rows
    → All Q rows
All-weaken [] f h = tt
All-weaken (r ∷ rows) f h = (f r h.0, All-weaken rows f h.1)

pub All-event_ids :
    (P : String → Type 0) (rows : List EventRow)
    → All (λ r. P r.event_id) rows
    → All P (event_ids rows)
All-event_ids P [] h = tt
All-event_ids P (r ∷ rows) h = (h.0, All-event_ids P rows h.1)

-- The ids in the order in which `update_rows` has marked them.
abbrev onto : List String → List String → List String
onto done [] = done
onto done (id ∷ ids) = onto (id ∷ done) ids

is_in-onto_done :
    (x : String) (done ids : List String) → is_in x done ≡ true → is_in x (onto done ids) ≡ true
is_in-onto_done x done [] h = h
is_in-onto_done x done (id ∷ ids) h =
    is_in-onto_done x (id ∷ done) ids (rw (h, or_true (str_eq x id)) refl)

is_in-onto :
    (x : String) (done ids : List String) → is_in x ids ≡ true → is_in x (onto done ids) ≡ true
is_in-onto x done [] h = absurd (cc)
is_in-onto x done (id ∷ ids) h = elim (Bool-cases (str_eq x id)) [
  | inl hit ↦ is_in-onto_done x (id ∷ done) ids (rw hit refl)
  | inr miss ↦ is_in-onto x (id ∷ done) ids (rw miss at h)
]

module _ (P : EventRow → Type 0) (f : EventRow → EventRow) (marks : (r : EventRow) → P (f r)) where
  Marked-later :
      (id : String) (done : List String) (r : EventRow)
      → has_id id r ≡ false
      → Marked P done r
      → Marked P (id ∷ done) r
  Marked-later id done r miss h m = h (rw miss at m)

  update_where-Marked :
      (id : String) (done : List String) (rows : List EventRow)
      → All (Marked P done) rows
      → All (Marked P (id ∷ done)) (update_where (has_id id) f rows)
  unfolding update_where
  update_where-Marked id done [] h = tt
  update_where-Marked id done (r ∷ rows) h = (
    by_if (Marked P (id ∷ done)) (has_id id r) (λ hit m. marks r)
        (λ miss. Marked-later id done r miss h.0),
    update_where-Marked id done rows h.1,
  )

  update_rows-onto :
      (done ids : List String) (rows : List EventRow)
      → All (Marked P done) rows
      → All (Marked P (onto done ids)) (update_rows f ids rows)
  unfolding update_rows
  update_rows-onto done [] rows h = h
  update_rows-onto done (id ∷ ids) rows h =
      update_rows-onto (id ∷ done) ids (update_where (has_id id) f rows)
        (update_where-Marked id done rows h)

  none-Marked : (rows : List EventRow) → All (Marked P []) rows
  none-Marked [] = tt
  none-Marked (r ∷ rows) = ((λ m. absurd (cc)), none-Marked rows)

  pub update_rows-Marked :
      (ids : List String) (rows : List EventRow) → All (Marked P ids) (update_rows f ids rows)
  update_rows-Marked ids rows =
      All-weaken (update_rows f ids rows) (λ r h m. h (is_in-onto r.event_id [] ids m))
        (update_rows-onto [] ids rows (none-Marked rows))

-- What an update keeps of every row, it keeps of the table.
pub update_where-All :
    (P : EventRow → Type 0) (p : EventRow → Bool) (f : EventRow → EventRow) (rows : List EventRow)
    → ((r : EventRow) → P r → P (f r))
    → All P rows
    → All P (update_where p f rows)
unfolding update_where
update_where-All P p f [] k h = tt
update_where-All P p f (r ∷ rows) k h =
    (by_if P (p r) (λ _. k r h.0) (λ _. h.0), update_where-All P p f rows k h.1)

pub update_rows-All :
    (P : EventRow → Type 0) (f : EventRow → EventRow) (ids : List String) (rows : List EventRow)
    → ((r : EventRow) → P r → P (f r))
    → All P rows
    → All P (update_rows f ids rows)
unfolding update_rows
update_rows-All P f [] rows k h = h
update_rows-All P f (id ∷ ids) rows k h =
    update_rows-All P f ids (update_where (has_id id) f rows) k
      (update_where-All P (has_id id) f rows k h)
