-- ===== src/Telemetry/Queue/Keys.antt =====
-- src/telemetry/queue.ts: `event_id TEXT PRIMARY KEY`. What the statements of `Table` do to a table
-- whose ids are distinct.
use dsh_ai_coding.Base.{
  ℕ, zero, suc, ◌≡◌, refl, ap, ◌∙◌, inl, inr, Bool, false, not, ◌||◌, String, List, [], ◌∷◌, ◌++◌,
  arith, str_eq, str_eq-sym, str_eq_refl, if◌then◌else◌, Bool-cases, select, take,
}
use dsh_ai_coding.Telemetry.Queue.Table.{
  EventRow, has_id, has_row, delete_row, delete_rows, update_where, update_rows, event_ids,
}

-- No two rows share an id.
abbrev pub Distinct : List EventRow → Type 0
Distinct [] = Unit {0}
Distinct (r ∷ rows) = (has_row r.event_id rows ≡ false) × Distinct rows

-- An update that leaves the key alone.
abbrev pub KeepsKey : (EventRow → EventRow) → Type 0
KeepsKey f = (r : EventRow) → (f r).event_id ≡ r.event_id

pub has_row-append :
    (id : String) (xs ys : List EventRow) → has_row id (xs ++ ys) ≡ (has_row id xs || has_row id ys)
has_row-append id [] ys = refl
has_row-append id (x ∷ xs) ys = ground (arith, has_row-append id xs ys)

pub has_row-append_one :
    (id : String) (xs : List EventRow) (r : EventRow)
    → has_row id xs ≡ false
    → has_id id r ≡ false
    → has_row id (xs ++ r ∷ []) ≡ false
has_row-append_one id xs r h k = rw (has_row-append id xs (r ∷ []), h, k) refl

pub has_row-select :
    (id : String) (p : EventRow → Bool) (rows : List EventRow)
    → has_row id rows ≡ false
    → has_row id (select p rows) ≡ false
has_row-select id p [] h = refl
has_row-select id p (r ∷ rows) h = ground (arith, has_row-select id p rows)

pub has_row-take :
    (id : String) (k : ℕ) (rows : List EventRow)
    → has_row id rows ≡ false
    → has_row id (take k rows) ≡ false
has_row-take id zero rows h = refl
has_row-take id (suc k) [] h = refl
has_row-take id (suc k) (r ∷ rows) h = ground (arith, has_row-take id k rows)

pub has_row-update_where :
    (id : String) (p : EventRow → Bool) (f : EventRow → EventRow) (rows : List EventRow)
    → KeepsKey f
    → has_row id (update_where p f rows) ≡ has_row id rows
unfolding update_where
has_row-update_where id p f [] k = refl
has_row-update_where id p f (r ∷ rows) k =
    ground (arith, k r, ap (λ (e : String). str_eq e id) (k r), has_row-update_where id p f rows k)

pub has_row-update_rows :
    (id : String) (f : EventRow → EventRow) (ids : List String) (rows : List EventRow)
    → KeepsKey f
    → has_row id (update_rows f ids rows) ≡ has_row id rows
unfolding update_rows
has_row-update_rows id f [] rows k = refl
has_row-update_rows id f (j ∷ ids) rows k =
    has_row-update_rows id f ids (update_where (has_id j) f rows) k
    ∙ has_row-update_where id (has_id j) f rows k

pub has_row-delete_rows :
    (id : String) (ids : List String) (rows : List EventRow)
    → has_row id rows ≡ false
    → has_row id (delete_rows ids rows) ≡ false
unfolding delete_rows delete_row
has_row-delete_rows id [] rows h = h
has_row-delete_rows id (j ∷ ids) rows h =
    has_row-delete_rows id ids (delete_row j rows) (has_row-select id _ rows h)

pub Distinct-select :
    (p : EventRow → Bool) (rows : List EventRow) → Distinct rows → Distinct (select p rows)
Distinct-select p [] d = tt
Distinct-select p (r ∷ rows) d =
    ground (arith, Distinct-select p rows d.1, has_row-select r.event_id p rows d.0)

pub Distinct-delete_rows :
    (ids : List String) (rows : List EventRow) → Distinct rows → Distinct (delete_rows ids rows)
unfolding delete_rows delete_row
Distinct-delete_rows [] rows d = d
Distinct-delete_rows (j ∷ ids) rows d =
    Distinct-delete_rows ids (delete_row j rows) (Distinct-select _ rows d)

pub Distinct-update_where :
    (p : EventRow → Bool) (f : EventRow → EventRow) (rows : List EventRow)
    → KeepsKey f
    → Distinct rows
    → Distinct (update_where p f rows)
unfolding update_where
Distinct-update_where p f [] k d = tt
Distinct-update_where p f (r ∷ rows) k d = ground (
  arith,
  k r,
  ap (λ (e : String). has_row e (update_where p f rows)) (k r),
  has_row-update_where r.event_id p f rows k,
  Distinct-update_where p f rows k d.1,
)

pub Distinct-update_rows :
    (f : EventRow → EventRow) (ids : List String) (rows : List EventRow)
    → KeepsKey f
    → Distinct rows
    → Distinct (update_rows f ids rows)
unfolding update_rows
Distinct-update_rows f [] rows k d = d
Distinct-update_rows f (j ∷ ids) rows k d =
    Distinct-update_rows f ids (update_where (has_id j) f rows) k
      (Distinct-update_where (has_id j) f rows k d)

pub Distinct-append_one :
    (rows : List EventRow) (r : EventRow)
    → has_row r.event_id rows ≡ false
    → Distinct rows
    → Distinct (rows ++ r ∷ [])
Distinct-append_one [] r h d = (refl, tt)
Distinct-append_one (x ∷ rows) r h d = ground (
  arith,
  has_row-append x.event_id rows (r ∷ []),
  str_eq-sym x.event_id r.event_id,
  Distinct-append_one rows r,
  d,
)

-- The table without the first `k` rows that a test selects.
unfoldable pub drop_first : ℕ → (EventRow → Bool) → List EventRow → List EventRow
drop_first zero p rows = rows
drop_first (suc k) p [] = []
drop_first (suc k) p (r ∷ rows) = if p r then drop_first k p rows else r ∷ drop_first (suc k) p rows

delete_row-absent :
    (id : String) (rows : List EventRow) → has_row id rows ≡ false → delete_row id rows ≡ rows
unfolding delete_row
delete_row-absent id [] h = refl
delete_row-absent id (r ∷ rows) h = ground (arith, delete_row-absent id rows)

-- A row whose id is not among those of `gone` stays.
delete_rows-keep :
    (gone : List EventRow) (r : EventRow) (rows : List EventRow)
    → has_row r.event_id gone ≡ false
    → delete_rows (event_ids gone) (r ∷ rows) ≡ r ∷ delete_rows (event_ids gone) rows
unfolding delete_rows delete_row
delete_rows-keep [] r rows h = refl
delete_rows-keep (g ∷ gone) r rows h =
    ground (
      arith,
      str_eq-sym g.event_id r.event_id,
      delete_rows-keep gone r (delete_row g.event_id rows),
    )

delete_rows-gone :
    (gone : List EventRow) (r : EventRow) (rows : List EventRow)
    → has_row r.event_id rows ≡ false
    → delete_rows (event_ids (r ∷ gone)) (r ∷ rows) ≡ delete_rows (event_ids gone) rows
unfolding delete_rows delete_row
delete_rows-gone gone r rows h =
    ap (delete_rows (event_ids gone))
      (ground (arith, str_eq_refl r.event_id, delete_row-absent r.event_id rows h))

-- Deleting the first rows that a test selects, one by one, takes just those.
pub delete_rows-take :
    (k : ℕ) (p : EventRow → Bool) (rows : List EventRow)
    → Distinct rows
    → delete_rows (event_ids (take k (select p rows))) rows ≡ drop_first k p rows
unfolding delete_rows drop_first
delete_rows-take zero p rows d = refl
delete_rows-take (suc k) p [] d = refl
delete_rows-take (suc k) p (r ∷ rows) d = elim (Bool-cases (p r)) [
  | inl yes_ ↦
      rw yes_ (delete_rows-gone (take k (select p rows)) r rows d.0 ∙ delete_rows-take k p rows d.1)
  | inr no_ ↦ rw no_ (
      delete_rows-keep (take (suc k) (select p rows)) r rows
        (has_row-take r.event_id (suc k) (select p rows) (has_row-select r.event_id p rows d.0))
      ∙ ap (◌∷◌ r) (delete_rows-take (suc k) p rows d.1))
]

-- So does deleting all of them.
pub delete_rows-select :
    (p : EventRow → Bool) (rows : List EventRow)
    → Distinct rows
    → delete_rows (event_ids (select p rows)) rows ≡ select (λ r. not (p r)) rows
unfolding delete_rows
delete_rows-select p [] d = refl
delete_rows-select p (r ∷ rows) d = elim (Bool-cases (p r)) [
  | inl yes_ ↦ rw yes_ (delete_rows-gone (select p rows) r rows d.0 ∙ delete_rows-select p rows d.1)
  | inr no_ ↦ rw no_ (
      delete_rows-keep (select p rows) r rows (has_row-select r.event_id p rows d.0)
      ∙ ap (◌∷◌ r) (delete_rows-select p rows d.1))
]
