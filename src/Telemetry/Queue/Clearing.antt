-- ===== src/Telemetry/Queue/Clearing.antt =====
-- src/telemetry/queue.ts: what a manual clear of one account removes, and its ranges.
use dsh_ai_coding.Base.{
  ℕ, ◌+◌, ◌≡◌, refl, ◌∙◌, ap, sym, subst, inl, inr, Bool, true, false, not, ◌&&◌, String, List, [],
  ◌∷◌, ◌++◌, map, arith, str_eq, str_eq_refl, eq_iff, by_if, or_true, Bool-cases, any_of, select,
  select-select, select-eq, length-select-not, length, All,
}
use dsh_ai_coding.Telemetry.Queue.Table.{EventRow, event_ids, regular, sum_gaps}
use dsh_ai_coding.Telemetry.Queue.Store.{TelemetryQueue}
use dsh_ai_coding.Telemetry.Queue.Claims.{QueueGapRange}
use dsh_ai_coding.Telemetry.Queue.Upkeep.{
  in_partition, delete_partition, add_distinct, distinct, projects, clear_projects, clear, counts,
}
use dsh_ai_coding.Telemetry.Queue.Keys.{Distinct, delete_rows-select, Distinct-delete_rows}
use dsh_ai_coding.Telemetry.Queue.Marks.{is_in, All-weaken}
use dsh_ai_coding.Telemetry.Queue.Removal.{range_of-count}

abbrev pub of_account : String → EventRow → Bool
of_account account r = str_eq r.account_id account

abbrev pub total : List (String × QueueGapRange) → ℕ
total [] = 0
total ((p, range) ∷ ranges) = range.count + total ranges

select-true :
    (p : EventRow → Bool) (rows : List EventRow) → All (λ r. p r ≡ true) rows → select p rows ≡ rows
select-true p [] h = refl
select-true p (r ∷ rows) h = ground (arith, h.0, select-true p rows h.1)

pointwise : (P : EventRow → Type 0) (rows : List EventRow) → ((r : EventRow) → P r) → All P rows
pointwise P [] h = tt
pointwise P (r ∷ rows) h = (h r, pointwise P rows h)

-- The rows that are left once some projects of the account are cleared.
abbrev left_after : String → List String → List EventRow → List EventRow
left_after account ps = select (λ r. not (of_account account r && is_in r.project_id ps))

clear_projects-rows :
    (account : String) (ps : List String) (q : TelemetryQueue)
    → Distinct q.rows
    → ((clear_projects account ps q).0.rows ≡ left_after account ps q.rows)
      × (length q.rows
          ≡ total (clear_projects account ps q).1 + length (clear_projects account ps q).0.rows)
unfolding clear_projects delete_partition
clear_projects-rows account [] q d =
    (sym (select-true _ q.rows (pointwise _ q.rows (λ r. ground arith))), omega arith)
clear_projects-rows account (p ∷ ps) q d =
    let next : TelemetryQueue = (delete_partition account p q).0 in
    let removed = delete_rows-select (in_partition account p) q.rows d in
    let (rows, sum) =
      clear_projects-rows account ps next
        (Distinct-delete_rows (event_ids (select (in_partition account p) q.rows)) q.rows d) in
    (
      rows
          ∙ ap (left_after account ps) removed
          ∙ select-select _ _ q.rows
          ∙ select-eq
              (λ r.
                not (in_partition account p r)
                && not (of_account account r && is_in r.project_id ps))
              (λ r. not (of_account account r && is_in r.project_id (p ∷ ps))) q.rows
              (pointwise _ q.rows (λ r. ground (arith))),
      omega (
        arith,
        sum,
        range_of-count (select (in_partition account p) q.rows),
        ap (length {A = EventRow}) removed,
        length-select-not (in_partition account p) q.rows,
      ),
    )

is_in-append_one :
    (x : String) (xs : List String) (y : String) → is_in x xs ≡ true → is_in x (xs ++ y ∷ []) ≡ true
is_in-append_one x [] y h = absurd (cc)
is_in-append_one x (z ∷ xs) y h = ground (arith, is_in-append_one x xs y)

is_in-append_last : (x : String) (xs : List String) → is_in x (xs ++ x ∷ []) ≡ true
is_in-append_last x [] = rw (str_eq_refl x) refl
is_in-append_last x (z ∷ xs) = rw (is_in-append_last x xs) (or_true (str_eq x z))

distinct-seen :
    (x : String) (seen ps : List String) → is_in x seen ≡ true → is_in x (distinct seen ps) ≡ true
unfolding distinct
distinct-seen x seen [] h = h
distinct-seen x seen (p ∷ ps) h = distinct-seen x (add_distinct p seen) ps (
    by_if (λ s. is_in x s ≡ true) (any_of (str_eq p) seen) (λ _. h)
      (λ _. is_in-append_one x seen p h))

distinct-all :
    (x : String) (seen ps : List String) → is_in x ps ≡ true → is_in x (distinct seen ps) ≡ true
unfolding distinct
distinct-all x seen [] h = absurd (cc)
distinct-all x seen (p ∷ ps) h = elim (Bool-cases (str_eq x p)) [
  | inl same ↦ distinct-seen x (add_distinct p seen) ps (
      by_if (λ s. is_in x s ≡ true) (any_of (str_eq p) seen)
        (λ old. subst (λ y. is_in y seen ≡ true) (sym ((eq_iff _ _).0 same)) old)
        (λ new.
          subst (λ y. is_in x (seen ++ y ∷ []) ≡ true) ((eq_iff _ _).0 same)
            (is_in-append_last x seen)))
  | inr other ↦ distinct-all x (add_distinct p seen) ps (rw other at h)
]

-- Every row of the account has its project among those that are cleared.
projects_cover :
    (account : String) (rows : List EventRow)
    → All
        (λ r.
          of_account account r ≡ true
          → is_in r.project_id
              (map (λ (x : EventRow). x.project_id) (select (of_account account) rows))
            ≡ true)
        rows
projects_cover account [] = tt
projects_cover account (r ∷ rows) = (
  (λ c. rw (c, str_eq_refl r.project_id) refl),
  All-weaken rows
      (λ x h c.
        by_if (λ xs. is_in x.project_id (map (λ (y : EventRow). y.project_id) xs) ≡ true)
          (of_account account r) (λ _. rw (h c, or_true (str_eq x.project_id r.project_id)) refl)
          (λ _. h c))
      (projects_cover account rows),
)

-- If the ids are distinct, a confirmed clear leaves exactly the rows of the other accounts, in their order, and the ranges
-- that it returns count every row that went.
pub clear_lem :
    (account : String) (q : TelemetryQueue)
    → Distinct q.rows
    → let (s, ranges) = clear account q in
      (s.rows ≡ select (λ r. not (of_account account r)) q.rows)
      × (total ranges ≡ length (select (of_account account) q.rows))
unfolding clear projects
clear_lem account q d =
    let (rows, sum) = clear_projects-rows account (projects account q.rows) q d in
    let same : left_after account (projects account q.rows) q.rows
        ≡ select (λ r. not (of_account account r)) q.rows =
      select-eq _ _ q.rows (
        All-weaken q.rows (λ r h. covered r (λ c. distinct-all r.project_id [] _ (h c)))
          (projects_cover account q.rows)) in
    (
      rows ∙ same,
      omega (
        arith,
        sum,
        ap (length {A = EventRow}) (rows ∙ same),
        length-select-not (of_account account) q.rows,
      ),
    )
  where
    covered :
        (r : EventRow)
        → (of_account account r ≡ true → is_in r.project_id (projects account q.rows) ≡ true)
        → not (of_account account r && is_in r.project_id (projects account q.rows))
          ≡ not (of_account account r)
    covered r h = elim (Bool-cases (of_account account r)) [
      | inl mine ↦ rw (mine, h mine) refl
      | inr other ↦ rw other refl
    ]

length-regular-gaps : (rows : List EventRow) → length rows ≡ length (regular rows) + sum_gaps rows
length-regular-gaps [] = refl
length-regular-gaps (r ∷ rows) = ground (arith, length-regular-gaps rows)

-- The event total of an open queue counts the gap rows with the regular ones.
pub counts-events :
    (q : TelemetryQueue)
    → q.closed ≡ false
    → (counts q).events ≡ length (regular q.rows) + sum_gaps q.rows
unfolding counts
counts-events q h = ground (arith, h, length-regular-gaps q.rows)
