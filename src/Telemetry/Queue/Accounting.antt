-- ===== src/Telemetry/Queue/Accounting.antt =====
-- src/telemetry/queue.ts: what becomes of dropped rows. An event is accounted for while its row is
-- queued, or by the count of a queued `delivery.gap` row.
use text.Mathlib.TextLemmas.{append_cancel_left}
use dsh_ai_coding.Base.{
  ℕ, zero, suc, ◌+◌, ◌≤◌, ◌<◌, ◌≡◌, refl, ◌∙◌, ap, inl, inr, Bool, false, not, String, Option, none,
  some, List, [], ◌∷◌, ◌++◌, arith, str_eq, eq_iff, if◌then◌else◌, Bool-cases, select, take, length,
  length-append,
}
use dsh_ai_coding.Telemetry.Event.{
  TelemetryEventDto, TelemetryGapDetail, GapReason, is_gap_kind, overflow, expired,
}
use dsh_ai_coding.Telemetry.Queue.Table.{EventRow, has_row, delete_rows, event_ids, is_regular}
use dsh_ai_coding.Telemetry.Queue.Store.{
  Runtime, TelemetryQueue, gap_id, push_group, group_rows, insert_gap, record_groups, record_gap,
  victims, victim_limit, drop_oldest, enforce_loop, insert_event,
}
use dsh_ai_coding.Telemetry.Queue.Claims.{drop_expired}
use dsh_ai_coding.Telemetry.Queue.Keys.{
  Distinct, Distinct-append_one, has_row-append_one, has_row-delete_rows, delete_rows-take,
  delete_rows-select,
}
use dsh_ai_coding.Telemetry.Queue.Capacity.{enforce_loop_cases, drop_oldest-Distinct}
use dsh_ai_coding.Telemetry.Queue.Tally.{
  tally, tally-append_one, tally-drop_first, tally-select-not,
}

-- How many events a row stands for: itself, or the loss that a gap reports.
abbrev pub stands_for : EventRow → ℕ
stands_for r = if r.is_gap then elim r.payload.gap [ none ↦ 0 | some g ↦ g.count ] else 1

unfoldable pub accounted : List EventRow → ℕ
accounted = tally stands_for

-- `randomUUID` returns no value twice.
abbrev pub DistinctUuids : Runtime → Type 0
DistinctUuids runtime = (m n : ℕ) → runtime.uuid m ≡ runtime.uuid n → m ≡ n

-- No row has the id of a gap that is still to be made.
abbrev pub Fresh : Runtime → TelemetryQueue → Type 0
Fresh runtime q =
    (n : ℕ) → q.drawn ≤ n → has_row (gap_id q.installation_id (runtime.uuid n)) q.rows ≡ false

-- An event whose id is not that of a gap that is still to be made.
abbrev pub Unreserved : Runtime → TelemetryQueue → TelemetryEventDto → Type 0
Unreserved runtime q event =
    (n : ℕ)
    → q.drawn ≤ n
    → str_eq event.event_id (gap_id q.installation_id (runtime.uuid n)) ≡ false

accounted-nil : accounted [] ≡ 0
unfolding accounted tally
accounted-nil = refl

accounted-append_regular :
    (rows : List EventRow) (r : EventRow)
    → r.is_gap ≡ false
    → accounted (rows ++ r ∷ []) ≡ suc (accounted rows)
unfolding accounted
accounted-append_regular rows r h = ground (arith, tally-append_one stands_for rows r)

accounted-select :
    (test : EventRow → Bool) (rows : List EventRow)
    → accounted rows ≡ accounted (select test rows) + accounted (select (λ r. not (test r)) rows)
unfolding accounted
accounted-select test rows = tally-select-not stands_for test rows

abbrev group_total : List (String × List EventRow) → ℕ
group_total [] = 0
group_total ((p, group) ∷ groups) = length group + group_total groups

group_total-push :
    (row : EventRow) (groups : List (String × List EventRow))
    → group_total (push_group row groups) ≡ suc (group_total groups)
unfolding push_group
group_total-push row [] = omega arith
group_total-push row ((p, group) ∷ groups) =
    ground (arith, length-append group (row ∷ []), group_total-push row groups)

group_total-group_rows :
    (groups : List (String × List EventRow)) (rows : List EventRow)
    → group_total (group_rows groups rows) ≡ group_total groups + length rows
unfolding group_rows
group_total-group_rows groups [] = omega arith
group_total-group_rows groups (r ∷ rows) =
    omega (arith, group_total-group_rows (push_group r groups) rows, group_total-push r groups)

accounted-regular :
    (k : ℕ) (rows : List EventRow)
    → tally stands_for (take k (select is_regular rows)) ≡ length (take k (select is_regular rows))
unfolding tally
accounted-regular zero rows = refl
accounted-regular (suc k) [] = refl
accounted-regular (suc k) (r ∷ rows) =
    ground (arith, accounted-regular k rows, accounted-regular (suc k) rows)

module _ (runtime : Runtime) (distinct_uuids : DistinctUuids runtime) where
  gap_id-ne :
      (installation : String) (m n : ℕ)
      → m < n
      → str_eq (gap_id installation (runtime.uuid m)) (gap_id installation (runtime.uuid n)) ≡ false
  unfolding gap_id
  gap_id-ne installation m n h =
      elim (Bool-cases
        (str_eq (gap_id installation (runtime.uuid m)) (gap_id installation (runtime.uuid n)))) [
          | inl same ↦ absurd (
              omega (
                arith,
                distinct_uuids m n (
                    append_cancel_left ":gap:" _ _
                      (append_cancel_left installation _ _ ((eq_iff _ _).0 same))),
              ))
          | inr other ↦ other
        ]

  -- A gap insert stores its count, under an id that is not used again.
  insert_gap-accounted :
      (account : String) (project session : Option String) (gap : TelemetryGapDetail) (now : ℕ)
      (q : TelemetryQueue)
      → Fresh runtime q
      → let s = (insert_gap runtime account project session gap now q).0 in
        (accounted s.rows ≡ accounted q.rows + gap.count) × Fresh runtime s
  unfolding insert_gap accounted
  insert_gap-accounted account project session gap now q fresh = rw (fresh q.drawn (omega arith)) (
    tally-append_one stands_for q.rows _,
    λ n h.
        has_row-append_one (gap_id q.installation_id (runtime.uuid n)) q.rows _
          (fresh n (omega arith)) (gap_id-ne q.installation_id q.drawn n h),
  )

  record_groups-accounted :
      (reason : GapReason) (now : ℕ) (groups : List (String × List EventRow)) (q : TelemetryQueue)
      → Fresh runtime q
      → let s = record_groups runtime reason now groups q in
        (accounted s.rows ≡ accounted q.rows + group_total groups) × Fresh runtime s
  unfolding record_groups
  record_groups-accounted reason now [] q fresh = (omega arith, fresh)
  record_groups-accounted reason now ((p, []) ∷ groups) q fresh =
      let (sum, fresh') = record_groups-accounted reason now groups q fresh in
      (omega (arith, sum), fresh')
  record_groups-accounted reason now ((p, first ∷ rest) ∷ groups) q fresh =
      let (one, fresh₁) = insert_gap-accounted _ _ _ _ now q fresh in
      let (sum, fresh') = record_groups-accounted reason now groups _ fresh₁ in
      (omega (arith, one, sum), fresh')

  pub record_gap-accounted :
      (rows : List EventRow) (reason : GapReason) (now : ℕ) (q : TelemetryQueue)
      → Fresh runtime q
      → let s = record_gap runtime rows reason now q in
        (accounted s.rows ≡ accounted q.rows + length rows) × Fresh runtime s
  unfolding record_gap
  record_gap-accounted rows reason now q fresh =
      let (sum, fresh') = record_groups-accounted reason now (group_rows [] rows) q fresh in
      (omega (arith, sum, group_total-group_rows [] rows), fresh')

  drop_oldest-accounted :
      (now : ℕ) (q : TelemetryQueue)
      → Distinct q.rows
      → Fresh runtime q
      → let s = drop_oldest runtime now q in (accounted s.rows ≡ accounted q.rows) × Fresh runtime s
  unfolding drop_oldest accounted
  drop_oldest-accounted now q d fresh =
      let (sum, fresh') =
        record_gap-accounted (victims q) overflow now
          (record q { rows = delete_rows (event_ids (victims q)) q.rows })
          (λ n h. has_row-delete_rows _ (event_ids (victims q)) q.rows (fresh n h)) in
      (
        omega (
          arith,
          sum,
          ap (tally stands_for) (delete_rows-take (victim_limit q.settings) is_regular q.rows d),
          tally-drop_first stands_for (victim_limit q.settings) is_regular q.rows,
          accounted-regular (victim_limit q.settings) q.rows,
        ),
        fresh',
      )

  abbrev Accounts : ℕ → TelemetryQueue → Type 0
  Accounts n s = (accounted s.rows ≡ n) × Fresh runtime s

  enforce_loop-accounted :
      (fuel now : ℕ) (q : TelemetryQueue) (n : ℕ)
      → Distinct q.rows
      → Accounts n q
      → Accounts n (enforce_loop runtime fuel now q)
  unfolding enforce_loop
  enforce_loop-accounted zero now q n d h = h
  enforce_loop-accounted (suc fuel) now q n d h =
      let (same, fresh) = drop_oldest-accounted now q d h.1 in
      enforce_loop_cases runtime now (Accounts n) fuel q h (
        enforce_loop-accounted fuel now (drop_oldest runtime now q) n
          (drop_oldest-Distinct runtime now q d) (same ∙ h.0, fresh))

  -- Where the ids of the rows are distinct, as the primary key of the table and every history of calls
  -- leave them, no UUID is drawn twice, and neither the rows nor the event have the id of a gap to come,
  -- an event that is regular and whose id is new adds exactly one to the events that the rows stand for, whatever the capacity check
  -- drops: each event is a row or counted by a gap. No row then has the id of a gap to come.
  pub insert_event-accounted :
      (event : TelemetryEventDto) (account : String) (now : ℕ) (q : TelemetryQueue)
      → Distinct q.rows
      → Fresh runtime q
      → Unreserved runtime q event
      → is_gap_kind event.kind ≡ false
      → has_row event.event_id q.rows ≡ false
      → let s = (insert_event runtime event account now q).0 in
        (accounted s.rows ≡ suc (accounted q.rows)) × Fresh runtime s
  unfolding insert_event
  insert_event-accounted event account now q d fresh free kind absent =
      rw (absent, kind)
        (enforce_loop-accounted _ now _ (suc (accounted q.rows))
          (Distinct-append_one q.rows _ absent d)
          (
            accounted-append_regular q.rows _ refl,
            λ n h. has_row-append_one _ q.rows _ (fresh n h) (free n h),
          ))

  -- If the UUIDs, the ids of the rows and those of gaps to come are distinct, an expiry keeps the sum of
  -- the events that the rows stand for but for one correction: each row that expires is replaced by a
  -- loss of one, whatever number of events it stood for itself.
  pub drop_expired-accounted :
      (test : EventRow → Bool) (now : ℕ) (q : TelemetryQueue)
      → Distinct q.rows
      → Fresh runtime q
      → accounted (drop_expired runtime test now q).rows + accounted (select test q.rows)
        ≡ accounted q.rows + length (select test q.rows)
  unfolding drop_expired
  drop_expired-accounted test now q d fresh = go (select test q.rows) refl
    where
      go :
          (doomed : List EventRow)
          → select test q.rows ≡ doomed
          → accounted
                (elim doomed as (λ _. TelemetryQueue) [
                  | [] ↦ q
                  | r ∷ rows ↦
                      record_gap runtime
                        (r ∷ rows)
                        expired
                        now
                        (record q { rows = delete_rows (event_ids (r ∷ rows)) q.rows })
                ]).rows
              + accounted doomed
            ≡ accounted q.rows + length doomed
      go [] e = ap (◌+◌ (accounted q.rows)) accounted-nil
      go (r ∷ rows) e = omega (
        arith,
        (record_gap-accounted (r ∷ rows) expired now
            (record q { rows = delete_rows (event_ids (r ∷ rows)) q.rows })
            (λ n h. has_row-delete_rows _ (event_ids (r ∷ rows)) q.rows (fresh n h))).0,
        ap (λ xs. accounted (delete_rows (event_ids xs) q.rows)) e,
        ap accounted (delete_rows-select test q.rows d),
        accounted-select test q.rows,
        ap accounted e,
      )
