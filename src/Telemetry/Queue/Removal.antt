-- ===== src/Telemetry/Queue/Removal.antt =====
-- src/telemetry/queue.ts: what a revocation removes, and the release of a failed batch.
use dsh_ai_coding.Base.{
  ℕ, ◌≡◌, refl, inl, inr, Bool, true, false, not, String, Option, List, [], ◌∷◌, ◌++◌, arith,
  str_eq, str_eq_refl, by_if, Bool-cases, any_of, select, length, All, All-append, All-select_sub,
  or_true,
}
use dsh_ai_coding.Telemetry.Event.{GapReason, TelemetryEventDto, TelemetryGapDetail, expired}
use dsh_ai_coding.Telemetry.Queue.Table.{
  EventRow, has_row, delete_row, delete_rows, update_rows, event_ids, is_claimed_by,
}
use dsh_ai_coding.Telemetry.Queue.Store.{
  Runtime, TelemetryQueue, gap_id, new_row, insert_gap, record_groups, record_gap, group_rows,
}
use dsh_ai_coding.Telemetry.Queue.Claims.{bump, is_exhausted, drop_expired, fail_batch}
use dsh_ai_coding.Telemetry.Queue.Upkeep.{in_partition, is_pair, range_of, revoke, is_revoked}
use dsh_ai_coding.Telemetry.Queue.Keys.{Distinct, delete_rows-select}
use dsh_ai_coding.Telemetry.Queue.Marks.{
  is_in, Marked, All-weaken, update_rows-Marked, update_rows-All,
}

pub range_of-count : (rows : List EventRow) → (range_of rows).count ≡ length rows
range_of-count [] = refl
range_of-count (r ∷ rows) = refl

any_of-append_one {ℓ} :
    {A : Type ℓ} (p : A → Bool) (xs : List A) (x : A) → p x ≡ true → any_of p (xs ++ x ∷ []) ≡ true
any_of-append_one p [] x h = rw h refl
any_of-append_one p (y ∷ xs) x h = ground (arith, any_of-append_one p xs x h)

-- If the ids are distinct, then after a revocation the pair is marked, its rows are gone and counted, and all other rows stay as
-- they were, in their order.
pub revoke_lem :
    (account project : String) (q : TelemetryQueue)
    → Distinct q.rows
    → let (s, range) = revoke account project q in
      (is_revoked s account project ≡ true)
      × (s.rows ≡ select (λ r. not (in_partition account project r)) q.rows)
      × (range.count ≡ length (select (in_partition account project) q.rows))
unfolding revoke is_revoked
revoke_lem account project q d = (
  by_if (λ t. any_of (is_pair account project) t ≡ true)
      (any_of (is_pair account project) q.revocations) (λ there. there)
      (λ absent.
        any_of-append_one (is_pair account project) q.revocations _
          (ground (arith, str_eq_refl account, str_eq_refl project))),
  delete_rows-select (in_partition account project) q.rows d,
  range_of-count (select (in_partition account project) q.rows),
)

module _ (runtime : Runtime) (P : EventRow → Type 0) where
  insert_gap-All :
      (account : String) (project session : Option String) (gap : TelemetryGapDetail) (now : ℕ)
      (q : TelemetryQueue)
      → ((event : TelemetryEventDto) → P (new_row runtime event account now))
      → All P q.rows
      → All P (insert_gap runtime account project session gap now q).0.rows
  unfolding insert_gap
  insert_gap-All account project session gap now q new h =
      by_if (λ (r : TelemetryQueue × Bool). All P r.0.rows)
        (has_row (gap_id q.installation_id (runtime.uuid q.drawn)) q.rows) (λ _. h)
        (λ _. All-append P q.rows _ h (new _, tt))

  record_groups-All :
      (reason : GapReason) (now : ℕ) (groups : List (String × List EventRow)) (q : TelemetryQueue)
      → ((event : TelemetryEventDto) (account : String) → P (new_row runtime event account now))
      → All P q.rows
      → All P (record_groups runtime reason now groups q).rows
  unfolding record_groups
  record_groups-All reason now [] q new h = h
  record_groups-All reason now ((p, []) ∷ groups) q new h =
      record_groups-All reason now groups q new h
  record_groups-All reason now ((p, first ∷ rest) ∷ groups) q new h =
      record_groups-All reason now groups _ new
        (insert_gap-All first.account_id _ _ _ now q (λ e. new e first.account_id) h)

  delete_rows-All :
      (ids : List String) (rows : List EventRow) → All P rows → All P (delete_rows ids rows)
  unfolding delete_rows delete_row
  delete_rows-All [] rows h = h
  delete_rows-All (id ∷ ids) rows h =
      delete_rows-All ids (delete_row id rows) (All-select_sub P _ rows h)

  drop_expired-All :
      (test : EventRow → Bool) (now : ℕ) (q : TelemetryQueue)
      → ((event : TelemetryEventDto) (account : String) → P (new_row runtime event account now))
      → All P q.rows
      → All P (drop_expired runtime test now q).rows
  unfolding drop_expired record_gap
  drop_expired-All test now q new h = go (select test q.rows)
    where
      go :
          (doomed : List EventRow)
          → All P
              (elim doomed as (λ _. TelemetryQueue) [
                | [] ↦ q
                | r ∷ rows ↦
                    record_gap runtime
                      (r ∷ rows)
                      expired
                      now
                      (record q { rows = delete_rows (event_ids (r ∷ rows)) q.rows })
              ]).rows
      go [] = h
      go (r ∷ rows) =
          record_groups-All expired now (group_rows [] (r ∷ rows)) _ new
            (delete_rows-All (event_ids (r ∷ rows)) q.rows h)

-- A row of the batch is among the rows that `reportFailure` selects.
selected_ids :
    (batch : String) (rows : List EventRow)
    → All
        (λ r.
          is_claimed_by batch r ≡ true
          → is_in r.event_id (event_ids (select (is_claimed_by batch) rows)) ≡ true)
        rows
selected_ids batch [] = tt
selected_ids batch (r ∷ rows) = (
  (λ c. rw (c, str_eq_refl r.event_id) refl),
  All-weaken rows
      (λ x h c.
        by_if (λ xs. is_in x.event_id (event_ids xs) ≡ true) (is_claimed_by batch r)
          (λ _. rw (h c, or_true (str_eq x.event_id r.event_id)) refl) (λ _. h c))
      (selected_ids batch rows),
)

unclaimed :
    (batch : String) (ids : List String) (rows : List EventRow)
    → All (λ r. is_claimed_by batch r ≡ true → is_in r.event_id ids ≡ true) rows
    → All (Marked (λ r. is_claimed_by batch r ≡ false) ids) rows
    → All (λ r. is_claimed_by batch r ≡ false) rows
unclaimed batch ids [] h m = tt
unclaimed batch ids (r ∷ rows) h m = (
  elim (Bool-cases (is_claimed_by batch r)) [ inl c ↦ m.0 (h.0 c) | inr n ↦ n ],
  unclaimed batch ids rows h.1 m.1,
)

-- After a failure is reported, no row is claimed by the batch any more.
pub fail_batch-releases :
    (runtime : Runtime) (batch code message : String) (next now : ℕ) (q : TelemetryQueue)
    → All
        (λ r. is_claimed_by batch r ≡ false)
        (fail_batch runtime batch code message next now q).rows
unfolding fail_batch
fail_batch-releases runtime batch code message next now q =
    drop_expired-All runtime (λ r. is_claimed_by batch r ≡ false) (is_exhausted q.settings) now _
      (λ event account. refl)
      (unclaimed batch ids (update_rows f ids q.rows)
        (update_rows-All _ f ids q.rows (λ r h c. absurd (cc)) (selected_ids batch q.rows))
        (update_rows-Marked (λ r. is_claimed_by batch r ≡ false) f (λ r. refl) ids q.rows))
  where
    ids : List String
    ids = event_ids (select (is_claimed_by batch) q.rows)

    f : EventRow → EventRow
    f = bump code message next
