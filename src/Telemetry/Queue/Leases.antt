-- ===== src/Telemetry/Queue/Leases.antt =====
-- src/telemetry/queue.ts: two claims, one after the other, and the lease of the first.
use dsh_ai_coding.Base.{
  ℕ, ◌+◌, ◌<◌, ◌≡◌, refl, ◌∙◌, ap, sym, subst, inl, inr, true, false, String, Option, none, some,
  List, [], ◌∷◌, map, arith, is_none, some_inj, by_if, Bool-cases, find_by, All, All-take,
  All-select_sub,
}
use dsh_ai_coding.Telemetry.Settings.{TelemetryQueueSettings}
use dsh_ai_coding.Telemetry.Queue.Table.{EventRow, update_where, event_ids}
use dsh_ai_coding.Telemetry.Queue.Store.{Runtime, TelemetryQueue, lease_over, release_expired}
use dsh_ai_coding.Telemetry.Queue.Claims.{
  PendingBatch, QueuedTelemetryEvent, queued_event, is_due, is_due_in, batch_rows, claim_rows,
  claim_due, select_batch,
}
use dsh_ai_coding.Telemetry.Queue.Batches.{select_batch-IsBatch}
use dsh_ai_coding.Telemetry.Queue.Marks.{is_in, Marked, All-event_ids, update_rows-Marked}
use dsh_ai_coding.Telemetry.Queue.Operations.{select_batch-Shrinks}

-- The row is claimed, since that instant.
abbrev IsHeld : ℕ → EventRow → Type 0
IsHeld since r = (is_none r.batch_id ≡ false) × (r.claimed_at ≡ since)

abbrev Holds : List String → ℕ → EventRow → Type 0
Holds ids since = Marked (IsHeld since) ids

abbrev claim : String → ℕ → EventRow → EventRow
claim batch now r = record r { batch_id = some batch; claimed_at = now }

lease_running :
    (s : TelemetryQueueSettings) (later since : ℕ) (r : EventRow)
    → later < since + s.claim_timeout_ms
    → r.claimed_at ≡ since
    → lease_over s later r ≡ false
lease_running s later since r lt e = ground arith

-- An instant before the end of the lease releases none of them.
release-Holds :
    (s : TelemetryQueueSettings) (later since : ℕ) (ids : List String) (rows : List EventRow)
    → later < since + s.claim_timeout_ms
    → All (Holds ids since) rows
    → All
        (Holds ids since)
        (update_where (lease_over s later) (λ r. record r { batch_id = none }) rows)
unfolding update_where
release-Holds s later since ids [] lt h = tt
release-Holds s later since ids (r ∷ rows) lt h = (
  by_if (Holds ids since) (lease_over s later r)
      (λ over m. absurd (cc (over, lease_running s later since r lt (h.0 m).1))) (λ live. h.0),
  release-Holds s later since ids rows lt h.1,
)

abbrev pub batch_ids : PendingBatch → List String
batch_ids b = map (λ e. e.event_id) b.events

batch_ids-of :
    (project : String) (rows : List EventRow)
    → map (λ (e : QueuedTelemetryEvent). e.event_id) (map (queued_event project) rows)
      ≡ event_ids rows
batch_ids-of project [] = refl
batch_ids-of project (r ∷ rows) = ap (◌∷◌ r.event_id) (batch_ids-of project rows)

module _ (runtime : Runtime) where
  claim_rows-Holds :
      (project : String) (now : ℕ) (rows : List EventRow) (q : TelemetryQueue) {b : PendingBatch}
      → (claim_rows runtime project now rows q).1 ≡ some b
      → All (Holds (batch_ids b) now) (claim_rows runtime project now rows q).0.rows
  unfolding claim_rows
  claim_rows-Holds project now [] q h = absurd (cc)
  claim_rows-Holds project now (r ∷ rows) q h =
      subst
        (λ b. All (Holds (batch_ids b) now) (claim_rows runtime project now (r ∷ rows) q).0.rows)
        (some_inj h)
        (subst (λ ids. All (Holds ids now) (claim_rows runtime project now (r ∷ rows) q).0.rows)
          (sym (batch_ids-of project (r ∷ rows)))
          (update_rows-Marked (IsHeld now) (claim (runtime.uuid q.drawn) now) (λ x. (refl, refl))
            (event_ids (r ∷ rows)) q.rows))

  select_batch-Holds :
      (account : String) (now : ℕ) (q : TelemetryQueue) {b : PendingBatch}
      → (select_batch runtime account now q).1 ≡ some b
      → All (Holds (batch_ids b) now) (select_batch runtime account now q).0.rows
  unfolding select_batch claim_due release_expired
  select_batch-Holds account now q {b} =
      go (find_by (is_due account now) (release_expired now q).rows)
    where
      go :
          (o : Option EventRow)
          → let picked = elim o as (λ _. TelemetryQueue × Option PendingBatch) [
            | none ↦ (release_expired now q, none)
            | some first ↦
                claim_rows runtime first.project_id now
                  (batch_rows account first.project_id now (release_expired now q))
                  (release_expired now q)
          ] in
            picked.1 ≡ some b → All (Holds (batch_ids b) now) picked.0.rows
      go none h = absurd (cc)
      go (some first) h = claim_rows-Holds first.project_id now _ (release_expired now q) h

  -- Rows that are due are unclaimed, so they are none of a batch that is still claimed.
  due-Excluded :
      (ids : List String) (since later : ℕ) (account project : String) (rows : List EventRow)
      → All (Holds ids since) rows
      → All (λ r. is_due_in account project later r ≡ true) rows
      → All (λ r. is_in r.event_id ids ≡ false) rows
  due-Excluded ids since later account project [] h d = tt
  due-Excluded ids since later account project (r ∷ rows) h d = (
    elim (Bool-cases (is_in r.event_id ids)) [
      | inl m ↦ absurd (ground (arith, (h.0 m).0, d.0))
      | inr n ↦ n
    ],
    due-Excluded ids since later account project rows h.1 d.1,
  )

  -- A batch claimed at `now` and a batch of any account claimed from the queue it leaves, before
  -- the lease is over, share no event.
  pub claim_exclusive :
      (account other : String) (now later : ℕ) (q : TelemetryQueue) {b c : PendingBatch}
      → later < now + q.settings.claim_timeout_ms
      → (select_batch runtime account now q).1 ≡ some b
      → (select_batch runtime other later (select_batch runtime account now q).0).1 ≡ some c
      → All (λ id. is_in id (batch_ids b) ≡ false) (batch_ids c)
  unfolding release_expired
  claim_exclusive account other now later q {b} {c} lt hb hc =
      let q' : TelemetryQueue = (select_batch runtime account now q).0 in
      let v = select_batch-IsBatch runtime other later q' hc in
      let held : All (Holds (batch_ids b) now) (release_expired later q').rows =
        release-Holds q'.settings later now (batch_ids b) q'.rows
          (rw ((select_batch-Shrinks runtime account now q).0) lt)
          (select_batch-Holds account now q hb) in
      subst (All (λ id. is_in id (batch_ids b) ≡ false))
        (sym (
          ap (map (λ (e : QueuedTelemetryEvent). e.event_id)) v.events_of
          ∙ batch_ids-of c.project_id v.rows))
        (All-event_ids (λ id. is_in id (batch_ids b) ≡ false) v.rows
          (due-Excluded (batch_ids b) now later other c.project_id v.rows
            (subst (All (Holds (batch_ids b) now)) (sym v.oldest) (
              All-take (Holds (batch_ids b) now) _ _
                (All-select_sub (Holds (batch_ids b) now) _ _ held)))
            v.due))
