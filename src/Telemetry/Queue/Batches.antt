-- ===== src/Telemetry/Queue/Batches.antt =====
-- src/telemetry/queue.ts: what `pendingBatch` may put in a batch.
use dsh_ai_coding.Base.{
  ℕ, zero, suc, ◌+◌, ◌⊎◌, ◌≤◌, ◌<◌, ◌≡◌, refl, ◌∙◌, some_inj, and_false, str_eq_refl, ap, sym,
  subst, inl, inr, Bool, true, ◌&&◌, ◌||◌, String, Option, none, some, List, [], ◌∷◌, map, arith,
  str_eq, ltb, leb, Bool-cases, find_by, select, take, length, All, All-take, by_if,
}
use dsh_ai_coding.Telemetry.Settings.{TelemetryQueueSettings}
use dsh_ai_coding.Telemetry.Queue.Table.{EventRow, sum_bytes}
use dsh_ai_coding.Telemetry.Queue.Store.{Runtime, TelemetryQueue, release_expired}
use dsh_ai_coding.Telemetry.Queue.Claims.{
  PendingBatch, QueuedTelemetryEvent, queued_event, is_due, is_due_in, fill_batch, batch_rows,
  claim_rows, claim_due, select_batch,
}

All-select {ℓ} : {A : Type ℓ} (p : A → Bool) (xs : List A) → All (λ x. p x ≡ true) (select p xs)
All-select p [] = tt
All-select p (x ∷ xs) = elim (Bool-cases (p x)) [
  | inl h ↦ rw h (h, All-select p xs)
  | inr h ↦ rw h (All-select p xs)
]

module _ (s : TelemetryQueueSettings) where
  fill_batch-length :
      (count total : ℕ) (rows : List EventRow)
      → count ≤ s.batch_max_events
      → count + length (fill_batch s count total rows) ≤ s.batch_max_events
  unfolding fill_batch
  fill_batch-length count total [] h = omega arith
  fill_batch-length count total (r ∷ rows) h =
      ground (arith, fill_batch-length (count + 1) (total + r.bytes) rows)

  fill_batch-bytes :
      (count total : ℕ) (rows : List EventRow)
      → 0 < count
      → total ≤ s.batch_max_bytes
      → total + sum_bytes (fill_batch s count total rows) ≤ s.batch_max_bytes
  unfolding fill_batch
  fill_batch-bytes count total [] p h = omega arith
  fill_batch-bytes count total (r ∷ rows) p h =
      ground (arith, fill_batch-bytes (count + 1) (total + r.bytes) rows)

  -- Once the bytes are over the limit, nothing is added.
  fill_batch-over :
      (count total : ℕ) (rows : List EventRow)
      → 0 < count
      → s.batch_max_bytes < total
      → fill_batch s count total rows ≡ []
  unfolding fill_batch
  fill_batch-over count total [] p h = refl
  fill_batch-over count total (r ∷ rows) p h = ground arith

  fill_batch-fits :
      (rows : List EventRow)
      → (sum_bytes (fill_batch s 0 0 rows) ≤ s.batch_max_bytes)
        ⊎ (length (fill_batch s 0 0 rows) ≤ 1)
  unfolding fill_batch
  fill_batch-fits [] = inr (omega arith)
  fill_batch-fits (r ∷ rows) =
      ground (arith, fill_batch-bytes 1 r.bytes rows, fill_batch-over 1 r.bytes rows)

  fill_batch-cons :
      (r : EventRow) (rows : List EventRow)
      → 0 < s.batch_max_events
      → fill_batch s 0 0 (r ∷ rows) ≡ r ∷ fill_batch s (0 + 1) (0 + r.bytes) rows
  unfolding fill_batch
  fill_batch-cons r rows h = ground arith

  fill_batch-All {κ} :
      (P : EventRow → Type κ) (count total : ℕ) (rows : List EventRow)
      → All P rows
      → All P (fill_batch s count total rows)
  unfolding fill_batch
  fill_batch-All P count total [] h = tt
  fill_batch-All P count total (r ∷ rows) h =
      elim (Bool-cases
        (leb s.batch_max_events count || ltb 0 count && ltb s.batch_max_bytes (total + r.bytes))) [
          | inl stop ↦ rw stop tt
          | inr go ↦ rw go (h.0, fill_batch-All P (count + 1) (total + r.bytes) rows h.1)
        ]

  -- The loop takes rows from the front.
  fill_batch-prefix :
      (count total : ℕ) (rows : List EventRow)
      → fill_batch s count total rows ≡ take (length (fill_batch s count total rows)) rows
  unfolding fill_batch
  fill_batch-prefix count total [] = refl
  fill_batch-prefix count total (r ∷ rows) =
      by_if (λ (xs : List EventRow). xs ≡ take (length xs) (r ∷ rows))
        (leb s.batch_max_events count || ltb 0 count && ltb s.batch_max_bytes (total + r.bytes))
        (λ _. refl) (λ _. ap (◌∷◌ r) (fill_batch-prefix (count + 1) (total + r.bytes) rows))

take-take : (m n : ℕ) (xs : List EventRow) → m ≤ n → take m (take n xs) ≡ take m xs
take-take zero n xs h = refl
take-take (suc m) zero xs h = absurd (omega (arith, h))
take-take (suc m) (suc n) [] h = refl
take-take (suc m) (suc n) (x ∷ xs) h = ap (◌∷◌ x) (take-take m n xs (omega (arith, h)))

batch_rows-prefix :
    (account project : String) (now : ℕ) (q : TelemetryQueue)
    → batch_rows account project now q
      ≡ take
          (length (batch_rows account project now q))
          (select (is_due_in account project now) q.rows)
batch_rows-prefix account project now q =
    fill_batch-prefix q.settings 0 0 offered
    ∙ take-take (length (batch_rows account project now q)) q.settings.batch_max_events
        (select (is_due_in account project now) q.rows)
        (omega (arith, fill_batch-length q.settings 0 0 offered))
  where
    offered : List EventRow
    offered = take q.settings.batch_max_events (select (is_due_in account project now) q.rows)

-- A batch holds the oldest due, unclaimed rows of one project of the account, at most `batch_max_events` of
-- them, and at most `batch_max_bytes` bytes unless it is a single event.
pub record IsBatch (account : String) (now : ℕ) (q : TelemetryQueue) (b : PendingBatch)
    : Type 0 where
  pub rows : List EventRow
  pub events_of : b.events ≡ map (queued_event b.project_id) rows
  pub oldest : rows ≡ take (length rows) (select (is_due_in account b.project_id now) q.rows)
  pub due : All (λ r. is_due_in account b.project_id now r ≡ true) rows
  pub events_le : length rows ≤ q.settings.batch_max_events
  pub bytes_le : (sum_bytes rows ≤ q.settings.batch_max_bytes) ⊎ (length rows ≤ 1)
  pub some_row : 0 < length rows

batch_rows-due :
    (account project : String) (now : ℕ) (q : TelemetryQueue)
    → All (λ r. is_due_in account project now r ≡ true) (batch_rows account project now q)
batch_rows-due account project now q =
    fill_batch-All q.settings _ 0 0 _
      (All-take _ q.settings.batch_max_events _ (All-select (is_due_in account project now) q.rows))

module _ (runtime : Runtime) where
  claim_rows-IsBatch :
      (account project : String) (now : ℕ) (q : TelemetryQueue) (rows : List EventRow)
      → rows ≡ batch_rows account project now q
      → {b : PendingBatch} → (claim_rows runtime project now rows q).1 ≡ some b
      → IsBatch account now q b
  unfolding claim_rows
  claim_rows-IsBatch account project now q [] e h = absurd (cc)
  claim_rows-IsBatch account project now q (r ∷ rows) e {b} h =
      subst (IsBatch account now q) (some_inj h) (record {
        rows = r ∷ rows;
        events_of = refl;
        oldest =
            subst (λ xs. xs ≡ take (length xs) (select (is_due_in account project now) q.rows))
              (sym e) (batch_rows-prefix account project now q);
        due =
            subst (All (λ x. is_due_in account project now x ≡ true)) (sym e)
              (batch_rows-due account project now q);
        events_le = omega (
          arith,
          fill_batch-length q.settings 0 0
              (take q.settings.batch_max_events (select (is_due_in account project now) q.rows)),
          ap (length {A = EventRow}) e,
        );
        bytes_le =
            subst (λ xs. (sum_bytes xs ≤ q.settings.batch_max_bytes) ⊎ (length xs ≤ 1)) (sym e)
              (fill_batch-fits q.settings _);
        some_row = omega arith;
      })

  claim_due-IsBatch :
      (account : String) (now : ℕ) (q : TelemetryQueue) {b : PendingBatch}
      → (claim_due runtime account now q).1 ≡ some b
      → IsBatch account now q b
  unfolding claim_due
  claim_due-IsBatch account now q {b} = go (find_by (is_due account now) q.rows)
    where
      go :
          (o : Option EventRow)
          → (elim o as (λ _. TelemetryQueue × Option PendingBatch) [
            | none ↦ (q, none)
            | some first ↦
                claim_rows runtime first.project_id now
                  (batch_rows account first.project_id now q)
                  q
          ]).1
            ≡ some b
          → IsBatch account now q b
      go none h = absurd (cc)
      go (some first) h =
          claim_rows-IsBatch account first.project_id now q
            (batch_rows account first.project_id now q) refl h

  -- Every batch that `pendingBatch` returns is not empty and has, for one project of the account, the
  -- oldest of the rows that are due and unclaimed once the expired claims are released; it holds at most
  -- `batch_max_events` events, and at most `batch_max_bytes` bytes unless it is a single event.
  pub select_batch-IsBatch :
      (account : String) (now : ℕ) (q : TelemetryQueue) {b : PendingBatch}
      → (select_batch runtime account now q).1 ≡ some b
      → IsBatch account now (release_expired now q) b
  unfolding select_batch
  select_batch-IsBatch account now q h = claim_due-IsBatch account now (release_expired now q) h

select-oldest :
    (account : String) (now : ℕ) (rows : List EventRow) (f : EventRow)
    → find_by (is_due account now) rows ≡ some f
    → (rest : List EventRow) × (select (is_due_in account f.project_id now) rows ≡ f ∷ rest)
select-oldest account now [] f h = absurd (cc)
select-oldest account now (r ∷ rows) f h = elim (Bool-cases (is_due account now r)) [
  | inl due ↦
      subst
        (λ (x : EventRow).
          (rest : List EventRow) × (select (is_due_in account x.project_id now) (r ∷ rows)
            ≡ x ∷ rest))
        (some_inj (rw due at h))
        (select (is_due_in account r.project_id now) rows, rw (str_eq_refl r.project_id, due) refl)
  | inr later ↦
      let (rest, e) = select-oldest account now rows f (rw later at h) in
      (rest, rw (later, and_false (str_eq r.project_id f.project_id)) e)
]

-- The oldest due row of the account leads the batch.
batch_rows-oldest :
    (account : String) (now : ℕ) (q : TelemetryQueue) (f : EventRow)
    → 0 < q.settings.batch_max_events
    → find_by (is_due account now) q.rows ≡ some f
    → (rest : List EventRow) × (batch_rows account f.project_id now q ≡ f ∷ rest)
batch_rows-oldest account now q f pos h =
    let (rest, e) = select-oldest account now q.rows f h in
    go q.settings.batch_max_events _ pos refl e
  where
    go :
        (k : ℕ) (xs : List EventRow) {rest : List EventRow}
        → 0 < k
        → q.settings.batch_max_events ≡ k
        → xs ≡ f ∷ rest
        → (more : List EventRow) × (fill_batch q.settings 0 0 (take k xs) ≡ f ∷ more)
    go zero xs p k e = absurd (omega arith)
    go (suc k) xs {rest} p same e = (
      fill_batch q.settings (0 + 1) (0 + f.bytes) (take k rest),
      rw e (fill_batch-cons q.settings f (take k rest) pos),
    )

module _ (runtime : Runtime) where
  claim_due-oldest :
      (account : String) (now : ℕ) (q : TelemetryQueue) (f : EventRow)
      → 0 < q.settings.batch_max_events
      → find_by (is_due account now) q.rows ≡ some f
      → (b : PendingBatch) × (rest : List QueuedTelemetryEvent) × ((claim_due runtime account now
            q).1
          ≡ some b)
        × (b.project_id ≡ f.project_id)
        × (b.events ≡ queued_event f.project_id f ∷ rest)
  unfolding claim_due claim_rows
  claim_due-oldest account now q f pos h =
      let (rest, e) = batch_rows-oldest account now q f pos h in
      (
        record {
          batch_id = runtime.uuid q.drawn;
          project_id = f.project_id;
          events = map (queued_event f.project_id) (f ∷ rest);
        },
        map (queued_event f.project_id) rest,
        ap
              (λ o.
                (elim o as (λ _. TelemetryQueue × Option PendingBatch) [
                  | none ↦ (q, none)
                  | some first ↦
                      claim_rows runtime first.project_id now
                        (batch_rows account first.project_id now q) q
                ]).1)
              h
            ∙ ap (λ rows. (claim_rows runtime f.project_id now rows q).1) e,
        refl,
        refl,
      )

  -- While the account has a due row and a batch may hold an event, `pendingBatch` returns a batch, and
  -- the oldest due row leads it.
  pub select_batch-oldest :
      (account : String) (now : ℕ) (q : TelemetryQueue) (f : EventRow)
      → 0 < q.settings.batch_max_events
      → find_by (is_due account now) (release_expired now q).rows ≡ some f
      → (b : PendingBatch) × (rest : List QueuedTelemetryEvent) × ((select_batch runtime account now
            q).1
          ≡ some b)
        × (b.project_id ≡ f.project_id)
        × (b.events ≡ queued_event f.project_id f ∷ rest)
  unfolding select_batch release_expired
  select_batch-oldest account now q f pos h =
      claim_due-oldest account now (release_expired now q) f pos h
