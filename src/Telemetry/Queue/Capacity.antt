-- ===== src/Telemetry/Queue/Capacity.antt =====
-- src/telemetry/queue.ts: what `enforceCapacity` drops and where it ends.
use native.Mathlib.Nat.{zero-add, suc-add}
use dsh_ai_coding.Base.{
  ℕ, zero, suc, ◌+◌, ◌⊎◌, ◌≤◌, ◌<◌, ◌≡◌, refl, ◌∙◌, ap, inl, inr, true, false, List, [], ◌∷◌, arith,
  Bool-cases, take, drop, length,
}
use dsh_ai_coding.Telemetry.Event.{overflow}
use dsh_ai_coding.Telemetry.Queue.Table.{EventRow, delete_rows, event_ids, is_regular, regular}
use dsh_ai_coding.Telemetry.Queue.Store.{
  Runtime, TelemetryQueue, within_capacity, victims, victim_limit, drop_oldest, enforce_loop,
  enforce_capacity,
}
use dsh_ai_coding.Telemetry.Queue.Keys.{
  Distinct, Distinct-delete_rows, drop_first, delete_rows-take,
}
use dsh_ai_coding.Telemetry.Queue.Gaps.{KeepsRegular, record_gap-KeepsRegular}

regular-drop_first :
    (k : ℕ) (rows : List EventRow) → regular (drop_first k is_regular rows) ≡ drop k (regular rows)
unfolding drop_first
regular-drop_first zero rows = refl
regular-drop_first (suc k) [] = refl
regular-drop_first (suc k) (r ∷ rows) =
    ground (arith, regular-drop_first k rows, regular-drop_first (suc k) rows)

length-drop-le {ℓ} : {A : Type ℓ} (k : ℕ) (xs : List A) → length (drop k xs) ≤ length xs
length-drop-le zero xs = omega arith
length-drop-le (suc k) [] = omega arith
length-drop-le (suc k) (x ∷ xs) = omega (arith, length-drop-le k xs)

length-drop-lt {ℓ} :
    {A : Type ℓ} (k : ℕ) (x : A) (xs : List A) → 0 < k → length (drop k (x ∷ xs)) ≤ length xs
length-drop-lt zero x xs h = absurd (omega arith)
length-drop-lt (suc k) x xs h = length-drop-le k xs

drop-drop {ℓ} : {A : Type ℓ} (k m : ℕ) (xs : List A) → drop m (drop k xs) ≡ drop (k + m) xs
drop-drop zero m xs = rw zero-add refl
drop-drop (suc k) zero [] = rw (suc-add) refl
drop-drop (suc k) (suc m) [] = rw (suc-add) refl
drop-drop (suc k) m (x ∷ xs) = rw (suc-add) (drop-drop k m xs)

nil_of_length {ℓ} : {A : Type ℓ} (xs : List A) → length xs ≤ 0 → xs ≡ []
nil_of_length [] h = refl
nil_of_length (x ∷ xs) h = absurd (omega arith)

victim_limit-pos : (q : TelemetryQueue) → 0 < victim_limit q.settings
victim_limit-pos q = omega arith

within-nil : (q : TelemetryQueue) → regular q.rows ≡ [] → within_capacity q.settings q.rows ≡ true
within-nil q e = rw e (ground arith)

-- What `enforceCapacity` makes of a queue: it keeps the settings and the key, drops some of the
-- oldest regular rows, and fits.
pub record Enforced (q s : TelemetryQueue) : Type 0 where
  pub same_settings : s.settings ≡ q.settings
  pub distinct : Distinct s.rows
  pub dropped : ℕ
  pub oldest_gone : regular s.rows ≡ drop dropped (regular q.rows)
  pub fits : within_capacity s.settings s.rows ≡ true

Enforced-trans :
    (q : TelemetryQueue) {r s : TelemetryQueue} (k : ℕ)
    → r.settings ≡ q.settings
    → regular r.rows ≡ drop k (regular q.rows)
    → Enforced r s
    → Enforced q s
Enforced-trans q k same oldest e = record {
  same_settings = e.same_settings ∙ same;
  distinct = e.distinct;
  dropped = k + e.dropped;
  oldest_gone = e.oldest_gone ∙ ap (drop e.dropped) oldest ∙ drop-drop k e.dropped (regular q.rows);
  fits = e.fits;
}

take_cons {ℓ} :
    {A : Type ℓ} (k : ℕ) (xs : List A) (x : A) (rest : List A)
    → 0 < k
    → xs ≡ x ∷ rest
    → (ys : List A) × (take k xs ≡ x ∷ ys)
take_cons zero xs x rest h e = absurd (omega arith)
take_cons (suc k) xs x rest h e = (take k rest, rw e refl)

cons_or_nil {ℓ} :
    {A : Type ℓ} (xs : List A) → (xs ≡ []) ⊎ ((x : A) × (rest : List A) × (xs ≡ x ∷ rest))
cons_or_nil [] = inl refl
cons_or_nil (x ∷ xs) = inr (x, xs, refl)

by_cons {ℓ κ} :
    {A : Type κ} {B : Type 0} (P : B → Type ℓ) (y z : B) (xs : List A)
    → P y
    → P z
    → P (elim xs [ [] ↦ y | v ∷ vs ↦ z ])
by_cons P y z [] hy hz = hy
by_cons P y z (x ∷ xs) hy hz = hz

module _ (runtime : Runtime) (now : ℕ) where
  -- A round either ends the loop or goes on from the queue that it leaves.
  pub enforce_loop_cases {ℓ} :
      (P : TelemetryQueue → Type ℓ) (fuel : ℕ) (q : TelemetryQueue)
      → P q
      → P (enforce_loop runtime fuel now (drop_oldest runtime now q))
      → P (enforce_loop runtime (suc fuel) now q)
  unfolding enforce_loop
  enforce_loop_cases P fuel q done next = elim (Bool-cases (within_capacity q.settings q.rows)) [
    | inl within ↦ rw within done
    | inr over ↦ rw over (by_cons P q _ (victims q) done next)
  ]

  drop_oldest-KeepsRegular :
      (q : TelemetryQueue)
      → KeepsRegular
          (record q { rows = delete_rows (event_ids (victims q)) q.rows })
          (drop_oldest runtime now q)
  unfolding drop_oldest
  drop_oldest-KeepsRegular q = record_gap-KeepsRegular runtime (victims q) overflow now _

  drop_oldest-regular :
      (q : TelemetryQueue)
      → Distinct q.rows
      → regular (drop_oldest runtime now q).rows ≡ drop (victim_limit q.settings) (regular q.rows)
  drop_oldest-regular q d =
      (drop_oldest-KeepsRegular q).same_regular
      ∙ ap regular (delete_rows-take (victim_limit q.settings) is_regular q.rows d)
      ∙ regular-drop_first (victim_limit q.settings) q.rows

  pub drop_oldest-Distinct :
      (q : TelemetryQueue) → Distinct q.rows → Distinct (drop_oldest runtime now q).rows
  drop_oldest-Distinct q d =
      (drop_oldest-KeepsRegular q).keeps_key (Distinct-delete_rows _ q.rows d)

  enforce_loop-Enforced :
      (fuel : ℕ) (q : TelemetryQueue)
      → Distinct q.rows
      → length (regular q.rows) ≤ fuel
      → Enforced q (enforce_loop runtime fuel now q)
  unfolding enforce_loop
  enforce_loop-Enforced zero q d h = record {
    same_settings = refl;
    distinct = d;
    dropped = 0;
    oldest_gone = refl;
    fits = within-nil q (nil_of_length (regular q.rows) h);
  }
  enforce_loop-Enforced (suc fuel) q d h = elim (Bool-cases (within_capacity q.settings q.rows)) [
    | inl within ↦ rw within (record {
      same_settings = refl;
      distinct = d;
      dropped = 0;
      oldest_gone = refl;
      fits = within;
    })
    | inr over ↦ rw over (
        over_case (cons_or_nil (regular q.rows)) over
          (enforce_loop-Enforced fuel (drop_oldest runtime now q) (drop_oldest-Distinct q d)))
  ]
    where
      fewer :
          (v : EventRow) (vs : List EventRow)
          → regular q.rows ≡ v ∷ vs
          → length (regular (drop_oldest runtime now q).rows) ≤ fuel
      fewer v vs e =
          rw (drop_oldest-regular q d, e)
            (omega (
              arith,
              length-drop-lt (victim_limit q.settings) v vs (victim_limit-pos q),
              ap length e,
            ))

      over_case :
          (regular q.rows ≡ [])
            ⊎ ((v : EventRow) × (vs : List EventRow) × (regular q.rows ≡ v ∷ vs))
          → within_capacity q.settings q.rows ≡ false
          → (length (regular (drop_oldest runtime now q).rows) ≤ fuel
              → Enforced
                  (drop_oldest runtime now q)
                  (enforce_loop runtime fuel now (drop_oldest runtime now q)))
          → Enforced q (elim (victims q) [
            | [] ↦ q
            | v ∷ vs ↦ enforce_loop runtime fuel now (drop_oldest runtime now q)
          ])
      over_case (inl e) over ih = absurd (cc (within-nil q e, over))
      over_case (inr (v, vs, e)) over ih =
          rw ((take_cons (victim_limit q.settings) (regular q.rows) v vs (victim_limit-pos q) e).1)
            (Enforced-trans q (victim_limit q.settings) (drop_oldest-KeepsRegular q).same_settings
              (drop_oldest-regular q d) (ih (fewer v vs e)))

  -- From rows with distinct ids, the capacity check ends with the regular rows within both limits; it
  -- drops a number of the oldest regular rows and no other, and the ids stay distinct.
  pub enforce_capacity-Enforced :
      (q : TelemetryQueue) → Distinct q.rows → Enforced q (enforce_capacity runtime now q)
  unfolding enforce_capacity
  enforce_capacity-Enforced q d = enforce_loop-Enforced (length (regular q.rows)) q d (omega arith)
