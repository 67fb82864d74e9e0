-- ===== src/Telemetry/Reporter/Recovery.antt =====
-- src/telemetry/reporter.ts: `recoverBatch`, whatever the storage does, and the backoff.
use dsh_ai_coding.Base.{
  ℕ, zero, suc, ◌-◌, ◌*◌, min, ◌⊎◌, inl, inr, ◌≡◌, refl, true, false, String, none, List, [], ◌∷◌,
  arith, is_none, by_if, All, ok, err,
}
use dsh_ai_coding.Telemetry.Settings.{TelemetryQueueSettings}
use dsh_ai_coding.Telemetry.Queue.Table.{EventRow, update_where, is_claimed_by}
use dsh_ai_coding.Telemetry.Queue.Store.{TelemetryQueue, transaction}
use dsh_ai_coding.Telemetry.Queue.Claims.{report_failure, release_claim}
use dsh_ai_coding.Telemetry.Queue.Commands.{by_fault}
use dsh_ai_coding.Telemetry.Queue.Removal.{fail_batch-releases}
use dsh_ai_coding.Telemetry.Reporter.Pipeline.{
  Services, Pipeline, backoff_ms, ticked, settle, stored, short, released, after_release,
  after_report, recover_batch,
}

-- No row is claimed by the batch.
abbrev pub IsReleased : String → TelemetryQueue → Type 0
IsReleased batch q = All (λ r. is_claimed_by batch r ≡ false) q.rows

-- The failure shows, and the batch is released or the pipeline has stopped with a storage error.
pub record Recovered (batch : String) (p : Pipeline) : Type 0 where
  pub failing : p.failing ≡ true
  pub noted : is_none p.last_failure ≡ false
  pub recoverable : IsReleased batch p.queue ⊎ (is_none p.storage_error ≡ false)

update_where-released :
    (batch : String) (rows : List EventRow)
    → All
        (λ r. is_claimed_by batch r ≡ false)
        (update_where
          (is_claimed_by batch)
          (λ r. record r { batch_id = none; claimed_at = 0 })
          rows)
unfolding update_where
update_where-released batch [] = tt
update_where-released batch (r ∷ rows) = (
  by_if (λ (x : EventRow). is_claimed_by batch x ≡ false) (is_claimed_by batch r) (λ _. refl)
      (λ h. h),
  update_where-released batch rows,
)

module _ (io : Services) where
  release_claim-Recovered :
      (batch safe : String) (p : Pipeline)
      → Recovered batch (after_release io safe (stored io (released batch) p))
  unfolding after_release stored release_claim
  release_claim-Recovered batch safe p =
      by_fault
        (λ r.
          Recovered batch
            (after_release io safe (settle p (elim r [ ok s ↦ ok (s, tt) | err e ↦ err e ]))))
        p.queue.closed (io.faults p.writes)
        (record { failing = refl; noted = refl; recoverable = inr refl })
        (record { failing = refl; noted = refl; recoverable = inr refl })
        (record {
          failing = refl;
          noted = refl;
          recoverable = inl (update_where-released batch p.queue.rows);
        })

  -- Whatever the storage does, a batch that failed is not left claimed: it is released, or the
  -- pipeline stops with a storage error, and the failure is noted either way.
  pub recover_batch-Recovered :
      (batch code summary : String) (bump : ℕ) (p : Pipeline)
      → Recovered batch (recover_batch io batch code summary bump p)
  unfolding recover_batch report_failure transaction
  recover_batch-Recovered batch code summary bump p =
      by_fault
        (λ r.
          Recovered batch
            (after_report io batch code (short io summary) (settle (ticked io (ticked io p)) r)))
        p.queue.closed (io.faults p.writes) (release_claim-Recovered batch _ _)
        (release_claim-Recovered batch _ _)
        (record {
          failing = refl;
          noted = refl;
          recoverable =
              inl (fail_batch-releases io.runtime batch code (short io summary) _ _ p.queue);
        })

-- The backoff of the first attempt, as without one, is the flush interval, and each further attempt
-- doubles it, until it stays at sixteen intervals.
pub backoff_doubles :
    (s : TelemetryQueueSettings) (n : ℕ)
    → (backoff_ms s 0 ≡ s.flush_interval_ms)
      × (backoff_ms s 1 ≡ s.flush_interval_ms)
      × (backoff_ms s (suc (suc n)) ≡ min (2 * backoff_ms s (suc n)) (16 * s.flush_interval_ms))
unfolding backoff_ms
backoff_doubles s zero = (omega arith, omega arith, omega arith)
backoff_doubles s (suc zero) = (omega arith, omega arith, omega arith)
backoff_doubles s (suc (suc zero)) = (omega arith, omega arith, omega arith)
backoff_doubles s (suc (suc (suc zero))) = (omega arith, omega arith, omega arith)
backoff_doubles s (suc (suc (suc (suc n)))) =
    let now : min (suc (suc (suc (suc (suc n)))) - 1) 4 ≡ 4 = omega arith in
    let later : min (suc (suc (suc (suc (suc (suc n))))) - 1) 4 ≡ 4 = omega arith in
    (omega arith, omega arith, rw (now, later) (omega arith))
