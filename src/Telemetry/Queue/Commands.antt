-- ===== src/Telemetry/Queue/Commands.antt =====
-- src/telemetry/queue.ts: the methods of the queue as one step function, for what holds of every
-- history of calls.
use dsh_ai_coding.Base.{
  ℕ, Bool, true, false, if◌then◌else◌, String, Option, List, [], ◌∷◌, Result, ok, err,
}
use dsh_ai_coding.Telemetry.Event.{TelemetryEventDto, TelemetryGapDetail}
use dsh_ai_coding.Telemetry.Queue.Table.{TelemetryStorageError, queue_closed, write_failed}
use dsh_ai_coding.Telemetry.Queue.Store.{Runtime, TelemetryQueue, transaction, enqueue, enqueue_gap}
use dsh_ai_coding.Telemetry.Queue.Claims.{
  TelemetryAckInput, pending_batch, acknowledge, release_claim, report_failure,
}
use dsh_ai_coding.Telemetry.Queue.Upkeep.{
  revoke_project, defer_project, clear_account, expire_overdue, close,
}

pub data Command : Type 0 where
  enqueues : TelemetryEventDto → String → ℕ → Command
  enqueues_gap : String → Option String → Option String → TelemetryGapDetail → ℕ → Command
  claims : String → ℕ → Command
  acknowledges : String → List TelemetryAckInput → String → Command
  releases : String → Command
  reports_failure : String → String → String → ℕ → ℕ → Command
  revokes : String → String → Command
  defers : String → String → ℕ → ℕ → Command
  clears : String → Command
  expires : ℕ → Command
  closes : Command

-- The queue that a call leaves; a call that raises leaves it as it was.
abbrev pub after {ℓ} :
    {A : Type ℓ}
    → TelemetryQueue
    → Result TelemetryStorageError (TelemetryQueue × A)
    → TelemetryQueue
after q (ok r) = r.0
after q (err e) = q

abbrev pub after_statement :
    TelemetryQueue → Result TelemetryStorageError TelemetryQueue → TelemetryQueue
after_statement q (ok s) = s
after_statement q (err e) = q

-- The three ways in which a write ends.
pub by_fault {ℓ κ} :
    {A : Type ℓ} (P : Result TelemetryStorageError A → Type κ) (closed fault : Bool)
    {r : Result TelemetryStorageError A}
    → P (err queue_closed)
    → P (err write_failed)
    → P r
    → P (if closed then err queue_closed else if fault then err write_failed else r)
by_fault P true fault hc hf ho = hc
by_fault P false true hc hf ho = hf
by_fault P false false hc hf ho = ho

pub transaction_cases {ℓ κ} :
    {A : Type ℓ} (P : Result TelemetryStorageError (TelemetryQueue × A) → Type κ) (fault : Bool)
    (q : TelemetryQueue) (operation : TelemetryQueue → TelemetryQueue × A)
    → P (err queue_closed)
    → P (err write_failed)
    → P (ok (operation q))
    → P (transaction fault q operation)
unfolding transaction
transaction_cases P fault q operation = by_fault P q.closed fault

module _ (runtime : Runtime) where
  unfoldable pub step : TelemetryQueue → Bool × Command → TelemetryQueue
  step q (fault, enqueues event account now) = after q (enqueue runtime fault q event account now)
  step q (fault, enqueues_gap account project session gap now) =
      after q (enqueue_gap runtime fault q account project session gap now)
  step q (fault, claims account now) = after q (pending_batch runtime fault q account now)
  step q (fault, acknowledges batch acks checkpoint) =
      after q (acknowledge fault q batch acks checkpoint)
  step q (fault, releases batch) = after_statement q (release_claim fault q batch)
  step q (fault, reports_failure batch code message next now) =
      after q (report_failure runtime fault q batch code message next now)
  step q (fault, revokes account project) = after q (revoke_project fault q account project)
  step q (fault, defers account project delay now) =
      after q (defer_project fault q account project delay now)
  step q (fault, clears account) = after q (clear_account fault q account)
  step q (fault, expires now) = after q (expire_overdue runtime fault q now)
  step q (fault, closes) = close q

  unfoldable pub run : TelemetryQueue → List (Bool × Command) → TelemetryQueue
  run q [] = q
  run q (c ∷ cs) = run (step q c) cs
