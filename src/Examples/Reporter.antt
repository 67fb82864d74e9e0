-- ===== src/Examples/Reporter.antt =====
-- src/telemetry/reporter.ts on a queue of two events.
use dsh_ai_coding.Base.{
  ℕ, ◌+◌, ◌*◌, min, arith, ◌≡◌, refl, ◌⊎◌, true, false, String, List, [], ◌∷◌, ok, err,
}
use dsh_ai_coding.Telemetry.Queue.Table.{TelemetryStorageError}
use dsh_ai_coding.Telemetry.Queue.Claims.{PendingBatch, fail_batch, queued_event}
use dsh_ai_coding.Telemetry.Queue.Upkeep.{is_revoked}
use dsh_ai_coding.Telemetry.Reporter.Pipeline.{
  Pipeline, TelemetryBatchResult, TelemetryBatchRequest, SendOutcome, signed_out, recover_batch,
  backoff_ms, reading, ticked,
}
use dsh_ai_coding.Telemetry.Reporter.Drain.{mismatch_text, acknowledge_batch}
use dsh_ai_coding.Telemetry.Reporter.Control.{DrainSlot, SlotCall, start, flush, finish}
use dsh_ai_coding.Telemetry.Reporter.Modes.{IsSlotted, IsServed, slot_run, slot_run-IsServed}
use dsh_ai_coding.Telemetry.Reporter.Recovery.{Recovered, recover_batch-Recovered, backoff_doubles}
use dsh_ai_coding.Telemetry.Reporter.Delivery.{acknowledge_batch-Misses}
use dsh_ai_coding.Telemetry.Reporter.Answers.{other_count}
use dsh_ai_coding.Examples.Data.{io, row, queue, settings, pipeline}

abbrev batch : PendingBatch
batch = record { batch_id = "b"; project_id = "p"; events = queued_event "p" (row "e1") ∷ [] }

abbrev short_result : TelemetryBatchResult
short_result = record { batch_id = "b"; server_checkpoint = "c1"; results = [] }

acknowledge_batch-Misses_example :
    (((acknowledge_batch io "a" "p" batch short_result pipeline).1 ≡ ok false)
      × ((acknowledge_batch io "a" "p" batch short_result pipeline).0.failing ≡ true)
      × ((acknowledge_batch io "a" "p" batch short_result pipeline).0.queue
          ≡ fail_batch io.runtime "b" "TELEMETRY_ACK_MISMATCH"
              (io.clip (mismatch_text io batch short_result))
              (reading io pipeline + backoff_ms settings 1)
              (reading io (ticked io pipeline))
              queue))
    ⊎ ((e : TelemetryStorageError) × ((acknowledge_batch io "a" "p" batch short_result pipeline).1
          ≡ err e)
        × ((acknowledge_batch io "a" "p" batch short_result pipeline).0.queue ≡ queue))
acknowledge_batch-Misses_example =
    acknowledge_batch-Misses io "a" "p" batch short_result pipeline
      (other_count (λ e. omega (arith, e)))

recover_batch-Recovered_example : Recovered "b" (recover_batch io "b" "HTTP_500" "down" 1 pipeline)
recover_batch-Recovered_example = recover_batch-Recovered io "b" "HTTP_500" "down" 1 pipeline

backoff_doubles_example :
    (backoff_ms settings 0 ≡ settings.flush_interval_ms)
    × (backoff_ms settings 1 ≡ settings.flush_interval_ms)
    × (backoff_ms settings 3 ≡ min (2 * backoff_ms settings 2) (16 * settings.flush_interval_ms))
backoff_doubles_example = backoff_doubles settings 1

abbrev barred : Pipeline
barred = record pipeline {
  queue = record queue { revocations = record { account_id = "a"; project_id = "p" } ∷ [] };
}

abbrev call : ℕ → TelemetryBatchRequest → String → SendOutcome
call n request account = signed_out

barred-is_revoked : is_revoked barred.queue "a" "p" ≡ true
unfolding is_revoked
barred-is_revoked = refl

abbrev idle : DrainSlot
idle = record { timer = false; in_flight = false; queued_drain = false; started = 0 }

abbrev calls : List SlotCall
calls = start ∷ flush ∷ flush ∷ finish ∷ []

slot_run-IsServed_example : IsSlotted (slot_run idle calls) × IsServed (slot_run idle calls)
slot_run-IsServed_example = slot_run-IsServed idle calls refl
