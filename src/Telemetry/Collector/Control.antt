-- ===== src/Telemetry/Collector/Control.antt =====
-- src/telemetry/backend.ts: `clearPending` and the project of the status.
use dsh_ai_coding.Base.{
  String, Option, none, some, List, [], ◌∷◌, if◌then◌else◌, Result, ok, err, ◌>>=◌, ◌==◌, map,
}
use dsh_ai_coding.Telemetry.Event.{manual_clear}
use dsh_ai_coding.Telemetry.Queue.Table.{TelemetryStorageError}
use dsh_ai_coding.Telemetry.Queue.Store.{enqueue_gap}
use dsh_ai_coding.Telemetry.Queue.Claims.{QueueGapRange}
use dsh_ai_coding.Telemetry.Queue.Upkeep.{clear_account, distinct}
use dsh_ai_coding.Telemetry.Reporter.Pipeline.{Services, Pipeline, reading, ticked, stored}
use dsh_ai_coding.Telemetry.Collector.Capture.{Collector}

module _ (io : Services) where
  -- The gap of a project that `clearPending` cleared. A storage error is thrown.
  unfoldable pub record_one :
      String → String → QueueGapRange → Pipeline → Result TelemetryStorageError Pipeline
  unfolding stored
  record_one account project_id range p =
      if range.count == 0
      then ok p
      else let (after, result) =
          stored io
            (λ fault q.
              enqueue_gap io.runtime fault q account (some project_id) none
                (record {
                  reason = manual_clear;
                  count = range.count;
                  first_event_id = range.first_event_id;
                  last_event_id = range.last_event_id;
                })
                (reading io p))
            (ticked io p) in
        elim result [ ok _ ↦ ok after | err e ↦ err e ]

  unfoldable pub record_cleared :
      String → List (String × QueueGapRange) → Pipeline → Result TelemetryStorageError Pipeline
  unfolding record_one
  record_cleared account [] p = ok p
  record_cleared account ((project_id, range) ∷ ranges) p =
      record_one account project_id range p >>= λ next. record_cleared account ranges next

  -- `clearPending`: `ok none` is the answer `SIGNED_OUT`.
  unfoldable pub clear_pending : Collector → Result TelemetryStorageError (Option Collector)
  unfolding record_cleared stored
  clear_pending c = elim c.account [
    | none ↦ ok none
    | some account ↦
        let (after, result) = stored io (λ fault q. clear_account fault q account) c.pipeline in
        elim result [
          | err e ↦ err e
          | ok ranges ↦
              record_cleared account ranges after >>= λ p. ok (some (record c { pipeline = p }))
        ]
  ]

-- `status().projectId`: the project, if one is bound.
unfoldable pub sole_project : Collector → Option String
unfolding distinct
sole_project c = elim (distinct [] (map (λ b. b.1) c.bindings)) [
  | [] ↦ none
  | p ∷ ps ↦ elim ps [ [] ↦ some p | x ∷ xs ↦ none ]
]
