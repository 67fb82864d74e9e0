-- ===== src/Telemetry/Queue/Upkeep.antt =====
-- src/telemetry/queue.ts: revocation, deferral, clearing, retention, totals and close.
use dsh_ai_coding.Base.{
  ℕ, ◌+◌, Bool, true, ◌&&◌, String, none, some, List, [], ◌∷◌, ◌++◌, map, str_eq, ltb, leb, or_else,
  if◌then◌else◌, any_of, select, length, Result,
}
use dsh_ai_coding.Telemetry.Settings.{TelemetryQueueSettings}
use dsh_ai_coding.Telemetry.Queue.Table.{
  EventRow, TelemetryStorageError, delete_rows, update_where, event_ids, sum_bytes, sum_gaps,
}
use dsh_ai_coding.Telemetry.Queue.Store.{Runtime, TelemetryQueue, Revocation, transaction, last_of}
use dsh_ai_coding.Telemetry.Queue.Claims.{QueueGapRange, drop_expired}

abbrev pub in_partition : String → String → EventRow → Bool
in_partition account project r = str_eq r.account_id account && str_eq r.project_id project

abbrev pub range_of : List EventRow → QueueGapRange
range_of [] = record { count = 0; first_event_id = none; last_event_id = none }
range_of (r ∷ rows) = record {
  count = length (r ∷ rows);
  first_event_id = some r.event_id;
  last_event_id = some (last_of r rows).event_id;
}

unfoldable pub delete_partition : String → String → TelemetryQueue → TelemetryQueue × QueueGapRange
unfolding delete_rows
delete_partition account project q =
    (record q { rows = delete_rows (event_ids doomed) q.rows }, range_of doomed)
  where
    doomed : List EventRow
    doomed = select (in_partition account project) q.rows

abbrev pub is_pair : String → String → Revocation → Bool
is_pair account project v = str_eq v.account_id account && str_eq v.project_id project

unfoldable pub is_revoked : TelemetryQueue → String → String → Bool
is_revoked q account project = any_of (is_pair account project) q.revocations

-- `INSERT OR IGNORE INTO telemetry_revocations`.
abbrev pub add_revocation : String → String → List Revocation → List Revocation
add_revocation account project table =
    if any_of (is_pair account project) table
    then table
    else table ++ record { account_id = account; project_id = project } ∷ []

-- The operation of `revokeProject`.
unfoldable pub revoke : String → String → TelemetryQueue → TelemetryQueue × QueueGapRange
unfolding delete_partition
revoke account project q =
    delete_partition account project
      (record q { revocations = add_revocation account project q.revocations })

unfoldable pub revoke_project :
    Bool
    → TelemetryQueue
    → String
    → String
    → Result TelemetryStorageError (TelemetryQueue × QueueGapRange)
unfolding transaction revoke
revoke_project fault q account project = transaction fault q (revoke account project)

-- The operation of `deferProject`.
unfoldable pub defer : String → String → ℕ → ℕ → TelemetryQueue → TelemetryQueue
defer account project delay now q = record q {
  rows =
      update_where (λ r. in_partition account project r && leb r.next_attempt_at now)
        (λ r. record r { next_attempt_at = now + delay }) q.rows;
}

unfoldable pub defer_project :
    Bool
    → TelemetryQueue
    → String
    → String
    → ℕ
    → ℕ
    → Result TelemetryStorageError (TelemetryQueue × Unit {0})
unfolding transaction defer
defer_project fault q account project delay now =
    transaction fault q (λ s. (defer account project delay now s, tt))

-- `SELECT DISTINCT project_id … WHERE account_id = ?`.
abbrev pub add_distinct : String → List String → List String
add_distinct p seen = if any_of (str_eq p) seen then seen else seen ++ p ∷ []

unfoldable pub distinct : List String → List String → List String
distinct seen [] = seen
distinct seen (p ∷ ps) = distinct (add_distinct p seen) ps

unfoldable pub projects : String → List EventRow → List String
unfolding distinct
projects account rows =
    distinct [] (map (λ r. r.project_id) (select (λ r. str_eq r.account_id account) rows))

unfoldable pub clear_projects :
    String → List String → TelemetryQueue → TelemetryQueue × List (String × QueueGapRange)
unfolding delete_partition
clear_projects account [] q = (q, [])
clear_projects account (p ∷ ps) q =
    let (next, range) = delete_partition account p q in
    let (end, ranges) = clear_projects account ps next in (end, (p, range) ∷ ranges)

-- The operation of `clearAccount`.
unfoldable pub clear : String → TelemetryQueue → TelemetryQueue × List (String × QueueGapRange)
unfolding clear_projects projects
clear account q = clear_projects account (projects account q.rows) q

unfoldable pub clear_account :
    Bool
    → TelemetryQueue
    → String
    → Result TelemetryStorageError (TelemetryQueue × List (String × QueueGapRange))
unfolding transaction clear
clear_account fault q account = transaction fault q (clear account)

-- `created_at < now - retentionMs`.
abbrev pub is_overdue : TelemetryQueueSettings → ℕ → EventRow → Bool
is_overdue s now r = ltb (r.created_at + s.retention_ms) now

module _ (runtime : Runtime) where
  -- The operation of `expireOverdue`.
  unfoldable pub expire : ℕ → TelemetryQueue → TelemetryQueue
  unfolding drop_expired
  expire now q = drop_expired runtime (is_overdue q.settings now) now q

  unfoldable pub expire_overdue :
      Bool → TelemetryQueue → ℕ → Result TelemetryStorageError (TelemetryQueue × Unit {0})
  unfolding transaction expire
  expire_overdue fault q now = transaction fault q (λ s. (expire now s, tt))

pub record QueueCounts : Type 0 where
  pub events : ℕ
  pub bytes : ℕ
  pub gaps : ℕ

unfoldable pub counts : TelemetryQueue → QueueCounts
counts q = if q.closed then record { events = 0; bytes = 0; gaps = 0 } else record {
  events = length q.rows;
  bytes = sum_bytes q.rows;
  gaps = sum_gaps q.rows + or_else q.lost_gap_events 0;
}

unfoldable pub close : TelemetryQueue → TelemetryQueue
close q = record q { closed = true }
