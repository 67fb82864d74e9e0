-- ===== src/Telemetry/Queue/Store.antt =====
-- src/telemetry/queue.ts: the queue, its inserts, its gaps and its capacity. SQLite stands behind
-- the tables here: a transaction runs its operation on the tables, or fails and leaves them.
use Prim.Native.String.{◌++◌ as str_append}
use dsh_ai_coding.Base.{
  ℕ, zero, suc, ◌+◌, ◌/◌, max, Bool, true, false, ◌&&◌, String, Option, none, some, List, [], ◌∷◌,
  ◌++◌, str_eq, leb, opt_eq, if◌then◌else◌, all_of, take, length, Result, ok, err,
}
use dsh_ai_coding.Telemetry.Event.{
  TelemetryEventDto, TelemetryGapDetail, GapReason, overflow, delivery_gap, unobserved, is_gap_kind,
}
use dsh_ai_coding.Telemetry.Settings.{TelemetryQueueSettings}
use dsh_ai_coding.Telemetry.Queue.Table.{
  EventRow, TelemetryStorageError, queue_closed, write_failed, schema_not_recognized, has_row,
  delete_rows, update_where, event_ids, regular, sum_bytes,
}

-- The runtime: `randomUUID`, whose n-th result is `uuid n`, and the UTF-8 length of the JSON text.
pub record Runtime : Type 0 where
  pub uuid : ℕ → String
  pub payload_bytes : TelemetryEventDto → ℕ

pub record Checkpoint : Type 0 where
  pub account_id : String
  pub project_id : String
  pub checkpoint : String

pub record Revocation : Type 0 where
  pub account_id : String
  pub project_id : String

-- `drawn` counts the UUIDs that were drawn so far.
pub record TelemetryQueue : Type 0 where
  pub settings : TelemetryQueueSettings
  pub installation_id : String
  pub rows : List EventRow
  pub checkpoints : List Checkpoint
  pub revocations : List Revocation
  pub lost_gap_events : Option ℕ
  pub closed : Bool
  pub drawn : ℕ

-- `fault` says whether SQLite raises before the commit. `ROLLBACK` restores the tables.
unfoldable pub transaction {ℓ} :
    {A : Type ℓ}
    → Bool
    → TelemetryQueue
    → (TelemetryQueue → TelemetryQueue × A)
    → Result TelemetryStorageError (TelemetryQueue × A)
transaction fault q operation =
    if q.closed then err queue_closed else if fault then err write_failed else ok (operation q)

-- What the database file holds when it is opened: `readMeta` of both keys, and the tables.
pub record Database : Type 0 where
  pub schema_version : Option String
  pub stored_installation_id : Option String
  pub stored : TelemetryQueue

-- A claim whose lease is over at that instant. (`claimed_at <= now - claimTimeoutMs`.)
abbrev pub lease_over : TelemetryQueueSettings → ℕ → EventRow → Bool
lease_over s now r = elim r.batch_id [
  | none ↦ false
  | some b ↦ leb (r.claimed_at + s.claim_timeout_ms) now
]

unfoldable pub release_expired : ℕ → TelemetryQueue → TelemetryQueue
release_expired now q = record q {
  rows = update_where (lease_over q.settings now) (λ r. record r { batch_id = none }) q.rows;
}

-- The gap id that a UUID makes.
unfoldable pub gap_id : String → String → String
gap_id installation uuid = str_append installation (str_append ":gap:" uuid)

abbrev pub last_of {ℓ} : {A : Type ℓ} → A → List A → A
last_of x [] = x
last_of x (y ∷ ys) = last_of y ys

-- The `byProject` map of `recordGap`, in insertion order.
unfoldable pub push_group : EventRow → List (String × List EventRow) → List (String × List EventRow)
push_group row [] = (row.project_id, row ∷ []) ∷ []
push_group row ((p, group) ∷ groups) =
    if str_eq p row.project_id
    then (p, group ++ row ∷ []) ∷ groups
    else (p, group) ∷ push_group row groups

unfoldable pub group_rows :
    List (String × List EventRow) → List EventRow → List (String × List EventRow)
group_rows groups [] = groups
group_rows groups (row ∷ rows) = group_rows (push_group row groups) rows

abbrev pub common_session : EventRow → List EventRow → Option String
common_session first group = elim first.session_id [
  | none ↦ none
  | some s ↦ if all_of (λ r. opt_eq r.session_id (some s)) group then some s else none
]

-- Capacity counts regular rows only.
abbrev pub within_capacity : TelemetryQueueSettings → List EventRow → Bool
within_capacity s rows =
    leb (length (regular rows)) s.max_events && leb (sum_bytes (regular rows)) s.max_bytes

abbrev pub victim_limit : TelemetryQueueSettings → ℕ
victim_limit s = max 1 ((s.max_events + 9) / 10)

-- The rows that one round of `enforceCapacity` drops: the oldest tenth of the capacity.
abbrev pub victims : TelemetryQueue → List EventRow
victims q = take (victim_limit q.settings) (regular q.rows)

module _ (runtime : Runtime) where
  unfoldable pub open_queue :
      TelemetryQueueSettings → ℕ → Database → Result TelemetryStorageError TelemetryQueue
  unfolding release_expired
  open_queue settings now db = elim db.schema_version [
    | none ↦ ok opened
    | some version ↦ if str_eq version "2" then ok opened else err (schema_not_recognized version)
  ]
    where
      base : TelemetryQueue
      base = record db.stored { settings = settings; closed = false }

      identified : TelemetryQueue
      identified = elim db.stored_installation_id [
        | none ↦ record base { installation_id = runtime.uuid base.drawn; drawn = suc base.drawn }
        | some id ↦ record base { installation_id = id }
      ]

      opened : TelemetryQueue
      opened = release_expired now identified

  abbrev pub new_row : TelemetryEventDto → String → ℕ → EventRow
  new_row event account now = record {
    event_id = event.event_id;
    account_id = account;
    project_id = event.project_id;
    session_id = event.session_id;
    payload = event;
    bytes = runtime.payload_bytes event;
    created_at = now;
    attempts = 0;
    next_attempt_at = 0;
    batch_id = none;
    claimed_at = 0;
    is_gap = is_gap_kind event.kind;
    last_error_code = none;
    last_error = none;
  }

  -- `insertEvent`, over the capacity check that follows the insert of a regular event.
  unfoldable pub insert_event_with :
      (TelemetryQueue → TelemetryQueue)
      → TelemetryEventDto
      → String
      → ℕ
      → TelemetryQueue
      → TelemetryQueue × Bool
  insert_event_with enforce event account now q =
      if has_row event.event_id q.rows
      then (q, false)
      else if is_gap_kind event.kind
      then (stored, true)
      else (enforce stored, true)
    where
      stored : TelemetryQueue
      stored = record q { rows = q.rows ++ new_row event account now ∷ [] }

  abbrev pub gap_event :
      TelemetryQueue → Option String → Option String → TelemetryGapDetail → ℕ → TelemetryEventDto
  gap_event q project session gap now = record {
    event_id = gap_id q.installation_id (runtime.uuid q.drawn);
    installation_id = q.installation_id;
    project_id = elim project [ none ↦ "" | some p ↦ p ];
    session_id = session;
    kind = delivery_gap;
    occurred_at = now;
    source_type = "delivery/gap";
    observed = record unobserved { gap = some gap };
  }

  -- A gap event passes `insertEvent` before its capacity check, so any check may stand here.
  unfoldable pub insert_gap :
      String
      → Option String
      → Option String
      → TelemetryGapDetail
      → ℕ
      → TelemetryQueue
      → TelemetryQueue × String
  unfolding insert_event_with
  insert_gap account project session gap now q = (
    (insert_event_with (λ s. s) event account now (record q { drawn = suc q.drawn })).0,
    event.event_id,
  )
    where
      event : TelemetryEventDto
      event = gap_event q project session gap now

  unfoldable pub record_groups :
      GapReason → ℕ → List (String × List EventRow) → TelemetryQueue → TelemetryQueue
  record_groups reason now [] q = q
  record_groups reason now ((project, []) ∷ groups) q = record_groups reason now groups q
  record_groups reason now ((project, first ∷ rest) ∷ groups) q =
      record_groups reason now groups
        (insert_gap first.account_id (some project) (common_session first (first ∷ rest))
          (record {
            reason = reason;
            count = length (first ∷ rest);
            first_event_id = some first.event_id;
            last_event_id = some (last_of first rest).event_id;
          })
          now q).0

  unfoldable pub record_gap : List EventRow → GapReason → ℕ → TelemetryQueue → TelemetryQueue
  unfolding group_rows record_groups
  record_gap rows reason now q = record_groups reason now (group_rows [] rows) q

  -- One round of the loop of `enforceCapacity`.
  unfoldable pub drop_oldest : ℕ → TelemetryQueue → TelemetryQueue
  unfolding record_gap delete_rows
  drop_oldest now q =
      record_gap (victims q) overflow now
        (record q { rows = delete_rows (event_ids (victims q)) q.rows })

  unfoldable pub enforce_loop : ℕ → ℕ → TelemetryQueue → TelemetryQueue
  enforce_loop zero now q = q
  enforce_loop (suc fuel) now q =
      let next = enforce_loop fuel now (drop_oldest now q) in
      if within_capacity q.settings q.rows then q else elim (victims q) [ [] ↦ q | v ∷ vs ↦ next ]

  -- Each round drops a regular row and adds none, so there are at most as many as regular rows.
  unfoldable pub enforce_capacity : ℕ → TelemetryQueue → TelemetryQueue
  unfolding enforce_loop
  enforce_capacity now q = enforce_loop (length (regular q.rows)) now q

  unfoldable pub insert_event :
      TelemetryEventDto → String → ℕ → TelemetryQueue → TelemetryQueue × Bool
  unfolding insert_event_with enforce_capacity
  insert_event event account now = insert_event_with (enforce_capacity now) event account now

  unfoldable pub enqueue :
      Bool
      → TelemetryQueue
      → TelemetryEventDto
      → String
      → ℕ
      → Result TelemetryStorageError (TelemetryQueue × Bool)
  unfolding transaction insert_event
  enqueue fault q event account now = transaction fault q (insert_event event account now)

  unfoldable pub enqueue_gap :
      Bool
      → TelemetryQueue
      → String
      → Option String
      → Option String
      → TelemetryGapDetail
      → ℕ
      → Result TelemetryStorageError (TelemetryQueue × String)
  unfolding transaction insert_gap
  enqueue_gap fault q account project session gap now =
      transaction fault q (insert_gap account project session gap now)
