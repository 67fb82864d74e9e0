-- ===== src/Examples/Data.antt =====
-- A small queue, its reporter and its collector.
use Prim.Native.String.{◌++◌ as str_append, count}
use text.Mathlib.TextLemmas.{length-append}
use dsh_ai_coding.Base.{
  ℕ, zero, suc, ◌≡◌, refl, sym, ap, eq_iff, Bool-cases, inl, inr, ◌∙◌, false, String, none, some,
  List, [], ◌∷◌, str_eq, arith,
}
use dsh_ai_coding.Telemetry.Event.{turn_started, TelemetryEventDto, unobserved}
use dsh_ai_coding.Telemetry.Settings.{TelemetryQueueSettings}
use dsh_ai_coding.Telemetry.Queue.Table.{EventRow}
use dsh_ai_coding.Telemetry.Queue.Store.{Runtime, TelemetryQueue, gap_id}
use dsh_ai_coding.Telemetry.Queue.Accounting.{DistinctUuids, Fresh, Unreserved}
use dsh_ai_coding.Telemetry.Reporter.Pipeline.{Services, Pipeline, signed_out, user}
use dsh_ai_coding.Telemetry.Collector.Capture.{Collector}

-- The n-th text of a sequence without repetition.
abbrev pub marks : ℕ → String
marks zero = ""
marks (suc n) = str_append "u" (marks n)

count-marks : (n : ℕ) → count (marks n) ≡ n
count-marks zero = refl
count-marks (suc n) = omega (arith, length-append "u" (marks n), count-marks n)

abbrev pub runtime : Runtime
runtime = record { uuid = marks; payload_bytes = λ event. 10 }

pub runtime-DistinctUuids : DistinctUuids runtime
runtime-DistinctUuids m n e = sym (count-marks m) ∙ ap count e ∙ count-marks n

abbrev pub settings : TelemetryQueueSettings
settings = record {
  max_events = 2;
  max_bytes = 100;
  batch_max_events = 2;
  batch_max_bytes = 50;
  flush_interval_ms = 10;
  http_timeout_ms = 10;
  max_attempts = 3;
  retention_ms = 100;
  claim_timeout_ms = 20;
}

abbrev pub event : String → TelemetryEventDto
event id = record {
  event_id = id;
  installation_id = "i";
  project_id = "p";
  session_id = some "s";
  kind = turn_started;
  occurred_at = 1;
  source_type = "turn/start";
  observed = unobserved;
}

abbrev pub row : String → EventRow
row id = record {
  event_id = id;
  account_id = "a";
  project_id = "p";
  session_id = some "s";
  payload = event id;
  bytes = 10;
  created_at = 1;
  attempts = 0;
  next_attempt_at = 0;
  batch_id = none;
  claimed_at = 0;
  is_gap = false;
  last_error_code = none;
  last_error = none;
}

abbrev pub queue_of : List EventRow → TelemetryQueue
queue_of rows = record {
  settings = settings;
  installation_id = "i";
  rows = rows;
  checkpoints = [];
  revocations = [];
  lost_gap_events = none;
  closed = false;
  drawn = 0;
}

abbrev pub queue : TelemetryQueue
queue = queue_of (row "e1" ∷ row "e2" ∷ [])

-- A text of two characters is no id of a gap.
short-ne : (id : String) (n : ℕ) → count id ≡ 2 → str_eq id (gap_id "i" (marks n)) ≡ false
unfolding gap_id
short-ne id n h = elim (Bool-cases (str_eq id (gap_id "i" (marks n)))) [
  | inr other ↦ other
  | inl same ↦ absurd (
      omega (
        arith,
        sym h ∙ ap count ((eq_iff id (gap_id "i" (marks n))).0 same),
        length-append "i" (str_append ":gap:" (marks n)),
        length-append ":gap:" (marks n),
      ))
]

pub queue-Fresh : Fresh runtime queue
unfolding gap_id
queue-Fresh n h = ground (arith, short-ne "e1" n refl, short-ne "e2" n refl)

pub event-Unreserved : Unreserved runtime queue (event "e3")
unfolding gap_id
event-Unreserved n h = short-ne "e3" n refl

abbrev pub io : Services
io = record {
  runtime = runtime;
  clock = λ n. n;
  faults = λ n. false;
  send = some (λ n request account. signed_out);
  resolve_account = λ n. user "a";
  meanwhile = λ n q. q;
  redact = λ s. s;
  clip = λ s. s;
  number_text = marks;
}

abbrev pub pipeline : Pipeline
pipeline = record {
  queue = queue;
  settings = settings;
  paused = false;
  signed_out = false;
  not_ready = false;
  authorization_revoked = false;
  failing = false;
  last_failure = none;
  last_accepted_at = none;
  storage_error = none;
  readings = 5;
  writes = 0;
  resolves = 0;
  sends = [];
}

abbrev pub collector : Collector
collector = record {
  bindings = ("s", "p") ∷ [];
  started_emitted = "s" ∷ [];
  received = 0;
  isolated = 0;
  account = none;
  sessions = [];
  pipeline = pipeline;
}
