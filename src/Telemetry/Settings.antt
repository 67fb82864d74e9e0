-- ===== src/Telemetry/Settings.antt =====
-- src/telemetry/settings.ts: validation and defaults of the queue settings.
pub mod Validity
use dsh_ai_coding.Base.{
  ℕ, ◌≤◌, ◌<◌, ◌≡◌, refl, Bool, true, false, Option, none, some, arith, ltb, leb, if◌then◌else◌,
  or_else, Result, ok, err, ◌>>=◌, ◌>>◌, require,
}

pub record TelemetryQueueSettings : Type 0 where
  pub max_events : ℕ
  pub max_bytes : ℕ
  pub batch_max_events : ℕ
  pub batch_max_bytes : ℕ
  pub flush_interval_ms : ℕ
  pub http_timeout_ms : ℕ
  pub max_attempts : ℕ
  pub retention_ms : ℕ
  pub claim_timeout_ms : ℕ

-- A raw config value: a natural number, or anything else (a fraction, a negative number, a text,
-- an explicit `undefined`).
pub data ConfigValue : Type 0 where
  whole : ℕ → ConfigValue
  malformed : ConfigValue

-- `Partial<TelemetryQueueSettings>`: a key that is absent is `none`.
pub record PartialSettings : Type 0 where
  pub max_events : Option ConfigValue
  pub max_bytes : Option ConfigValue
  pub batch_max_events : Option ConfigValue
  pub batch_max_bytes : Option ConfigValue
  pub flush_interval_ms : Option ConfigValue
  pub http_timeout_ms : Option ConfigValue
  pub max_attempts : Option ConfigValue
  pub retention_ms : Option ConfigValue
  pub claim_timeout_ms : Option ConfigValue

pub data SettingsField : Type 0 where
  max_events max_bytes batch_max_events batch_max_bytes flush_interval_ms : SettingsField
  http_timeout_ms max_attempts retention_ms claim_timeout_ms : SettingsField

pub data SettingsError : Type 0 where
  not_positive_integer : SettingsField → SettingsError
  batch_events_exceed_queue batch_bytes_exceed_queue : SettingsError

abbrev pub default_settings : TelemetryQueueSettings
default_settings = record {
  max_events = 10_000;
  max_bytes = 33_554_432;
  batch_max_events = 500;
  batch_max_bytes = 2_097_152;
  flush_interval_ms = 15_000;
  http_timeout_ms = 10_000;
  max_attempts = 12;
  retention_ms = 604_800_000;
  claim_timeout_ms = 60_000;
}

unfoldable pub positive_value : ConfigValue → SettingsField → Result SettingsError ℕ
positive_value (whole n) field = if ltb 0 n then ok n else err (not_positive_integer field)
positive_value malformed field = err (not_positive_integer field)

-- The value of one key after the defaults are spread under the config.
unfoldable pub positive_integer : ℕ → Option ConfigValue → SettingsField → Result SettingsError ℕ
unfolding positive_value
positive_integer default given field = positive_value (or_else given (whole default)) field

unfoldable pub resolve_telemetry_settings :
    PartialSettings → Result SettingsError TelemetryQueueSettings
resolve_telemetry_settings config = do
  events ← positive_integer default_settings.max_events config.max_events max_events
  bytes ← positive_integer default_settings.max_bytes config.max_bytes max_bytes
  batch_events ←
      positive_integer default_settings.batch_max_events config.batch_max_events batch_max_events
  batch_bytes ←
      positive_integer default_settings.batch_max_bytes config.batch_max_bytes batch_max_bytes
  flush ←
      positive_integer default_settings.flush_interval_ms config.flush_interval_ms flush_interval_ms
  http ← positive_integer default_settings.http_timeout_ms config.http_timeout_ms http_timeout_ms
  attempts ← positive_integer default_settings.max_attempts config.max_attempts max_attempts
  retention ← positive_integer default_settings.retention_ms config.retention_ms retention_ms
  claim ←
      positive_integer default_settings.claim_timeout_ms config.claim_timeout_ms claim_timeout_ms
  require (leb batch_events events) batch_events_exceed_queue
  require (leb batch_bytes bytes) batch_bytes_exceed_queue
  ok (record {
    max_events = events;
    max_bytes = bytes;
    batch_max_events = batch_events;
    batch_max_bytes = batch_bytes;
    flush_interval_ms = flush;
    http_timeout_ms = http;
    max_attempts = attempts;
    retention_ms = retention;
    claim_timeout_ms = claim;
  })
