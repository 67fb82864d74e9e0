-- ===== src/Telemetry/Settings/Validity.antt =====
-- src/telemetry/settings.ts: what the resolved settings satisfy.
use dsh_ai_coding.Base.{
  ℕ, ◌≤◌, ◌<◌, ◌≡◌, refl, Bool, true, false, Option, arith, ltb, leb, or_else, Result, ◌>>=◌,
  require, IfOk, by_if,
}
use dsh_ai_coding.Telemetry.Settings.{
  TelemetryQueueSettings, ConfigValue, whole, malformed, PartialSettings, SettingsField, max_events,
  max_bytes, batch_max_events, batch_max_bytes, flush_interval_ms, http_timeout_ms, max_attempts,
  retention_ms, claim_timeout_ms, SettingsError, batch_events_exceed_queue,
  batch_bytes_exceed_queue, default_settings, positive_value, positive_integer,
  resolve_telemetry_settings,
}

-- The value is positive and is the configured one, or the default where the key is absent.
abbrev pub IsResolved : ℕ → Option ConfigValue → ℕ → Type 0
IsResolved default given n = (0 < n) × (or_else given (whole default) ≡ whole n)

pub record IsValid (config : PartialSettings) (s : TelemetryQueueSettings) : Type 0 where
  pub events : IsResolved default_settings.max_events config.max_events s.max_events
  pub bytes : IsResolved default_settings.max_bytes config.max_bytes s.max_bytes
  pub batch_events :
      IsResolved default_settings.batch_max_events config.batch_max_events s.batch_max_events
  pub batch_bytes :
      IsResolved default_settings.batch_max_bytes config.batch_max_bytes s.batch_max_bytes
  pub flush :
      IsResolved default_settings.flush_interval_ms config.flush_interval_ms s.flush_interval_ms
  pub http : IsResolved default_settings.http_timeout_ms config.http_timeout_ms s.http_timeout_ms
  pub attempts : IsResolved default_settings.max_attempts config.max_attempts s.max_attempts
  pub retention : IsResolved default_settings.retention_ms config.retention_ms s.retention_ms
  pub claim :
      IsResolved default_settings.claim_timeout_ms config.claim_timeout_ms s.claim_timeout_ms
  pub batch_fits : (s.batch_max_events ≤ s.max_events) × (s.batch_max_bytes ≤ s.max_bytes)

-- One bind on a key of the config.
by_key {ℓ κ} :
    {B : Type ℓ} (P : B → Type κ) (default : ℕ) (given : Option ConfigValue) (key : SettingsField)
    (f : ℕ → Result SettingsError B)
    → ((n : ℕ) → IsResolved default given n → IfOk P (f n))
    → IfOk P (positive_integer default given key >>= f)
unfolding positive_integer positive_value
by_key P default given key f h = go (or_else given (whole default)) refl
  where
    go : (v : ConfigValue) → or_else given (whole default) ≡ v → IfOk P (positive_value v key >>= f)
    go malformed e = tt
    go (whole n) e =
        by_if (λ m. IfOk P (m >>= f)) (ltb 0 n) (λ positive. h n (ground (arith, positive), e))
          (λ _. tt)

by_leb {ℓ κ} :
    {B : Type ℓ} (P : B → Type κ) (a b : ℕ) (error : SettingsError)
    (f : Unit {0} → Result SettingsError B)
    → (a ≤ b → IfOk P (f tt))
    → IfOk P (require (leb a b) error >>= f)
by_leb P a b error f h = go (leb a b) refl
  where
    go : (t : Bool) → leb a b ≡ t → IfOk P (require t error >>= f)
    go true e = h (ground (arith, e))
    go false e = tt

-- Settings that are resolved are the configured values where a key is given and the defaults
-- elsewhere, each of them is positive, and a batch is no larger than the queue, in events and bytes.
pub resolve_telemetry_settings-IsValid :
    (config : PartialSettings) → IfOk (IsValid config) (resolve_telemetry_settings config)
unfolding resolve_telemetry_settings
resolve_telemetry_settings-IsValid c =
    by_key (IsValid c) default_settings.max_events c.max_events max_events _ (λ n hn.
      by_key (IsValid c) default_settings.max_bytes c.max_bytes max_bytes _ (λ b hb.
        by_key (IsValid c) default_settings.batch_max_events c.batch_max_events batch_max_events _
          (λ bn hbn.
            by_key (IsValid c) default_settings.batch_max_bytes c.batch_max_bytes batch_max_bytes _
              (λ bb hbb.
                by_key (IsValid c) default_settings.flush_interval_ms c.flush_interval_ms
                  flush_interval_ms _
                  (λ f hf.
                    by_key (IsValid c) default_settings.http_timeout_ms c.http_timeout_ms
                      http_timeout_ms _
                      (λ t ht.
                        by_key (IsValid c) default_settings.max_attempts c.max_attempts max_attempts
                          _
                          (λ m hm.
                            by_key (IsValid c) default_settings.retention_ms c.retention_ms
                              retention_ms _
                              (λ r hr.
                                by_key (IsValid c) default_settings.claim_timeout_ms
                                  c.claim_timeout_ms claim_timeout_ms _
                                  (λ k hk.
                                    by_leb (IsValid c) bn n batch_events_exceed_queue _ (λ fits.
                                      by_leb (IsValid c) bb b batch_bytes_exceed_queue _ (λ fit.
                                        record {
                                          events = hn;
                                          bytes = hb;
                                          batch_events = hbn;
                                          batch_bytes = hbb;
                                          flush = hf;
                                          http = ht;
                                          attempts = hm;
                                          retention = hr;
                                          claim = hk;
                                          batch_fits = (fits, fit);
                                        })))))))))))
