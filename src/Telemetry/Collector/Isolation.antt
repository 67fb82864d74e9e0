-- ===== src/Telemetry/Collector/Isolation.antt =====
-- src/telemetry/backend.ts: what the collector leaves alone.
use dsh_ai_coding.Base.{
  ◌≡◌, refl, Bool, true, false, String, Option, none, some, List, [], ◌∷◌, str_eq, arith,
  str_eq_refl, get_key-delete_key, get_key, field_of, if◌then◌else◌,
}
use dsh_ai_coding.Telemetry.Projection.Facts.{SessionTelemetryRecord}
use dsh_ai_coding.Telemetry.Projection.Ledger.{forget}
use dsh_ai_coding.Telemetry.Reporter.Pipeline.{Services}
use dsh_ai_coding.Telemetry.Reporter.Control.{clear_revocation}
use dsh_ai_coding.Telemetry.Collector.Capture.{
  Collector, is_member, is_shutdown, clear_project, enqueue_ops, configure_project, capture,
  emit_bound, emit_for, emit, text_value, without,
}

module _ (io : Services) (clean : String → String) (live : String → Bool) where
  emit_bound-no_account :
      (r : SessionTelemetryRecord) (session project_id : String) (c : Collector)
      → c.account ≡ none
      → ((emit_bound io clean live r session project_id c).pipeline ≡ c.pipeline)
        × ((emit_bound io clean live r session project_id c).sessions
            ≡ (if is_shutdown r then clear_project session c else c).sessions)
  unfolding emit_bound capture
  emit_bound-no_account r session project_id c h = ground arith

  emit_for-no_account :
      (r : SessionTelemetryRecord) (session : String) (c : Collector)
      → c.account ≡ none
      → (emit_for io clean live r session c).pipeline ≡ c.pipeline
  unfolding emit_for
  emit_for-no_account r session c h = go (get_key str_eq session c.bindings)
    where
      go :
          (o : Option String)
          → (elim o as (λ _. Collector) [
            | none ↦ c
            | some project_id ↦ emit_bound io clean live r session project_id c
          ]).pipeline
            ≡ c.pipeline
      go none = refl
      go (some project_id) = (emit_bound-no_account r session project_id c h).0

  -- While no account partition is publishable, a record of any session reaches neither the queue nor
  -- anything else of the reporter.
  pub emit-no_account :
      (r : SessionTelemetryRecord) (c : Collector)
      → c.account ≡ none
      → (emit io clean live r c).pipeline ≡ c.pipeline
  unfolding emit
  emit-no_account r c h = go (text_value (field_of "session.id" r.attributes))
    where
      go :
          (o : Option String)
          → (elim o as (λ _. Collector) [
            | none ↦ c
            | some session ↦ emit_for io clean live r session c
          ]).pipeline
            ≡ c.pipeline
      go none = refl
      go (some session) = emit_for-no_account r session c h

  -- Once the start of a live session was observed, binding the session again, to the same project or
  -- another, enqueues nothing and only lifts the revocation of the reporter.
  pub configure_project-again :
      (session first_project second_project : String) (c : Collector)
      → live session ≡ true
      → (configure_project io clean live session second_project
          (configure_project io clean live session first_project c)).pipeline
        ≡ clear_revocation (configure_project io clean live session first_project c).pipeline
  unfolding configure_project enqueue_ops
  configure_project-again session first_project second_project c h =
      ground (arith, str_eq_refl session)

  -- An unbinding followed by a binding is a new start: the session is unbound, its pairing is
  -- forgotten, and no start counts as observed.
  pub clear_project-forgotten :
      (session : String) (c : Collector)
      → (get_key str_eq session (clear_project session c).bindings ≡ none)
        × (get_key str_eq session (clear_project session c).sessions ≡ none)
        × (is_member session (clear_project session c).started_emitted ≡ false)
  unfolding forget
  clear_project-forgotten session c = (
    get_key-delete_key str_eq session c.bindings,
    get_key-delete_key str_eq session c.sessions,
    absent c.started_emitted,
  )
    where
      absent : (ss : List String) → is_member session (without session ss) ≡ false
      absent [] = refl
      absent (s ∷ ss) = ground (arith, absent ss)
