-- ===== src/Telemetry/Collector/Capture.antt =====
-- src/telemetry/backend.ts: `TeamSkillTelemetryBackend` and `CollectorController`.
use Prim.Native.String.{◌++◌ as str_append}
use dsh_ai_coding.Base.{
  ℕ, suc, Bool, false, not, ◌||◌, String, Option, none, some, List, [], ◌∷◌, any_of, select, str_eq,
  if◌then◌else◌, is_none, get_key, set_key, delete_key, field_of, Json, string, ok, err,
}
use dsh_ai_coding.Telemetry.Event.{
  TelemetryEventKind, session_started, session_finished, turn_started, turn_finished, step_started,
  step_finished, llm_request, llm_response, tool_call, tool_result, approval_requested,
  approval_resolved, compaction_completed, agent_error, delivery_gap, TelemetryEventDto, unobserved,
}
use dsh_ai_coding.Telemetry.Projection.Facts.{
  ops, ledger, SessionTelemetryRecord, ProjectedTelemetryFact, Sessions,
}
use dsh_ai_coding.Telemetry.Projection.Ledger.{project, forget, text_attribute}
use dsh_ai_coding.Telemetry.Queue.Store.{enqueue}
use dsh_ai_coding.Telemetry.Reporter.Pipeline.{
  Services, Pipeline, error_message, reading, ticked, stored,
}
use dsh_ai_coding.Telemetry.Reporter.Control.{fail_storage, clear_revocation}

-- `account` is the user id of the cached partition, none while signed out or not ready. The
-- reporter and its queue are the pipeline.
pub record Collector : Type 0 where
  pub bindings : List (String × String)
  pub started_emitted : List String
  pub received : ℕ
  pub isolated : ℕ
  pub account : Option String
  pub sessions : Sessions
  pub pipeline : Pipeline

abbrev pub kind_text : TelemetryEventKind → String
kind_text session_started = "session.started"
kind_text session_finished = "session.finished"
kind_text turn_started = "turn.started"
kind_text turn_finished = "turn.finished"
kind_text step_started = "step.started"
kind_text step_finished = "step.finished"
kind_text llm_request = "llm.request"
kind_text llm_response = "llm.response"
kind_text tool_call = "tool.call"
kind_text tool_result = "tool.result"
kind_text approval_requested = "approval.requested"
kind_text approval_resolved = "approval.resolved"
kind_text compaction_completed = "compaction.completed"
kind_text agent_error = "agent.error"
kind_text delivery_gap = "delivery.gap"

abbrev pub is_member : String → List String → Bool
is_member s ss = any_of (str_eq s) ss

abbrev pub without : String → List String → List String
without s ss = select (λ t. not (str_eq s t)) ss

abbrev pub joined : String → String → String
joined a b = str_append a (str_append ":" b)

abbrev pub clear_project : String → Collector → Collector
clear_project session c = record c {
  bindings = delete_key str_eq session c.bindings;
  sessions = forget session c.sessions;
  started_emitted = without session c.started_emitted;
}

abbrev pub set_account : Option String → Collector → Collector
set_account account c = record c { account = account }

abbrev pub is_shutdown : SessionTelemetryRecord → Bool
is_shutdown r = elim r.channel [
  | ledger ↦ false
  | ops ↦ elim (text_attribute "telemetry.op" r) [ none ↦ false | some op ↦ str_eq op "shutdown" ]
]

-- `typeof value === 'string'`.
abbrev pub text_value : Option Json → Option String
text_value (some (string s)) = some s
text_value _ = none

-- `randomUUID` in the collector draws from the same source as the queue.
abbrev pub drawn_one : Pipeline → Pipeline
drawn_one p = record p { queue = record p.queue { drawn = suc p.queue.drawn } }

module _ (io : Services) (clean : String → String) (live : String → Bool) where
  -- `queue.enqueue(event, accountId, this.now())`; a storage error stops the reporter.
  unfoldable pub enqueue_stored : TelemetryEventDto → String → Pipeline → Pipeline
  unfolding fail_storage stored
  enqueue_stored event account p =
      let (after, result) =
        stored io (λ fault q. enqueue io.runtime fault q event account (reading io p))
          (ticked io p) in
      elim result [ ok _ ↦ after | err e ↦ fail_storage (error_message e) after ]

  -- `enqueueOps` for an account that is signed in, at the time it is given.
  abbrev pub ops_event :
      String → String → TelemetryEventKind → String → ℕ → Pipeline → TelemetryEventDto
  ops_event session project kind source at p = record {
    event_id = joined p.queue.installation_id (str_append "ops:" (io.runtime.uuid p.queue.drawn));
    installation_id = p.queue.installation_id;
    project_id = project;
    session_id = some session;
    kind = kind;
    occurred_at = at;
    source_type = source;
    observed = unobserved;
  }

  unfoldable pub enqueue_ops :
      String → String → TelemetryEventKind → String → ℕ → Collector → Collector
  unfolding enqueue_stored
  enqueue_ops session project kind source at c = elim c.account [
    | none ↦ c
    | some account ↦ record c {
      pipeline =
          enqueue_stored (ops_event session project kind source at c.pipeline) account
            (drawn_one c.pipeline);
    }
  ]

  unfoldable pub configure_project : String → String → Collector → Collector
  unfolding enqueue_ops clear_revocation
  configure_project session project c =
      let bound = record c {
        bindings = set_key str_eq session project c.bindings;
        pipeline = clear_revocation c.pipeline;
      } in
      if is_member session c.started_emitted || not (live session)
      then bound
      else enqueue_ops session project session_started "collector/binding"
          (reading io bound.pipeline)
          (record bound {
            started_emitted = session ∷ c.started_emitted;
            pipeline = ticked io bound.pipeline;
          })

  abbrev pub fact_event : String → ProjectedTelemetryFact → Pipeline → TelemetryEventDto
  fact_event project fact p = record {
    event_id = joined p.queue.installation_id (elim fact.observed.source_seq [
      | none ↦ io.runtime.uuid p.queue.drawn
      | some seq ↦ joined fact.session_id (joined (io.number_text seq) (kind_text fact.kind))
    ]);
    installation_id = p.queue.installation_id;
    project_id = project;
    session_id = some fact.session_id;
    kind = fact.kind;
    occurred_at = fact.occurred_at;
    source_type = fact.source_type;
    observed = fact.observed;
  }

  abbrev pub identified : ProjectedTelemetryFact → Pipeline → Pipeline
  identified fact p = if is_none fact.observed.source_seq then drawn_one p else p

  unfoldable pub enqueue_facts : String → String → List ProjectedTelemetryFact → Pipeline → Pipeline
  unfolding enqueue_stored
  enqueue_facts project account [] p = p
  enqueue_facts project account (fact ∷ facts) p =
      enqueue_facts project account facts
        (enqueue_stored (fact_event project fact p) account (identified fact p))

  -- The end of `emit`, once the session is known to be bound and its start observed.
  unfoldable pub capture : SessionTelemetryRecord → String → String → Collector → Collector
  unfolding enqueue_facts project
  capture r session project_id c = elim c.account [
    | none ↦ record c { isolated = suc c.isolated }
    | some account ↦
        let (sessions, facts) = project clean r session c.sessions in
        record c {
          sessions = sessions;
          pipeline = enqueue_facts project_id account facts c.pipeline;
        }
  ]

  -- `emit` for a session that is bound to a project.
  unfoldable pub emit_bound : SessionTelemetryRecord → String → String → Collector → Collector
  unfolding capture
  emit_bound r session project_id c =
      let counted = record c { received = suc c.received } in
      if is_shutdown r
      then if is_member session c.started_emitted
        then capture r session project_id (clear_project session counted)
        else clear_project session counted
      else capture r session project_id counted

  -- An unbound session yields nothing.
  unfoldable pub emit_for : SessionTelemetryRecord → String → Collector → Collector
  unfolding emit_bound
  emit_for r session c = elim (get_key str_eq session c.bindings) [
    | none ↦ c
    | some project_id ↦ emit_bound r session project_id c
  ]

  -- A session id that is not a text names no session.
  unfoldable pub emit : SessionTelemetryRecord → Collector → Collector
  unfolding emit_for
  emit r c = elim (text_value (field_of "session.id" r.attributes)) [
    | none ↦ c
    | some session ↦ emit_for r session c
  ]
