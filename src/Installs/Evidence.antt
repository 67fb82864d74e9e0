-- ===== src/Installs/Evidence.antt =====
-- src/install-stages.ts: what the evidence of an attempt says and what may be retried.
use dsh_ai_coding.Base.{
  ◌≡◌, refl, Bool, true, false, not, ◌&&◌, ◌||◌, String, some, List, [], ◌∷◌, map, any_of, str_eq,
  is_none, All, leb, if◌then◌else◌, arith,
}
use dsh_ai_coding.Installs.Stages.{
  InstallStage, authorization, precheck, download, verify, write, discovery, rollback,
  install_stages, StageOutcome, succeeded, failed, StageEvidence, InstallStageFacts, is_stage,
  index_of_stage, rollback_evidence, plain_evidence, stage_evidence, build_install_stages,
  check_authorization, fix_request, retry_later, InstallFailureClass, class_of, precheck_first,
  local_failure, authorization_codes, validation_codes, unavailable_codes, classify_install_failure,
}

abbrev pub is_succeeded : StageOutcome → Bool
is_succeeded succeeded = true
is_succeeded _ = false

abbrev pub is_failed : StageOutcome → Bool
is_failed failed = true
is_failed _ = false

-- Whether an attempt may read as passed, or as failed, at a stage.
abbrev pub passes : InstallStageFacts → InstallStage → Bool
passes facts rollback = is_succeeded facts.rollback
passes facts stage =
    not (is_stage facts.failed_stage stage) && not (is_none (facts.succeeded stage))

abbrev pub fails : InstallStageFacts → InstallStage → Bool
fails facts rollback = is_failed facts.rollback
fails facts stage = is_stage facts.failed_stage stage

abbrev pub IsHonest : InstallStageFacts → StageEvidence → Type 0
IsHonest facts e =
    (is_succeeded e.outcome ≡ passes facts e.stage) × (is_failed e.outcome ≡ fails facts e.stage)

stage_evidence-IsHonest :
    (facts : InstallStageFacts) (stage : InstallStage)
    → ((stage_evidence facts stage).stage ≡ stage) × IsHonest facts (stage_evidence facts stage)
unfolding stage_evidence rollback_evidence plain_evidence
stage_evidence-IsHonest facts rollback = ground arith
stage_evidence-IsHonest facts authorization = ground arith
stage_evidence-IsHonest facts precheck = ground arith
stage_evidence-IsHonest facts download = ground arith
stage_evidence-IsHonest facts verify = ground arith
stage_evidence-IsHonest facts write = ground arith
stage_evidence-IsHonest facts discovery = ground arith

evidence-IsHonest :
    (facts : InstallStageFacts) (stages : List InstallStage)
    → (map (λ e. e.stage) (map (stage_evidence facts) stages) ≡ stages)
      × All (IsHonest facts) (map (stage_evidence facts) stages)
evidence-IsHonest facts [] = (refl, tt)
evidence-IsHonest facts (stage ∷ stages) = (
  cc ((stage_evidence-IsHonest facts stage).0, (evidence-IsHonest facts stages).0),
  ((stage_evidence-IsHonest facts stage).1, (evidence-IsHonest facts stages).1),
)

-- The evidence names the seven stages once each in their order; a stage other than the rollback
-- reads as passed exactly if it was recorded as completed and is not the failed one, and reads as
-- failed exactly if it is; the rollback reads as what the attempt observed of it.
pub build_install_stages-IsHonest :
    (facts : InstallStageFacts)
    → (map (λ e. e.stage) (build_install_stages facts) ≡ install_stages)
      × All (IsHonest facts) (build_install_stages facts)
unfolding build_install_stages
build_install_stages-IsHonest facts = evidence-IsHonest facts install_stages

-- The class of a failure, from what its code is a member of.
classified : Bool → Bool → Bool → InstallStage → InstallFailureClass
classified denied invalid unavailable running =
    if denied
    then class_of authorization false check_authorization
    else if invalid
    then class_of precheck false fix_request
    else if unavailable
    then class_of (precheck_first running) true retry_later
    else local_failure running

abbrev pub IsClassified : Bool → Bool → Bool → InstallStage → InstallFailureClass → Type 0
IsClassified denied invalid unavailable running c =
    (c.retryable ≡ not denied && not invalid && (unavailable || is_stage (some download) running))
    × ((denied || invalid || leb (index_of_stage running) (index_of_stage c.stage)) ≡ true)

classified-IsClassified :
    (denied invalid unavailable : Bool) (running : InstallStage)
    → IsClassified denied invalid unavailable running
        (classified denied invalid unavailable running)
unfolding classified
classified-IsClassified true invalid unavailable running = ground arith
classified-IsClassified false true unavailable running = ground arith
classified-IsClassified false false true authorization = (refl, refl)
classified-IsClassified false false true precheck = (refl, refl)
classified-IsClassified false false true download = (refl, refl)
classified-IsClassified false false true verify = (refl, refl)
classified-IsClassified false false true write = (refl, refl)
classified-IsClassified false false true discovery = (refl, refl)
classified-IsClassified false false true rollback = (refl, refl)
classified-IsClassified false false false authorization = (refl, refl)
classified-IsClassified false false false precheck = (refl, refl)
classified-IsClassified false false false download = (refl, refl)
classified-IsClassified false false false verify = (refl, refl)
classified-IsClassified false false false write = (refl, refl)
classified-IsClassified false false false discovery = (refl, refl)
classified-IsClassified false false false rollback = (refl, refl)

-- A failure may be retried exactly if its code is neither a denial nor an invalid request and
-- either names a service as unavailable or the download was running; and unless the code is a
-- denial or an invalid request, the stage that is blamed is not before the one that was running.
pub classify_install_failure-IsClassified :
    (code : String) (running : InstallStage)
    → IsClassified
        (any_of (str_eq code) authorization_codes)
        (any_of (str_eq code) validation_codes)
        (any_of (str_eq code) unavailable_codes)
        running
        (classify_install_failure code running)
unfolding classify_install_failure classified
classify_install_failure-IsClassified code running =
    classified-IsClassified (any_of (str_eq code) authorization_codes)
      (any_of (str_eq code) validation_codes) (any_of (str_eq code) unavailable_codes) running
