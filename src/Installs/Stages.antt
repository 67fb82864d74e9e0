-- ===== src/Installs/Stages.antt =====
-- src/install-stages.ts: the evidence of an attempt by stages, and the class of a failure.
use dsh_ai_coding.Base.{
  is_empty_text, ℕ, Bool, true, false, String, Option, none, some, List, [], ◌∷◌, map, any_of,
  str_eq, if◌then◌else◌,
}

pub data InstallStage : Type 0 where
  authorization precheck download verify write discovery rollback : InstallStage

abbrev pub install_stages : List InstallStage
install_stages = authorization ∷ precheck ∷ download ∷ verify ∷ write ∷ discovery ∷ rollback ∷ []

pub data StageOutcome : Type 0 where
  succeeded failed skipped : StageOutcome

-- The evidence text that the code writes itself, or a text of the attempt.
pub data Detail : Type 0 where
  not_rolled_back not_executed : Detail
  observed : String → Detail

pub record StageEvidence : Type 0 where
  pub stage : InstallStage
  pub outcome : StageOutcome
  pub detail : Detail

-- `succeeded` is the map of the completed stages, as a function.
pub record InstallStageFacts : Type 0 where
  pub succeeded : InstallStage → Option String
  pub failed_stage : Option InstallStage
  pub failed_detail : String
  pub rollback : StageOutcome
  pub rollback_detail : String

abbrev pub index_of_stage : InstallStage → ℕ
index_of_stage authorization = 0
index_of_stage precheck = 1
index_of_stage download = 2
index_of_stage verify = 3
index_of_stage write = 4
index_of_stage discovery = 5
index_of_stage rollback = 6

-- `failedStage === stage`.
abbrev pub is_stage : Option InstallStage → InstallStage → Bool
is_stage none s = false
is_stage (some authorization) authorization = true
is_stage (some precheck) precheck = true
is_stage (some download) download = true
is_stage (some verify) verify = true
is_stage (some write) write = true
is_stage (some discovery) discovery = true
is_stage (some rollback) rollback = true
is_stage (some _) _ = false

abbrev pub evidence : InstallStage → StageOutcome → Detail → StageEvidence
evidence stage outcome detail = record { stage = stage; outcome = outcome; detail = detail }

unfoldable pub rollback_evidence : InstallStageFacts → StageEvidence
rollback_evidence facts = evidence rollback facts.rollback (
    if is_empty_text facts.rollback_detail then not_rolled_back else observed facts.rollback_detail)

unfoldable pub plain_evidence : InstallStageFacts → InstallStage → StageEvidence
plain_evidence facts stage =
    if is_stage facts.failed_stage stage
    then evidence stage failed (observed facts.failed_detail)
    else elim (facts.succeeded stage) [
      | none ↦ evidence stage skipped not_executed
      | some detail ↦ evidence stage succeeded (observed detail)
    ]

unfoldable pub stage_evidence : InstallStageFacts → InstallStage → StageEvidence
unfolding rollback_evidence plain_evidence
stage_evidence facts rollback = rollback_evidence facts
stage_evidence facts stage = plain_evidence facts stage

unfoldable pub build_install_stages : InstallStageFacts → List StageEvidence
unfolding stage_evidence
build_install_stages facts = map (stage_evidence facts) install_stages

-- What the operator is told to do.
pub data Guidance : Type 0 where
  check_authorization fix_request retry_later retry_download republish check_permissions : Guidance

pub record InstallFailureClass : Type 0 where
  pub stage : InstallStage
  pub retryable : Bool
  pub how : Guidance

abbrev pub authorization_codes : List String
authorization_codes =
    "SKILL_ORGANIZATION_FORBIDDEN" ∷ "SKILL_NOT_PROJECT_ASSET" ∷ "INSTALL_AUTHORIZATION_REVOKED"
    ∷ "INSTALL_AUTHORIZATION_REQUIRED" ∷ "PROJECT_NOT_AUTHORIZED" ∷ "PROJECT_NOT_MEMBER"
    ∷ "PROJECT_CONTEXT_MISMATCH" ∷ "RESOURCE_NOT_FOUND" ∷ "NOT_FOUND" ∷ []

abbrev pub validation_codes : List String
validation_codes =
    "IDEMPOTENCY_CONFLICT" ∷ "REVISION_CONFLICT" ∷ "VALIDATION_ERROR" ∷ "VALIDATION_REQUIRED"
    ∷ "INVALID_STATUS" ∷ []

abbrev pub unavailable_codes : List String
unavailable_codes = "UPSTREAM_UNAVAILABLE" ∷ "SERVICE_UNAVAILABLE" ∷ "UPSTREAM_ERROR" ∷ []

abbrev pub class_of : InstallStage → Bool → Guidance → InstallFailureClass
class_of stage retryable how = record { stage = stage; retryable = retryable; how = how }

abbrev pub precheck_first : InstallStage → InstallStage
precheck_first authorization = precheck
precheck_first stage = stage

abbrev pub local_failure : InstallStage → InstallFailureClass
local_failure download = class_of download true retry_download
local_failure verify = class_of verify false republish
local_failure stage = class_of stage false check_permissions

unfoldable pub classify_install_failure : String → InstallStage → InstallFailureClass
classify_install_failure code running =
    if any_of (str_eq code) authorization_codes
    then class_of authorization false check_authorization
    else if any_of (str_eq code) validation_codes
    then class_of precheck false fix_request
    else if any_of (str_eq code) unavailable_codes
    then class_of (precheck_first running) true retry_later
    else local_failure running
