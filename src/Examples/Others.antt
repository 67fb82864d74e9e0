-- ===== src/Examples/Others.antt =====
-- Settings, ledgers, installations and deployment declarations.
use dsh_ai_coding.Base.{
  ◌≡◌, refl, true, false, String, none, some, [], ◌∷◌, map, str_eq, any_of, All, ok, IfOk, Json,
  string, array, object, item, stop, field, closed,
}
use dsh_ai_coding.Telemetry.Settings.{PartialSettings, whole, resolve_telemetry_settings}
use dsh_ai_coding.Telemetry.Settings.Validity.{IsValid, resolve_telemetry_settings-IsValid}
use dsh_ai_coding.Context.Ledger.{
  allowed, suppressed, EntryInput, LedgerInput, ContextLedger, build_context_ledger,
}
use dsh_ai_coding.Context.Admission.{IsLedger, build_context_ledger-IsLedger, recorded}
use dsh_ai_coding.Installs.Stages.{
  authorization, download, skipped, InstallStageFacts, install_stages, build_install_stages,
  classify_install_failure, authorization_codes, validation_codes, unavailable_codes,
}
use dsh_ai_coding.Installs.Evidence.{
  IsHonest, build_install_stages-IsHonest, IsClassified, classify_install_failure-IsClassified,
}
use dsh_ai_coding.Installs.Store.{project, normal, InstallationRecord, parse_records}
use dsh_ai_coding.Installs.Records.{IsPlaced, parse_records-IsPlaced}
use dsh_ai_coding.Deployment.{
  PlatformDeclaration, WorkspaceDeclaration, account, platform_injection, workspace_injection,
  platform_json, workspace_json, read_declaration, declared, read_declaration-injection,
}

abbrev config : PartialSettings
config = record {
  max_events = some (whole 5);
  max_bytes = none;
  batch_max_events = some (whole 5);
  batch_max_bytes = none;
  flush_interval_ms = none;
  http_timeout_ms = none;
  max_attempts = none;
  retention_ms = none;
  claim_timeout_ms = none;
}

resolve_telemetry_settings-IsValid_example :
    IfOk (IsValid config) (resolve_telemetry_settings config)
resolve_telemetry_settings-IsValid_example = resolve_telemetry_settings-IsValid config

abbrev user_entry : EntryInput
user_entry = record {
  source = "user";
  title = "t";
  permission = allowed;
  permission_reason = none;
  selection_reason = "asked";
  injected = true;
}

abbrev safety_entry : EntryInput
safety_entry = record {
  source = "safety";
  title = "r";
  permission = suppressed;
  permission_reason = some "hidden";
  selection_reason = "rule";
  injected = false;
}

abbrev input : LedgerInput
input = record { turn = 1; step = 2; request_id = "x"; entries = user_entry ∷ safety_entry ∷ [] }

abbrev ledger : ContextLedger
ledger = record {
  turn = 1;
  step = 2;
  request_id = "x";
  entries = recorded safety_entry ∷ recorded user_entry ∷ [];
  injected_count = 1;
}

ledger-built : build_context_ledger input ≡ ok ledger
unfolding build_context_ledger
ledger-built = refl

build_context_ledger-IsLedger_example : IsLedger input ledger
build_context_ledger-IsLedger_example = build_context_ledger-IsLedger input ledger ledger-built

abbrev attempt : InstallStageFacts
attempt = record {
  succeeded = λ stage. elim stage [ authorization ↦ some "granted" | _ ↦ none ];
  failed_stage = some download;
  failed_detail = "cut";
  rollback = skipped;
  rollback_detail = "";
}

build_install_stages-IsHonest_example :
    (map (λ e. e.stage) (build_install_stages attempt) ≡ install_stages)
    × All (IsHonest attempt) (build_install_stages attempt)
build_install_stages-IsHonest_example = build_install_stages-IsHonest attempt

classify_install_failure-IsClassified_example :
    IsClassified
      (any_of (str_eq "UPSTREAM_ERROR") authorization_codes)
      (any_of (str_eq "UPSTREAM_ERROR") validation_codes)
      (any_of (str_eq "UPSTREAM_ERROR") unavailable_codes)
      download
      (classify_install_failure "UPSTREAM_ERROR" download)
classify_install_failure-IsClassified_example =
    classify_install_failure-IsClassified "UPSTREAM_ERROR" download

abbrev copy : String → InstallationRecord
copy id = record {
  local_installation_id = id;
  skill_id = "k";
  project_id = "p";
  scope = project;
  workspace_id = some "w";
  installed = record {
    runtime_name = "n";
    version = "1";
    artifact_sha256 = "h";
    directory = "d";
    files = [];
    state = normal;
  };
  installed_at = "t";
}

abbrev stored : Json
stored = object (
    field "records"
      (array (
        item
          (object (
            field "localInstallationId" (string "old") (
              field "skillId" (string "k") (
                field "projectId" (string "p") (
                  field "scope" (string "project") (
                    field "workspaceId" (string "w") (
                      field "installedAt" (string "t") (
                        field "installed"
                          (object (
                            field "runtimeName" (string "n") (
                              field "version" (string "1") (
                                field "artifactSha256" (string "h") (
                                  field "directory" (string "d") (
                                    field "files" (array stop)
                                      (field "state" (string "normal") closed)))))))
                          closed))))))))
          stop))
      closed)

stored-parsed : parse_records (some stored) ≡ ok (copy "old" ∷ [])
unfolding parse_records
stored-parsed = refl

parse_records-IsPlaced_example : All IsPlaced (copy "old" ∷ [])
parse_records-IsPlaced_example =
    parse_records-IsPlaced (some stored) (copy "old" ∷ []) stored-parsed

abbrev platform : PlatformDeclaration
platform = record { api_base_url = "https://h/v1"; access_token = none }

abbrev workspace : WorkspaceDeclaration
workspace = record { api_base_url = none; access_token = some "secret"; auth_mode = some account }

read_declaration-injection_example :
    read_declaration
      (platform_json (platform_injection (some platform)))
      (workspace_json (workspace_injection (some workspace)))
    ≡ some (declared platform workspace "https://h/v1")
read_declaration-injection_example = read_declaration-injection platform workspace
