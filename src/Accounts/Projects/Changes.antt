-- ===== src/Accounts/Projects/Changes.antt =====
-- dev/team-skill-service/src/account-store.ts: the methods that create, edit and move projects through their life.
use Prim.Native.String.{◌++◌ as str_append}
use dsh_ai_coding.Base.{
  ℕ, suc, not, String, Option, none, some, or_else, [], str_eq, if◌then◌else◌, get_key, set_key,
  trim, take_text, ok, err,
}
use dsh_ai_coding.Accounts.Records.{
  AccountPrincipal, OrganizationRecord, ProjectRecord, ProjectStatus, draft, AccountStore, Outcome,
  Machine, is_open, is_archived,
}
use dsh_ai_coding.Accounts.Records.Audits.{about, audit_success}
use dsh_ai_coding.Accounts.Views.{
  ProjectView, project_view, can_manage_organization, can_manage_project,
}
use dsh_ai_coding.Accounts.Organizations.{refuse, is_stale}
use dsh_ai_coding.Accounts.Projects.{
  CreateProjectInput, UpdateProjectInput, normalize_project_name, same_project_status, view_project,
  on_project, touched, is_name_taken, checked_name, is_long_description, renamed_project, described,
}

module _ (machine : Machine) (now : ℕ) where
  unfoldable pub create_project :
      AccountPrincipal → CreateProjectInput → String → AccountStore → Outcome ProjectView
  unfolding audit_success normalize_project_name
  create_project p input request s = elim (get_key str_eq input.organization_id s.organizations) [
    | none ↦ refuse 404 "RESOURCE_NOT_FOUND" s
    | some o ↦
        if not (is_open o.status)
        then refuse 404 "RESOURCE_NOT_FOUND" s
        else if not (can_manage_organization s p input.organization_id)
        then refuse 403 "FORBIDDEN" s
        else elim (normalize_project_name input.name) [
          | none ↦ refuse 422 "VALIDATION_ERROR" s
          | some name ↦
              if is_long_description input.description
              then refuse 422 "VALIDATION_ERROR" s
              else if is_name_taken machine s input.organization_id none name
              then refuse 422 "VALIDATION_ERROR" s
              else (stored o name, ok (project_view (created o name)))
        ]
  ]
    where
      id : String
      id = str_append "project-" (take_text 8 (machine.uuid s.drawn))

      created : OrganizationRecord → String → ProjectRecord
      created o name = record {
        project_id = id;
        organization_id = input.organization_id;
        organization_name = o.name;
        name = name;
        description = trim (or_else input.description "");
        created_by = p.user_id;
        created_at = now;
        updated_at = now;
        status = draft;
        revision = 1;
        members = [];
        assets = [];
      }

      stored : OrganizationRecord → String → AccountStore
      stored o name =
          audit_success machine now p "项目创建" request
            (about (some input.organization_id) none (some id))
            (record s {
              projects = set_key str_eq id (created o name) s.projects;
              drawn = suc s.drawn;
            })

  -- A change of a project that is audited and answered with its view.
  unfoldable pub change_project :
      AccountPrincipal
      → String
      → ProjectRecord
      → String
      → String
      → Option String
      → (ProjectRecord → ProjectRecord)
      → AccountStore
      → Outcome ProjectView
  unfolding audit_success
  change_project p id project action request user f s = view_project id (
      audit_success machine now p action request
        (about (some project.organization_id) user (some id)) (on_project id f s))

  -- The code writes the name before it reads the description, so a description that is too long is
  -- refused after the rename.
  unfoldable pub update_project :
      AccountPrincipal
      → String
      → UpdateProjectInput
      → Option ℕ
      → String
      → AccountStore
      → Outcome ProjectView
  unfolding change_project normalize_project_name
  update_project p id input expected request s = elim (get_key str_eq id s.projects) [
    | none ↦ refuse 404 "RESOURCE_NOT_FOUND" s
    | some project ↦
        if not (can_manage_project s p project)
        then refuse 404 "RESOURCE_NOT_FOUND" s
        else if is_archived project.status
        then refuse 409 "VALIDATION_ERROR" s
        else if is_stale expected project.revision
        then refuse 409 "REVISION_CONFLICT" s
        else elim (checked_name machine s project input.name) [
          | err e ↦ (s, err e)
          | ok name ↦
              if is_long_description input.description
              then refuse 422 "VALIDATION_ERROR" (on_project id (renamed_project name) s)
              else change_project p id project "项目编辑" request none
                  (λ q. touched now (described input.description (renamed_project name q))) s
        ]
  ]

  unfoldable pub transition_project :
      AccountPrincipal
      → String
      → ProjectStatus
      → ProjectStatus
      → Option ℕ
      → String
      → String
      → AccountStore
      → Outcome ProjectView
  unfolding change_project
  transition_project p id from to expected request action s = elim (get_key str_eq id s.projects) [
    | none ↦ refuse 404 "RESOURCE_NOT_FOUND" s
    | some project ↦
        if not (can_manage_project s p project)
        then refuse 404 "RESOURCE_NOT_FOUND" s
        else if not (same_project_status project.status from)
        then refuse 422 "VALIDATION_ERROR" s
        else if is_stale expected project.revision
        then refuse 409 "REVISION_CONFLICT" s
        else change_project p id project action request none
            (λ q. touched now (record q { status = to })) s
  ]

  unfoldable pub activate_project :
      AccountPrincipal → String → Option ℕ → String → AccountStore → Outcome ProjectView
  unfolding transition_project
  activate_project p id expected request =
      transition_project p id draft ProjectStatus.active expected request "项目激活"

  unfoldable pub archive_project :
      AccountPrincipal → String → Option ℕ → String → AccountStore → Outcome ProjectView
  unfolding transition_project
  archive_project p id expected request =
      transition_project p id ProjectStatus.active ProjectStatus.archived expected request "项目归档"
