-- ===== src/Accounts/Members.antt =====
-- dev/team-skill-service/src/account-store.ts: the members of a project.
use dsh_ai_coding.Base.{
  ℕ, ◌+◌, not, ◌||◌, String, Option, none, some, List, [], ◌∷◌, str_eq, if◌then◌else◌, get_key,
  set_key, Result, ok,
}
use dsh_ai_coding.Accounts.Records.{
  AccountPrincipal, UserRecord, ProjectRecord, ProjectMemberRecord, MemberStatus, removed,
  AccountStore, AccountFailure, Outcome, failure, Machine, is_member, is_active, is_archived,
}
use dsh_ai_coding.Accounts.Views.{ProjectView, is_active_member, can_manage_project}
use dsh_ai_coding.Accounts.Organizations.{refuse, is_stale}
use dsh_ai_coding.Accounts.Users.{is_open_organization}
use dsh_ai_coding.Accounts.Projects.{touched}
use dsh_ai_coding.Accounts.Projects.Changes.{change_project}

pub record ProjectMemberView : Type 0 where
  pub project_id : String
  pub organization_id : String
  pub user_id : String
  pub display_name : String
  pub status : MemberStatus
  pub joined_at : ℕ
  pub updated_at : ℕ
  pub revision : ℕ

abbrev pub member_view :
    ProjectRecord → UserRecord → String → ProjectMemberRecord → ProjectMemberView
member_view project u id m = record {
  project_id = project.project_id;
  organization_id = project.organization_id;
  user_id = id;
  display_name = u.display_name;
  status = m.status;
  joined_at = m.created_at;
  updated_at = m.updated_at;
  revision = m.revision;
}

unfoldable pub member_views :
    AccountStore → ProjectRecord → List (String × ProjectMemberRecord) → List ProjectMemberView
member_views s project [] = []
member_views s project ((id, m) ∷ ms) = elim (get_key str_eq id s.users) [
  | none ↦ member_views s project ms
  | some u ↦ member_view project u id m ∷ member_views s project ms
]

unfoldable pub list_project_members :
    AccountStore → AccountPrincipal → String → Result AccountFailure (List ProjectMemberView)
unfolding member_views
list_project_members s p id = elim (get_key str_eq id s.projects) [
  | none ↦ failure 404 "RESOURCE_NOT_FOUND"
  | some project ↦
      if can_manage_project s p project
      then ok (member_views s project project.members)
      else failure 404 "RESOURCE_NOT_FOUND"
]

-- The membership after it is set: its first date stays.
abbrev pub set_member : ℕ → Option ProjectMemberRecord → ProjectMemberRecord
set_member now none = record {
  status = MemberStatus.active;
  created_at = now;
  updated_at = now;
  revision = 1;
}
set_member now (some current) = record {
  status = MemberStatus.active;
  created_at = current.created_at;
  updated_at = now;
  revision = current.revision + 1;
}

abbrev pub removed_member : ℕ → ProjectMemberRecord → ProjectMemberRecord
removed_member now current = record current {
  status = removed;
  updated_at = now;
  revision = current.revision + 1;
}

-- The revision that the caller must know: of the membership, or of the project.
abbrev pub member_revision : ProjectRecord → Option ProjectMemberRecord → ℕ
member_revision project none = project.revision
member_revision project (some current) = current.revision

abbrev pub member_action : Option ProjectMemberRecord → String
member_action none = "项目成员添加"
member_action (some current) = elim current.status [
  | MemberStatus.active ↦ "项目成员添加"
  | removed ↦ "项目成员恢复"
]

module _ (machine : Machine) (now : ℕ) where
  abbrev pub with_member : String → ProjectMemberRecord → ProjectRecord → ProjectRecord
  with_member user m project =
      touched now (record project { members = set_key str_eq user m project.members })

  unfoldable pub set_project_member :
      AccountPrincipal → String → String → Option ℕ → String → AccountStore → Outcome ProjectView
  unfolding change_project
  set_project_member p id user expected request s = elim (get_key str_eq id s.projects) [
    | none ↦ refuse 404 "RESOURCE_NOT_FOUND" s
    | some project ↦ elim (get_key str_eq user s.users) [
      | none ↦ refuse 404 "RESOURCE_NOT_FOUND" s
      | some u ↦
          let current = get_key str_eq user project.members in
          if not (can_manage_project s p project)
          then refuse 404 "RESOURCE_NOT_FOUND" s
          else if not (is_open_organization s project.organization_id)
          then refuse 409 "ORGANIZATION_ARCHIVED" s
          else if is_archived project.status
          then refuse 409 "VALIDATION_ERROR" s
          else if not (is_active u.status)
          then refuse 422 "ACCOUNT_SUSPENDED" s
          else if not (is_active_member s user project.organization_id)
              || not (is_member u.global_role)
          then refuse 422 "VALIDATION_ERROR" s
          else if is_stale expected (member_revision project current)
          then refuse 409 "REVISION_CONFLICT" s
          else change_project machine now p id project (member_action current) request (some user)
              (with_member user (set_member now current)) s
    ]
  ]

  unfoldable pub remove_project_member :
      AccountPrincipal → String → String → Option ℕ → String → AccountStore → Outcome ProjectView
  unfolding change_project
  remove_project_member p id user expected request s = elim (get_key str_eq id s.projects) [
    | none ↦ refuse 404 "RESOURCE_NOT_FOUND" s
    | some project ↦
        if not (can_manage_project s p project)
        then refuse 404 "RESOURCE_NOT_FOUND" s
        else elim (get_key str_eq user project.members) [
          | none ↦ refuse 404 "RESOURCE_NOT_FOUND" s
          | some current ↦
              if is_archived project.status
              then refuse 409 "VALIDATION_ERROR" s
              else if is_stale expected current.revision
              then refuse 409 "REVISION_CONFLICT" s
              else change_project machine now p id project "项目成员移除" request (some user)
                  (with_member user (removed_member now current)) s
        ]
  ]
