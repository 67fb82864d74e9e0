-- ===== src/Accounts/Trail.antt =====
-- dev/team-skill-service/src/account-store.ts: the audit log before and after each method.
use dsh_ai_coding.Base.{
  ℕ, String, Option, none, some, List, [], ◌∷◌, values, take, length, ◌≡◌, refl, arith, get_key,
  str_eq, not, ◌||◌, by_option, by_guard,
}
use dsh_ai_coding.Accounts.Records.{
  AccountStore, AccountPrincipal, Machine, Outcome, ProjectRecord, AssetKey, is_archived, is_active,
  is_member,
}
use dsh_ai_coding.Accounts.Records.Audits.{
  record_governance_denial, record_audit, audit_success, audit_denial, audit_once,
}
use dsh_ai_coding.Accounts.Views.{ProjectView, can_manage_project, is_active_member}
use dsh_ai_coding.Accounts.Sessions.{login, refresh, logout, change_password, authenticate}
use dsh_ai_coding.Accounts.Organizations.{
  is_stale, create_organization, update_organization, rename_organization,
}
use dsh_ai_coding.Accounts.Users.{
  UpdateUserInput, join_projects, is_open_organization, apply_update,
}
use dsh_ai_coding.Accounts.Users.Changes.{
  create_user, update_user, set_membership, remove_membership,
}
use dsh_ai_coding.Accounts.Projects.Changes.{
  change_project, create_project, update_project, activate_project, archive_project,
}
use dsh_ai_coding.Accounts.Members.{
  member_action, with_member, set_member, member_revision, set_project_member,
  remove_project_member,
}
use dsh_ai_coding.Accounts.Assets.{
  register_project_asset, unregister_project_asset, detach_asset_everywhere,
  register_platform_asset, with_relation, new_relation,
}
use dsh_ai_coding.Accounts.Assets.Changes.{
  view_asset, relate, edit_relation, add_project_asset, update_project_asset, remove_project_asset,
  move_project_asset,
}
use dsh_ai_coding.Accounts.Reading.{
  KeepsAudits, take-append, take-length, take-take, authorize_project-OnlyAudits,
  list_member_projects-OnlyAudits, list_project_assets-OnlyAudits, get_project_detail-OnlyAudits,
  access_summary-OnlyAudits, view_asset-OnlyAudits,
}
use dsh_ai_coding.Accounts.Cases.{by_change_password, by_add_asset, by_update_asset, by_update_user}
use dsh_ai_coding.Accounts.Commands.{
  Command, logs_in, refreshes, logs_out, changes_password, denies, creates_organization,
  updates_organization, creates_user, updates_user, sets_membership, removes_membership, authorizes,
  lists_projects, creates_project, updates_project, activates, archives, sets_member,
  removes_member, registers_asset, unregisters_asset, detaches_asset, registers_platform_asset,
  lists_assets, reads_project, adds_asset, updates_asset, removes_asset, moves_asset, summarizes,
  perform,
}

join_projects-audits :
    (now : ℕ) (user : String) (ids : List String) (s : AccountStore)
    → (join_projects now user ids s).audits ≡ s.audits
join_projects-audits now user [] s = refl
join_projects-audits now user (id ∷ ids) s = join_projects-audits now user ids _

rename_organization-audits :
    (id : String) (name : Option String) (s : AccountStore)
    → (rename_organization id name s).audits ≡ s.audits
rename_organization-audits id none s = refl
rename_organization-audits id (some name) s = ground arith

create_organization-KeepsAudits :
    (machine : Machine) (now : ℕ) (p : AccountPrincipal) (name : String) (manager : Option String)
    (request : String) (s : AccountStore)
    → KeepsAudits s (create_organization machine now p name manager request s).0
unfolding create_organization
create_organization-KeepsAudits machine now p name none request s =
    grind (arith, take-append, take-length)
create_organization-KeepsAudits machine now p name (some user) request s =
    grind (arith, take-append, take-length)

-- An audit after those of a store with the audits of the first one.
update_user-KeepsAudits :
    (machine : Machine) (now : ℕ) (p : AccountPrincipal) (id : String) (input : UpdateUserInput)
    (expected : Option ℕ) (request : String) (s : AccountStore)
    → KeepsAudits s (update_user machine now p id input expected request s).0
unfolding audit_success audit_denial audit_once apply_update
update_user-KeepsAudits machine now p id input expected request s =
    by_update_user (KeepsAudits s) machine now p id input expected request s (take-length s.audits)
      (λ subject. take-append s.audits _) (λ subject. grind (arith, take-append, take-length))
      (λ u e t. grind (arith, take-append, take-length))

change_project-KeepsAudits :
    (machine : Machine) (now : ℕ) (p : AccountPrincipal) (id : String) (project : ProjectRecord)
    (action request : String) (user : Option String) (f : ProjectRecord → ProjectRecord)
    (s : AccountStore)
    → KeepsAudits s (change_project machine now p id project action request user f s).0
unfolding change_project
change_project-KeepsAudits machine now p id project action request user f s =
    grind (arith, take-append, take-length)

relate-KeepsAudits :
    (machine : Machine) (now : ℕ) (p : AccountPrincipal) (id : String) (project : ProjectRecord)
    (action request : String) (key : AssetKey) (f : ProjectRecord → ProjectRecord)
    (s : AccountStore)
    → KeepsAudits s
        (view_asset machine now p
          (f project)
          key
          (relate machine now p id project action request f s)).0
unfolding audit_success
relate-KeepsAudits machine now p id project action request key f s =
    take-take s.audits _ _ (take-append s.audits _)
      (view_asset-OnlyAudits machine now p (f project) key
        (relate machine now p id project action request f s)).audits

set_project_member-KeepsAudits :
    (machine : Machine) (now : ℕ) (p : AccountPrincipal) (id user : String) (expected : Option ℕ)
    (request : String) (s : AccountStore)
    → KeepsAudits s (set_project_member machine now p id user expected request s).0
unfolding set_project_member
set_project_member-KeepsAudits machine now p id user expected request s =
    by_option Kept (get_key str_eq id s.projects) (λ _. same)
      (λ project _.
        by_option Kept (get_key str_eq user s.users) (λ _. same)
          (λ u _. by_guard Kept (not (can_manage_project s p project)) same (
            by_guard Kept (not (is_open_organization s project.organization_id)) same (
              by_guard Kept (is_archived project.status) same (
                by_guard Kept (not (is_active u.status)) same (
                  by_guard Kept
                    (not (is_active_member s user project.organization_id)
                      || not (is_member u.global_role))
                    same
                    (by_guard Kept
                      (is_stale expected
                        (member_revision project (get_key str_eq user project.members)))
                      same
                      (change_project-KeepsAudits machine now p id project
                        (member_action (get_key str_eq user project.members)) request (some user)
                        (with_member machine now user
                          (set_member now (get_key str_eq user project.members)))
                        s))))))))
  where
    Kept : Outcome ProjectView → Type 0
    Kept r = KeepsAudits s r.0

    same : KeepsAudits s s
    same = take-length s.audits

module _ (machine : Machine) (dashless : String → String) where
  -- Whatever method is called, every audit stays in its place in the log.
  pub perform-KeepsAudits :
      (now : ℕ) (command : Command) (s : AccountStore)
      → take (length s.audits) (perform machine dashless now command s).audits ≡ s.audits
  unfolding perform record_audit audit_success login refresh logout change_password
      record_governance_denial create_organization update_organization create_user update_user
      set_membership remove_membership create_project update_project activate_project
      archive_project set_project_member remove_project_member register_project_asset
      unregister_project_asset detach_asset_everywhere register_platform_asset add_project_asset
      update_project_asset remove_project_asset move_project_asset
  perform-KeepsAudits now (logs_in name password request) s =
      grind (arith, take-append, take-length)
  perform-KeepsAudits now (refreshes token request) s = grind (arith, take-append, take-length)
  perform-KeepsAudits now (logs_out token request) s = grind (arith, take-append, take-length)
  perform-KeepsAudits now (changes_password token old new request) s =
      by_change_password (KeepsAudits s) machine now (authenticate now s token) old new request s
        (take-length s.audits) (λ u. take-append s.audits _)
  perform-KeepsAudits now (denies p action code request target) s =
      grind (arith, take-append, take-length)
  perform-KeepsAudits now (creates_organization p name manager request) s =
      create_organization-KeepsAudits machine now p name manager request s
  perform-KeepsAudits now (updates_organization p id name status expected request) s =
      grind (arith, take-append, take-length, rename_organization-audits)
  perform-KeepsAudits now (creates_user p input request) s =
      grind (arith, take-append, take-length, join_projects-audits)
  perform-KeepsAudits now (updates_user p id input expected request) s =
      update_user-KeepsAudits machine now p id input expected request s
  perform-KeepsAudits now (sets_membership p organization user expected request) s =
      grind (arith, take-append, take-length)
  perform-KeepsAudits now (removes_membership p organization user expected request) s =
      grind (arith, take-append, take-length)
  perform-KeepsAudits now (authorizes p id request) s =
      (authorize_project-OnlyAudits machine now p id request s).audits
  perform-KeepsAudits now (lists_projects p) s =
      (list_member_projects-OnlyAudits machine now p (values s.projects) s).audits
  perform-KeepsAudits now (creates_project p input request) s =
      grind (arith, take-append, take-length)
  perform-KeepsAudits now (updates_project p id input expected request) s =
      grind (arith, take-append, take-length)
  perform-KeepsAudits now (activates p id expected request) s =
      grind (arith, take-append, take-length)
  perform-KeepsAudits now (archives p id expected request) s =
      grind (arith, take-append, take-length)
  perform-KeepsAudits now (sets_member p id user expected request) s =
      set_project_member-KeepsAudits machine now p id user expected request s
  perform-KeepsAudits now (removes_member p id user expected request) s =
      grind (arith, take-append, take-length)
  perform-KeepsAudits now (registers_asset id key kind) s = grind (arith, take-append, take-length)
  perform-KeepsAudits now (unregisters_asset id key) s = grind (arith, take-append, take-length)
  perform-KeepsAudits now (detaches_asset key) s = grind (arith, take-append, take-length)
  perform-KeepsAudits now (registers_platform_asset key) s = grind (arith, take-append, take-length)
  perform-KeepsAudits now (lists_assets p id) s =
      (list_project_assets-OnlyAudits machine now p id s).audits
  perform-KeepsAudits now (reads_project p id) s =
      (get_project_detail-OnlyAudits machine now p id s).audits
  perform-KeepsAudits now (adds_asset p id key kind expected request) s =
      by_add_asset (KeepsAudits s) machine now p id key kind expected request s
        (take-length s.audits)
        (λ project.
          relate-KeepsAudits machine now p id project "项目资产关联添加" request key
            (with_relation now key (new_relation now key kind)) s)
  perform-KeepsAudits now (updates_asset p id key kind expected request) s =
      by_update_asset (KeepsAudits s) machine now p id key kind expected request s
        (take-length s.audits)
        (λ project.
          relate-KeepsAudits machine now p id project "项目资产关联编辑" request key
            (edit_relation machine now key kind) s)
  perform-KeepsAudits now (removes_asset p id key expected request) s =
      grind (arith, take-append, take-length)
  perform-KeepsAudits now (moves_asset p key source target request) s =
      grind (arith, take-append, take-length)
  perform-KeepsAudits now (summarizes p) s = (access_summary-OnlyAudits machine now p s).audits
