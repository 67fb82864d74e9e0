-- ===== src/Accounts/Remaining.antt =====
-- dev/team-skill-service/src/account-store.ts: the active admins after each method.
use dsh_ai_coding.Base.{ℕ, ◌≤◌, String, values, sym, subst, arith}
use dsh_ai_coding.Accounts.Records.{
  AccountStore, AccountPrincipal, Machine, ProjectRecord, AssetKey,
}
use dsh_ai_coding.Accounts.Records.Audits.{record_governance_denial, audit_success}
use dsh_ai_coding.Accounts.Views.{admin_membership_count}
use dsh_ai_coding.Accounts.Admins.{
  admins, change_password_of-admins, create_organization-admins, create_user-admins,
  update_user-admins, set_membership-admins, remove_membership-admins,
}
use dsh_ai_coding.Accounts.History.{HasFreshIds}
use dsh_ai_coding.Accounts.Sessions.{login, refresh, logout, change_password, authenticate}
use dsh_ai_coding.Accounts.Organizations.{create_organization, update_organization}
use dsh_ai_coding.Accounts.Users.Changes.{
  create_user, update_user, set_membership, remove_membership,
}
use dsh_ai_coding.Accounts.Projects.Changes.{
  create_project, update_project, activate_project, archive_project,
}
use dsh_ai_coding.Accounts.Members.{set_project_member, remove_project_member}
use dsh_ai_coding.Accounts.Assets.{
  register_project_asset, unregister_project_asset, detach_asset_everywhere,
  register_platform_asset, with_relation, new_relation,
}
use dsh_ai_coding.Accounts.Assets.Changes.{
  view_asset, relate, edit_relation, add_project_asset, update_project_asset, remove_project_asset,
  move_project_asset,
}
use dsh_ai_coding.Accounts.Reading.{
  authorize_project-OnlyAudits, list_member_projects-OnlyAudits, list_project_assets-OnlyAudits,
  get_project_detail-OnlyAudits, access_summary-OnlyAudits, view_asset-OnlyAudits,
}
use dsh_ai_coding.Accounts.Cases.{by_add_asset, by_update_asset}
use dsh_ai_coding.Accounts.Commands.{
  Command, logs_in, refreshes, logs_out, changes_password, denies, creates_organization,
  updates_organization, creates_user, updates_user, sets_membership, removes_membership, authorizes,
  lists_projects, creates_project, updates_project, activates, archives, sets_member,
  removes_member, registers_asset, unregisters_asset, detaches_asset, registers_platform_asset,
  lists_assets, reads_project, adds_asset, updates_asset, removes_asset, moves_asset, summarizes,
  perform,
}

-- A relation that changes, and is shown after it.
relate-admin :
    (machine : Machine) (now : ℕ) (p : AccountPrincipal) (id : String) (project : ProjectRecord)
    (action request : String) (key : AssetKey) (f : ProjectRecord → ProjectRecord)
    (s : AccountStore)
    → 1 ≤ admins s.users
    → 1
      ≤ admins
          (view_asset machine now p
            (f project)
            key
            (relate machine now p id project action request f s)).0.users
unfolding audit_success
relate-admin machine now p id project action request key f s h = ground (
  arith,
  (view_asset-OnlyAudits machine now p (f project) key
      (relate machine now p id project action request f s)).users,
)

module _ (machine : Machine) (dashless : String → String) where
  -- Whatever method is called, and where a new account takes no account's id and a new project no
  -- project's id that is given already, an active admin remains where there was one.
  pub perform-admin :
      (now : ℕ) (command : Command) (s : AccountStore)
      → HasFreshIds machine command s
      → 1 ≤ admin_membership_count s
      → 1 ≤ admin_membership_count (perform machine dashless now command s)
  unfolding perform audit_success login refresh logout change_password record_governance_denial
      create_organization update_organization create_user update_user set_membership
      remove_membership create_project update_project activate_project archive_project
      set_project_member remove_project_member register_project_asset unregister_project_asset
      detach_asset_everywhere register_platform_asset add_project_asset update_project_asset
      remove_project_asset move_project_asset
  perform-admin now (logs_in name password request) s f h = ground arith
  perform-admin now (refreshes token request) s f h = ground arith
  perform-admin now (logs_out token request) s f h = ground arith
  perform-admin now (changes_password token old new request) s f h =
      omega (
        arith,
        h,
        change_password_of-admins machine now (authenticate now s token) old new request s,
      )
  perform-admin now (denies p action code request target) s f h = ground arith
  perform-admin now (creates_organization p name manager request) s f h =
      omega (arith, h, create_organization-admins machine now p name manager request s)
  perform-admin now (updates_organization p id name status expected request) s f h = ground arith
  perform-admin now (creates_user p input request) s f h =
      omega (arith, h, create_user-admins machine now dashless p input request s f)
  perform-admin now (updates_user p id input expected request) s f h =
      update_user-admins machine now p id input expected request s h
  perform-admin now (sets_membership p organization user expected request) s f h =
      omega (arith, h, set_membership-admins machine now p organization user expected request s)
  perform-admin now (removes_membership p organization user expected request) s f h =
      omega (arith, h, remove_membership-admins machine now p organization user expected request s)
  perform-admin now (authorizes p id request) s f h =
      subst (λ us. 1 ≤ admins us)
        (sym (authorize_project-OnlyAudits machine now p id request s).users) h
  perform-admin now (lists_projects p) s f h =
      subst (λ us. 1 ≤ admins us)
        (sym (list_member_projects-OnlyAudits machine now p (values s.projects) s).users) h
  perform-admin now (creates_project p input request) s f h = ground arith
  perform-admin now (updates_project p id input expected request) s f h = ground arith
  perform-admin now (activates p id expected request) s f h = ground arith
  perform-admin now (archives p id expected request) s f h = ground arith
  perform-admin now (sets_member p id user expected request) s f h = ground arith
  perform-admin now (removes_member p id user expected request) s f h = ground arith
  perform-admin now (registers_asset id key kind) s f h = ground arith
  perform-admin now (unregisters_asset id key) s f h = ground arith
  perform-admin now (detaches_asset key) s f h = ground arith
  perform-admin now (registers_platform_asset key) s f h = ground arith
  perform-admin now (lists_assets p id) s f h =
      subst (λ us. 1 ≤ admins us) (sym (list_project_assets-OnlyAudits machine now p id s).users) h
  perform-admin now (reads_project p id) s f h =
      subst (λ us. 1 ≤ admins us) (sym (get_project_detail-OnlyAudits machine now p id s).users) h
  perform-admin now (adds_asset p id key kind expected request) s f h =
      by_add_asset (λ t. 1 ≤ admins t.users) machine now p id key kind expected request s h
        (λ project.
          relate-admin machine now p id project "项目资产关联添加" request key
            (with_relation now key (new_relation now key kind)) s h)
  perform-admin now (updates_asset p id key kind expected request) s f h =
      by_update_asset (λ t. 1 ≤ admins t.users) machine now p id key kind expected request s h
        (λ project.
          relate-admin machine now p id project "项目资产关联编辑" request key
            (edit_relation machine now key kind) s h)
  perform-admin now (removes_asset p id key expected request) s f h = ground arith
  perform-admin now (moves_asset p key source target request) s f h = ground arith
  perform-admin now (summarizes p) s f h =
      subst (λ us. 1 ≤ admins us) (sym (access_summary-OnlyAudits machine now p s).users) h
