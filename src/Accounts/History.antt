-- ===== src/Accounts/History.antt =====
-- dev/team-skill-service/src/account-store.ts: what holds of every call of the store.
use Prim.Native.String.{◌++◌ as str_append}
use dsh_ai_coding.Base.{
  ℕ, String, Option, none, some, str_eq, get_key, take_text, values, ◌≡◌, refl, arith,
}
use dsh_ai_coding.Accounts.Records.{AccountStore, AccountPrincipal, ProjectStatus, draft, Machine}
use dsh_ai_coding.Accounts.Records.Audits.{record_governance_denial, record_audit}
use dsh_ai_coding.Accounts.Sessions.{
  login, refresh, logout, change_password, change_password_of, replace_password, authenticate,
}
use dsh_ai_coding.Accounts.Organizations.{create_organization}
use dsh_ai_coding.Accounts.Users.Changes.{update_user, set_membership}
use dsh_ai_coding.Accounts.Projects.Changes.{activate_project, archive_project}
use dsh_ai_coding.Accounts.Assets.{register_platform_asset}
use dsh_ai_coding.Accounts.Reading.{
  authorize_project-OnlyAudits, list_member_projects-OnlyAudits, list_project_assets-OnlyAudits,
  get_project_detail-OnlyAudits, access_summary-OnlyAudits,
}
use dsh_ai_coding.Accounts.Lifecycle.{activated, archived, Next, Carried}
use dsh_ai_coding.Accounts.Forward.{Forward-eq, transition_project-Forward}
use dsh_ai_coding.Accounts.Writers.{
  update_project-Forward, create_project-Forward, set_project_member-Forward,
  remove_project_member-Forward,
}
use dsh_ai_coding.Accounts.Owners.{
  create_user-Forward, remove_membership-Forward, update_organization-Forward,
}
use dsh_ai_coding.Accounts.Relating.{
  register_project_asset-Forward, unregister_project_asset-Forward, detach_asset_everywhere-Forward,
  add_project_asset-Forward, update_project_asset-Forward, remove_project_asset-Forward,
  move_project_asset-Forward,
}
use dsh_ai_coding.Accounts.Cases.{by_change_password}
use dsh_ai_coding.Accounts.Commands.{
  Command, logs_in, refreshes, logs_out, changes_password, denies, creates_organization,
  updates_organization, creates_user, updates_user, sets_membership, removes_membership, authorizes,
  lists_projects, creates_project, updates_project, activates, archives, sets_member,
  removes_member, registers_asset, unregisters_asset, detaches_asset, registers_platform_asset,
  lists_assets, reads_project, adds_asset, updates_asset, removes_asset, moves_asset, summarizes,
  perform,
}

-- The ids that a command gives are not taken.
abbrev pub HasFreshIds : Machine → Command → AccountStore → Type 0
HasFreshIds machine (creates_user p input request) s =
    get_key str_eq (str_append "user-" (take_text 8 (machine.uuid s.drawn))) s.users ≡ none
HasFreshIds machine (creates_project p input request) s =
    get_key str_eq (str_append "project-" (take_text 8 (machine.uuid s.drawn))) s.projects ≡ none
HasFreshIds machine _ s = Unit

change_password_of-projects :
    (machine : Machine) (now : ℕ) (o : Option AccountPrincipal) (old new request : String)
    (s : AccountStore)
    → (change_password_of machine now o old new request s).0.projects ≡ s.projects
unfolding replace_password record_audit
change_password_of-projects machine now o old new request s =
    by_change_password (λ t. t.projects ≡ s.projects) machine now o old new request s refl
      (λ u. refl)

create_organization-projects :
    (machine : Machine) (now : ℕ) (p : AccountPrincipal) (name : String) (manager : Option String)
    (request : String) (s : AccountStore)
    → (create_organization machine now p name manager request s).0.projects ≡ s.projects
unfolding create_organization
create_organization-projects machine now p name none request s = ground arith
create_organization-projects machine now p name (some user) request s = ground arith

module _ (machine : Machine) (dashless : String → String) where
  -- Whatever method is called, and where a new project takes no project's id and a new account no
  -- account's id that is given already, every project stays under its id, in its organization and with its date, its revision never falls, and its state
  -- is as it was, or goes from draft to active, or from active to archived.
  pub perform-Carried :
      (now : ℕ) (command : Command) (s : AccountStore)
      → HasFreshIds machine command s
      → (id : String)
      → Carried Next
          (get_key str_eq id s.projects)
          (get_key str_eq id (perform machine dashless now command s).projects)
  unfolding perform login refresh logout change_password record_governance_denial
      create_organization update_user set_membership activate_project archive_project
      register_platform_asset
  perform-Carried now (logs_in name password request) s f = Forward-eq s.projects _ (ground arith)
  perform-Carried now (refreshes token request) s f = Forward-eq s.projects _ (ground arith)
  perform-Carried now (logs_out token request) s f = Forward-eq s.projects _ (ground arith)
  perform-Carried now (changes_password token old new request) s f =
      Forward-eq s.projects _
        (change_password_of-projects machine now (authenticate now s token) old new request s)
  perform-Carried now (denies p action code request target) s f =
      Forward-eq s.projects _ (ground arith)
  perform-Carried now (creates_organization p name manager request) s f =
      Forward-eq s.projects _ (create_organization-projects machine now p name manager request s)
  perform-Carried now (updates_organization p id name status expected request) s f =
      update_organization-Forward machine now p id name status expected request s
  perform-Carried now (creates_user p input request) s f =
      create_user-Forward machine now dashless p input request s
  perform-Carried now (updates_user p id input expected request) s f =
      Forward-eq s.projects _ (ground arith)
  perform-Carried now (sets_membership p organization user expected request) s f =
      Forward-eq s.projects _ (ground arith)
  perform-Carried now (removes_membership p organization user expected request) s f =
      remove_membership-Forward machine now p organization user expected request s
  perform-Carried now (authorizes p id request) s f =
      Forward-eq s.projects _ (authorize_project-OnlyAudits machine now p id request s).projects
  perform-Carried now (lists_projects p) s f =
      Forward-eq s.projects _
        (list_member_projects-OnlyAudits machine now p (values s.projects) s).projects
  perform-Carried now (creates_project p input request) s f =
      create_project-Forward machine now p input request s f
  perform-Carried now (updates_project p id input expected request) s f =
      update_project-Forward machine now p id input expected request s
  perform-Carried now (activates p id expected request) s f =
      transition_project-Forward machine now p id draft ProjectStatus.active expected request "项目激活"
        s activated
  perform-Carried now (archives p id expected request) s f =
      transition_project-Forward machine now p id ProjectStatus.active ProjectStatus.archived
        expected request "项目归档" s archived
  perform-Carried now (sets_member p id user expected request) s f =
      set_project_member-Forward machine now p id user expected request s
  perform-Carried now (removes_member p id user expected request) s f =
      remove_project_member-Forward machine now p id user expected request s
  perform-Carried now (registers_asset id key kind) s f =
      register_project_asset-Forward now id key kind s
  perform-Carried now (unregisters_asset id key) s f = unregister_project_asset-Forward now id key s
  perform-Carried now (detaches_asset key) s f = detach_asset_everywhere-Forward now key s
  perform-Carried now (registers_platform_asset key) s f = Forward-eq s.projects _ (ground arith)
  perform-Carried now (lists_assets p id) s f =
      Forward-eq s.projects _ (list_project_assets-OnlyAudits machine now p id s).projects
  perform-Carried now (reads_project p id) s f =
      Forward-eq s.projects _ (get_project_detail-OnlyAudits machine now p id s).projects
  perform-Carried now (adds_asset p id key kind expected request) s f =
      add_project_asset-Forward machine now p id key kind expected request s
  perform-Carried now (updates_asset p id key kind expected request) s f =
      update_project_asset-Forward machine now p id key kind expected request s
  perform-Carried now (removes_asset p id key expected request) s f =
      remove_project_asset-Forward machine now p id key expected request s
  perform-Carried now (moves_asset p key source target request) s f =
      move_project_asset-Forward machine now p key source target request s
  perform-Carried now (summarizes p) s f =
      Forward-eq s.projects _ (access_summary-OnlyAudits machine now p s).projects
