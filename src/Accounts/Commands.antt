-- ===== src/Accounts/Commands.antt =====
-- dev/team-skill-service/src/account-store.ts: the methods that may change the store as one step
-- function, for what holds of every history of calls.
use dsh_ai_coding.Base.{ℕ, String, Option, List, [], ◌∷◌, values}
use dsh_ai_coding.Accounts.Records.{
  AccountPrincipal, AccountStore, AssetKey, RelationKind, OrganizationStatus, Machine,
}
use dsh_ai_coding.Accounts.Records.Audits.{record_governance_denial}
use dsh_ai_coding.Accounts.Sessions.{login, refresh, logout, change_password}
use dsh_ai_coding.Accounts.Organizations.{create_organization, update_organization}
use dsh_ai_coding.Accounts.Users.{CreateUserInput, UpdateUserInput}
use dsh_ai_coding.Accounts.Users.Changes.{
  create_user, update_user, set_membership, remove_membership,
}
use dsh_ai_coding.Accounts.Projects.{
  CreateProjectInput, UpdateProjectInput, authorize_project, list_member_projects,
}
use dsh_ai_coding.Accounts.Projects.Changes.{
  create_project, update_project, activate_project, archive_project,
}
use dsh_ai_coding.Accounts.Members.{set_project_member, remove_project_member}
use dsh_ai_coding.Accounts.Assets.{
  register_project_asset, unregister_project_asset, detach_asset_everywhere,
  register_platform_asset, list_project_assets, get_project_detail,
}
use dsh_ai_coding.Accounts.Assets.Changes.{
  add_project_asset, update_project_asset, remove_project_asset, move_project_asset,
}
use dsh_ai_coding.Accounts.Directory.{access_summary}

pub data Command : Type 0 where
  logs_in : String → String → String → Command
  refreshes : String → String → Command
  logs_out : String → String → Command
  changes_password : String → String → String → String → Command
  denies : AccountPrincipal → String → String → String → Option String → Command
  creates_organization : AccountPrincipal → String → Option String → String → Command
  updates_organization :
      AccountPrincipal
      → String
      → Option String
      → Option OrganizationStatus
      → Option ℕ
      → String
      → Command
  creates_user : AccountPrincipal → CreateUserInput → String → Command
  updates_user : AccountPrincipal → String → UpdateUserInput → Option ℕ → String → Command
  sets_membership : AccountPrincipal → String → String → Option ℕ → String → Command
  removes_membership : AccountPrincipal → String → String → Option ℕ → String → Command
  authorizes : AccountPrincipal → String → Option String → Command
  lists_projects : AccountPrincipal → Command
  creates_project : AccountPrincipal → CreateProjectInput → String → Command
  updates_project : AccountPrincipal → String → UpdateProjectInput → Option ℕ → String → Command
  activates : AccountPrincipal → String → Option ℕ → String → Command
  archives : AccountPrincipal → String → Option ℕ → String → Command
  sets_member : AccountPrincipal → String → String → Option ℕ → String → Command
  removes_member : AccountPrincipal → String → String → Option ℕ → String → Command
  registers_asset : String → AssetKey → RelationKind → Command
  unregisters_asset : String → AssetKey → Command
  detaches_asset : AssetKey → Command
  registers_platform_asset : AssetKey → Command
  lists_assets : AccountPrincipal → String → Command
  reads_project : AccountPrincipal → String → Command
  adds_asset : AccountPrincipal → String → AssetKey → RelationKind → Option ℕ → String → Command
  updates_asset : AccountPrincipal → String → AssetKey → RelationKind → Option ℕ → String → Command
  removes_asset : AccountPrincipal → String → AssetKey → Option ℕ → String → Command
  moves_asset : AccountPrincipal → AssetKey → String → String → String → Command
  summarizes : AccountPrincipal → Command

-- The store after a call at an instant. `dashless` is `replaceAll('-', '')`.
module _ (machine : Machine) (dashless : String → String) where
  unfoldable pub perform : ℕ → Command → AccountStore → AccountStore
  perform now (logs_in name password request) s = (login machine now name password request s).0
  perform now (refreshes token request) s = (refresh machine now token request s).0
  perform now (logs_out token request) s = logout machine now token request s
  perform now (changes_password token old new request) s =
      (change_password machine now token old new request s).0
  perform now (denies p action code request target) s =
      record_governance_denial machine now p action code request target s
  perform now (creates_organization p name manager request) s =
      (create_organization machine now p name manager request s).0
  perform now (updates_organization p id name status expected request) s =
      (update_organization machine now p id name status expected request s).0
  perform now (creates_user p input request) s =
      (create_user machine now dashless p input request s).0
  perform now (updates_user p id input expected request) s =
      (update_user machine now p id input expected request s).0
  perform now (sets_membership p organization user expected request) s =
      (set_membership machine now p organization user expected request s).0
  perform now (removes_membership p organization user expected request) s =
      (remove_membership machine now p organization user expected request s).0
  perform now (authorizes p id request) s = (authorize_project machine now p id request s).0
  perform now (lists_projects p) s = (list_member_projects machine now p (values s.projects) s).0
  perform now (creates_project p input request) s = (create_project machine now p input request s).0
  perform now (updates_project p id input expected request) s =
      (update_project machine now p id input expected request s).0
  perform now (activates p id expected request) s =
      (activate_project machine now p id expected request s).0
  perform now (archives p id expected request) s =
      (archive_project machine now p id expected request s).0
  perform now (sets_member p id user expected request) s =
      (set_project_member machine now p id user expected request s).0
  perform now (removes_member p id user expected request) s =
      (remove_project_member machine now p id user expected request s).0
  perform now (registers_asset id key kind) s = register_project_asset now id key kind s
  perform now (unregisters_asset id key) s = unregister_project_asset now id key s
  perform now (detaches_asset key) s = detach_asset_everywhere now key s
  perform now (registers_platform_asset key) s = register_platform_asset key s
  perform now (lists_assets p id) s = (list_project_assets machine now p id s).0
  perform now (reads_project p id) s = (get_project_detail machine now p id s).0
  perform now (adds_asset p id key kind expected request) s =
      (add_project_asset machine now p id key kind expected request s).0
  perform now (updates_asset p id key kind expected request) s =
      (update_project_asset machine now p id key kind expected request s).0
  perform now (removes_asset p id key expected request) s =
      (remove_project_asset machine now p id key expected request s).0
  perform now (moves_asset p key source target request) s =
      (move_project_asset machine now p key source target request s).0
  perform now (summarizes p) s = (access_summary machine now p s).0

  -- Calls, each at its instant, the first one first.
  unfoldable pub perform_all : List (ℕ × Command) → AccountStore → AccountStore
  unfolding perform
  perform_all [] s = s
  perform_all ((now, command) ∷ commands) s = perform_all commands (perform now command s)
