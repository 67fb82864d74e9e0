-- ===== src/Accounts/Directory.antt =====
-- dev/team-skill-service/src/account-store.ts: what callers read across the parts of the store.
pub mod People
use Prim.Native.String.{◌++◌ as str_append}
use dsh_ai_coding.Base.{
  ℕ, max, Bool, true, false, not, ◌&&◌, ◌||◌, String, Option, none, some, List, [], ◌∷◌, ◌++◌,
  select, any_of, map, str_eq, opt_eq, ◌==◌, if◌then◌else◌, get_key, keys, values, trim, includes,
  utf16_length, Result, ok,
}
use dsh_ai_coding.Accounts.Records.{
  AccountPrincipal, UserRecord, ProjectRecord, AssetType, AssetKey, ProjectStatus, AccountStore,
  AuthorizationAudit, AccountFailure, failure, Machine, is_member, is_active, is_live,
}
use dsh_ai_coding.Accounts.Views.{
  AccountUserView, user_view, MembershipView, memberships_view, OrganizationView, ProjectView,
  project_view, AssetRelationView, visible_organization_ids, is_visible, can_manage_project,
  is_active_member,
}
use dsh_ai_coding.Accounts.Organizations.{organizations_visible_to}
use dsh_ai_coding.Accounts.Users.{is_open_organization, passes}
use dsh_ai_coding.Accounts.Projects.{is_project_member}
use dsh_ai_coding.Accounts.Assets.{relation_views, project_assets_view}

-- An asset of the summary: none where it is the project itself.
pub record AssetView : Type 0 where
  pub asset_id : String
  pub asset_type : Option AssetType
  pub name : String
  pub organization_id : String
  pub project_id : String

pub record AccessSummaryView : Type 0 where
  pub organizations : List OrganizationView
  pub projects : List ProjectView
  pub assets : List AssetView
  pub management_organization_ids : List String
  pub management_project_ids : List String
  pub revision : ℕ

pub record DirectoryUserView : Type 0 where
  pub user_id : String
  pub display_name : String
  pub email : String
  pub organization_id : String
  pub groups : List String

abbrev pub project_asset : ProjectRecord → AssetView
project_asset p = record {
  asset_id = p.project_id;
  asset_type = none;
  name = p.name;
  organization_id = p.organization_id;
  project_id = p.project_id;
}

abbrev pub related_asset : ProjectRecord → AssetRelationView → AssetView
related_asset p v = record {
  asset_id = v.asset_id;
  asset_type = some v.asset_type;
  name = v.name;
  organization_id = p.organization_id;
  project_id = p.project_id;
}

-- `Math.max(1, ...revisions)`.
abbrev pub highest : List ℕ → ℕ
highest [] = 1
highest (n ∷ ns) = max n (highest ns)

-- The active projects of the organizations that a member takes part in, or that another sees.
abbrev pub summary_projects :
    AccountStore → AccountPrincipal → List OrganizationView → List ProjectRecord
summary_projects s p organizations =
    select
      (λ project.
        is_live project.status
        && any_of (λ o. str_eq o.organization_id project.organization_id) organizations
        && (not (is_member p.role) || is_project_member project p.user_id))
      (values s.projects)

module _ (machine : Machine) (now : ℕ) where
  unfoldable pub summary_assets :
      AccountPrincipal → List ProjectRecord → AccountStore → AccountStore × List AssetView
  unfolding relation_views
  summary_assets p [] s = (s, [])
  summary_assets p (project ∷ projects) s =
      let (next, views) = project_assets_view machine now p project s in
      let (end, rest) = summary_assets p projects next in
      (end, project_asset project ∷ map (related_asset project) views ++ rest)

  unfoldable pub access_summary : AccountPrincipal → AccountStore → AccountStore × AccessSummaryView
  unfolding organizations_visible_to summary_assets
  access_summary p s =
      let organizations = organizations_visible_to false s p in
      let records = summary_projects s p organizations in
      let projects = map project_view records in
      let (end, assets) = summary_assets p records s in
      (
        end,
        record {
          organizations = organizations;
          projects = projects;
          assets = assets;
          management_organization_ids = map (λ o. o.organization_id) organizations;
          management_project_ids =
              if is_member p.role then [] else map (λ v. v.project_id) projects;
          revision =
              highest (map (λ o. o.revision) organizations ++ map (λ v. v.revision) projects);
        },
      )

abbrev pub is_listed_audit :
    Option (List String) → Option String → Option String → Option String → AuthorizationAudit → Bool
is_listed_audit visible organization action project item =
    (elim visible [
      | none ↦ true
      | some ids ↦ (elim item.organization_id [ none ↦ false | some id ↦ any_of (str_eq id) ids ])
    ])
    && passes (λ id. opt_eq item.organization_id (some id)) organization
    && passes (str_eq item.action) action
    && passes (λ id. opt_eq item.project_id (some id)) project

-- Whether the caller may read the audits of the project, if one is asked for.
abbrev pub is_audited_project : AccountStore → AccountPrincipal → String → Bool
is_audited_project s p id = elim (get_key str_eq id s.projects) [
  | none ↦ false
  | some project ↦ can_manage_project s p project
]

unfoldable pub list_audits :
    AccountStore
    → AccountPrincipal
    → Option String
    → Option String
    → Option String
    → Result AccountFailure (List AuthorizationAudit)
unfolding visible_organization_ids
list_audits s p organization action project =
    let visible = visible_organization_ids s p in
    if is_member p.role
    then failure 403 "FORBIDDEN"
    else if not (passes (is_visible visible) organization)
    then failure 404 "RESOURCE_NOT_FOUND"
    else if not (passes (is_audited_project s p) project)
    then failure 404 "RESOURCE_NOT_FOUND"
    else ok (select (is_listed_audit visible organization action project) s.audits)
