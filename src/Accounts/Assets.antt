-- ===== src/Accounts/Assets.antt =====
-- dev/team-skill-service/src/account-store.ts: the assets that projects relate to.
pub mod Changes
use dsh_ai_coding.Base.{
  ℕ, ◌+◌, Bool, true, false, not, ◌&&◌, ◌||◌, String, Option, none, some, List, [], ◌∷◌, select,
  find_by, any_of, map, str_eq, if◌then◌else◌, get_key, set_key, delete_key, update_key, map_values,
  has_key, values, ok, err,
}
use dsh_ai_coding.Accounts.Records.{
  AccountPrincipal, ProjectRecord, AssetRelationRecord, AssetType, AssetKey, RelationKind,
  AccountStore, Outcome, Machine, same_asset_type, same_asset, is_live, is_archived,
}
use dsh_ai_coding.Accounts.Records.Audits.{about, audit_success}
use dsh_ai_coding.Accounts.Views.{
  ProjectView, project_view, AssetRelationView, relation_view, can_manage_project,
}
use dsh_ai_coding.Accounts.Organizations.{refuse, is_stale}
use dsh_ai_coding.Accounts.Projects.{on_project, touched, view_project, authorize_project}

abbrev pub has_asset : AssetKey → ProjectRecord → Bool
has_asset key project = has_key same_asset key project.assets

abbrev pub relation_of : AssetKey → ProjectRecord → Option AssetRelationRecord
relation_of key project = get_key same_asset key project.assets

-- `projectAssetIds`: the assets of one type that a project relates to.
unfoldable pub project_asset_ids : AccountStore → String → AssetType → List String
project_asset_ids s id type = elim (get_key str_eq id s.projects) [
  | none ↦ []
  | some project ↦
      map (λ r. r.asset_id)
        (select (λ r. same_asset_type r.asset_type type) (values project.assets))
]

unfoldable pub project_ids_for_asset : AccountStore → AssetKey → List String
project_ids_for_asset s key = map (λ p. p.project_id) (select (has_asset key) (values s.projects))

abbrev pub new_relation : ℕ → AssetKey → RelationKind → AssetRelationRecord
new_relation now key kind = record {
  asset_type = key.0;
  asset_id = key.1;
  relation_kind = kind;
  created_at = now;
  updated_at = now;
  revision = 1;
}

abbrev pub with_relation : ℕ → AssetKey → AssetRelationRecord → ProjectRecord → ProjectRecord
with_relation now key relation project =
    touched now (record project { assets = set_key same_asset key relation project.assets })

abbrev pub without_relation : ℕ → AssetKey → ProjectRecord → ProjectRecord
without_relation now key project =
    touched now (record project { assets = delete_key same_asset key project.assets })

unfoldable pub register_project_asset :
    ℕ → String → AssetKey → RelationKind → AccountStore → AccountStore
register_project_asset now id key kind s = elim (get_key str_eq id s.projects) [
  | none ↦ s
  | some project ↦
      if has_asset key project
      then s
      else on_project id (with_relation now key (new_relation now key kind)) s
]

unfoldable pub unregister_project_asset : ℕ → String → AssetKey → AccountStore → AccountStore
unregister_project_asset now id key s = elim (get_key str_eq id s.projects) [
  | none ↦ s
  | some project ↦ if has_asset key project then on_project id (without_relation now key) s else s
]

-- `detachAssetEverywhere`: a project without the asset stays as it is.
abbrev pub detached : ℕ → AssetKey → ProjectRecord → ProjectRecord
detached now key project =
    if has_asset key project then without_relation now key project else project

unfoldable pub detach_asset_everywhere : ℕ → AssetKey → AccountStore → AccountStore
detach_asset_everywhere now key s = record s { projects = map_values (detached now key) s.projects }

-- `Set.prototype.add`.
unfoldable pub register_platform_asset : AssetKey → AccountStore → AccountStore
register_platform_asset key s =
    if any_of (same_asset key) s.platform_assets
    then s
    else record s { platform_assets = key ∷ s.platform_assets }

abbrev pub asset_can_be_managed : AccountStore → AccountPrincipal → ProjectRecord → AssetKey → Bool
asset_can_be_managed s p project key =
    can_manage_project s p project
    && (any_of (same_asset key) s.platform_assets || any_of (has_asset key) (values s.projects))

module _ (machine : Machine) (now : ℕ) where
  -- `assetIsVisible`: a denied access to the project leaves its audit.
  unfoldable pub asset_is_visible :
      AccountPrincipal → ProjectRecord → AssetKey → AccountStore → AccountStore × Bool
  unfolding authorize_project
  asset_is_visible p project key s =
      let (next, result) = authorize_project machine now p project.project_id none s in
      (
        next,
        elim result [
          | err _ ↦ false
          | ok _ ↦ (elim (get_key str_eq project.project_id next.projects) [
            | none ↦ false
            | some held ↦ has_asset key held
          ])
        ],
      )

  -- `projectAssetsView`: who manages the project sees every relation, the others are asked for each.
  unfoldable pub relation_views :
      AccountPrincipal
      → ProjectRecord
      → List AssetRelationRecord
      → AccountStore
      → AccountStore × List AssetRelationView
  unfolding asset_is_visible
  relation_views p project [] s = (s, [])
  relation_views p project (r ∷ rs) s =
      let (next, seen) =
        if can_manage_project s p project
        then (s, true)
        else asset_is_visible p project (r.asset_type, r.asset_id) s in
      let (end, views) = relation_views p project rs next in
      (end, if seen then relation_view project r ∷ views else views)

  abbrev pub project_assets_view :
      AccountPrincipal → ProjectRecord → AccountStore → AccountStore × List AssetRelationView
  project_assets_view p project s = relation_views p project (values project.assets) s

  unfoldable pub list_project_assets :
      AccountPrincipal → String → AccountStore → Outcome (List AssetRelationView)
  unfolding relation_views
  list_project_assets p id s = elim (get_key str_eq id s.projects) [
    | none ↦ refuse 404 "RESOURCE_NOT_FOUND" s
    | some project ↦
        if not (can_manage_project s p project)
        then refuse 404 "RESOURCE_NOT_FOUND" s
        else (let (next, views) = project_assets_view p project s in (next, ok views))
  ]

  unfoldable pub get_project_detail :
      AccountPrincipal → String → AccountStore → Outcome (ProjectView × List AssetRelationView)
  unfolding relation_views authorize_project
  get_project_detail p id s = elim (get_key str_eq id s.projects) [
    | none ↦ refuse 404 "PROJECT_NOT_MEMBER" s
    | some project ↦
        if not (is_live project.status)
        then refuse 404 "PROJECT_NOT_MEMBER" s
        else let (asked, access) = authorize_project machine now p id none s in
          elim access [
            | err _ ↦ refuse 404 "PROJECT_NOT_MEMBER" asked
            | ok _ ↦
                let (next, views) = project_assets_view p project asked in
                (next, ok (project_view project, views))
          ]
  ]
