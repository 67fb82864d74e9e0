-- ===== src/Accounts/Assets/Changes.antt =====
-- dev/team-skill-service/src/account-store.ts: the methods that relate assets to projects, edit and move the relations.
use dsh_ai_coding.Base.{
  ℕ, ◌+◌, not, ◌||◌, String, Option, none, some, find_by, str_eq, if◌then◌else◌, get_key,
  update_key, ok,
}
use dsh_ai_coding.Accounts.Records.{
  AccountPrincipal, ProjectRecord, AssetRelationRecord, AssetKey, RelationKind, AccountStore,
  Outcome, Machine, same_asset, is_archived,
}
use dsh_ai_coding.Accounts.Records.Audits.{about, audit_success}
use dsh_ai_coding.Accounts.Views.{ProjectView, AssetRelationView, can_manage_project}
use dsh_ai_coding.Accounts.Organizations.{refuse, is_stale}
use dsh_ai_coding.Accounts.Projects.{on_project, view_project}
use dsh_ai_coding.Accounts.Assets.{
  has_asset, relation_of, new_relation, with_relation, without_relation, asset_can_be_managed,
  relation_views, project_assets_view,
}

module _ (machine : Machine) (now : ℕ) where
  -- A relation as it is shown after a change of it, which answers 500 where it is not seen.
  abbrev pub view_asset :
      AccountPrincipal → ProjectRecord → AssetKey → AccountStore → Outcome AssetRelationView
  view_asset p project key s =
      let (next, views) = project_assets_view machine now p project s in
      elim (find_by (λ v. same_asset (v.asset_type, v.asset_id) key) views) [
        | none ↦ refuse 500 "INTERNAL_ERROR" next
        | some view ↦ (next, ok view)
      ]

  -- A change of the relations of a project, with its audit.
  abbrev pub relate :
      AccountPrincipal
      → String
      → ProjectRecord
      → String
      → String
      → (ProjectRecord → ProjectRecord)
      → AccountStore
      → AccountStore
  relate p id project action request f s =
      audit_success machine now p action request
        (about (some project.organization_id) none (some id)) (on_project id f s)

  unfoldable pub add_project_asset :
      AccountPrincipal
      → String
      → AssetKey
      → RelationKind
      → Option ℕ
      → String
      → AccountStore
      → Outcome AssetRelationView
  unfolding audit_success relation_views
  add_project_asset p id key kind expected request s = elim (get_key str_eq id s.projects) [
    | none ↦ refuse 404 "RESOURCE_NOT_FOUND" s
    | some project ↦
        let change = with_relation now key (new_relation now key kind) in
        if not (can_manage_project s p project)
        then refuse 404 "RESOURCE_NOT_FOUND" s
        else if is_archived project.status
        then refuse 409 "VALIDATION_ERROR" s
        else if not (asset_can_be_managed s p project key)
        then refuse 422 "VALIDATION_ERROR" s
        else if has_asset key project
        then refuse 409 "VALIDATION_ERROR" s
        else if is_stale expected project.revision
        then refuse 409 "REVISION_CONFLICT" s
        else view_asset p (change project) key (relate p id project "项目资产关联添加" request change s)
  ]

  abbrev pub edited : RelationKind → AssetRelationRecord → AssetRelationRecord
  edited kind r = record r { relation_kind = kind; updated_at = now; revision = r.revision + 1 }

  abbrev pub edit_relation : AssetKey → RelationKind → ProjectRecord → ProjectRecord
  edit_relation key kind q = record q { assets = update_key same_asset key (edited kind) q.assets }

  -- The project keeps its own revision where one of its relations is edited.
  unfoldable pub update_project_asset :
      AccountPrincipal
      → String
      → AssetKey
      → RelationKind
      → Option ℕ
      → String
      → AccountStore
      → Outcome AssetRelationView
  unfolding audit_success relation_views
  update_project_asset p id key kind expected request s = elim (get_key str_eq id s.projects) [
    | none ↦ refuse 404 "RESOURCE_NOT_FOUND" s
    | some project ↦ elim (relation_of key project) [
      | none ↦ refuse 404 "RESOURCE_NOT_FOUND" s
      | some relation ↦
          if not (can_manage_project s p project)
          then refuse 404 "RESOURCE_NOT_FOUND" s
          else if is_archived project.status
          then refuse 409 "VALIDATION_ERROR" s
          else if is_stale expected relation.revision
          then refuse 409 "REVISION_CONFLICT" s
          else view_asset p (edit_relation key kind project) key
              (relate p id project "项目资产关联编辑" request (edit_relation key kind) s)
    ]
  ]

  unfoldable pub remove_project_asset :
      AccountPrincipal → String → AssetKey → Option ℕ → String → AccountStore → Outcome ProjectView
  unfolding audit_success
  remove_project_asset p id key expected request s = elim (get_key str_eq id s.projects) [
    | none ↦ refuse 404 "RESOURCE_NOT_FOUND" s
    | some project ↦ elim (relation_of key project) [
      | none ↦ refuse 404 "RESOURCE_NOT_FOUND" s
      | some relation ↦
          if not (can_manage_project s p project)
          then refuse 404 "RESOURCE_NOT_FOUND" s
          else if is_archived project.status
          then refuse 409 "VALIDATION_ERROR" s
          else if is_stale expected relation.revision
          then refuse 409 "REVISION_CONFLICT" s
          else view_project id (relate p id project "项目资产关联移除" request (without_relation now key) s)
    ]
  ]

  -- The relation leaves the source and enters the target, one after the other: the two may be the
  -- same project.
  abbrev pub moved_asset :
      AssetKey → AssetRelationRecord → String → String → AccountStore → AccountStore
  moved_asset key relation source target s =
      on_project target
        (with_relation now key
          (record relation { updated_at = now; revision = relation.revision + 1 }))
        (on_project source (without_relation now key) s)

  unfoldable pub move_project_asset :
      AccountPrincipal → AssetKey → String → String → String → AccountStore → Outcome ProjectView
  unfolding audit_success
  move_project_asset p key source_id target_id request s =
      elim (get_key str_eq source_id s.projects) [
        | none ↦ refuse 404 "RESOURCE_NOT_FOUND" s
        | some source ↦ elim (get_key str_eq target_id s.projects) [
          | none ↦ refuse 404 "RESOURCE_NOT_FOUND" s
          | some target ↦ elim (relation_of key source) [
            | none ↦ refuse 404 "RESOURCE_NOT_FOUND" s
            | some relation ↦
                if not (can_manage_project s p source) || not (can_manage_project s p target)
                then refuse 404 "RESOURCE_NOT_FOUND" s
                else if not (str_eq source.organization_id target.organization_id)
                then refuse 403 "MEMORY_SCOPE_FORBIDDEN" s
                else if is_archived source.status || is_archived target.status
                then refuse 409 "VALIDATION_ERROR" s
                else view_project target_id (
                    audit_success machine now p "项目资产范围移动" request
                      (about (some target.organization_id) none (some target_id))
                      (moved_asset key relation source_id target_id s))
          ]
        ]
      ]
