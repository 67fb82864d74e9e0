-- ===== src/Accounts/Relating.antt =====
-- dev/team-skill-service/src/account-store.ts: the projects after the methods that relate assets.
use dsh_ai_coding.Base.{
  ℕ, not, ◌||◌, String, Option, str_eq, get_key, update_key, refl, sym, subst, arith, by_guard,
  by_option,
}
use dsh_ai_coding.Accounts.Records.{
  AccountStore, AccountPrincipal, ProjectRecord, AssetRelationRecord, AssetKey, RelationKind,
  Machine, is_archived,
}
use dsh_ai_coding.Accounts.Records.Audits.{record_audit, audit_success}
use dsh_ai_coding.Accounts.Views.{can_manage_project}
use dsh_ai_coding.Accounts.Organizations.{is_stale}
use dsh_ai_coding.Accounts.Assets.{
  has_asset, relation_of, new_relation, with_relation, without_relation, detached,
  detach_asset_everywhere, register_project_asset, unregister_project_asset, asset_can_be_managed,
}
use dsh_ai_coding.Accounts.Assets.Changes.{
  edit_relation, relate, moved_asset, view_asset, add_project_asset, update_project_asset,
  remove_project_asset, move_project_asset,
}
use dsh_ai_coding.Accounts.Reading.{view_asset-OnlyAudits}
use dsh_ai_coding.Accounts.Lifecycle.{Same, Carried-map_values, Same-refl}
use dsh_ai_coding.Accounts.Forward.{
  Leaves, Forward, Keeps-Forward, Keeps-trans, Forward-refl, Keeps-update_key,
}

Same-with_relation :
    (now : ℕ) (key : AssetKey) (r : AssetRelationRecord) (q : ProjectRecord)
    → Same q (with_relation now key r q)
Same-with_relation now key r q = record {
  status = refl;
  revision = omega arith;
  organization_id = refl;
  created_at = refl;
}

Same-without_relation :
    (now : ℕ) (key : AssetKey) (q : ProjectRecord) → Same q (without_relation now key q)
Same-without_relation now key q = record {
  status = refl;
  revision = omega arith;
  organization_id = refl;
  created_at = refl;
}

pub register_project_asset-Forward :
    (now : ℕ) (id : String) (key : AssetKey) (kind : RelationKind) (s : AccountStore)
    → Forward s.projects (register_project_asset now id key kind s).projects
unfolding register_project_asset
register_project_asset-Forward now id key kind s =
    by_option Kept (get_key str_eq id s.projects) (λ _. Forward-refl s.projects)
      (λ project _. by_guard Kept (has_asset key project) (Forward-refl s.projects) (
        Keeps-Forward _ _ (
          Keeps-update_key id _ s.projects
            (Same-with_relation now key (new_relation now key kind)))))
  where
    Kept : AccountStore → Type 0
    Kept t = Forward s.projects t.projects

pub unregister_project_asset-Forward :
    (now : ℕ) (id : String) (key : AssetKey) (s : AccountStore)
    → Forward s.projects (unregister_project_asset now id key s).projects
unfolding unregister_project_asset
unregister_project_asset-Forward now id key s =
    by_option Kept (get_key str_eq id s.projects) (λ _. Forward-refl s.projects)
      (λ project _.
        by_guard Kept (has_asset key project)
          (Keeps-Forward _ _ (Keeps-update_key id _ s.projects (Same-without_relation now key)))
          (Forward-refl s.projects))
  where
    Kept : AccountStore → Type 0
    Kept t = Forward s.projects t.projects

pub detach_asset_everywhere-Forward :
    (now : ℕ) (key : AssetKey) (s : AccountStore)
    → Forward s.projects (detach_asset_everywhere now key s).projects
unfolding detach_asset_everywhere
detach_asset_everywhere-Forward now key s = Keeps-Forward _ _ (
    Carried-map_values Same Same-refl (detached now key) s.projects
      (λ q. by_guard (Same q) (has_asset key q) (Same-without_relation now key q) (Same-refl q)))

module _ (machine : Machine) (now : ℕ) where
  Same-edit_relation :
      (key : AssetKey) (kind : RelationKind) (q : ProjectRecord)
      → Same q (edit_relation machine now key kind q)
  Same-edit_relation key kind q = record {
    status = refl;
    revision = omega arith;
    organization_id = refl;
    created_at = refl;
  }

  -- A changed relation is shown by a read, which changes no project.
  relate-view_asset :
      (p : AccountPrincipal) (id : String) (project : ProjectRecord) (action request : String)
      (key : AssetKey) (f : ProjectRecord → ProjectRecord) (s : AccountStore)
      → ((q : ProjectRecord) → Same q (f q))
      → Forward s.projects
          (view_asset machine now p
            (f project)
            key
            (relate machine now p id project action request f s)).0.projects
  unfolding audit_success
  relate-view_asset p id project action request key f s h =
      subst (λ ps. Forward s.projects ps)
        (sym
          (view_asset-OnlyAudits machine now p (f project) key
            (relate machine now p id project action request f s)).projects)
        (Keeps-Forward _ _ (Keeps-update_key id f s.projects h))

  pub add_project_asset-Forward :
      (p : AccountPrincipal) (id : String) (key : AssetKey) (kind : RelationKind)
      (expected : Option ℕ) (request : String) (s : AccountStore)
      → Forward s.projects
          (add_project_asset machine now p id key kind expected request s).0.projects
  unfolding add_project_asset
  add_project_asset-Forward p id key kind expected request s =
      by_option (Leaves s) (get_key str_eq id s.projects) (λ _. same)
        (λ project _. by_guard (Leaves s) (not (can_manage_project s p project)) same (
          by_guard (Leaves s) (is_archived project.status) same (
            by_guard (Leaves s) (not (asset_can_be_managed s p project key)) same (
              by_guard (Leaves s) (has_asset key project) same (
                by_guard (Leaves s) (is_stale expected project.revision) same (
                  relate-view_asset p id project _ request key _ s
                    (Same-with_relation now key (new_relation now key kind))))))))
    where
      same : Forward s.projects s.projects
      same = Forward-refl s.projects

  pub update_project_asset-Forward :
      (p : AccountPrincipal) (id : String) (key : AssetKey) (kind : RelationKind)
      (expected : Option ℕ) (request : String) (s : AccountStore)
      → Forward s.projects
          (update_project_asset machine now p id key kind expected request s).0.projects
  unfolding update_project_asset
  update_project_asset-Forward p id key kind expected request s =
      by_option (Leaves s) (get_key str_eq id s.projects) (λ _. same)
        (λ project _.
          by_option (Leaves s) (relation_of key project) (λ _. same)
            (λ relation _. by_guard (Leaves s) (not (can_manage_project s p project)) same (
              by_guard (Leaves s) (is_archived project.status) same (
                by_guard (Leaves s) (is_stale expected relation.revision) same (
                  relate-view_asset p id project _ request key _ s
                    (Same-edit_relation key kind))))))
    where
      same : Forward s.projects s.projects
      same = Forward-refl s.projects

  pub remove_project_asset-Forward :
      (p : AccountPrincipal) (id : String) (key : AssetKey) (expected : Option ℕ) (request : String)
      (s : AccountStore)
      → Forward s.projects (remove_project_asset machine now p id key expected request s).0.projects
  unfolding remove_project_asset record_audit
  remove_project_asset-Forward p id key expected request s =
      by_option (Leaves s) (get_key str_eq id s.projects) (λ _. same)
        (λ project _.
          by_option (Leaves s) (relation_of key project) (λ _. same)
            (λ relation _. by_guard (Leaves s) (not (can_manage_project s p project)) same (
              by_guard (Leaves s) (is_archived project.status) same (
                by_guard (Leaves s) (is_stale expected relation.revision) same
                  (by_option (Leaves s) (get_key str_eq id _) (λ _. removed) (λ _ _. removed))))))
    where
      same : Forward s.projects s.projects
      same = Forward-refl s.projects

      removed : Forward s.projects (update_key str_eq id (without_relation now key) s.projects)
      removed = Keeps-Forward _ _ (Keeps-update_key id _ s.projects (Same-without_relation now key))

  pub move_project_asset-Forward :
      (p : AccountPrincipal) (key : AssetKey) (source_id target_id request : String)
      (s : AccountStore)
      → Forward s.projects
          (move_project_asset machine now p key source_id target_id request s).0.projects
  unfolding move_project_asset record_audit
  move_project_asset-Forward p key source_id target_id request s =
      by_option (Leaves s) (get_key str_eq source_id s.projects) (λ _. same)
        (λ source _.
          by_option (Leaves s) (get_key str_eq target_id s.projects) (λ _. same)
            (λ target _.
              by_option (Leaves s) (relation_of key source) (λ _. same)
                (λ relation _.
                  by_guard (Leaves s)
                    (not (can_manage_project s p source) || not (can_manage_project s p target))
                    same
                    (by_guard (Leaves s)
                      (not (str_eq source.organization_id target.organization_id)) same
                      (by_guard (Leaves s) (is_archived source.status || is_archived target.status)
                        same
                        (by_option (Leaves s) (get_key str_eq target_id _) (λ _. carried relation)
                          (λ _ _. carried relation)))))))
    where
      same : Forward s.projects s.projects
      same = Forward-refl s.projects

      carried :
          (r : AssetRelationRecord)
          → Forward s.projects (moved_asset machine now key r source_id target_id s).projects
      carried r = Keeps-Forward _ _ (
          Keeps-trans s.projects _ _
            (Keeps-update_key source_id (without_relation now key) s.projects
              (Same-without_relation now key))
            (Keeps-update_key target_id _ _ (Same-with_relation now key _)))
