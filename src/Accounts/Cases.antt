-- ===== src/Accounts/Cases.antt =====
-- dev/team-skill-service/src/account-store.ts: what a method of many guards leaves, by the ways in which
-- it ends.
use dsh_ai_coding.Base.{
  ℕ, false, not, String, Option, none, some, str_eq, get_key, ltb, utf16_length, ◌≡◌, ◌&&◌,
  by_guard, by_if, by_option,
}
use dsh_ai_coding.Accounts.Records.{
  AccountStore, AccountPrincipal, UserRecord, ProjectRecord, AssetKey, RelationKind, Machine,
  Outcome, is_archived,
}
use dsh_ai_coding.Accounts.Records.Audits.{
  AuditSubject, audit_success, audit_denial, audit_once, about,
}
use dsh_ai_coding.Accounts.Views.{
  AccountUserView, AssetRelationView, can_manage_project, can_manage_user,
}
use dsh_ai_coding.Accounts.Sessions.{LoginResult, change_password_of, replace_password}
use dsh_ai_coding.Accounts.Organizations.{is_stale}
use dsh_ai_coding.Accounts.Users.{
  UpdateUserInput, apply_update, update_action, is_foreign_change, suspends, is_protected,
}
use dsh_ai_coding.Accounts.Users.Changes.{update_user}
use dsh_ai_coding.Accounts.Assets.{
  has_asset, relation_of, new_relation, with_relation, asset_can_be_managed,
}
use dsh_ai_coding.Accounts.Assets.Changes.{
  edit_relation, relate, view_asset, add_project_asset, update_project_asset,
}

module _ {ℓ} (P : AccountStore → Type ℓ) (machine : Machine) (now : ℕ) where
  pub by_change_password :
      (o : Option AccountPrincipal) (old new request : String) (s : AccountStore)
      → P s
      → ((u : UserRecord) → P (replace_password machine now u new request s).0)
      → P (change_password_of machine now o old new request s).0
  unfolding change_password_of
  by_change_password none old new request s h k = h
  by_change_password (some p) old new request s h k =
      by_option Holds (get_key str_eq p.user_id s.users) (λ _. h)
        (λ u _.
          by_guard Holds (not (str_eq u.password old)) h
            (by_guard Holds (ltb (utf16_length new) 8) h (k u)))
    where
      Holds : Outcome LoginResult → Type ℓ
      Holds r = P r.0

  pub by_add_asset :
      (p : AccountPrincipal) (id : String) (key : AssetKey) (kind : RelationKind)
      (expected : Option ℕ) (request : String) (s : AccountStore)
      → P s
      → ((project : ProjectRecord)
          → P
              (view_asset machine now p
                (with_relation now key (new_relation now key kind) project)
                key
                (relate machine now p id project "项目资产关联添加" request
                  (with_relation now key (new_relation now key kind))
                  s)).0)
      → P (add_project_asset machine now p id key kind expected request s).0
  unfolding add_project_asset
  by_add_asset p id key kind expected request s h k =
      by_option Holds (get_key str_eq id s.projects) (λ _. h)
        (λ project _. by_guard Holds (not (can_manage_project s p project)) h (
          by_guard Holds (is_archived project.status) h (
            by_guard Holds (not (asset_can_be_managed s p project key)) h (
              by_guard Holds (has_asset key project) h
                (by_guard Holds (is_stale expected project.revision) h (k project))))))
    where
      Holds : Outcome AssetRelationView → Type ℓ
      Holds r = P r.0

  pub by_update_asset :
      (p : AccountPrincipal) (id : String) (key : AssetKey) (kind : RelationKind)
      (expected : Option ℕ) (request : String) (s : AccountStore)
      → P s
      → ((project : ProjectRecord)
          → P
              (view_asset machine now p (edit_relation machine now key kind project) key (
                relate machine now p id project "项目资产关联编辑" request
                  (edit_relation machine now key kind)
                  s)).0)
      → P (update_project_asset machine now p id key kind expected request s).0
  unfolding update_project_asset
  by_update_asset p id key kind expected request s h k =
      by_option Holds (get_key str_eq id s.projects) (λ _. h)
        (λ project _.
          by_option Holds (relation_of key project) (λ _. h)
            (λ relation _. by_guard Holds (not (can_manage_project s p project)) h (
              by_guard Holds (is_archived project.status) h
                (by_guard Holds (is_stale expected relation.revision) h (k project)))))
    where
      Holds : Outcome AssetRelationView → Type ℓ
      Holds r = P r.0

  pub by_update_user :
      (p : AccountPrincipal) (id : String) (input : UpdateUserInput) (expected : Option ℕ)
      (request : String) (s : AccountStore)
      → P s
      → ((subject : AuditSubject)
          → P (audit_denial machine now p "账号访问拒绝" "RESOURCE_NOT_FOUND" request subject s))
      → ((subject : AuditSubject)
          → P (audit_once machine now p "账号更新拒绝" "FORBIDDEN" request subject s))
      → ((u : UserRecord)
          → get_key str_eq id s.users ≡ some u
          → (suspends input && is_protected s u) ≡ false
          → P (
              audit_success machine now p
                (update_action input.status)
                request
                (about none (some id) none)
                (apply_update id input s)))
      → P (update_user machine now p id input expected request s).0
  unfolding update_user
  by_update_user p id input expected request s h hd ho k =
      by_option Holds (get_key str_eq id s.users) (λ _. h)
        (λ u e. by_guard Holds (not (can_manage_user s p u)) (hd _) (
          by_guard Holds (is_foreign_change s p u input) (ho _) (
            by_guard Holds (is_stale expected u.revision) h (
              by_if Holds (suspends input && is_protected s u) (λ _. h)
                (λ t.
                  by_option Holds (get_key str_eq id (apply_update id input s).users) (λ _. k u e t)
                    (λ _ _. k u e t))))))
    where
      Holds : Outcome AccountUserView → Type ℓ
      Holds r = P r.0
