-- ===== src/Accounts/Users/Changes.antt =====
-- dev/team-skill-service/src/account-store.ts: the methods that change accounts and memberships.
use Prim.Native.String.{◌++◌ as str_append}
use dsh_ai_coding.Base.{
  ℕ, suc, ◌+◌, true, not, ◌&&◌, String, Option, none, some, [], ◌∷◌, all_of, str_eq, if◌then◌else◌,
  get_key, set_key, update_key, take_text, ok,
}
use dsh_ai_coding.Accounts.Records.{
  AccountPrincipal, UserRecord, AccountStore, AccountStatus, Outcome, Machine, is_admin, is_open,
}
use dsh_ai_coding.Accounts.Records.Audits.{about, audit_success, audit_denial, audit_once}
use dsh_ai_coding.Accounts.Views.{AccountUserView, user_view, can_manage_user}
use dsh_ai_coding.Accounts.Organizations.{refuse, is_stale, with_membership}
use dsh_ai_coding.Accounts.Users.{
  CreateUserInput, UpdateUserInput, is_open_organization, is_project_of, is_taken, may_create,
  initial_memberships, join_projects, shared_organization, is_foreign_change, suspends,
  is_protected, update_action, apply_update, may_configure, leave_projects, without_membership,
  view_user,
}

module _ (machine : Machine) (now : ℕ) where
  -- The initial password is the answer of the machine, without its dashes, cut to 12 characters.
  unfoldable pub create_user :
      (String → String)
      → AccountPrincipal
      → CreateUserInput
      → String
      → AccountStore
      → Outcome (AccountUserView × String)
  unfolding audit_success
  create_user dashless p input request s =
      if is_admin input.global_role
      then refuse 422 "VALIDATION_ERROR" s
      else elim input.organization_ids [
        | [] ↦ refuse 422 "VALIDATION_ERROR" s
        | organization ∷ _ ↦
            if not (all_of (is_open_organization s) input.organization_ids)
            then refuse 404 "RESOURCE_NOT_FOUND" s
            else elim (get_key str_eq p.user_id s.users) [
              | none ↦ refuse 401 "UNAUTHORIZED" s
              | some caller ↦
                  if not (may_create s p caller input)
                  then refuse 403 "FORBIDDEN" s
                  else if is_taken s input.username
                  then refuse 409 "VALIDATION_ERROR" s
                  else if not (all_of (is_project_of s input.organization_ids) input.project_ids)
                  then refuse 422 "VALIDATION_ERROR" s
                  else (stored organization, ok (user_view created, created.password))
            ]
      ]
    where
      id : String
      id = str_append "user-" (take_text 8 (machine.uuid s.drawn))

      created : UserRecord
      created = record {
        user_id = id;
        username = input.username;
        email = input.username;
        display_name = input.display_name;
        status = AccountStatus.active;
        global_role = input.global_role;
        password = str_append "dsh-" (take_text 12 (dashless (machine.uuid (suc s.drawn))));
        must_change_password = true;
        revision = 1;
        memberships = initial_memberships input.organization_ids [];
      }

      stored : String → AccountStore
      stored organization =
          audit_success machine now p "账号创建" request (about (some organization) (some id) none) (
            join_projects now id input.project_ids
              (record s { users = set_key str_eq id created s.users; drawn = suc (suc s.drawn) }))

  unfoldable pub update_user :
      AccountPrincipal
      → String
      → UpdateUserInput
      → Option ℕ
      → String
      → AccountStore
      → Outcome AccountUserView
  unfolding audit_success audit_denial audit_once apply_update
  update_user p id input expected request s = elim (get_key str_eq id s.users) [
    | none ↦ refuse 404 "RESOURCE_NOT_FOUND" s
    | some u ↦
        if not (can_manage_user s p u)
        then refuse 404 "RESOURCE_NOT_FOUND" (
            audit_denial machine now p "账号访问拒绝" "RESOURCE_NOT_FOUND" request
              (about (shared_organization s p u) (some id) none) s)
        else if is_foreign_change s p u input
        then refuse 403 "FORBIDDEN" (
            audit_once machine now p "账号更新拒绝" "FORBIDDEN" request
              (about (shared_organization s p u) (some id) none) s)
        else if is_stale expected u.revision
        then refuse 409 "REVISION_CONFLICT" s
        else if suspends input && is_protected s u
        then refuse 422 "VALIDATION_ERROR" s
        else view_user id (
            audit_success machine now p (update_action input.status) request
              (about none (some id) none) (apply_update id input s))
  ]

  unfoldable pub set_membership :
      AccountPrincipal
      → String
      → String
      → Option ℕ
      → String
      → AccountStore
      → Outcome AccountUserView
  unfolding audit_success
  set_membership p organization user expected request s =
      elim (get_key str_eq organization s.organizations) [
        | none ↦ refuse 404 "RESOURCE_NOT_FOUND" s
        | some o ↦ elim (get_key str_eq user s.users) [
          | none ↦ refuse 404 "RESOURCE_NOT_FOUND" s
          | some u ↦
              if not (is_open o.status)
              then refuse 409 "ORGANIZATION_ARCHIVED" s
              else if not (may_configure s p organization u)
              then refuse 403 "FORBIDDEN" s
              else elim (get_key str_eq organization u.memberships) [
                | none ↦ stored 1
                | some current ↦
                    if is_stale expected current.revision
                    then refuse 409 "REVISION_CONFLICT" s
                    else stored (current.revision + 1)
              ]
        ]
      ]
    where
      stored : ℕ → Outcome AccountUserView
      stored revision = view_user user (
          audit_success machine now p "组织成员变更" request (about (some organization) (some user) none)
            (record s {
              users = update_key str_eq user (with_membership organization revision) s.users;
            }))

  unfoldable pub remove_membership :
      AccountPrincipal
      → String
      → String
      → Option ℕ
      → String
      → AccountStore
      → Outcome AccountUserView
  unfolding audit_success
  remove_membership p organization user expected request s = elim (get_key str_eq user s.users) [
    | none ↦ refuse 404 "RESOURCE_NOT_FOUND" s
    | some u ↦ elim (get_key str_eq organization u.memberships) [
      | none ↦ refuse 404 "RESOURCE_NOT_FOUND" s
      | some current ↦
          if not (may_configure s p organization u)
          then refuse 403 "FORBIDDEN" s
          else if is_stale expected current.revision
          then refuse 409 "REVISION_CONFLICT" s
          else view_user user (
              audit_success machine now p "组织成员移除" request
                (about (some organization) (some user) none)
                (leave_projects organization user (record s {
                  users = update_key str_eq user (without_membership organization) s.users;
                })))
    ]
  ]
