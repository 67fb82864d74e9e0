-- ===== src/Accounts/Users.antt =====
-- dev/team-skill-service/src/account-store.ts: accounts and their memberships in organizations.
pub mod Changes
use Prim.Native.String.{◌++◌ as str_append}
use dsh_ai_coding.Base.{
  ℕ, suc, ◌+◌, Bool, true, false, not, ◌&&◌, ◌||◌, String, Option, none, some, is_none, or_else,
  List, [], ◌∷◌, select, any_of, all_of, map, find_by, str_eq, leb, if◌then◌else◌, get_key, set_key,
  delete_key, update_key, map_values, has_key, values, keys, trim, is_blank, includes,
  is_empty_text, take_text, Result, ok,
}
use dsh_ai_coding.Accounts.Records.{
  AccountPrincipal, UserRecord, MembershipRecord, ProjectRecord, ProjectMemberRecord, AccountStore,
  AccountRole, AccountStatus, suspended, MemberStatus, AccountFailure, Outcome, failure, Machine,
  is_admin, is_manager, is_member, is_active, is_open,
}
use dsh_ai_coding.Accounts.Records.Audits.{about, audit_success, audit_denial, audit_once}
use dsh_ai_coding.Accounts.Views.{
  AccountUserView, user_view, admin_user_view, memberships_view, is_active_member,
  visible_organization_ids, is_visible, can_manage_user, is_active_admin, admin_membership_count,
}
use dsh_ai_coding.Accounts.Sessions.{revoke_user_sessions}
use dsh_ai_coding.Accounts.Organizations.{refuse, is_stale, with_membership}

abbrev pub same_role : AccountRole → AccountRole → Bool
same_role a b =
    (is_admin a && is_admin b) || (is_manager a && is_manager b) || (is_member a && is_member b)

abbrev pub same_status : AccountStatus → AccountStatus → Bool
same_status a b = (is_active a && is_active b) || (not (is_active a) && not (is_active b))

-- A filter that is not given lets everything pass.
abbrev pub passes {ℓ} : {A : Type ℓ} → (A → Bool) → Option A → Bool
passes test none = true
passes test (some a) = test a

pub record CreateUserInput : Type 0 where
  pub username : String
  pub display_name : String
  pub organization_ids : List String
  pub global_role : AccountRole
  pub project_ids : List String

pub record UpdateUserInput : Type 0 where
  pub display_name : Option String
  pub status : Option AccountStatus

module _ (machine : Machine) where
  abbrev pub matches_query : String → UserRecord → Bool
  matches_query query u =
      is_empty_text query
      || includes (machine.lower (str_append u.username (str_append u.email u.display_name)))
          (machine.lower query)

  unfoldable pub list_users :
      AccountStore
      → AccountPrincipal
      → Option String
      → Option AccountRole
      → Option AccountStatus
      → String
      → Result AccountFailure (List AccountUserView)
  unfolding visible_organization_ids admin_user_view
  list_users s p organization role status query =
      if is_member p.role
      then failure 403 "FORBIDDEN"
      else if not (passes (is_visible visible) organization)
      then failure 404 "RESOURCE_NOT_FOUND"
      else ok (map (admin_user_view s visible) (select listed (values s.users)))
    where
      visible : Option (List String)
      visible = visible_organization_ids s p

      listed : UserRecord → Bool
      listed u =
          (is_none visible || any_of (is_visible visible) (keys u.memberships))
          && passes (λ id. has_key str_eq id u.memberships) organization
          && passes (same_role u.global_role) role
          && passes (same_status u.status) status
          && matches_query query u

abbrev pub is_open_organization : AccountStore → String → Bool
is_open_organization s id = elim (get_key str_eq id s.organizations) [
  | none ↦ false
  | some o ↦ is_open o.status
]

-- Whether a project is there and belongs to one of the organizations.
abbrev pub is_project_of : AccountStore → List String → String → Bool
is_project_of s organizations id = elim (get_key str_eq id s.projects) [
  | none ↦ false
  | some p ↦ any_of (str_eq p.organization_id) organizations
]

abbrev pub is_taken : AccountStore → String → Bool
is_taken s name = any_of (λ u. str_eq u.username name || str_eq u.email name) (values s.users)

-- The organizations of the caller, in which only an admin need not be.
abbrev pub may_create : AccountStore → AccountPrincipal → UserRecord → CreateUserInput → Bool
may_create s p caller input =
    is_admin p.role
    || (is_member input.global_role
        && all_of
            (λ id.
              any_of (str_eq id)
                (map (λ v. v.organization_id) (memberships_view s none caller.memberships)))
            input.organization_ids)

-- `memberships: new Map(organizationIds.map(…))`.
abbrev pub initial_memberships :
    List String → List (String × MembershipRecord) → List (String × MembershipRecord)
initial_memberships [] m = m
initial_memberships (id ∷ ids) m =
    initial_memberships ids
      (set_key str_eq id (record { status = AccountStatus.active; revision = 1 }) m)

abbrev pub new_member : ℕ → ProjectMemberRecord
new_member now = record {
  status = MemberStatus.active;
  created_at = now;
  updated_at = now;
  revision = 1;
}

abbrev pub join_projects : ℕ → String → List String → AccountStore → AccountStore
join_projects now user [] s = s
join_projects now user (id ∷ ids) s = join_projects now user ids (record s {
  projects =
      update_key str_eq id
        (λ p. record p { members = set_key str_eq user (new_member now) p.members }) s.projects;
})

unfoldable pub get_user :
    AccountStore → AccountPrincipal → String → Result AccountFailure AccountUserView
unfolding visible_organization_ids admin_user_view
get_user s p id = elim (get_key str_eq id s.users) [
  | none ↦ failure 404 "RESOURCE_NOT_FOUND"
  | some u ↦
      if can_manage_user s p u
      then ok (admin_user_view s (visible_organization_ids s p) u)
      else failure 404 "RESOURCE_NOT_FOUND"
]

-- The first organization of the user in which the caller is an active member.
abbrev pub shared_organization : AccountStore → AccountPrincipal → UserRecord → Option String
shared_organization s p u = find_by (is_active_member s p.user_id) (keys u.memberships)

-- A manager changes no account that is also in an organization of others.
abbrev pub is_foreign_change : AccountStore → AccountPrincipal → UserRecord → UpdateUserInput → Bool
is_foreign_change s p u input =
    is_manager p.role
    && (not (is_none input.display_name) || not (is_none input.status))
    && any_of (λ id. not (is_active_member s p.user_id id)) (keys u.memberships)

abbrev pub suspends : UpdateUserInput → Bool
suspends input = elim input.status [ none ↦ false | some status ↦ not (is_active status) ]

-- Not the first admin, and not the last one.
abbrev pub is_protected : AccountStore → UserRecord → Bool
is_protected s u =
    str_eq u.user_id "admin-1" || (is_active_admin u && leb (admin_membership_count s) 1)

abbrev pub renamed : Option String → String → String
renamed none name = name
renamed (some given) name = if is_blank given then name else trim given

abbrev pub updated_user : UpdateUserInput → UserRecord → UserRecord
updated_user input u = record u {
  display_name = renamed input.display_name u.display_name;
  status = or_else input.status u.status;
  revision = u.revision + 1;
}

abbrev pub update_action : Option AccountStatus → String
update_action none = "账号更新"
update_action (some AccountStatus.active) = "账号恢复"
update_action (some suspended) = "账号停用"

-- The change itself: a suspension revokes the sessions.
unfoldable pub apply_update : String → UpdateUserInput → AccountStore → AccountStore
unfolding revoke_user_sessions
apply_update id input s =
    let changed = record s { users = update_key str_eq id (updated_user input) s.users } in
    if suspends input then revoke_user_sessions id changed else changed

-- A manager gives and takes memberships of an organization of theirs to members only.
abbrev pub may_configure : AccountStore → AccountPrincipal → String → UserRecord → Bool
may_configure s p organization u =
    is_admin p.role || (is_active_member s p.user_id organization && is_member u.global_role)

abbrev pub leave : String → String → ProjectRecord → ProjectRecord
leave organization user p =
    if str_eq p.organization_id organization
    then record p { members = delete_key str_eq user p.members }
    else p

abbrev pub leave_projects : String → String → AccountStore → AccountStore
leave_projects organization user s = record s {
  projects = map_values (leave organization user) s.projects;
}

abbrev pub without_membership : String → UserRecord → UserRecord
without_membership organization u = record u {
  memberships = delete_key str_eq organization u.memberships;
  revision = u.revision + 1;
}

abbrev pub view_user : String → AccountStore → Outcome AccountUserView
view_user id s = elim (get_key str_eq id s.users) [
  | none ↦ (s, failure 404 "RESOURCE_NOT_FOUND")
  | some u ↦ (s, ok (user_view u))
]
