-- ===== src/Accounts/Directory/People.antt =====
-- dev/team-skill-service/src/account-store.ts: the people of the organizations and small reads.
use Prim.Native.String.{◌++◌ as str_append}
use dsh_ai_coding.Base.{
  Bool, false, not, ◌&&◌, ◌||◌, String, Option, none, some, List, [], ◌∷◌, ◌++◌, select, any_of,
  map, str_eq, ◌==◌, if◌then◌else◌, get_key, keys, values, trim, includes, utf16_length, Result, ok,
}
use dsh_ai_coding.Accounts.Records.{
  AccountPrincipal, UserRecord, AssetKey, ProjectStatus, AccountStore, AccountFailure, failure,
  Machine, is_member, is_active,
}
use dsh_ai_coding.Accounts.Views.{
  AccountUserView, user_view, MembershipView, memberships_view, visible_organization_ids,
  is_visible, is_active_member,
}
use dsh_ai_coding.Accounts.Users.{is_open_organization, passes}
use dsh_ai_coding.Accounts.Directory.{DirectoryUserView}

abbrev pub has_active_membership : AccountStore → String → String → Bool
has_active_membership s user organization =
    is_active_member s user organization
    && (elim (get_key str_eq user s.users) [ none ↦ false | some u ↦ is_active u.status ])

unfoldable pub user_group_ids : AccountStore → String → String → List String
user_group_ids s user organization =
    map (λ g. g.group_id)
      (select (λ g. str_eq g.organization_id organization && any_of (str_eq user) g.member_user_ids)
        (values s.groups))

unfoldable pub is_organization_group : AccountStore → String → String → Bool
is_organization_group s organization group = elim (get_key str_eq group s.groups) [
  | none ↦ false
  | some g ↦ str_eq g.organization_id organization
]

-- `user.memberships.get(organizationId)?.status === 'active'`.
abbrev pub takes_part : String → UserRecord → Bool
takes_part organization u = elim (get_key str_eq organization u.memberships) [
  | none ↦ false
  | some m ↦ is_active m.status
]

unfoldable pub active_member_user_ids : AccountStore → String → List String
active_member_user_ids s organization =
    map (λ u. u.user_id)
      (select (λ u. is_active u.status && takes_part organization u) (values s.users))

unfoldable pub authoring_organization :
    AccountStore → AccountPrincipal → Option String → Result AccountFailure String
authoring_organization s p requested = elim requested [
  | some id ↦ if any_of (str_eq id) joined then ok id else failure 422 "VALIDATION_ERROR"
  | none ↦ only joined
]
  where
    joined : List String
    joined = select (has_active_membership s p.user_id) (keys s.organizations)

    only : List String → Result AccountFailure String
    only [] = failure 422 "VALIDATION_ERROR"
    only (id ∷ []) = ok id
    only (id ∷ other ∷ ids) = failure 422 "VALIDATION_ERROR"

-- `me`: the account of the caller, if it is still there.
unfoldable pub me : AccountStore → AccountPrincipal → Option (AccountUserView × List MembershipView)
unfolding memberships_view
me s p = elim (get_key str_eq p.user_id s.users) [
  | none ↦ none
  | some u ↦ some (user_view u, memberships_view s none u.memberships)
]

unfoldable pub project_asset_keys : AccountStore → String → Option (List AssetKey)
project_asset_keys s id = elim (get_key str_eq id s.projects) [
  | none ↦ none
  | some project ↦ some (keys project.assets)
]

unfoldable pub project_organization : AccountStore → String → Option String
project_organization s id = elim (get_key str_eq id s.projects) [
  | none ↦ none
  | some project ↦ some project.organization_id
]

unfoldable pub project_status : AccountStore → String → Option ProjectStatus
project_status s id = elim (get_key str_eq id s.projects) [
  | none ↦ none
  | some project ↦ some project.status
]

-- `groups.join('')`.
abbrev pub joined_text : List String → String
joined_text [] = ""
joined_text (t ∷ ts) = str_append t (joined_text ts)

module _ (machine : Machine) where
  abbrev pub is_found : String → DirectoryUserView → Bool
  is_found normalized v =
      utf16_length normalized == 0
      || includes
          (machine.lower (str_append v.display_name (str_append v.email (joined_text v.groups))))
          normalized

  -- The organizations in which the directory shows the user.
  abbrev pub shown_organizations :
      AccountStore → Option (List String) → Option String → UserRecord → List String
  shown_organizations s visible organization u = select (is_visible visible) (
      select (λ id. passes (str_eq id) organization)
        (keys (select (λ e. is_active e.1.status && is_open_organization s e.0) u.memberships)))

  unfoldable pub directory_entries :
      AccountStore → Option (List String) → Option String → List UserRecord → List DirectoryUserView
  unfolding user_group_ids
  directory_entries s visible organization [] = []
  directory_entries s visible organization (u ∷ us) =
      let rest = directory_entries s visible organization us in
      if is_active u.status
      then map entry (shown_organizations s visible organization u) ++ rest
      else rest
    where
      entry : String → DirectoryUserView
      entry id = record {
        user_id = u.user_id;
        display_name = u.display_name;
        email = u.email;
        organization_id = id;
        groups = user_group_ids s u.user_id id;
      }

  unfoldable pub organization_directory :
      AccountStore
      → AccountPrincipal
      → Option String
      → String
      → Result AccountFailure (List DirectoryUserView)
  unfolding visible_organization_ids directory_entries
  organization_directory s p organization query =
      let visible = visible_organization_ids s p in
      if is_member p.role
      then failure 403 "FORBIDDEN"
      else if not (passes (is_visible visible) organization)
      then failure 404 "RESOURCE_NOT_FOUND"
      else ok (
          select (is_found (machine.lower (trim query)))
            (directory_entries s visible organization (values s.users)))
