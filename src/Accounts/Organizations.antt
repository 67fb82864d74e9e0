-- ===== src/Accounts/Organizations.antt =====
-- dev/team-skill-service/src/account-store.ts: organizations, who sees and who changes them.
use Prim.Native.String.{◌++◌ as str_append}
use dsh_ai_coding.Base.{
  ℕ, suc, ◌+◌, Bool, true, false, not, ◌&&◌, ◌||◌, String, Option, none, some, List, select, map,
  str_eq, ◌==◌, if◌then◌else◌, get_key, set_key, update_key, map_values, values, trim, is_blank,
  take_text, Result, ok,
}
use dsh_ai_coding.Accounts.Records.{
  AccountPrincipal, UserRecord, OrganizationRecord, OrganizationStatus, ProjectRecord, AccountStore,
  AccountStatus, AccountFailure, Outcome, failure, Machine, is_admin, is_manager, is_member,
  is_active, is_open,
}
use dsh_ai_coding.Accounts.Records.Audits.{about, audit_success}
use dsh_ai_coding.Accounts.Views.{OrganizationView, organization_view, is_active_member}

-- The answer of an operation that is refused before it changes anything.
abbrev pub refuse {ℓ} : {A : Type ℓ} → ℕ → String → AccountStore → Outcome A
refuse status code s = (s, failure status code)

abbrev pub may_see : AccountStore → AccountPrincipal → OrganizationRecord → Bool
may_see s p o = is_admin p.role || is_active_member s p.user_id o.organization_id

-- `organizationsVisibleTo`, with `includeArchived`.
unfoldable pub organizations_visible_to :
    Bool → AccountStore → AccountPrincipal → List OrganizationView
organizations_visible_to archived s p =
    map organization_view
      (select (λ o. (archived || is_open o.status) && may_see s p o) (values s.organizations))

unfoldable pub list_organizations_for_admin :
    AccountStore → AccountPrincipal → Result AccountFailure (List OrganizationView)
unfolding organizations_visible_to
list_organizations_for_admin s p =
    if is_member p.role then failure 403 "FORBIDDEN" else ok (organizations_visible_to true s p)

unfoldable pub get_organization :
    AccountStore → AccountPrincipal → String → Result AccountFailure OrganizationView
get_organization s p id = elim (get_key str_eq id s.organizations) [
  | none ↦ failure 404 "RESOURCE_NOT_FOUND"
  | some o ↦
      if not (is_admin p.role) && not (is_active_member s p.user_id id)
      then failure 404 "RESOURCE_NOT_FOUND"
      else ok (organization_view o)
]

-- Whether the manager that a new organization names can be one.
abbrev pub is_manager_candidate : AccountStore → Option String → Bool
is_manager_candidate s none = true
is_manager_candidate s (some id) = elim (get_key str_eq id s.users) [
  | none ↦ false
  | some u ↦ is_active u.status && is_manager u.global_role
]

abbrev pub with_membership : String → ℕ → UserRecord → UserRecord
with_membership organization revision u = record u {
  memberships =
      set_key str_eq organization (record { status = AccountStatus.active; revision = revision })
        u.memberships;
  revision = u.revision + 1;
}

abbrev pub appoint : Option String → String → AccountStore → AccountStore
appoint none organization s = s
appoint (some id) organization s = record s {
  users = update_key str_eq id (with_membership organization 1) s.users;
}

-- `updateOrganization` renames the projects of the organization too.
abbrev pub rename_owner : String → String → ProjectRecord → ProjectRecord
rename_owner id name p =
    if str_eq p.organization_id id
    then record p { organization_name = name; revision = p.revision + 1 }
    else p

abbrev pub rename_projects : String → String → AccountStore → AccountStore
rename_projects id name s = record s { projects = map_values (rename_owner id name) s.projects }

abbrev pub rename_organization : String → Option String → AccountStore → AccountStore
rename_organization id none s = s
rename_organization id (some name) s =
    if is_blank name
    then s
    else rename_projects id (trim name) (record s {
      organizations = update_key str_eq id (λ o. record o { name = trim name }) s.organizations;
    })

abbrev pub with_status : Option OrganizationStatus → OrganizationRecord → OrganizationRecord
with_status none o = record o { revision = o.revision + 1 }
with_status (some status) o = record o { status = status; revision = o.revision + 1 }

-- `expectedRevision !== revision`.
abbrev pub is_stale : Option ℕ → ℕ → Bool
is_stale none revision = true
is_stale (some expected) revision = not (expected == revision)

abbrev pub view_organization : String → AccountStore → Outcome OrganizationView
view_organization id s = elim (get_key str_eq id s.organizations) [
  | none ↦ (s, failure 404 "RESOURCE_NOT_FOUND")
  | some o ↦ (s, ok (organization_view o))
]

module _ (machine : Machine) (now : ℕ) where
  unfoldable pub create_organization :
      AccountPrincipal → String → Option String → String → AccountStore → Outcome OrganizationView
  unfolding audit_success
  create_organization p name manager request s =
      if not (is_admin p.role)
      then refuse 403 "FORBIDDEN" s
      else if is_blank name
      then refuse 422 "VALIDATION_ERROR" s
      else if not (is_manager_candidate s manager)
      then refuse 422 "VALIDATION_ERROR" s
      else (
        audit_success machine now p "组织创建" request (about (some id) none none) (
            appoint manager id (record s {
              organizations = set_key str_eq id created s.organizations;
              drawn = suc s.drawn;
            })),
        ok (organization_view created),
      )
    where
      id : String
      id = str_append "org-" (take_text 8 (machine.uuid s.drawn))

      created : OrganizationRecord
      created = record {
        organization_id = id;
        name = trim name;
        status = OrganizationStatus.active;
        revision = 1;
      }

  unfoldable pub update_organization :
      AccountPrincipal
      → String
      → Option String
      → Option OrganizationStatus
      → Option ℕ
      → String
      → AccountStore
      → Outcome OrganizationView
  unfolding audit_success
  update_organization p id name status expected request s =
      if not (is_admin p.role)
      then refuse 403 "FORBIDDEN" s
      else elim (get_key str_eq id s.organizations) [
        | none ↦ refuse 404 "RESOURCE_NOT_FOUND" s
        | some o ↦
            if is_stale expected o.revision
            then refuse 409 "REVISION_CONFLICT" s
            else view_organization id changed
      ]
    where
      changed : AccountStore
      changed =
          let renamed = rename_organization id name s in
          audit_success machine now p "组织更新" request (about (some id) none none) (record renamed {
            organizations = update_key str_eq id (with_status status) renamed.organizations;
          })
