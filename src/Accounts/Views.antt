-- ===== src/Accounts/Views.antt =====
-- dev/team-skill-service/src/account-store.ts: what callers may see and manage, and the views.
use dsh_ai_coding.Base.{
  ℕ, Bool, true, false, ◌&&◌, ◌||◌, String, Option, none, some, List, [], ◌∷◌, select, any_of,
  length, str_eq, if◌then◌else◌, get_key, keys, values,
}
use dsh_ai_coding.Accounts.Records.{
  AccountRole, AccountStatus, OrganizationStatus, ProjectStatus, AssetType, RelationKind,
  AccountPrincipal, MembershipRecord, UserRecord, OrganizationRecord, ProjectRecord,
  AssetRelationRecord, AccountStore, is_admin, is_manager, is_member, is_active, is_present,
}

pub record MembershipView : Type 0 where
  pub organization_id : String
  pub organization_name : String
  pub status : AccountStatus
  pub revision : ℕ

pub record AccountUserView : Type 0 where
  pub user_id : String
  pub username : String
  pub email : String
  pub display_name : String
  pub status : AccountStatus
  pub global_role : AccountRole
  pub must_change_password : Bool
  pub revision : ℕ
  pub memberships : Option (List MembershipView)

pub record OrganizationView : Type 0 where
  pub organization_id : String
  pub name : String
  pub status : OrganizationStatus
  pub revision : ℕ

pub record ProjectView : Type 0 where
  pub project_id : String
  pub organization_id : String
  pub organization_name : String
  pub name : String
  pub description : String
  pub status : ProjectStatus
  pub created_by : String
  pub created_at : ℕ
  pub updated_at : ℕ
  pub revision : ℕ
  pub member_count : ℕ
  pub asset_count : ℕ

pub record AssetRelationView : Type 0 where
  pub project_id : String
  pub asset_type : AssetType
  pub asset_id : String
  pub name : String
  pub relation_kind : RelationKind
  pub created_at : ℕ
  pub updated_at : ℕ
  pub revision : ℕ

abbrev pub organization_view : OrganizationRecord → OrganizationView
organization_view o = record {
  organization_id = o.organization_id;
  name = o.name;
  status = o.status;
  revision = o.revision;
}

abbrev pub project_view : ProjectRecord → ProjectView
project_view p = record {
  project_id = p.project_id;
  organization_id = p.organization_id;
  organization_name = p.organization_name;
  name = p.name;
  description = p.description;
  status = p.status;
  created_by = p.created_by;
  created_at = p.created_at;
  updated_at = p.updated_at;
  revision = p.revision;
  member_count = length (select (λ m. is_present m.status) (values p.members));
  asset_count = length p.assets;
}

abbrev pub relation_view : ProjectRecord → AssetRelationRecord → AssetRelationView
relation_view p r = record {
  project_id = p.project_id;
  asset_type = r.asset_type;
  asset_id = r.asset_id;
  name = r.asset_id;
  relation_kind = r.relation_kind;
  created_at = r.created_at;
  updated_at = r.updated_at;
  revision = r.revision;
}

-- `[...user.memberships.entries()].flatMap(…)`, over the organizations that may be seen, if these
-- are limited.
unfoldable pub memberships_view :
    AccountStore → Option (List String) → List (String × MembershipRecord) → List MembershipView
memberships_view s visible [] = []
memberships_view s visible ((id, m) ∷ ms) =
    let rest = memberships_view s visible ms in
    elim (get_key str_eq id s.organizations) [
      | none ↦ rest
      | some o ↦
          if elim visible [ none ↦ true | some ids ↦ any_of (str_eq id) ids ]
          then record {
            organization_id = id;
            organization_name = o.name;
            status = m.status;
            revision = m.revision;
          }
            ∷ rest
          else rest
    ]

abbrev pub user_view : UserRecord → AccountUserView
user_view u = record {
  user_id = u.user_id;
  username = u.username;
  email = u.email;
  display_name = u.display_name;
  status = u.status;
  global_role = u.global_role;
  must_change_password = u.must_change_password;
  revision = u.revision;
  memberships = none;
}

unfoldable pub admin_user_view : AccountStore → Option (List String) → UserRecord → AccountUserView
unfolding memberships_view
admin_user_view s visible u = record (user_view u) {
  memberships = some (memberships_view s visible u.memberships);
}

-- `membership(userId, organizationId)?.status === 'active'`.
abbrev pub membership : AccountStore → String → String → Option MembershipRecord
membership s user organization = elim (get_key str_eq user s.users) [
  | none ↦ none
  | some u ↦ get_key str_eq organization u.memberships
]

abbrev pub is_active_member : AccountStore → String → String → Bool
is_active_member s user organization = elim (membership s user organization) [
  | none ↦ false
  | some m ↦ is_active m.status
]

-- None for an admin, who sees every organization.
unfoldable pub visible_organization_ids : AccountStore → AccountPrincipal → Option (List String)
visible_organization_ids s p =
    if is_admin p.role
    then none
    else some (elim (get_key str_eq p.user_id s.users) [
      | none ↦ []
      | some u ↦ keys (select (λ e. is_active e.1.status) u.memberships)
    ])

abbrev pub is_visible : Option (List String) → String → Bool
is_visible none id = true
is_visible (some ids) id = any_of (str_eq id) ids

abbrev pub can_manage_organization : AccountStore → AccountPrincipal → String → Bool
can_manage_organization s p organization =
    is_admin p.role || (is_manager p.role && is_active_member s p.user_id organization)

abbrev pub can_manage_project : AccountStore → AccountPrincipal → ProjectRecord → Bool
can_manage_project s p project =
    is_admin p.role || (is_manager p.role && is_active_member s p.user_id project.organization_id)

abbrev pub can_manage_user : AccountStore → AccountPrincipal → UserRecord → Bool
can_manage_user s p u =
    is_admin p.role
    || (is_manager p.role
        && is_member u.global_role
        && any_of (λ id. is_active_member s p.user_id id) (keys u.memberships))

abbrev pub audit_organization_id : UserRecord → Option String
audit_organization_id u = elim (keys u.memberships) [
  | [] ↦ none
  | id ∷ ids ↦ elim ids [ [] ↦ some id | x ∷ xs ↦ none ]
]

abbrev pub is_active_admin : UserRecord → Bool
is_active_admin u = is_admin u.global_role && is_active u.status

abbrev pub admin_membership_count : AccountStore → ℕ
admin_membership_count s = length (select is_active_admin (values s.users))
