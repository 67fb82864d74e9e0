-- ===== src/Accounts/Records.antt =====
-- dev/team-skill-service/src/account-store.ts: the records, the store and the audit log.
pub mod Audits
use Prim.Native.String.{◌++◌ as str_append}
use dsh_ai_coding.Base.{
  ℕ, suc, Bool, true, false, ◌&&◌, String, Option, none, some, List, [], ◌∷◌, ◌++◌, any_of, str_eq,
  if◌then◌else◌, Result, err,
}

pub data AccountRole : Type 0 where
  admin manager member : AccountRole

pub data AccountStatus : Type 0 where
  active suspended : AccountStatus

pub data OrganizationStatus : Type 0 where
  active archived : OrganizationStatus

pub data ProjectStatus : Type 0 where
  draft active archived : ProjectStatus

pub data MemberStatus : Type 0 where
  active removed : MemberStatus

pub data AssetType : Type 0 where
  skill knowledge memory : AssetType

pub data RelationKind : Type 0 where
  reference context : RelationKind

pub record AccountPrincipal : Type 0 where
  pub token : String
  pub user_id : String
  pub display_name : String
  pub role : AccountRole
  pub groups : List String
  pub must_change_password : Bool

pub record MembershipRecord : Type 0 where
  pub status : AccountStatus
  pub revision : ℕ

pub record UserRecord : Type 0 where
  pub user_id : String
  pub username : String
  pub email : String
  pub display_name : String
  pub status : AccountStatus
  pub global_role : AccountRole
  pub password : String
  pub must_change_password : Bool
  pub revision : ℕ
  pub memberships : List (String × MembershipRecord)

pub record OrganizationRecord : Type 0 where
  pub organization_id : String
  pub name : String
  pub status : OrganizationStatus
  pub revision : ℕ

pub record ProjectMemberRecord : Type 0 where
  pub status : MemberStatus
  pub created_at : ℕ
  pub updated_at : ℕ
  pub revision : ℕ

-- The key `type:id` of a relation is the pair of the two.
abbrev pub AssetKey : Type 0
AssetKey = AssetType × String

pub record AssetRelationRecord : Type 0 where
  pub asset_type : AssetType
  pub asset_id : String
  pub relation_kind : RelationKind
  pub created_at : ℕ
  pub updated_at : ℕ
  pub revision : ℕ

pub record ProjectRecord : Type 0 where
  pub project_id : String
  pub organization_id : String
  pub organization_name : String
  pub name : String
  pub description : String
  pub created_by : String
  pub created_at : ℕ
  pub updated_at : ℕ
  pub status : ProjectStatus
  pub revision : ℕ
  pub members : List (String × ProjectMemberRecord)
  pub assets : List (AssetKey × AssetRelationRecord)

pub record GroupRecord : Type 0 where
  pub group_id : String
  pub organization_id : String
  pub name : String
  pub member_user_ids : List String
  pub revision : ℕ

pub record SessionRecord : Type 0 where
  pub access_token : String
  pub refresh_token : String
  pub user_id : String
  pub expires_at : ℕ
  pub revoked : Bool

pub data AuditResult : Type 0 where
  succeeded failed : AuditResult

pub record AuthorizationAudit : Type 0 where
  pub id : String
  pub occurred_at : ℕ
  pub actor_user_id : String
  pub actor_name : String
  pub organization_id : Option String
  pub target_user_id : Option String
  pub project_id : Option String
  pub action : String
  pub result : AuditResult
  pub error_code : Option String
  pub request_id : String

-- `drawn` counts the UUIDs that were drawn so far.
pub record AccountStore : Type 0 where
  pub users : List (String × UserRecord)
  pub organizations : List (String × OrganizationRecord)
  pub projects : List (String × ProjectRecord)
  pub groups : List (String × GroupRecord)
  pub sessions : List (String × SessionRecord)
  pub platform_assets : List AssetKey
  pub audits : List AuthorizationAudit
  pub denials : List String
  pub drawn : ℕ

-- `failure(status, code, message)`, without the text for the reader.
pub record AccountFailure : Type 0 where
  pub status : ℕ
  pub code : String

abbrev pub failure {ℓ} : {A : Type ℓ} → ℕ → String → Result AccountFailure A
failure status code = err (record { status = status; code = code })

-- What an operation leaves and answers.
abbrev pub Outcome {ℓ} : Type ℓ → Type ℓ
Outcome A = AccountStore × Result AccountFailure A

-- `randomUUID`, whose n-th result is `uuid n`, and `toLocaleLowerCase`.
pub record Machine : Type 0 where
  pub uuid : ℕ → String
  pub lower : String → String

abbrev pub same_asset_type : AssetType → AssetType → Bool
same_asset_type skill skill = true
same_asset_type knowledge knowledge = true
same_asset_type memory memory = true
same_asset_type _ _ = false

abbrev pub same_asset : AssetKey → AssetKey → Bool
same_asset a b = same_asset_type a.0 b.0 && str_eq a.1 b.1

abbrev pub is_admin : AccountRole → Bool
is_admin admin = true
is_admin _ = false

abbrev pub is_manager : AccountRole → Bool
is_manager manager = true
is_manager _ = false

abbrev pub is_member : AccountRole → Bool
is_member member = true
is_member _ = false

abbrev pub is_active : AccountStatus → Bool
is_active AccountStatus.active = true
is_active suspended = false

abbrev pub is_open : OrganizationStatus → Bool
is_open OrganizationStatus.active = true
is_open OrganizationStatus.archived = false

abbrev pub is_live : ProjectStatus → Bool
is_live ProjectStatus.active = true
is_live _ = false

abbrev pub is_archived : ProjectStatus → Bool
is_archived ProjectStatus.archived = true
is_archived _ = false

abbrev pub is_present : MemberStatus → Bool
is_present MemberStatus.active = true
is_present removed = false
