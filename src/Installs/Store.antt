-- ===== src/Installs/Store.antt =====
-- src/installation-store.ts: the records of the local copies, read from JSON and updated.
use dsh_ai_coding.Base.{
  Bool, true, false, not, ◌&&◌, String, Option, none, some, List, [], ◌∷◌, ◌++◌, select, str_eq,
  opt_eq, is_none, if◌then◌else◌, Result, ok, err, ◌>>=◌, ◌>>◌, require, Json, string, array,
  JsonFields, field_of, items_of, record_of,
}

pub data Scope : Type 0 where
  project global : Scope

pub data InstalledState : Type 0 where
  normal withdrawn uninstalled : InstalledState

pub record FileDigest : Type 0 where
  pub path : String
  pub sha256 : String

pub record InstalledTeamSkill : Type 0 where
  pub runtime_name : String
  pub version : String
  pub artifact_sha256 : String
  pub directory : String
  pub files : List FileDigest
  pub state : InstalledState

pub record InstallationRecord : Type 0 where
  pub local_installation_id : String
  pub skill_id : String
  pub project_id : String
  pub scope : Scope
  pub workspace_id : Option String
  pub installed : InstalledTeamSkill
  pub installed_at : String

pub data StoreError : Type 0 where
  not_json invalid_format invalid_record no_workspace invalid_string : StoreError
  invalid_array invalid_digest invalid_scope invalid_state : StoreError

abbrev pub require_string : Option Json → Result StoreError String
require_string (some (string String.[])) = err invalid_string
require_string (some (string s)) = ok s
require_string _ = err invalid_string

abbrev pub optional_string : Option Json → Result StoreError (Option String)
optional_string none = ok none
optional_string (some value) = do s ← require_string (some value); ok (some s)

abbrev pub require_array : Option Json → Result StoreError (List Json)
require_array (some (array items)) = ok (items_of items)
require_array _ = err invalid_array

abbrev pub require_scope : Option Json → Result StoreError Scope
require_scope (some (string s)) =
    if str_eq s "project"
    then ok project
    else if str_eq s "global"
    then ok global
    else err invalid_scope
require_scope _ = err invalid_scope

abbrev pub require_installed_state : Option Json → Result StoreError InstalledState
require_installed_state (some (string s)) =
    if str_eq s "normal"
    then ok normal
    else if str_eq s "withdrawn"
    then ok withdrawn
    else if str_eq s "uninstalled"
    then ok uninstalled
    else err invalid_state
require_installed_state _ = err invalid_state

abbrev pub parse_digest : Json → Result StoreError FileDigest
parse_digest value = elim (record_of (some value)) [
  | none ↦ err invalid_digest
  | some digest ↦ do
    path ← require_string (field_of "path" digest)
    sha256 ← require_string (field_of "sha256" digest)
    ok (record { path = path; sha256 = sha256 })
]

-- `Array.prototype.map` with a function that may throw.
abbrev pub map_result {ℓ κ} :
    {A : Type ℓ} {B : Type κ} → (A → Result StoreError B) → List A → Result StoreError (List B)
map_result f [] = ok []
map_result f (x ∷ xs) = do y ← f x; ys ← map_result f xs; ok (y ∷ ys)

abbrev pub is_project : Scope → Bool
is_project project = true
is_project global = false

unfoldable pub parse_fields : JsonFields → JsonFields → Result StoreError InstallationRecord
parse_fields fields installed = do
  scope ← require_scope (field_of "scope" fields)
  workspace ← optional_string (field_of "workspaceId" fields)
  require (not (is_project scope && is_none workspace)) no_workspace
  id ← require_string (field_of "localInstallationId" fields)
  skill ← require_string (field_of "skillId" fields)
  project_of ← require_string (field_of "projectId" fields)
  name ← require_string (field_of "runtimeName" installed)
  version ← require_string (field_of "version" installed)
  artifact ← require_string (field_of "artifactSha256" installed)
  directory ← require_string (field_of "directory" installed)
  items ← require_array (field_of "files" installed)
  files ← map_result parse_digest items
  state ← require_installed_state (field_of "state" installed)
  at ← require_string (field_of "installedAt" fields)
  ok (record {
    local_installation_id = id;
    skill_id = skill;
    project_id = project_of;
    scope = scope;
    workspace_id = workspace;
    installed = record {
      runtime_name = name;
      version = version;
      artifact_sha256 = artifact;
      directory = directory;
      files = files;
      state = state;
    };
    installed_at = at;
  })

unfoldable pub parse_record : Json → Result StoreError InstallationRecord
unfolding parse_fields
parse_record value = elim (record_of (some value)) [
  | none ↦ err invalid_record
  | some fields ↦ elim (record_of (field_of "installed" fields)) [
    | none ↦ err invalid_record
    | some installed ↦ parse_fields fields installed
  ]
]

-- The argument is what `JSON.parse` returns, `none` where it throws.
unfoldable pub parse_records : Option Json → Result StoreError (List InstallationRecord)
unfolding parse_record
parse_records none = err not_json
parse_records (some parsed) = elim (record_of (some parsed)) [
  | none ↦ err invalid_format
  | some fields ↦ elim (field_of "records" fields) [
    | some (array items) ↦ map_result parse_record (items_of items)
    | _ ↦ err invalid_format
  ]
]

abbrev pub same_scope : Scope → Scope → Bool
same_scope project project = true
same_scope global global = true
same_scope _ _ = false

abbrev pub same_installation : InstallationRecord → InstallationRecord → Bool
same_installation a b =
    str_eq a.skill_id b.skill_id
    && same_scope a.scope b.scope
    && opt_eq a.workspace_id b.workspace_id
    && str_eq a.project_id b.project_id

-- The records that `upsert` and `remove` write, from those that `list` read under the lock.
unfoldable pub upsert : InstallationRecord → List InstallationRecord → List InstallationRecord
upsert next records = select (λ r. not (same_installation r next)) records ++ (next ∷ [])

unfoldable pub remove : String → List InstallationRecord → List InstallationRecord
remove id records = select (λ r. not (str_eq r.local_installation_id id)) records
