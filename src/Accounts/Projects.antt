-- ===== src/Accounts/Projects.antt =====
-- dev/team-skill-service/src/account-store.ts: projects, their access and their life cycle.
pub mod Changes
use Prim.Native.String.{◌++◌ as str_append}
use dsh_ai_coding.Base.{
  ℕ, suc, ◌+◌, Bool, true, false, not, ◌&&◌, ◌||◌, String, Option, none, some, or_else, List, [],
  ◌∷◌, select, any_of, map, str_eq, ltb, leb, ◌==◌, if◌then◌else◌, get_key, set_key, update_key,
  values, trim, includes, utf16_length, any_char, take_text, Result, ok, err,
}
use dsh_ai_coding.Accounts.Records.{
  AccountPrincipal, OrganizationRecord, ProjectRecord, ProjectStatus, draft, AccountStore,
  AccountFailure, Outcome, failure, Machine, is_admin, is_manager, is_member, is_open, is_live,
  is_archived, is_present,
}
use dsh_ai_coding.Accounts.Records.Audits.{about, audit_success, audit_denial}
use dsh_ai_coding.Accounts.Views.{
  ProjectView, project_view, is_active_member, visible_organization_ids, is_visible,
  can_manage_organization, can_manage_project,
}
use dsh_ai_coding.Accounts.Organizations.{refuse, is_stale}
use dsh_ai_coding.Accounts.Users.{is_open_organization, passes}

pub record CreateProjectInput : Type 0 where
  pub organization_id : String
  pub name : String
  pub description : Option String

pub record UpdateProjectInput : Type 0 where
  pub name : Option String
  pub description : Option String

-- `members.get(userId)?.status === 'active'`.
abbrev pub is_project_member : ProjectRecord → String → Bool
is_project_member project user = elim (get_key str_eq user project.members) [
  | none ↦ false
  | some m ↦ is_present m.status
]

-- Who may use an active project of an active organization.
abbrev pub is_allowed : AccountStore → AccountPrincipal → ProjectRecord → Bool
is_allowed s p project =
    is_admin p.role
    || (is_active_member s p.user_id project.organization_id && is_manager p.role)
    || (is_active_member s p.user_id project.organization_id
        && is_member p.role
        && is_project_member project p.user_id)

-- A name of 1 to 80 units without control characters and path separators.
abbrev pub is_bad_character : ℕ → Bool
is_bad_character c = leb c 31 || (c == 92) || (c == 47)

unfoldable pub normalize_project_name : String → Option String
normalize_project_name value =
    let name = trim value in
    if leb 1 (utf16_length name)
      && leb (utf16_length name) 80
      && not (any_char is_bad_character name)
    then some name
    else none

abbrev pub same_project_status : ProjectStatus → ProjectStatus → Bool
same_project_status draft draft = true
same_project_status ProjectStatus.active ProjectStatus.active = true
same_project_status ProjectStatus.archived ProjectStatus.archived = true
same_project_status _ _ = false

abbrev pub view_project : String → AccountStore → Outcome ProjectView
view_project id s = elim (get_key str_eq id s.projects) [
  | none ↦ (s, failure 404 "RESOURCE_NOT_FOUND")
  | some project ↦ (s, ok (project_view project))
]

abbrev pub on_project : String → (ProjectRecord → ProjectRecord) → AccountStore → AccountStore
on_project id f s = record s { projects = update_key str_eq id f s.projects }

-- `updatedAt = now` and `revision += 1`.
abbrev pub touched : ℕ → ProjectRecord → ProjectRecord
touched now p = record p { updated_at = now; revision = p.revision + 1 }

unfoldable pub get_project :
    AccountStore → AccountPrincipal → String → Result AccountFailure ProjectView
get_project s p id = elim (get_key str_eq id s.projects) [
  | none ↦ failure 404 "RESOURCE_NOT_FOUND"
  | some project ↦
      if is_member p.role
        || not (is_open_organization s project.organization_id)
        || (not (is_admin p.role) && not (is_active_member s p.user_id project.organization_id))
      then failure 404 "RESOURCE_NOT_FOUND"
      else ok (project_view project)
]

-- `sort`: the latest first, and by id where the times are equal. `collate` is the order of ids.
unfoldable pub insert_project :
    (String → String → Bool) → ProjectRecord → List ProjectRecord → List ProjectRecord
insert_project collate p [] = p ∷ []
insert_project collate p (q ∷ qs) =
    let rest = insert_project collate p qs in
    if ltb q.updated_at p.updated_at
      || (p.updated_at == q.updated_at && collate p.project_id q.project_id)
    then p ∷ q ∷ qs
    else q ∷ rest

unfoldable pub sort_projects : (String → String → Bool) → List ProjectRecord → List ProjectRecord
unfolding insert_project
sort_projects collate [] = []
sort_projects collate (p ∷ ps) = insert_project collate p (sort_projects collate ps)

module _ (machine : Machine) where
  unfoldable pub list_projects :
      (String → String → Bool)
      → AccountStore
      → AccountPrincipal
      → Option String
      → Option ProjectStatus
      → Option String
      → Result AccountFailure (List ProjectView)
  unfolding visible_organization_ids sort_projects
  list_projects collate s p organization status name =
      if is_member p.role
      then failure 403 "FORBIDDEN"
      else if not (passes (is_visible visible) organization)
      then failure 404 "RESOURCE_NOT_FOUND"
      else ok (map project_view (sort_projects collate (select listed (values s.projects))))
    where
      visible : Option (List String)
      visible = visible_organization_ids s p

      listed : ProjectRecord → Bool
      listed project =
          is_visible visible project.organization_id
          && is_open_organization s project.organization_id
          && passes (str_eq project.organization_id) organization
          && (elim status [
            | none ↦ not (is_archived project.status)
            | some wanted ↦ same_project_status project.status wanted
          ])
          && passes (λ n. includes (machine.lower project.name) (machine.lower n)) name

  -- Whether another project of the organization has the name, without regard to case.
  abbrev pub is_name_taken : AccountStore → String → Option String → String → Bool
  is_name_taken s organization except name =
      any_of
        (λ p.
          passes (λ id. not (str_eq p.project_id id)) except
          && str_eq p.organization_id organization
          && str_eq (machine.lower p.name) (machine.lower name))
        (values s.projects)

  -- The new name of a project: `ok none` keeps the old one.
  abbrev pub checked_name :
      AccountStore → ProjectRecord → Option String → Result AccountFailure (Option String)
  checked_name s project none = ok none
  checked_name s project (some given) = elim (normalize_project_name given) [
    | none ↦ failure 422 "VALIDATION_ERROR"
    | some name ↦
        if is_name_taken s project.organization_id (some project.project_id) name
        then failure 422 "VALIDATION_ERROR"
        else ok (some name)
  ]

abbrev pub is_long_description : Option String → Bool
is_long_description none = false
is_long_description (some given) = ltb 2_000 (utf16_length (trim given))

abbrev pub renamed_project : Option String → ProjectRecord → ProjectRecord
renamed_project none p = p
renamed_project (some name) p = record p { name = name }

abbrev pub described : Option String → ProjectRecord → ProjectRecord
described none p = p
described (some given) p = record p { description = trim given }

module _ (machine : Machine) (now : ℕ) where
  unfoldable pub authorize_project :
      AccountPrincipal → String → Option String → AccountStore → Outcome ProjectView
  unfolding audit_denial
  authorize_project p id request s = elim (get_key str_eq id s.projects) [
    | none ↦ denied none "RESOURCE_NOT_FOUND"
    | some project ↦
        if not (is_live project.status) || not (is_open_organization s project.organization_id)
        then denied (some project.organization_id) "RESOURCE_NOT_FOUND"
        else if not (is_allowed s p project)
        then denied (some project.organization_id) "PROJECT_NOT_MEMBER"
        else (s, ok (project_view project))
  ]
    where
      denied : Option String → String → Outcome ProjectView
      denied organization code = (
        audit_denial machine now p "项目访问拒绝" code (or_else request "no-request-id")
            (about organization none (some id)) s,
        failure 404 code,
      )

  -- `listMemberProjects`: each denied project leaves its audit.
  unfoldable pub list_member_projects :
      AccountPrincipal → List ProjectRecord → AccountStore → AccountStore × List ProjectView
  unfolding authorize_project
  list_member_projects p [] s = (s, [])
  list_member_projects p (project ∷ projects) s =
      let (next, result) = authorize_project p project.project_id none s in
      let (end, views) = list_member_projects p projects next in
      (end, elim result [ ok _ ↦ project_view project ∷ views | err _ ↦ views ])
