-- ===== src/Accounts/Writers.antt =====
-- dev/team-skill-service/src/account-store.ts: the methods that write projects beside the transitions.
use Prim.Native.String.{◌++◌ as str_append}
use dsh_ai_coding.Base.{
  ℕ, ◌≤◌, not, ◌||◌, String, Option, none, some, str_eq, get_key, take_text, ◌≡◌, refl, arith,
  by_guard, by_option, by_result,
}
use dsh_ai_coding.Accounts.Records.{
  AccountStore, AccountPrincipal, ProjectRecord, Machine, ProjectMemberRecord, is_open, is_member,
  is_active, is_archived,
}
use dsh_ai_coding.Accounts.Records.Audits.{record_audit}
use dsh_ai_coding.Accounts.Views.{can_manage_organization, can_manage_project, is_active_member}
use dsh_ai_coding.Accounts.Organizations.{is_stale}
use dsh_ai_coding.Accounts.Users.{is_open_organization}
use dsh_ai_coding.Accounts.Projects.{
  UpdateProjectInput, CreateProjectInput, is_name_taken, normalize_project_name, renamed_project,
  described, checked_name, is_long_description,
}
use dsh_ai_coding.Accounts.Projects.Changes.{update_project, create_project}
use dsh_ai_coding.Accounts.Members.{
  set_project_member, remove_project_member, member_revision, with_member,
}
use dsh_ai_coding.Accounts.Lifecycle.{Next, Same, Carried-set_key, Same-refl, Same-Next}
use dsh_ai_coding.Accounts.Forward.{
  Leaves, Forward, Keeps-Forward, Forward-refl, Keeps-update_key, Same-touched,
  Same-renamed_project, change_project-Keeps,
}

-- A change of a project that leaves its state and its revision, or steps the revision.
pub Same-state :
    (q r : ProjectRecord)
    → r.status ≡ q.status
    → q.revision ≤ r.revision
    → r.organization_id ≡ q.organization_id
    → r.created_at ≡ q.created_at
    → Same q r
Same-state q r a b c d = record { status = a; revision = b; organization_id = c; created_at = d }

module _ (machine : Machine) (now : ℕ) where
  pub update_project-Forward :
      (p : AccountPrincipal) (id : String) (input : UpdateProjectInput) (expected : Option ℕ)
      (request : String) (s : AccountStore)
      → Forward s.projects (update_project machine now p id input expected request s).0.projects
  unfolding update_project
  update_project-Forward p id input expected request s =
      by_option (Leaves s) (get_key str_eq id s.projects) (λ _. same)
        (λ project e. by_guard (Leaves s) (not (can_manage_project s p project)) same (
          by_guard (Leaves s) (is_archived project.status) same (
            by_guard (Leaves s) (is_stale expected project.revision) same (
              by_result (Leaves s) (checked_name machine s project input.name)
                (λ name.
                  by_guard (Leaves s) (is_long_description input.description)
                    (Keeps-Forward _ _ (
                      Keeps-update_key id (renamed_project name) s.projects
                        (Same-renamed_project name none)))
                    (change_project-Keeps machine now p id project "项目编辑" request none _ s (λ q.
                      Same-touched now (λ r. described input.description (renamed_project name r)) q
                        (Same-renamed_project name input.description q))))
                (λ _. same)))))
    where
      same : Forward s.projects s.projects
      same = Forward-refl s.projects

  pub create_project-Forward :
      (p : AccountPrincipal) (input : CreateProjectInput) (request : String) (s : AccountStore)
      → get_key str_eq (str_append "project-" (take_text 8 (machine.uuid s.drawn))) s.projects
        ≡ none
      → Forward s.projects (create_project machine now p input request s).0.projects
  unfolding create_project record_audit
  create_project-Forward p input request s fresh =
      by_option (Leaves s) (get_key str_eq input.organization_id s.organizations) (λ _. same)
        (λ o e. by_guard (Leaves s) (not (is_open o.status)) same (
          by_guard (Leaves s) (not (can_manage_organization s p input.organization_id)) same (
            by_option (Leaves s) (normalize_project_name input.name) (λ _. same)
              (λ name n. by_guard (Leaves s) (is_long_description input.description) same (
                by_guard (Leaves s) (is_name_taken machine s input.organization_id none name) same (
                  Carried-set_key Next (λ q. Same-Next q q (Same-refl q)) _ _ s.projects fresh))))))
    where
      same : Forward s.projects s.projects
      same = Forward-refl s.projects

  -- The membership of a user in a project changes, and no state.
  Same-with_member :
      (user : String) (m : ProjectMemberRecord) (q : ProjectRecord)
      → Same q (with_member machine now user m q)
  Same-with_member user m q = Same-state q _ refl (omega arith) refl refl

  pub set_project_member-Forward :
      (p : AccountPrincipal) (id user : String) (expected : Option ℕ) (request : String)
      (s : AccountStore)
      → Forward s.projects (set_project_member machine now p id user expected request s).0.projects
  unfolding set_project_member
  set_project_member-Forward p id user expected request s =
      by_option (Leaves s) (get_key str_eq id s.projects) (λ _. same)
        (λ project e.
          by_option (Leaves s) (get_key str_eq user s.users) (λ _. same)
            (λ u _. by_guard (Leaves s) (not (can_manage_project s p project)) same (
              by_guard (Leaves s) (not (is_open_organization s project.organization_id)) same (
                by_guard (Leaves s) (is_archived project.status) same (
                  by_guard (Leaves s) (not (is_active u.status)) same (
                    by_guard (Leaves s)
                      (not (is_active_member s user project.organization_id)
                        || not (is_member u.global_role))
                      same
                      (by_guard (Leaves s)
                        (is_stale expected
                          (member_revision project (get_key str_eq user project.members)))
                        same
                        (change_project-Keeps machine now p id project _ request (some user) _ s
                          (Same-with_member user _)))))))))
    where
      same : Forward s.projects s.projects
      same = Forward-refl s.projects

  pub remove_project_member-Forward :
      (p : AccountPrincipal) (id user : String) (expected : Option ℕ) (request : String)
      (s : AccountStore)
      → Forward s.projects
          (remove_project_member machine now p id user expected request s).0.projects
  unfolding remove_project_member
  remove_project_member-Forward p id user expected request s =
      by_option (Leaves s) (get_key str_eq id s.projects) (λ _. same)
        (λ project e. by_guard (Leaves s) (not (can_manage_project s p project)) same (
          by_option (Leaves s) (get_key str_eq user project.members) (λ _. same)
            (λ current _. by_guard (Leaves s) (is_archived project.status) same (
              by_guard (Leaves s) (is_stale expected current.revision) same (
                change_project-Keeps machine now p id project _ request (some user) _ s
                  (Same-with_member user _))))))
    where
      same : Forward s.projects s.projects
      same = Forward-refl s.projects
