-- ===== src/Accounts/Owners.antt =====
-- dev/team-skill-service/src/account-store.ts: the methods of accounts and organizations that write
-- projects too.
use dsh_ai_coding.Base.{
  ℕ, not, String, Option, none, some, List, [], ◌∷◌, str_eq, get_key, set_key, map_values, refl,
  arith, by_guard, by_list, all_of, by_option, is_blank, trim,
}
use dsh_ai_coding.Accounts.Records.{
  AccountStore, AccountPrincipal, ProjectRecord, OrganizationStatus, Machine, is_admin,
}
use dsh_ai_coding.Accounts.Records.Audits.{record_audit}
use dsh_ai_coding.Accounts.Organizations.{
  is_stale, rename_organization, rename_owner, update_organization,
}
use dsh_ai_coding.Accounts.Users.{
  CreateUserInput, join_projects, new_member, may_configure, may_create, is_taken, is_project_of,
  leave, is_open_organization,
}
use dsh_ai_coding.Accounts.Users.Changes.{create_user, remove_membership}
use dsh_ai_coding.Accounts.Lifecycle.{Same, Carried-map_values, Same-refl}
use dsh_ai_coding.Accounts.Forward.{
  Leaves, Forward, Keeps, Keeps-Forward, Keeps-trans, Keeps-refl, Forward-refl, Keeps-update_key,
}
use dsh_ai_coding.Accounts.Writers.{Same-state}

Keeps-join_projects :
    (now : ℕ) (user : String) (ids : List String) (s : AccountStore)
    → Keeps s.projects (join_projects now user ids s).projects
Keeps-join_projects now user [] s = Keeps-refl s.projects
Keeps-join_projects now user (id ∷ ids) s =
    Keeps-trans s.projects _ _
      (Keeps-update_key id
        (λ p. record p { members = set_key str_eq user (new_member now) p.members }) s.projects
        (λ q. Same-state q _ refl (omega arith) refl refl))
      (Keeps-join_projects now user ids _)

Same-leave : (organization user : String) (q : ProjectRecord) → Same q (leave organization user q)
Same-leave organization user q =
    by_guard (Same q) (str_eq q.organization_id organization)
      (Same-state q _ refl (omega arith) refl refl) (Same-refl q)

Same-rename_owner : (id name : String) (q : ProjectRecord) → Same q (rename_owner id name q)
Same-rename_owner id name q =
    by_guard (Same q) (str_eq q.organization_id id) (Same-state q _ refl (omega arith) refl refl)
      (Same-refl q)

module _ (machine : Machine) (now : ℕ) where
  pub create_user-Forward :
      (dashless : String → String) (p : AccountPrincipal) (input : CreateUserInput)
      (request : String) (s : AccountStore)
      → Forward s.projects (create_user machine now dashless p input request s).0.projects
  unfolding create_user record_audit
  create_user-Forward dashless p input request s =
      by_guard (Leaves s) (is_admin input.global_role) same (
        by_list (Leaves s) input.organization_ids same (λ organization others.
          by_guard (Leaves s) (not (all_of (is_open_organization s) input.organization_ids)) same (
            by_option (Leaves s) (get_key str_eq p.user_id s.users) (λ _. same)
              (λ caller _. by_guard (Leaves s) (not (may_create s p caller input)) same (
                by_guard (Leaves s) (is_taken s input.username) same (
                  by_guard (Leaves s)
                    (not (all_of (is_project_of s input.organization_ids) input.project_ids)) same
                    (Keeps-Forward _ _ (Keeps-join_projects now _ input.project_ids _))))))))
    where
      same : Forward s.projects s.projects
      same = Forward-refl s.projects

  pub remove_membership-Forward :
      (p : AccountPrincipal) (organization user : String) (expected : Option ℕ) (request : String)
      (s : AccountStore)
      → Forward s.projects
          (remove_membership machine now p organization user expected request s).0.projects
  unfolding remove_membership record_audit
  remove_membership-Forward p organization user expected request s =
      by_option (Leaves s) (get_key str_eq user s.users) (λ _. same)
        (λ u _.
          by_option (Leaves s) (get_key str_eq organization u.memberships) (λ _. same)
            (λ current _. by_guard (Leaves s) (not (may_configure s p organization u)) same (
              by_guard (Leaves s) (is_stale expected current.revision) same
                (by_option (Leaves s) (get_key str_eq user _) (λ _. left) (λ _ _. left)))))
    where
      same : Forward s.projects s.projects
      same = Forward-refl s.projects

      left : Forward s.projects (map_values (leave organization user) s.projects)
      left = Keeps-Forward _ _ (
          Carried-map_values Same Same-refl (leave organization user) s.projects
            (Same-leave organization user))

  pub update_organization-Forward :
      (p : AccountPrincipal) (id : String) (name : Option String)
      (status : Option OrganizationStatus) (expected : Option ℕ) (request : String)
      (s : AccountStore)
      → Forward s.projects
          (update_organization machine now p id name status expected request s).0.projects
  unfolding update_organization record_audit
  update_organization-Forward p id name status expected request s =
      by_guard (Leaves s) (not (is_admin p.role)) same (
        by_option (Leaves s) (get_key str_eq id s.organizations) (λ _. same)
          (λ o _.
            by_guard (Leaves s) (is_stale expected o.revision) same (
              by_option (Leaves s) (get_key str_eq id _) (λ _. changed name)
                (λ _ _. changed name))))
    where
      same : Forward s.projects s.projects
      same = Forward-refl s.projects

      changed : (name : Option String) → Forward s.projects (rename_organization id name s).projects
      changed none = same
      changed (some n) =
          by_guard (λ (t : AccountStore). Forward s.projects t.projects) (is_blank n) same
            (Keeps-Forward _ _ (
              Carried-map_values Same Same-refl (rename_owner id (trim n)) s.projects
                (Same-rename_owner id (trim n))))
