-- ===== src/Accounts/Access.antt =====
-- dev/team-skill-service/src/account-store.ts: who may use a project, and what a manager may do.
use dsh_ai_coding.Base.{
  ℕ, true, not, ◌&&◌, ◌||◌, String, Option, none, some, is_none, any_of, keys, str_eq, get_key, ◌≡◌,
  ◌↔◌, refl, sym, ◌∙◌, ap, arith, by_if, by_option, some_inj, from_false, is_ok,
}
use dsh_ai_coding.Accounts.Records.{
  AccountStore, AccountPrincipal, AccountRole, admin, manager, member, UserRecord,
  OrganizationRecord, OrganizationStatus, ProjectRecord, ProjectStatus, MemberStatus,
  ProjectMemberRecord, Machine, Outcome, is_live,
}
use dsh_ai_coding.Accounts.Views.{ProjectView, AccountUserView, is_active_member, can_manage_user}
use dsh_ai_coding.Accounts.Users.{UpdateUserInput, is_open_organization, is_foreign_change}
use dsh_ai_coding.Accounts.Users.Changes.{update_user}
use dsh_ai_coding.Accounts.Projects.{authorize_project, is_allowed}

-- The ways in which a caller may use a project of a store, in the words of the policy.
pub data MayUse (s : AccountStore) (p : AccountPrincipal) (project : ProjectRecord) : Type 0 where
  as_admin : p.role ≡ admin → MayUse s p project
  as_manager :
      p.role ≡ manager
      → is_active_member s p.user_id project.organization_id ≡ true
      → MayUse s p project
  as_member :
      (m : ProjectMemberRecord)
      → p.role ≡ member
      → is_active_member s p.user_id project.organization_id ≡ true
      → get_key str_eq p.user_id project.members ≡ some m
      → m.status ≡ MemberStatus.active
      → MayUse s p project

-- A project that a caller may use: it and its organization are active.
pub record Usable (s : AccountStore) (p : AccountPrincipal) (id : String) : Type 0 where
  pub project : ProjectRecord
  pub organization : OrganizationRecord
  pub is_stored : get_key str_eq id s.projects ≡ some project
  pub is_active : project.status ≡ ProjectStatus.active
  pub is_owned : get_key str_eq project.organization_id s.organizations ≡ some organization
  pub is_current : organization.status ≡ OrganizationStatus.active
  pub may : MayUse s p project

MayUse-is_allowed :
    (s : AccountStore) (p : AccountPrincipal) (project : ProjectRecord)
    → MayUse s p project
    → is_allowed s p project ≡ true
MayUse-is_allowed s p project (as_admin a) = ground (arith, a)
MayUse-is_allowed s p project (as_manager a b) = ground (arith, a, b)
MayUse-is_allowed s p project (as_member m a b c d) = ground (arith, a, b, c, d)

is_allowed-MayUse :
    (s : AccountStore) (p : AccountPrincipal) (project : ProjectRecord)
    → is_allowed s p project ≡ true
    → MayUse s p project
is_allowed-MayUse s p project h = by_role p.role refl
  where
    by_role : (r : AccountRole) → p.role ≡ r → MayUse s p project
    by_role admin e = as_admin e
    by_role manager e = as_manager e (ground (arith, h, e))
    by_role member e = by_present (get_key str_eq p.user_id project.members) refl
      where
        by_present :
            (o : Option ProjectMemberRecord)
            → get_key str_eq p.user_id project.members ≡ o
            → MayUse s p project
        by_present none f = from_false (ground (arith, h, e, f))
        by_present (some m) f = as_member m e (ground (arith, h, e)) f (ground (arith, h, e, f))

module _ (machine : Machine) (now : ℕ) where
  authorize_project-Usable :
      (p : AccountPrincipal) (id : String) (request : Option String) (s : AccountStore)
      → is_ok (authorize_project machine now p id request s).1 ≡ true
      → Usable s p id
  unfolding authorize_project
  authorize_project-Usable p id request s h =
      by_option Holds (get_key str_eq id s.projects) (λ _ g. from_false (ground (arith, g)))
        (λ project e.
          by_if Holds
            (not (is_live project.status) || not (is_open_organization s project.organization_id))
            (λ _ g. from_false (ground (arith, g)))
            (λ a.
              by_if Holds (not (is_allowed s p project)) (λ _ g. from_false (ground (arith, g)))
                (λ b _.
                  owned project e (ground (arith, a)) (ground (arith, a)) (ground (arith, b)))))
        h
    where
      Holds : Outcome ProjectView → Type 0
      Holds r = is_ok r.1 ≡ true → Usable s p id

      owned :
          (project : ProjectRecord)
          → get_key str_eq id s.projects ≡ some project
          → is_live project.status ≡ true
          → is_open_organization s project.organization_id ≡ true
          → is_allowed s p project ≡ true
          → Usable s p id
      owned project e live current allowed =
          found (get_key str_eq project.organization_id s.organizations) refl
        where
          found :
              (o : Option OrganizationRecord)
              → get_key str_eq project.organization_id s.organizations ≡ o
              → Usable s p id
          found none f = from_false (ground (arith, current, f))
          found (some o) f = record {
            project = project;
            organization = o;
            is_stored = e;
            is_active = ground (arith, live);
            is_owned = f;
            is_current = ground (arith, current, f);
            may = is_allowed-MayUse s p project allowed;
          }

  Usable-authorize_project :
      (p : AccountPrincipal) (id : String) (request : Option String) (s : AccountStore)
      → Usable s p id
      → is_ok (authorize_project machine now p id request s).1 ≡ true
  unfolding authorize_project
  Usable-authorize_project p id request s u = ground (
    arith,
    u.is_stored,
    u.is_active,
    u.is_owned,
    u.is_current,
    MayUse-is_allowed s p u.project u.may,
  )

  -- A caller is let into a project exactly when the project is active, its organization is there and
  -- active, and the caller is an admin, a manager who is an active member of the organization, or a
  -- member who is an active member of the organization and of the project.
  pub authorize_project-is_ok :
      (p : AccountPrincipal) (id : String) (request : Option String) (s : AccountStore)
      → (is_ok (authorize_project machine now p id request s).1 ≡ true) ↔ Usable s p id
  authorize_project-is_ok p id request s =
      (authorize_project-Usable p id request s, Usable-authorize_project p id request s)

  update_user-guards :
      (p : AccountPrincipal) (id : String) (input : UpdateUserInput) (expected : Option ℕ)
      (request : String) (s : AccountStore) (u : UserRecord)
      → get_key str_eq id s.users ≡ some u
      → is_ok (update_user machine now p id input expected request s).1 ≡ true
      → (can_manage_user s p u && not (is_foreign_change s p u input)) ≡ true
  unfolding update_user
  update_user-guards p id input expected request s u held done =
      by_option Holds (get_key str_eq id s.users) (λ e. from_false (ground (arith, e, held)))
        (λ v e.
          by_if Holds (not (can_manage_user s p v)) (λ _ h. ground (arith, h))
            (λ a.
              by_if Holds (is_foreign_change s p v input) (λ _ h. ground (arith, h))
                (λ b _.
                  ap (λ w. can_manage_user s p w && not (is_foreign_change s p w input))
                    (some_inj (sym held ∙ e))
                  ∙ ground (arith, a, b))))
        done
    where
      Holds : Outcome AccountUserView → Type 0
      Holds r =
          is_ok r.1 ≡ true → (can_manage_user s p u && not (is_foreign_change s p u input)) ≡ true

  -- What a manager changes is a member with whom they share an organization in which they are active;
  -- the name and the status they change only where they are active in every organization of the member.
  pub update_user-manager :
      (p : AccountPrincipal) (id : String) (input : UpdateUserInput) (expected : Option ℕ)
      (request : String) (s : AccountStore) (u : UserRecord)
      → p.role ≡ manager
      → get_key str_eq id s.users ≡ some u
      → is_ok (update_user machine now p id input expected request s).1 ≡ true
      → (u.global_role ≡ member)
        × (any_of (is_active_member s p.user_id) (keys u.memberships) ≡ true)
        × (((is_none input.display_name && is_none input.status)
              || not (any_of (λ o. not (is_active_member s p.user_id o)) (keys u.memberships)))
            ≡ true)
  update_user-manager p id input expected request s u role held done = (
    ground (arith, role, update_user-guards p id input expected request s u held done),
    ground (arith, role, update_user-guards p id input expected request s u held done),
    ground (arith, role, update_user-guards p id input expected request s u held done),
  )
