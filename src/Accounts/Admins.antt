-- ===== src/Accounts/Admins.antt =====
-- dev/team-skill-service/src/account-store.ts: the count of active admins, and what keeps it.
use dsh_ai_coding.Base.{
  ℕ, suc, ◌≤◌, true, false, String, Option, none, some, List, [], ◌∷◌, length, select, values,
  str_eq, take_text, get_key, set_key, update_key, ◌≡◌, refl, arith, by_if, by_option, ◌&&◌, leb,
  ltb, not, utf16_length,
}
use Prim.Native.String.{◌++◌ as str_append}
use dsh_ai_coding.Accounts.Records.{AccountStore, AccountPrincipal, UserRecord, Machine, Outcome}
use dsh_ai_coding.Accounts.Records.Audits.{record_audit}
use dsh_ai_coding.Accounts.Views.{AccountUserView, is_active_admin}
use dsh_ai_coding.Accounts.Sessions.{LoginResult, change_password_of, with_password}
use dsh_ai_coding.Accounts.Organizations.{create_organization, with_membership}
use dsh_ai_coding.Accounts.Users.{
  CreateUserInput, UpdateUserInput, updated_user, without_membership, suspends, join_projects,
  new_member, apply_update,
}
use dsh_ai_coding.Accounts.Users.Changes.{
  create_user, update_user, set_membership, remove_membership,
}

abbrev pub admins : List (String × UserRecord) → ℕ
admins us = length (select is_active_admin (values us))

admins-update_key :
    (id : String) (f : UserRecord → UserRecord) (us : List (String × UserRecord))
    → ((u : UserRecord) → is_active_admin u ≡ true → is_active_admin (f u) ≡ true)
    → admins us ≤ admins (update_key str_eq id f us)
admins-update_key id f [] h = omega arith
admins-update_key id f ((k, u) ∷ us) h = ground (arith, h u, admins-update_key id f us h)

-- A change of one account takes at most one admin away, and none where it is no active admin.
admins-update_one :
    (id : String) (f : UserRecord → UserRecord) (us : List (String × UserRecord)) (u : UserRecord)
    → get_key str_eq id us ≡ some u
    → admins us ≤ suc (admins (update_key str_eq id f us))
admins-update_one id f [] u e = omega arith
admins-update_one id f ((k, v) ∷ us) u e = ground (arith, admins-update_one id f us u)

admins-update_other :
    (id : String) (f : UserRecord → UserRecord) (us : List (String × UserRecord)) (u : UserRecord)
    → get_key str_eq id us ≡ some u
    → is_active_admin u ≡ false
    → admins us ≤ admins (update_key str_eq id f us)
admins-update_other id f [] u e h = omega arith
admins-update_other id f ((k, v) ∷ us) u e h = ground (arith, admins-update_other id f us u)

admins-set_key :
    (id : String) (u : UserRecord) (us : List (String × UserRecord))
    → get_key str_eq id us ≡ none
    → admins us ≤ admins (set_key str_eq id u us)
admins-set_key id u [] e = omega arith
admins-set_key id u ((k, v) ∷ us) e = ground (arith, admins-set_key id u us)

admins-with_password :
    (machine : Machine) (now : ℕ) (id password : String) (us : List (String × UserRecord))
    → admins us ≤ admins (update_key str_eq id (with_password machine now password) us)
admins-with_password machine now id password us =
    admins-update_key id (with_password machine now password) us (λ u h. h)

admins-with_membership :
    (id organization : String) (revision : ℕ) (us : List (String × UserRecord))
    → admins us ≤ admins (update_key str_eq id (with_membership organization revision) us)
admins-with_membership id organization revision us =
    admins-update_key id (with_membership organization revision) us (λ u h. h)

admins-without_membership :
    (id organization : String) (us : List (String × UserRecord))
    → admins us ≤ admins (update_key str_eq id (without_membership organization) us)
admins-without_membership id organization us =
    admins-update_key id (without_membership organization) us (λ u h. h)

join_projects-users :
    (now : ℕ) (user : String) (ids : List String) (s : AccountStore)
    → (join_projects now user ids s).users ≡ s.users
join_projects-users now user [] s = refl
join_projects-users now user (id ∷ ids) s = join_projects-users now user ids (record s {
  projects =
      update_key str_eq id
        (λ p. record p { members = set_key str_eq user (new_member now) p.members }) s.projects;
})

-- A suspension of an active admin where there is another one.
apply_update-admins :
    (id : String) (input : UpdateUserInput) (s : AccountStore) (u : UserRecord)
    → get_key str_eq id s.users ≡ some u
    → (suspends input && (is_active_admin u && leb (admins s.users) 1)) ≡ false
    → 1 ≤ admins s.users
    → 1 ≤ admins (apply_update id input s).users
unfolding apply_update
apply_update-admins id input s u e h one =
    by_if (λ (r : AccountStore). 1 ≤ admins r.users) (suspends input)
      (λ t. ground (
        arith,
        admins-update_one id (updated_user input) s.users u e,
        admins-update_other id (updated_user input) s.users u e,
      ))
      (λ t.
        ground (arith, admins-update_key id (updated_user input) s.users (λ v hv. ground arith)))

module _ (machine : Machine) (now : ℕ) where
  pub change_password_of-admins :
      (o : Option AccountPrincipal) (old new request : String) (s : AccountStore)
      → admins s.users ≤ admins (change_password_of machine now o old new request s).0.users
  unfolding change_password_of record_audit
  change_password_of-admins none old new request s = omega arith
  change_password_of-admins (some p) old new request s =
      by_option Kept (get_key str_eq p.user_id s.users) (λ _. omega arith)
        (λ u e.
          by_if Kept (not (str_eq u.password old)) (λ _. omega arith)
            (λ _.
              by_if Kept (ltb (utf16_length new) 8) (λ _. omega arith)
                (λ _. admins-with_password machine now u.user_id new s.users)))
    where
      Kept : Outcome LoginResult → Type 0
      Kept r = admins s.users ≤ admins r.0.users

  pub create_organization-admins :
      (p : AccountPrincipal) (name : String) (manager : Option String) (request : String)
      (s : AccountStore)
      → admins s.users ≤ admins (create_organization machine now p name manager request s).0.users
  unfolding create_organization
  create_organization-admins p name none request s = ground arith
  create_organization-admins p name (some user) request s = grind (arith, admins-with_membership)

  pub set_membership-admins :
      (p : AccountPrincipal) (organization user : String) (expected : Option ℕ) (request : String)
      (s : AccountStore)
      → admins s.users
        ≤ admins (set_membership machine now p organization user expected request s).0.users
  unfolding set_membership
  set_membership-admins p organization user expected request s =
      grind (arith, admins-with_membership)

  pub remove_membership-admins :
      (p : AccountPrincipal) (organization user : String) (expected : Option ℕ) (request : String)
      (s : AccountStore)
      → admins s.users
        ≤ admins (remove_membership machine now p organization user expected request s).0.users
  unfolding remove_membership
  remove_membership-admins p organization user expected request s =
      grind (arith, admins-without_membership)

  pub create_user-admins :
      (dashless : String → String) (p : AccountPrincipal) (input : CreateUserInput)
      (request : String) (s : AccountStore)
      → get_key str_eq (str_append "user-" (take_text 8 (machine.uuid s.drawn))) s.users ≡ none
      → admins s.users ≤ admins (create_user machine now dashless p input request s).0.users
  unfolding create_user
  create_user-admins dashless p input request s fresh =
      grind (arith, admins-set_key, join_projects-users)

  pub update_user-admins :
      (p : AccountPrincipal) (id : String) (input : UpdateUserInput) (expected : Option ℕ)
      (request : String) (s : AccountStore)
      → 1 ≤ admins s.users
      → 1 ≤ admins (update_user machine now p id input expected request s).0.users
  unfolding update_user
  update_user-admins p id input expected request s h =
      by_option (λ (r : Outcome AccountUserView). 1 ≤ admins r.0.users) (get_key str_eq id s.users)
        (λ _. h) (λ u e. ground (arith, apply_update-admins id input s u e))
