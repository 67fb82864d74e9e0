-- ===== src/Examples/Accounts.antt =====
-- dev/team-skill-service/src/account-store.ts, run on a small store.
use dsh_ai_coding.Base.{
  ℕ, zero, suc, ◌≤◌, String, none, some, [], ◌∷◌, get_key, str_eq, ◌≡◌, ◌↔◌, refl, arith, take,
  length, is_ok, any_of, keys, is_none, not, ◌&&◌, ◌||◌, true, false,
}
use dsh_ai_coding.Accounts.Records.{
  AccountRole, admin, manager, member, AccountStatus, suspended, OrganizationStatus, ProjectStatus,
  draft, skill, reference, AccountPrincipal, UserRecord, ProjectRecord, SessionRecord,
  AssetRelationRecord, AccountStore, Machine,
}
use dsh_ai_coding.Accounts.Views.{admin_membership_count, is_active_member}
use dsh_ai_coding.Accounts.Sessions.{authenticate, principal_of, login, refresh, change_password}
use dsh_ai_coding.Accounts.Users.{UpdateUserInput}
use dsh_ai_coding.Accounts.Users.Changes.{update_user}
use dsh_ai_coding.Accounts.Projects.{authorize_project}
use dsh_ai_coding.Accounts.Assets.Changes.{move_project_asset}
use dsh_ai_coding.Accounts.Commands.{activates, updates_user, authorizes, perform}
use dsh_ai_coding.Accounts.Lifecycle.{Next, Carried}
use dsh_ai_coding.Accounts.History.{perform-Carried}
use dsh_ai_coding.Accounts.Remaining.{perform-admin}
use dsh_ai_coding.Accounts.Trail.{perform-KeepsAudits}
use dsh_ai_coding.Accounts.Tokens.{
  update_user-authenticate, change_password-authenticate, SignedIn, login-SignedIn,
}
use dsh_ai_coding.Accounts.Rotation.{refresh-refresh}
use dsh_ai_coding.Accounts.Access.{Usable, authorize_project-is_ok, update_user-manager}
use dsh_ai_coding.Accounts.Moving.{relation_in, stamped, move_project_asset-relation_in}

abbrev user : String → AccountRole → UserRecord
user name role = record {
  user_id = name;
  username = name;
  email = name;
  display_name = name;
  status = AccountStatus.active;
  global_role = role;
  password = "old-password";
  must_change_password = false;
  revision = 1;
  memberships = ("org-1", record { status = AccountStatus.active; revision = 1 }) ∷ [];
}

abbrev relation : AssetRelationRecord
relation = record {
  asset_type = skill;
  asset_id = "skill-1";
  relation_kind = reference;
  created_at = 3;
  updated_at = 3;
  revision = 1;
}

abbrev project : String → ProjectStatus → ProjectRecord
project id status = record {
  project_id = id;
  organization_id = "org-1";
  organization_name = "Org";
  name = id;
  description = "";
  created_by = "ada";
  created_at = 1;
  updated_at = 1;
  status = status;
  revision = 1;
  members = [];
  assets = ((skill, "skill-1"), relation) ∷ [];
}

abbrev session : SessionRecord
session = record {
  access_token = "token-1";
  refresh_token = "refresh-1";
  user_id = "max";
  expires_at = 1_000_000;
  revoked = false;
}

abbrev store : AccountStore
store = record {
  users = ("ada", user "ada" admin) ∷ ("mia", user "mia" manager) ∷ ("max", user "max" member) ∷ [];
  organizations =
      (
        "org-1",
        record {
          organization_id = "org-1";
          name = "Org";
          status = OrganizationStatus.active;
          revision = 1;
        },
      )
      ∷ [];
  projects =
      ("project-1", project "project-1" draft)
      ∷ ("project-2", project "project-2" ProjectStatus.active)
      ∷ [];
  groups = [];
  sessions = ("token-1", session) ∷ [];
  platform_assets = [];
  audits = [];
  denials = [];
  drawn = 0;
}

abbrev uuid : ℕ → String
uuid zero = "00000000-0000"
uuid (suc zero) = "11111111-1111"
uuid _ = "22222222-2222"

abbrev machine : Machine
machine = record { uuid = uuid; lower = λ t. t }

abbrev ada : AccountPrincipal
ada = principal_of "token-ada" (user "ada" admin)

abbrev mia : AccountPrincipal
mia = principal_of "token-mia" (user "mia" manager)

abbrev suspension : UpdateUserInput
suspension = record { display_name = none; status = some suspended }

perform-Carried_example : Carried Next (get_key str_eq "project-1" store.projects) (
    get_key str_eq "project-1"
      (perform machine (λ t. t) 50 (activates ada "project-1" (some 1) "req") store).projects)
perform-Carried_example =
    perform-Carried machine (λ t. t) 50 (activates ada "project-1" (some 1) "req") store tt
      "project-1"

perform-admin_example :
    1
    ≤ admin_membership_count
        (perform machine (λ t. t) 50 (updates_user ada "ada" suspension (some 1) "req") store)
perform-admin_example =
    perform-admin machine (λ t. t) 50 (updates_user ada "ada" suspension (some 1) "req") store tt
      (omega arith)

perform-KeepsAudits_example :
    take
      (length store.audits)
      (perform machine (λ t. t) 50 (authorizes mia "project-1" none) store).audits
    ≡ store.audits
perform-KeepsAudits_example =
    perform-KeepsAudits machine (λ t. t) 50 (authorizes mia "project-1" none) store

authorize_project-is_ok_example :
    (is_ok (authorize_project machine 50 mia "project-2" none store).1 ≡ true)
    ↔ Usable store mia "project-2"
authorize_project-is_ok_example = authorize_project-is_ok machine 50 mia "project-2" none store

update_user-authenticate_example :
    authenticate 99 (update_user machine 50 mia "max" suspension (some 1) "req" store).0 "token-1"
    ≡ none
unfolding update_user
update_user-authenticate_example =
    update_user-authenticate machine 50 mia "max" suspension (some 1) "req" store
      (update_user machine 50 mia "max" suspension (some 1) "req" store).0 99 "token-1" session refl
      refl refl refl refl

change_password-authenticate_example :
    authenticate 99
      (change_password machine 50 "token-1" "old-password" "new-password" "req" store).0
      "token-1"
    ≡ none
unfolding change_password authenticate
change_password-authenticate_example =
    change_password-authenticate machine 50 "token-1" "old-password" "new-password" "req" store
      (principal_of "token-1" (user "max" member)) (user "max" member) 99 "token-1" session refl
      refl refl refl refl refl

login-SignedIn_example :
    SignedIn machine 50
      (user "mia" manager)
      900_051
      (login machine 50 "mia" "old-password" "req" store)
login-SignedIn_example =
    login-SignedIn machine 50 "mia" "req" store (user "mia" manager) 900_051 refl refl refl

update_user-manager_example :
    (AccountRole.member ≡ AccountRole.member)
    × (any_of (is_active_member store "mia") (keys (user "max" member).memberships) ≡ true)
    × (((is_none suspension.display_name && is_none suspension.status)
          || not (
              any_of
                (λ o. not (is_active_member store "mia" o))
                (keys (user "max" member).memberships)))
        ≡ true)
unfolding update_user
update_user-manager_example =
    update_user-manager machine 50 mia "max" suspension (some 1) "req" store (user "max" member)
      refl refl refl

move_project_asset-relation_in_example :
    (relation_in
        (move_project_asset machine 50 ada (skill, "skill-1") "project-1" "project-2" "req" store).0
        "project-1"
        (skill, "skill-1")
      ≡ none)
    × (relation_in
          (move_project_asset machine 50 ada
            (skill, "skill-1")
            "project-1"
            "project-2"
            "req"
            store).0
          "project-2"
          (skill, "skill-1")
        ≡ some (stamped machine 50 relation))
unfolding move_project_asset
move_project_asset-relation_in_example =
    move_project_asset-relation_in machine 50 ada (skill, "skill-1") "project-1" "project-2" "req"
      store (project "project-1" draft) relation refl refl refl refl

refresh-refresh_example :
    refresh machine 99 "refresh-1" "again" (refresh machine 50 "refresh-1" "req" store).0
    ≡ ((refresh machine 50 "refresh-1" "req" store).0, none)
unfolding refresh
refresh-refresh_example =
    refresh-refresh machine 50 "refresh-1" "req" "again" store session 99 refl refl (omega arith)
      refl refl
