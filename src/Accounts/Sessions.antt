-- ===== src/Accounts/Sessions.antt =====
-- dev/team-skill-service/src/account-store.ts: sign in, refresh, sign out and passwords. An operation
-- reads one instant.
use Prim.Native.String.{◌++◌ as str_append}
use dsh_ai_coding.Base.{
  ℕ, suc, ◌+◌, ◌*◌, Bool, true, false, not, ◌&&◌, ◌||◌, String, Option, none, some, List, [], ◌∷◌,
  find_by, str_eq, ltb, leb, if◌then◌else◌, get_key, set_key, update_key, map_values, values,
  utf16_length, ok,
}
use dsh_ai_coding.Accounts.Records.{
  AccountPrincipal, UserRecord, SessionRecord, AccountStore, Outcome, failure, Machine, is_active,
  AuditResult, succeeded, failed,
}
use dsh_ai_coding.Accounts.Records.Audits.{about, record_audit}
use dsh_ai_coding.Accounts.Views.{
  AccountUserView, MembershipView, memberships_view, user_view, audit_organization_id,
}

pub record LoginResult : Type 0 where
  pub access_token : String
  pub refresh_token : String
  pub expires_in : ℕ
  pub user : AccountUserView
  pub memberships : List MembershipView
  pub must_change_password : Bool

abbrev pub principal_of : String → UserRecord → AccountPrincipal
principal_of token u = record {
  token = token;
  user_id = u.user_id;
  display_name = u.display_name;
  role = u.global_role;
  groups = "platform" ∷ [];
  must_change_password = u.must_change_password;
}

unfoldable pub principal_for_user : AccountStore → String → Option AccountPrincipal
principal_for_user s user = elim (get_key str_eq user s.users) [
  | none ↦ none
  | some u ↦ if is_active u.status then some (principal_of "simulate-only" u) else none
]

-- A session that may still be used. (`!(expiresAt < Date.now())`.)
abbrev pub is_usable : ℕ → SessionRecord → Bool
is_usable now session = not session.revoked && leb now session.expires_at

unfoldable pub authenticate : ℕ → AccountStore → String → Option AccountPrincipal
authenticate now s token = elim (get_key str_eq token s.sessions) [
  | none ↦ none
  | some session ↦
      if is_usable now session
      then (elim (get_key str_eq session.user_id s.users) [
        | none ↦ none
        | some u ↦ if is_active u.status then some (principal_of token u) else none
      ])
      else none
]

abbrev pub revoke_session : SessionRecord → SessionRecord
revoke_session session = record session { revoked = true }

unfoldable pub revoke_user_sessions : String → AccountStore → AccountStore
revoke_user_sessions user s = record s {
  sessions =
      map_values
        (λ session. if str_eq session.user_id user then revoke_session session else session)
        s.sessions;
}

module _ (machine : Machine) (now : ℕ) where
  abbrev pub access_of : AccountStore → String
  access_of s = str_append "access-" (machine.uuid s.drawn)

  abbrev pub refresh_of : AccountStore → String
  refresh_of s = str_append "refresh-" (machine.uuid (suc s.drawn))

  abbrev pub new_session : String → AccountStore → SessionRecord
  new_session user s = record {
    access_token = access_of s;
    refresh_token = refresh_of s;
    user_id = user;
    expires_at = now + 900 * 1_000;
    revoked = false;
  }

  unfoldable pub create_session : String → AccountStore → AccountStore
  create_session user s = record s {
    sessions = set_key str_eq (access_of s) (new_session user s) s.sessions;
    drawn = suc (suc s.drawn);
  }

  abbrev pub login_result : AccountStore → UserRecord → LoginResult
  login_result s u = record {
    access_token = access_of s;
    refresh_token = refresh_of s;
    expires_in = 900;
    user = user_view u;
    memberships = memberships_view s none u.memberships;
    must_change_password = u.must_change_password;
  }

  -- An audit that a user leaves about their own account.
  abbrev pub audit_self :
      UserRecord → String → AuditResult → Option String → String → AccountStore → AccountStore
  audit_self u action result code request =
      record_audit machine now u.user_id u.display_name action result code request
        (about (audit_organization_id u) none none)

  -- A new session of the user, with its audit and its answer.
  unfoldable pub open_session :
      UserRecord → String → String → AccountStore → AccountStore × LoginResult
  unfolding create_session
  open_session u action request s =
      (audit_self u action succeeded none request (create_session u.user_id s), login_result s u)

  abbrev pub is_named : String → UserRecord → Bool
  is_named name u = str_eq u.username name || str_eq u.email name

  -- A sign in of the user that the name was found for.
  unfoldable pub signed : UserRecord → String → String → AccountStore → Outcome (Option LoginResult)
  unfolding open_session
  signed u password request s =
      if not (is_active u.status)
      then (
        audit_self u "登录失败" failed (some "ACCOUNT_SUSPENDED") request s,
        failure 403 "ACCOUNT_SUSPENDED",
      )
      else if not (str_eq u.password password)
      then (audit_self u "登录失败" failed (some "INVALID_CREDENTIALS") request s, ok none)
      else let (after, result) = open_session u "登录成功" request s in (after, ok (some result))

  -- `ok none` is the answer `undefined`: no such user, or another password.
  unfoldable pub login : String → String → String → AccountStore → Outcome (Option LoginResult)
  unfolding signed
  login name password request s = elim (find_by (is_named name) (values s.users)) [
    | none ↦ (s, ok none)
    | some u ↦ signed u password request s
  ]

  abbrev pub has_refresh : String → SessionRecord → Bool
  has_refresh token session = str_eq session.refresh_token token && not session.revoked

  -- The session is replaced by one with new tokens.
  unfoldable pub rotate :
      SessionRecord → UserRecord → String → AccountStore → AccountStore × LoginResult
  unfolding open_session
  rotate session u request s =
      open_session u "令牌刷新" request
        (record s { sessions = update_key str_eq session.access_token revoke_session s.sessions })

  unfoldable pub refresh : String → String → AccountStore → AccountStore × Option LoginResult
  unfolding rotate
  refresh token request s = elim (find_by (has_refresh token) (values s.sessions)) [
    | none ↦ (s, none)
    | some session ↦
        if ltb session.expires_at now
        then (s, none)
        else elim (get_key str_eq session.user_id s.users) [
          | none ↦ (s, none)
          | some u ↦
              if is_active u.status
              then (let (after, result) = rotate session u request s in (after, some result))
              else (s, none)
        ]
  ]

  unfoldable pub logout : String → String → AccountStore → AccountStore
  logout token request s = elim (get_key str_eq token s.sessions) [
    | none ↦ s
    | some session ↦
        let after = record s { sessions = update_key str_eq token revoke_session s.sessions } in
        elim (get_key str_eq session.user_id s.users) [
          | none ↦ after
          | some u ↦ audit_self u "退出登录" succeeded none request after
        ]
  ]

  abbrev pub with_password : String → UserRecord → UserRecord
  with_password password u = record u {
    password = password;
    must_change_password = false;
    revision = u.revision + 1;
  }

  -- The password is set, every session of the user revoked and one opened.
  unfoldable pub replace_password :
      UserRecord → String → String → AccountStore → AccountStore × LoginResult
  unfolding open_session revoke_user_sessions
  replace_password u password request s = open_session (with_password password u) "密码修改" request (
      revoke_user_sessions u.user_id
        (record s { users = update_key str_eq u.user_id (with_password password) s.users }))

  -- The change, for the caller that the token stands for.
  unfoldable pub change_password_of :
      Option AccountPrincipal → String → String → String → AccountStore → Outcome LoginResult
  unfolding replace_password
  change_password_of none current password request s = (s, failure 401 "TOKEN_REVOKED")
  change_password_of (some p) current password request s = elim (get_key str_eq p.user_id s.users) [
    | none ↦ (s, failure 401 "INVALID_CREDENTIALS")
    | some u ↦
        if not (str_eq u.password current)
        then (s, failure 401 "INVALID_CREDENTIALS")
        else if ltb (utf16_length password) 8
        then (s, failure 422 "VALIDATION_ERROR")
        else let (after, result) = replace_password u password request s in (after, ok result)
  ]

  unfoldable pub change_password :
      String → String → String → String → AccountStore → Outcome LoginResult
  unfolding change_password_of
  change_password token current password request s =
      change_password_of (authenticate now s token) current password request s
