-- ===== src/Accounts/Tokens.antt =====
-- dev/team-skill-service/src/account-store.ts: which tokens are good after a sign in, a suspension and a
-- new password.
use dsh_ai_coding.Base.{
  refl, from_none, map_option, subst, ok, ℕ, ◌+◌, true, false, not, ◌&&◌, String, Option, none,
  some, List, [], ◌∷◌, str_eq, get_key, set_key, map_values, values, find_by, ltb, leb,
  utf16_length, ◌≡◌, sym, ◌∙◌, ap, arith, by_guard, by_option, some_inj, if◌then◌else◌, is_ok,
  eq_iff, str_eq_refl, get_key-set_key,
}
use dsh_ai_coding.Accounts.Records.{
  AccountStore, AccountPrincipal, UserRecord, SessionRecord, Machine, Outcome, is_active,
}
use dsh_ai_coding.Accounts.Records.Audits.{record_audit}
use dsh_ai_coding.Accounts.Views.{AccountUserView, can_manage_user}
use dsh_ai_coding.Accounts.Sessions.{
  LoginResult, principal_of, authenticate, revoke_session, access_of, is_named, login, new_session,
  open_session, signed, change_password, change_password_of,
}
use dsh_ai_coding.Accounts.Organizations.{is_stale}
use dsh_ai_coding.Accounts.Users.{
  UpdateUserInput, apply_update, is_foreign_change, suspends, is_protected,
}
use dsh_ai_coding.Accounts.Users.Changes.{update_user}

abbrev pub revoked_of : String → SessionRecord → SessionRecord
revoked_of user session = if str_eq session.user_id user then revoke_session session else session

pub get_key-map_values {ℓ} :
    {V : Type ℓ} (f : V → V) (k : String) (m : List (String × V)) (v : V)
    → get_key str_eq k m ≡ some v
    → get_key str_eq k (map_values f m) ≡ some (f v)
get_key-map_values f k [] v e = ground (arith, e)
get_key-map_values f k ((j, w) ∷ m) v e = ground (arith, e, get_key-map_values f k m v)

pub get_key-set_other {ℓ} :
    {V : Type ℓ} (j k : String) (v : V) (m : List (String × V))
    → str_eq k j ≡ false
    → get_key str_eq j (set_key str_eq k v m) ≡ get_key str_eq j m
get_key-set_other j k v [] n = ground (arith, n)
get_key-set_other j k v ((i, w) ∷ m) n =
    ground (arith, n, eq_iff i k, eq_iff i j, eq_iff k j, get_key-set_other j k v m n)

-- A session of the user that was revoked is refused, whatever happens to the accounts.
revoked-authenticate :
    (later : ℕ) (t : AccountStore) (token user : String) (session : SessionRecord)
    → session.user_id ≡ user
    → get_key str_eq token t.sessions ≡ some (revoked_of user session)
    → authenticate later t token ≡ none
unfolding authenticate
revoked-authenticate later t token user session e h = ground (arith, e, h, str_eq_refl user)

module _ (machine : Machine) (now : ℕ) where
  update_user-sessions :
      (p : AccountPrincipal) (id : String) (input : UpdateUserInput) (expected : Option ℕ)
      (request : String) (s : AccountStore)
      → suspends input ≡ true
      → is_ok (update_user machine now p id input expected request s).1 ≡ true
      → (update_user machine now p id input expected request s).0.sessions
        ≡ map_values (revoked_of id) s.sessions
  unfolding update_user
  update_user-sessions p id input expected request s t =
      by_option Holds (get_key str_eq id s.users) (λ _ h. ground (arith, h))
        (λ u _.
          by_guard Holds (not (can_manage_user s p u)) (λ h. ground (arith, h))
            (by_guard Holds (is_foreign_change s p u input) (λ h. ground (arith, h))
              (by_guard Holds (is_stale expected u.revision) (λ h. ground (arith, h))
                (by_guard Holds (suspends input && is_protected s u) (λ h. ground (arith, h))
                  (by_option Holds (get_key str_eq id (apply_update id input s).users)
                    (λ _ h. ground (arith, t)) (λ _ _ h. ground (arith, t)))))))
    where
      Holds : Outcome AccountUserView → Type 0
      Holds r = is_ok r.1 ≡ true → r.0.sessions ≡ map_values (revoked_of id) s.sessions

  -- Once a suspension of an account has succeeded, a token that was given to the account before is
  -- refused at every later time, also in a store whose accounts have changed since, as when the account
  -- is active again.
  pub update_user-authenticate :
      (p : AccountPrincipal) (id : String) (input : UpdateUserInput) (expected : Option ℕ)
      (request : String) (s t : AccountStore) (later : ℕ) (token : String) (session : SessionRecord)
      → suspends input ≡ true
      → is_ok (update_user machine now p id input expected request s).1 ≡ true
      → get_key str_eq token s.sessions ≡ some session
      → session.user_id ≡ id
      → t.sessions ≡ (update_user machine now p id input expected request s).0.sessions
      → authenticate later t token ≡ none
  update_user-authenticate p id input expected request s t later token session suspended done held
        owned kept =
      revoked-authenticate later t token id session owned (
        ap (λ m. get_key str_eq token m)
          (kept ∙ update_user-sessions p id input expected request s suspended done)
        ∙ get_key-map_values (revoked_of id) token s.sessions session held)

  change_password_of-sessions :
      (o : Option AccountPrincipal) (old new request : String) (s : AccountStore)
      (p : AccountPrincipal) (u : UserRecord) (other : String) (session : SessionRecord)
      → o ≡ some p
      → get_key str_eq p.user_id s.users ≡ some u
      → is_ok (change_password_of machine now o old new request s).1 ≡ true
      → get_key str_eq other s.sessions ≡ some session
      → str_eq (access_of machine now s) other ≡ false
      → get_key str_eq other (change_password_of machine now o old new request s).0.sessions
        ≡ some (revoked_of u.user_id session)
  unfolding change_password_of record_audit
  change_password_of-sessions none old new request s p u other session e held done stored fresh =
      ground (arith, e)
  change_password_of-sessions (some q) old new request s p u other session e held done stored
        fresh =
      by_option Holds (get_key str_eq q.user_id s.users) (λ _ h. ground (arith, h))
        (λ v f.
          by_guard Holds (not (str_eq v.password old)) (λ h. ground (arith, h))
            (by_guard Holds (ltb (utf16_length new) 8) (λ h. ground (arith, h))
              (λ h.
                get_key-set_other other (access_of machine now s) _ _ fresh
                ∙ get_key-map_values (revoked_of v.user_id) other s.sessions session stored
                ∙ ap (λ w. some (revoked_of w.user_id session))
                    (some_inj
                      (sym f ∙ ap (λ r. get_key str_eq r.user_id s.users) (some_inj e) ∙ held)))))
        done
    where
      Holds : Outcome LoginResult → Type 0
      Holds r =
          is_ok r.1 ≡ true → get_key str_eq other r.0.sessions ≡ some (revoked_of u.user_id session)

  -- Once a password is changed, a token that the account had before is refused at every later time; the
  -- token that is handed out is taken to be new.
  pub change_password-authenticate :
      (token old new request : String) (s : AccountStore) (p : AccountPrincipal) (u : UserRecord)
      (later : ℕ) (other : String) (session : SessionRecord)
      → authenticate now s token ≡ some p
      → get_key str_eq p.user_id s.users ≡ some u
      → is_ok (change_password machine now token old new request s).1 ≡ true
      → get_key str_eq other s.sessions ≡ some session
      → session.user_id ≡ u.user_id
      → str_eq (access_of machine now s) other ≡ false
      → authenticate later (change_password machine now token old new request s).0 other ≡ none
  unfolding change_password
  change_password-authenticate token old new request s p u later other session a held done stored
        owned fresh =
      revoked-authenticate later _ other u.user_id session owned (
        change_password_of-sessions (authenticate now s token) old new request s p u other session a
          held done stored fresh)

  open_session-authenticate :
      (u : UserRecord) (action request : String) (s : AccountStore) (later : ℕ)
      → get_key str_eq u.user_id s.users ≡ some u
      → is_active u.status ≡ true
      → authenticate later (open_session machine now u action request s).0 (access_of machine now s)
        ≡ (if leb later (now + 900_000)
            then some (principal_of (access_of machine now s) u)
            else none)
  unfolding open_session authenticate record_audit
  open_session-authenticate u action request s later held active = ground (
    arith,
    held,
    active,
    get_key-set_key str_eq (access_of machine now s) (new_session machine now u.user_id s)
        s.sessions (str_eq_refl (access_of machine now s)),
  )

  login-opened :
      (name request : String) (s : AccountStore) (u : UserRecord)
      → find_by (is_named machine now name) (values s.users) ≡ some u
      → is_active u.status ≡ true
      → login machine now name u.password request s ≡ (
        (open_session machine now u "登录成功" request s).0,
        ok (some (open_session machine now u "登录成功" request s).1),
      )
  unfolding login
  login-opened name request s u found active =
      by_option
        (λ (r : Outcome (Option LoginResult)). r ≡ (
          (open_session machine now u "登录成功" request s).0,
          ok (some (open_session machine now u "登录成功" request s).1),
        ))
        (find_by (is_named machine now name) (values s.users)) (λ e. from_none (sym e ∙ found))
        (λ v e. opened v (some_inj (sym e ∙ found)))
    where
      opened :
          (v : UserRecord)
          → v ≡ u
          → signed machine now v u.password request s ≡ (
            (open_session machine now u "登录成功" request s).0,
            ok (some (open_session machine now u "登录成功" request s).1),
          )
      opened v e =
          ap (λ w. signed machine now w u.password request s) e
          ∙ ground (arith, active, str_eq_refl u.password)

  -- What a sign in answers: tokens, of which the access token stands for the account until 900
  -- seconds have passed and for nobody after them, and the refresh token is the one that is kept
  -- with the access token.
  pub record SignedIn (u : UserRecord) (later : ℕ) (r : Outcome (Option LoginResult)) : Type 0 where
    pub result : LoginResult
    pub answer : r.1 ≡ ok (some result)
    pub access :
        authenticate later r.0 result.access_token
        ≡ (if leb later (now + 900_000) then some (principal_of result.access_token u) else none)
    pub kept :
        map_option
          (λ session. session.refresh_token)
          (get_key str_eq result.access_token r.0.sessions)
        ≡ some result.refresh_token

  open_session-SignedIn :
      (u : UserRecord) (action request : String) (s : AccountStore) (later : ℕ)
      → get_key str_eq u.user_id s.users ≡ some u
      → is_active u.status ≡ true
      → SignedIn u later (
        (open_session machine now u action request s).0,
        ok (some (open_session machine now u action request s).1),
      )
  unfolding open_session record_audit
  open_session-SignedIn u action request s later held active = record {
    result = (open_session machine now u action request s).1;
    answer = refl;
    access = open_session-authenticate u action request s later held active;
    kept = ap (map_option (λ session. session.refresh_token)) (
        get_key-set_key str_eq (access_of machine now s) (new_session machine now u.user_id s)
          s.sessions (str_eq_refl (access_of machine now s)));
  }

  -- A sign in with the password of an active account is answered with tokens. The access token of the
  -- answer stands for the account until its 900 seconds have passed, and for nobody after them; the
  -- refresh token of the answer is the one of the session that is kept under the access token.
  pub login-SignedIn :
      (name request : String) (s : AccountStore) (u : UserRecord) (later : ℕ)
      → find_by (is_named machine now name) (values s.users) ≡ some u
      → get_key str_eq u.user_id s.users ≡ some u
      → is_active u.status ≡ true
      → SignedIn u later (login machine now name u.password request s)
  login-SignedIn name request s u later found held active =
      subst (SignedIn u later) (sym (login-opened name request s u found active))
        (open_session-SignedIn u "登录成功" request s later held active)
