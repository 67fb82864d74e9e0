-- ===== src/Accounts/Rotation.antt =====
-- dev/team-skill-service/src/account-store.ts: a refresh token that is used again.
use dsh_ai_coding.Base.{
  ℕ, suc, ◌≤◌, Bool, true, false, String, Option, none, some, is_none, List, [], ◌∷◌, length,
  select, find_by, values, str_eq, ltb, get_key, set_key, update_key, ◌≡◌, refl, sym, ◌∙◌, ap,
  arith, by_guard, by_option, some_inj, from_false,
}
use dsh_ai_coding.Accounts.Records.{AccountStore, UserRecord, SessionRecord, Machine, is_active}
use dsh_ai_coding.Accounts.Records.Audits.{record_audit}
use dsh_ai_coding.Accounts.Sessions.{
  LoginResult, revoke_session, has_refresh, refresh_of, access_of, new_session, rotate, refresh,
}

abbrev pub StoredSessions : Type 0
StoredSessions = List (String × SessionRecord)

-- How many sessions could be refreshed with a token.
abbrev pub refreshable : (SessionRecord → Bool) → StoredSessions → ℕ
refreshable p m = length (select p (values m))

refreshable-update_key :
    (p : SessionRecord → Bool) (k : String) (f : SessionRecord → SessionRecord) (m : StoredSessions)
    (v : SessionRecord)
    → get_key str_eq k m ≡ some v
    → p v ≡ true
    → p (f v) ≡ false
    → suc (refreshable p (update_key str_eq k f m)) ≡ refreshable p m
refreshable-update_key p k f [] v e h n = ground (arith, e)
refreshable-update_key p k f ((j, w) ∷ m) v e h n =
    ground (arith, e, h, n, refreshable-update_key p k f m v)

refreshable-set_key :
    (p : SessionRecord → Bool) (k : String) (v : SessionRecord) (m : StoredSessions)
    → p v ≡ false
    → refreshable p (set_key str_eq k v m) ≤ refreshable p m
refreshable-set_key p k v [] n = ground (arith, n)
refreshable-set_key p k v ((j, w) ∷ m) n = ground (arith, n, refreshable-set_key p k v m n)

find_by-none {ℓ} :
    {A : Type ℓ} (p : A → Bool) (xs : List A) → length (select p xs) ≤ 0 → find_by p xs ≡ none
find_by-none p [] h = refl
find_by-none p (x ∷ xs) h = ground (arith, h, find_by-none p xs)

find_by-test {ℓ} :
    {A : Type ℓ} (p : A → Bool) (xs : List A) (x : A) → find_by p xs ≡ some x → p x ≡ true
find_by-test p [] x e = ground (arith, e)
find_by-test p (y ∷ ys) x e = ground (arith, e, find_by-test p ys x)

refresh-none :
    (machine : Machine) (now : ℕ) (token request : String) (s : AccountStore)
    → find_by (has_refresh machine now token) (values s.sessions) ≡ none
    → refresh machine now token request s ≡ (s, none)
unfolding refresh
refresh-none machine now token request s e =
    by_option (λ (r : AccountStore × Option LoginResult). r ≡ (s, none))
      (find_by (has_refresh machine now token) (values s.sessions)) (λ _. refl)
      (λ v f. from_false (ap is_none (sym f ∙ e)))

module _ (machine : Machine) (now : ℕ) where
  rotate-find_by :
      (token request : String) (s : AccountStore) (session : SessionRecord) (u : UserRecord)
      → has_refresh machine now token session ≡ true
      → get_key str_eq session.access_token s.sessions ≡ some session
      → refreshable (has_refresh machine now token) s.sessions ≤ 1
      → str_eq (refresh_of machine now s) token ≡ false
      → find_by
          (has_refresh machine now token)
          (values (rotate machine now session u request s).0.sessions)
        ≡ none
  unfolding rotate record_audit
  rotate-find_by token request s session u good stored single fresh =
      find_by-none (has_refresh machine now token)
        (values
          (set_key str_eq (access_of machine now s) (new_session machine now u.user_id s) left))
        (omega (
          arith,
          single,
          refreshable-set_key (has_refresh machine now token) (access_of machine now s)
              (new_session machine now u.user_id s) left (ground (arith, fresh)),
          refreshable-update_key (has_refresh machine now token) session.access_token revoke_session
              s.sessions session stored good (ground arith),
        ))
    where
      left : StoredSessions
      left = update_key str_eq session.access_token revoke_session s.sessions

  refresh-find_by :
      (token request : String) (s : AccountStore) (session : SessionRecord)
      → find_by (has_refresh machine now token) (values s.sessions) ≡ some session
      → get_key str_eq session.access_token s.sessions ≡ some session
      → refreshable (has_refresh machine now token) s.sessions ≤ 1
      → str_eq (refresh_of machine now s) token ≡ false
      → is_none (refresh machine now token request s).1 ≡ false
      → find_by
          (has_refresh machine now token)
          (values (refresh machine now token request s).0.sessions)
        ≡ none
  unfolding refresh
  refresh-find_by token request s session found stored single fresh done =
      by_option Holds (find_by (has_refresh machine now token) (values s.sessions))
        (λ _ h. from_false (sym h))
        (λ v e.
          by_guard Holds (ltb v.expires_at now) (λ h. from_false (sym h))
            (by_option Holds (get_key str_eq v.user_id s.users) (λ _ h. from_false (sym h))
              (λ u _.
                by_guard Holds (is_active u.status) (λ _. rotated v u (some_inj (sym e ∙ found)))
                  (λ h. from_false (sym h)))))
        done
    where
      Holds : AccountStore × Option LoginResult → Type 0
      Holds r =
          is_none r.1 ≡ false → find_by (has_refresh machine now token) (values r.0.sessions) ≡ none

      rotated :
          (v : SessionRecord) (u : UserRecord)
          → v ≡ session
          → find_by
              (has_refresh machine now token)
              (values (rotate machine now v u request s).0.sessions)
            ≡ none
      rotated v u e =
          ap
            (λ w.
              find_by (has_refresh machine now token)
                (values (rotate machine now w u request s).0.sessions))
            e
          ∙ rotate-find_by token request s session u
              (find_by-test (has_refresh machine now token) (values s.sessions) session found)
              stored single fresh

  -- Once a refresh has succeeded, the same token refreshes nothing at any later time: the answer is none
  -- and the store stays as it is. This is so where one session alone could be refreshed with the token,
  -- the session is held under its own access token, and the refresh token that is handed out is new.
  pub refresh-refresh :
      (token request again : String) (s : AccountStore) (session : SessionRecord) (later : ℕ)
      → find_by (has_refresh machine now token) (values s.sessions) ≡ some session
      → get_key str_eq session.access_token s.sessions ≡ some session
      → refreshable (has_refresh machine now token) s.sessions ≤ 1
      → str_eq (refresh_of machine now s) token ≡ false
      → is_none (refresh machine now token request s).1 ≡ false
      → refresh machine later token again (refresh machine now token request s).0
        ≡ ((refresh machine now token request s).0, none)
  refresh-refresh token request again s session later found stored single fresh done =
      refresh-none machine later token again _
        (refresh-find_by token request s session found stored single fresh done)
