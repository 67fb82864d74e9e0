-- ===== src/Accounts/Forward.antt =====
-- dev/team-skill-service/src/account-store.ts: the life of projects in each method that writes them.
use dsh_ai_coding.Base.{
  ℕ, true, not, String, Option, none, some, str_eq, get_key, update_key, ◌≡◌, refl, sym, ◌∙◌, ap,
  subst, arith, by_if, by_option, some_inj,
}
use dsh_ai_coding.Accounts.Records.{
  AccountStore, AccountPrincipal, ProjectRecord, ProjectStatus, draft, Machine, Outcome,
}
use dsh_ai_coding.Accounts.Views.{can_manage_project}
use dsh_ai_coding.Accounts.Organizations.{is_stale}
use dsh_ai_coding.Accounts.Projects.{same_project_status, touched, renamed_project, described}
use dsh_ai_coding.Accounts.Projects.Changes.{change_project, transition_project}
use dsh_ai_coding.Accounts.Lifecycle.{
  Moves, Next, Same, Projects, Carried, Carried-refl, Carried-update_key, Carried-trans, Same-refl,
  Same-trans, Same-Next, Carried-Next,
}

-- Each project of the first map is in the second one, at most one step further.
abbrev pub Forward : Projects → Projects → Type 0
Forward ps qs = (id : String) → Carried Next (get_key str_eq id ps) (get_key str_eq id qs)

abbrev pub Keeps : Projects → Projects → Type 0
Keeps ps qs = (id : String) → Carried Same (get_key str_eq id ps) (get_key str_eq id qs)

-- What an operation leaves, of whatever it answers.
abbrev pub Leaves {ℓ} : {A : Type ℓ} → AccountStore → Outcome A → Type 0
Leaves s r = Forward s.projects r.0.projects

pub Keeps-Forward : (ps qs : Projects) → Keeps ps qs → Forward ps qs
Keeps-Forward ps qs h id = Carried-Next (get_key str_eq id ps) (get_key str_eq id qs) (h id)

pub Keeps-trans : (ps qs rs : Projects) → Keeps ps qs → Keeps qs rs → Keeps ps rs
Keeps-trans ps qs rs h k id =
    Carried-trans Same Same-refl Same-trans (get_key str_eq id ps) (get_key str_eq id qs)
      (get_key str_eq id rs) (h id) (k id)

pub Keeps-refl : (ps : Projects) → Keeps ps ps
Keeps-refl ps id = Carried-refl Same Same-refl (get_key str_eq id ps)

pub Forward-refl : (ps : Projects) → Forward ps ps
Forward-refl ps = Keeps-Forward ps ps (Keeps-refl ps)

pub Forward-eq : (ps qs : Projects) → qs ≡ ps → Forward ps qs
Forward-eq ps qs e = subst (λ rs. Forward ps rs) (sym e) (Forward-refl ps)

pub Keeps-update_key :
    (id : String) (f : ProjectRecord → ProjectRecord) (ps : Projects)
    → ((q : ProjectRecord) → Same q (f q))
    → Keeps ps (update_key str_eq id f ps)
Keeps-update_key id f ps h = Carried-update_key Same Same-refl id f ps (λ q _. h q)

pub Same-touched :
    (now : ℕ) (f : ProjectRecord → ProjectRecord) (q : ProjectRecord)
    → Same q (f q)
    → Same q (touched now (f q))
Same-touched now f q h = record {
  status = h.status;
  revision = omega (arith, h.revision);
  organization_id = h.organization_id;
  created_at = h.created_at;
}

pub Same-renamed_project :
    (name description : Option String) (q : ProjectRecord)
    → Same q (described description (renamed_project name q))
Same-renamed_project none none q = Same-refl q
Same-renamed_project (some n) none q = record {
  status = refl;
  revision = omega arith;
  organization_id = refl;
  created_at = refl;
}
Same-renamed_project none (some d) q = record {
  status = refl;
  revision = omega arith;
  organization_id = refl;
  created_at = refl;
}
Same-renamed_project (some n) (some d) q = record {
  status = refl;
  revision = omega arith;
  organization_id = refl;
  created_at = refl;
}

-- Of a project in the state that a transition starts from.
same_project_status-eq : (a b : ProjectStatus) → same_project_status a b ≡ true → a ≡ b
same_project_status-eq draft draft e = refl
same_project_status-eq ProjectStatus.active ProjectStatus.active e = refl
same_project_status-eq ProjectStatus.archived ProjectStatus.archived e = refl
same_project_status-eq draft ProjectStatus.active e = ground (arith, e)
same_project_status-eq draft ProjectStatus.archived e = ground (arith, e)
same_project_status-eq ProjectStatus.active draft e = ground (arith, e)
same_project_status-eq ProjectStatus.active ProjectStatus.archived e = ground (arith, e)
same_project_status-eq ProjectStatus.archived draft e = ground (arith, e)
same_project_status-eq ProjectStatus.archived ProjectStatus.active e = ground (arith, e)

module _ (machine : Machine) (now : ℕ) where
  pub change_project-projects :
      (p : AccountPrincipal) (id : String) (project : ProjectRecord) (action request : String)
      (user : Option String) (f : ProjectRecord → ProjectRecord) (s : AccountStore)
      → (change_project machine now p id project action request user f s).0.projects
        ≡ update_key str_eq id f s.projects
  unfolding change_project
  change_project-projects p id project action request user f s = ground arith

  -- A change of a project by a function that keeps its state.
  pub change_project-Keeps :
      (p : AccountPrincipal) (id : String) (project : ProjectRecord) (action request : String)
      (user : Option String) (f : ProjectRecord → ProjectRecord) (s : AccountStore)
      → ((q : ProjectRecord) → Same q (f q))
      → Forward s.projects
          (change_project machine now p id project action request user f s).0.projects
  change_project-Keeps p id project action request user f s h =
      subst (λ ps. Forward s.projects ps)
        (sym (change_project-projects p id project action request user f s))
        (Keeps-Forward _ _ (Keeps-update_key id f s.projects h))

  pub transition_project-Forward :
      (p : AccountPrincipal) (id : String) (from to : ProjectStatus) (expected : Option ℕ)
      (request action : String) (s : AccountStore)
      → Moves from to
      → Forward s.projects
          (transition_project machine now p id from to expected request action s).0.projects
  unfolding transition_project
  transition_project-Forward p id from to expected request action s m =
      by_option (Leaves s) (get_key str_eq id s.projects) (λ _. Forward-refl s.projects)
        (λ project e.
          by_if (Leaves s) (not (can_manage_project s p project)) (λ _. Forward-refl s.projects)
            (λ _.
              by_if (Leaves s) (not (same_project_status project.status from))
                (λ _. Forward-refl s.projects)
                (λ t.
                  by_if (Leaves s) (is_stale expected project.revision)
                    (λ _. Forward-refl s.projects)
                    (λ _.
                      subst (λ ps. Forward s.projects ps)
                        (sym (
                          change_project-projects p id project action request none
                            (λ q. touched now (record q { status = to })) s))
                        (Carried-update_key Next (λ q. Same-Next q q (Same-refl q)) id
                          (λ q. touched now (record q { status = to })) s.projects
                          (λ q at.
                            stepped q (some_inj (sym at ∙ e))
                              (same_project_status-eq project.status from (ground (arith, t)))))))))
    where
      stepped :
          (q : ProjectRecord) {project : ProjectRecord}
          → q ≡ project
          → project.status ≡ from
          → Next q (touched now (record q { status = to }))
      stepped q e t = record {
        moves = subst (λ x. Moves x to) (sym (ap (λ r. r.status) e ∙ t)) m;
        revision = omega arith;
        organization_id = refl;
        created_at = refl;
      }
