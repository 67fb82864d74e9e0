-- ===== src/Accounts/Reading.antt =====
-- dev/team-skill-service/src/account-store.ts: what a read leaves behind.
use dsh_ai_coding.Base.{
  ℕ, Bool, false, String, Option, none, List, [], ◌∷◌, ◌++◌, length, take, values, str_eq, ◌≡◌,
  refl, ◌∙◌, ap, arith, get_key, not, by_if, by_option, find_by, by_result,
}
use dsh_ai_coding.Accounts.Records.{
  AccountStore, AccountPrincipal, ProjectRecord, AssetRelationRecord, AssetKey, Machine, Outcome,
  is_live, same_asset,
}
use dsh_ai_coding.Accounts.Organizations.{organizations_visible_to}
use dsh_ai_coding.Accounts.Projects.{authorize_project, list_member_projects}
use dsh_ai_coding.Accounts.Views.{ProjectView, AssetRelationView, can_manage_project}
use dsh_ai_coding.Accounts.Assets.{
  asset_is_visible, relation_views, project_assets_view, list_project_assets, get_project_detail,
}
use dsh_ai_coding.Accounts.Assets.Changes.{view_asset}
use dsh_ai_coding.Accounts.Directory.{summary_projects, summary_assets, access_summary}

pub take-append {ℓ} : {A : Type ℓ} (xs ys : List A) → take (length xs) (xs ++ ys) ≡ xs
take-append [] ys = refl
take-append (x ∷ xs) ys = ap (λ zs. x ∷ zs) (take-append xs ys)

pub take-length {ℓ} : {A : Type ℓ} (xs : List A) → take (length xs) xs ≡ xs
take-length [] = refl
take-length (x ∷ xs) = ap (λ zs. x ∷ zs) (take-length xs)

-- Every audit of the first store stands in the second one, in its place.
abbrev pub KeepsAudits : AccountStore → AccountStore → Type 0
KeepsAudits s t = take (length s.audits) t.audits ≡ s.audits

pub take-take {ℓ} :
    {A : Type ℓ} (xs ys zs : List A)
    → take (length xs) ys ≡ xs
    → take (length ys) zs ≡ ys
    → take (length xs) zs ≡ xs
take-take [] ys zs h k = refl
take-take (x ∷ xs) [] zs h k = ground (arith, h)
take-take (x ∷ xs) (y ∷ ys) [] h k = ground (arith, h, k)
take-take (x ∷ xs) (y ∷ ys) (z ∷ zs) h k = ground (arith, h, k, take-take xs ys zs)

-- The second store has the data of the first one, and its audits.
pub record OnlyAudits (s t : AccountStore) : Type 0 where
  pub users : t.users ≡ s.users
  pub organizations : t.organizations ≡ s.organizations
  pub projects : t.projects ≡ s.projects
  pub sessions : t.sessions ≡ s.sessions
  pub audits : KeepsAudits s t

pub OnlyAudits-refl : (s : AccountStore) → OnlyAudits s s
OnlyAudits-refl s = record {
  users = refl;
  organizations = refl;
  projects = refl;
  sessions = refl;
  audits = take-length s.audits;
}

pub OnlyAudits-trans : (s t u : AccountStore) → OnlyAudits s t → OnlyAudits t u → OnlyAudits s u
OnlyAudits-trans s t u h k = record {
  users = k.users ∙ h.users;
  organizations = k.organizations ∙ h.organizations;
  projects = k.projects ∙ h.projects;
  sessions = k.sessions ∙ h.sessions;
  audits = take-take s.audits t.audits u.audits h.audits k.audits;
}

module _ (machine : Machine) (now : ℕ) where
  pub authorize_project-OnlyAudits :
      (p : AccountPrincipal) (id : String) (request : Option String) (s : AccountStore)
      → OnlyAudits s (authorize_project machine now p id request s).0
  unfolding authorize_project
  authorize_project-OnlyAudits p id request s = record {
    users = ground arith;
    organizations = ground arith;
    projects = ground arith;
    sessions = ground arith;
    audits = grind (arith, take-append, take-length);
  }

  pub list_member_projects-OnlyAudits :
      (p : AccountPrincipal) (projects : List ProjectRecord) (s : AccountStore)
      → OnlyAudits s (list_member_projects machine now p projects s).0
  unfolding list_member_projects
  list_member_projects-OnlyAudits p [] s = OnlyAudits-refl s
  list_member_projects-OnlyAudits p (project ∷ projects) s =
      OnlyAudits-trans s _ _ (authorize_project-OnlyAudits p project.project_id none s)
        (list_member_projects-OnlyAudits p projects _)

  pub asset_is_visible-OnlyAudits :
      (p : AccountPrincipal) (project : ProjectRecord) (key : AssetKey) (s : AccountStore)
      → OnlyAudits s (asset_is_visible machine now p project key s).0
  unfolding asset_is_visible
  asset_is_visible-OnlyAudits p project key s =
      authorize_project-OnlyAudits p project.project_id none s

  pub relation_views-OnlyAudits :
      (p : AccountPrincipal) (project : ProjectRecord) (rs : List AssetRelationRecord)
      (s : AccountStore)
      → OnlyAudits s (relation_views machine now p project rs s).0
  unfolding relation_views
  relation_views-OnlyAudits p project [] s = OnlyAudits-refl s
  relation_views-OnlyAudits p project (r ∷ rs) s =
      OnlyAudits-trans s _ _
        (by_if (λ (o : AccountStore × Bool). OnlyAudits s o.0) (can_manage_project s p project)
          (λ _. OnlyAudits-refl s)
          (λ _. asset_is_visible-OnlyAudits p project (r.asset_type, r.asset_id) s))
        (relation_views-OnlyAudits p project rs _)

  pub list_project_assets-OnlyAudits :
      (p : AccountPrincipal) (id : String) (s : AccountStore)
      → OnlyAudits s (list_project_assets machine now p id s).0
  unfolding list_project_assets
  list_project_assets-OnlyAudits p id s =
      by_option Kept (get_key str_eq id s.projects) (λ _. OnlyAudits-refl s)
        (λ project e.
          by_if Kept (not (can_manage_project s p project)) (λ _. OnlyAudits-refl s)
            (λ _. relation_views-OnlyAudits p project (values project.assets) s))
    where
      Kept : Outcome (List AssetRelationView) → Type 0
      Kept r = OnlyAudits s r.0

  pub get_project_detail-OnlyAudits :
      (p : AccountPrincipal) (id : String) (s : AccountStore)
      → OnlyAudits s (get_project_detail machine now p id s).0
  unfolding get_project_detail
  get_project_detail-OnlyAudits p id s =
      by_option Kept (get_key str_eq id s.projects) (λ _. OnlyAudits-refl s)
        (λ project e.
          by_if Kept (not (is_live project.status)) (λ _. OnlyAudits-refl s)
            (λ _.
              by_result Kept (authorize_project machine now p id none s).1
                (λ v.
                  OnlyAudits-trans s _ _ asked
                    (relation_views-OnlyAudits p project (values project.assets) _))
                (λ e. asked)))
    where
      Kept : Outcome (ProjectView × List AssetRelationView) → Type 0
      Kept r = OnlyAudits s r.0

      asked : OnlyAudits s (authorize_project machine now p id none s).0
      asked = authorize_project-OnlyAudits p id none s

  pub summary_assets-OnlyAudits :
      (p : AccountPrincipal) (projects : List ProjectRecord) (s : AccountStore)
      → OnlyAudits s (summary_assets machine now p projects s).0
  unfolding summary_assets
  summary_assets-OnlyAudits p [] s = OnlyAudits-refl s
  summary_assets-OnlyAudits p (project ∷ projects) s =
      OnlyAudits-trans s _ _ (relation_views-OnlyAudits p project (values project.assets) s)
        (summary_assets-OnlyAudits p projects _)

  -- Whoever asks, the access summary changes no account, organization, project and session, and every
  -- audit that stood in the store stays in its place.
  pub access_summary-OnlyAudits :
      (p : AccountPrincipal) (s : AccountStore) → OnlyAudits s (access_summary machine now p s).0
  unfolding access_summary
  access_summary-OnlyAudits p s =
      summary_assets-OnlyAudits p (summary_projects s p (organizations_visible_to false s p)) s

  pub view_asset-OnlyAudits :
      (p : AccountPrincipal) (project : ProjectRecord) (key : AssetKey) (s : AccountStore)
      → OnlyAudits s (view_asset machine now p project key s).0
  view_asset-OnlyAudits p project key s =
      by_option (λ (r : Outcome AssetRelationView). OnlyAudits s r.0)
        (find_by (λ v. same_asset (v.asset_type, v.asset_id) key)
          (project_assets_view machine now p project s).1)
        (λ _. relation_views-OnlyAudits p project (values project.assets) s)
        (λ v _. relation_views-OnlyAudits p project (values project.assets) s)
