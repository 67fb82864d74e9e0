-- ===== src/Accounts/Lifecycle.antt =====
-- dev/team-skill-service/src/account-store.ts: the life of a project, from draft to archived.
use dsh_ai_coding.Base.{
  ◌≤◌, Bool, true, false, String, Option, none, some, List, [], ◌∷◌, str_eq, get_key, set_key,
  update_key, map_values, ◌≡◌, refl, sym, ◌∙◌, arith, by_if, subst, if◌then◌else◌,
}
use dsh_ai_coding.Accounts.Records.{ProjectRecord, ProjectStatus, draft}

-- The abstract state machine of a project.
pub data Moves : ProjectStatus → ProjectStatus → Type 0 where
  stays : (status : ProjectStatus) → Moves status status
  activated : Moves draft ProjectStatus.active
  archived : Moves ProjectStatus.active ProjectStatus.archived

-- A record of the same project, at most one step further.
pub record Next (q r : ProjectRecord) : Type 0 where
  pub moves : Moves q.status r.status
  pub revision : q.revision ≤ r.revision
  pub organization_id : r.organization_id ≡ q.organization_id
  pub created_at : r.created_at ≡ q.created_at

-- A record of the same project in the same state.
pub record Same (q r : ProjectRecord) : Type 0 where
  pub status : r.status ≡ q.status
  pub revision : q.revision ≤ r.revision
  pub organization_id : r.organization_id ≡ q.organization_id
  pub created_at : r.created_at ≡ q.created_at

abbrev pub Projects : Type 0
Projects = List (String × ProjectRecord)

-- What was there is there still, as the relation says.
abbrev pub Carried :
    (ProjectRecord → ProjectRecord → Type 0) → Option ProjectRecord → Option ProjectRecord → Type 0
Carried R none o = Unit
Carried R (some q) none = ⊥
Carried R (some q) (some r) = R q r

module _ (R : ProjectRecord → ProjectRecord → Type 0) (same : (q : ProjectRecord) → R q q) where
  pub Carried-refl : (o : Option ProjectRecord) → Carried R o o
  Carried-refl none = tt
  Carried-refl (some q) = same q

  pub Carried-if :
      (b : Bool) (q r : ProjectRecord) (o u : Option ProjectRecord)
      → R q r
      → Carried R o u
      → Carried R (if b then some q else o) (if b then some r else u)
  Carried-if true q r o u h k = h
  Carried-if false q r o u h k = k

  pub Carried-update_key :
      (id : String) (f : ProjectRecord → ProjectRecord) (ps : Projects)
      → ((q : ProjectRecord) → get_key str_eq id ps ≡ some q → R q (f q))
      → (j : String)
      → Carried R (get_key str_eq j ps) (get_key str_eq j (update_key str_eq id f ps))
  Carried-update_key id f [] h j = tt
  Carried-update_key id f ((k, v) ∷ ps) h j =
      by_if (λ (m : Projects). Carried R (get_key str_eq j ((k, v) ∷ ps)) (get_key str_eq j m))
        (str_eq k id)
        (λ a.
          Carried-if (str_eq k j) _ _ _ _ (h v (ground (arith, a)))
            (Carried-refl (get_key str_eq j ps)))
        (λ a.
          Carried-if (str_eq k j) _ _ _ _ (same v)
            (Carried-update_key id f ps (λ q e. h q (ground (arith, a, e))) j))

  pub Carried-map_values :
      (f : ProjectRecord → ProjectRecord) (ps : Projects)
      → ((q : ProjectRecord) → R q (f q))
      → (j : String) → Carried R (get_key str_eq j ps) (get_key str_eq j (map_values f ps))
  Carried-map_values f [] h j = tt
  Carried-map_values f ((k, v) ∷ ps) h j =
      Carried-if (str_eq k j) _ _ _ _ (h v) (Carried-map_values f ps h j)

  pub Carried-set_key :
      (id : String) (p : ProjectRecord) (ps : Projects)
      → get_key str_eq id ps ≡ none
      → (j : String) → Carried R (get_key str_eq j ps) (get_key str_eq j (set_key str_eq id p ps))
  Carried-set_key id p [] e j = tt
  Carried-set_key id p ((k, v) ∷ ps) e j =
      by_if (λ (m : Projects). Carried R (get_key str_eq j ((k, v) ∷ ps)) (get_key str_eq j m))
        (str_eq k id) (λ a. ground (arith, a, e))
        (λ a.
          Carried-if (str_eq k j) _ _ _ _ (same v)
            (Carried-set_key id p ps (ground (arith, a, e)) j))

  pub Carried-trans :
      ((a b c : ProjectRecord) → R a b → R b c → R a c)
      → (o u w : Option ProjectRecord) → Carried R o u
      → Carried R u w
      → Carried R o w
  Carried-trans trans none u w h k = tt
  Carried-trans trans (some a) none w h k = elim h [ ]
  Carried-trans trans (some a) (some b) none h k = elim k [ ]
  Carried-trans trans (some a) (some b) (some c) h k = trans a b c h k

pub Same-refl : (q : ProjectRecord) → Same q q
Same-refl q = record {
  status = refl;
  revision = omega arith;
  organization_id = refl;
  created_at = refl;
}

pub Same-trans : (a b c : ProjectRecord) → Same a b → Same b c → Same a c
Same-trans a b c h k = record {
  status = k.status ∙ h.status;
  revision = omega (arith, h.revision, k.revision);
  organization_id = k.organization_id ∙ h.organization_id;
  created_at = k.created_at ∙ h.created_at;
}

pub Same-Next : (a b : ProjectRecord) → Same a b → Next a b
Same-Next a b h = record {
  moves = subst (λ x. Moves a.status x) (sym h.status) (stays a.status);
  revision = h.revision;
  organization_id = h.organization_id;
  created_at = h.created_at;
}

pub Carried-Next : (o u : Option ProjectRecord) → Carried Same o u → Carried Next o u
Carried-Next none u h = tt
Carried-Next (some a) none h = elim h [ ]
Carried-Next (some a) (some b) h = Same-Next a b h
