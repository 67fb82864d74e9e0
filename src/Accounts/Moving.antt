-- ===== src/Accounts/Moving.antt =====
-- dev/team-skill-service/src/account-store.ts: where an asset is after it was moved.
use dsh_ai_coding.Base.{
  ℕ, ◌+◌, true, false, not, ◌||◌, String, Option, none, some, List, [], ◌∷◌, str_eq, get_key,
  update_key, ◌≡◌, refl, sym, ◌∙◌, ap, subst, arith, by_guard, by_option, some_inj, from_false,
  is_ok, eq_iff, str_eq_refl, get_key-set_key, get_key-delete_key,
}
use dsh_ai_coding.Accounts.Records.{
  AccountStore, AccountPrincipal, ProjectRecord, AssetRelationRecord, skill, knowledge, memory,
  AssetKey, Machine, Outcome, is_archived, same_asset,
}
use dsh_ai_coding.Accounts.Views.{ProjectView, can_manage_project}
use dsh_ai_coding.Accounts.Assets.{relation_of, with_relation, without_relation}
use dsh_ai_coding.Accounts.Assets.Changes.{moved_asset, move_project_asset}

-- The relation that a stored project has to an asset.
abbrev pub relation_in : AccountStore → String → AssetKey → Option AssetRelationRecord
relation_in s id key = elim (get_key str_eq id s.projects) [
  | none ↦ none
  | some project ↦ relation_of key project
]

get_key-update_key {ℓ} :
    {V : Type ℓ} (k : String) (f : V → V) (m : List (String × V)) (v : V)
    → get_key str_eq k m ≡ some v
    → get_key str_eq k (update_key str_eq k f m) ≡ some (f v)
get_key-update_key k f [] v e = ground (arith, e)
get_key-update_key k f ((j, w) ∷ m) v e = ground (arith, e, get_key-update_key k f m v)

get_key-update_other {ℓ} :
    {V : Type ℓ} (j k : String) (f : V → V) (m : List (String × V))
    → str_eq k j ≡ false
    → get_key str_eq j (update_key str_eq k f m) ≡ get_key str_eq j m
get_key-update_other j k f [] n = refl
get_key-update_other j k f ((i, w) ∷ m) n =
    ground (arith, n, eq_iff i k, eq_iff i j, eq_iff k j, get_key-update_other j k f m n)

same_asset_refl : (key : AssetKey) → same_asset key key ≡ true
same_asset_refl (skill, id) = str_eq_refl id
same_asset_refl (knowledge, id) = str_eq_refl id
same_asset_refl (memory, id) = str_eq_refl id

module _ (machine : Machine) (now : ℕ) where
  abbrev pub stamped : AssetRelationRecord → AssetRelationRecord
  stamped r = record r { updated_at = now; revision = r.revision + 1 }

  moved-relation_in :
      (key : AssetKey) (source_id target_id : String) (s : AccountStore)
      (source target : ProjectRecord) (r : AssetRelationRecord)
      → get_key str_eq source_id s.projects ≡ some source
      → get_key str_eq target_id s.projects ≡ some target
      → str_eq source_id target_id ≡ false
      → (relation_in (moved_asset machine now key r source_id target_id s) source_id key ≡ none)
        × (relation_in (moved_asset machine now key r source_id target_id s) target_id key
            ≡ some (stamped r))
  moved-relation_in key source_id target_id s source target r hs ht n = (
    ap in_project (
          get_key-update_other source_id target_id (with_relation now key (stamped r)) _
            (ground (arith, n, eq_iff source_id target_id, eq_iff target_id source_id))
          ∙ get_key-update_key source_id (without_relation now key) s.projects source hs)
        ∙ get_key-delete_key same_asset key source.assets,
    ap in_project (
          get_key-update_key target_id (with_relation now key (stamped r)) _ target
            (get_key-update_other target_id source_id (without_relation now key) s.projects n ∙ ht))
        ∙ get_key-set_key same_asset key (stamped r) target.assets (same_asset_refl key),
  )
    where
      in_project : Option ProjectRecord → Option AssetRelationRecord
      in_project none = none
      in_project (some project) = relation_of key project

  -- Once a relation has been moved between two different projects, the source relates to the asset no
  -- more, and the target does, with the kind and the date of the relation, the time of the move and the
  -- next revision.
  pub move_project_asset-relation_in :
      (p : AccountPrincipal) (key : AssetKey) (source_id target_id request : String)
      (s : AccountStore) (source : ProjectRecord) (r : AssetRelationRecord)
      → get_key str_eq source_id s.projects ≡ some source
      → relation_of key source ≡ some r
      → str_eq source_id target_id ≡ false
      → is_ok (move_project_asset machine now p key source_id target_id request s).1 ≡ true
      → (relation_in
            (move_project_asset machine now p key source_id target_id request s).0
            source_id
            key
          ≡ none)
        × (relation_in
              (move_project_asset machine now p key source_id target_id request s).0
              target_id
              key
            ≡ some (stamped r))
  unfolding move_project_asset
  move_project_asset-relation_in p key source_id target_id request s source r hs hr n done =
      by_option Holds (get_key str_eq source_id s.projects)
        (λ e. from_false (ground (arith, e, hs)))
        (λ a ea.
          by_option Holds (get_key str_eq target_id s.projects)
            (λ _ h. from_false (ground (arith, h)))
            (λ target ht.
              by_option Holds (relation_of key a) (λ _ h. from_false (ground (arith, h)))
                (λ q eq.
                  by_guard Holds
                    (not (can_manage_project s p a) || not (can_manage_project s p target))
                    (λ h. from_false (ground (arith, h)))
                    (by_guard Holds (not (str_eq a.organization_id target.organization_id))
                      (λ h. from_false (ground (arith, h)))
                      (by_guard Holds (is_archived a.status || is_archived target.status)
                        (λ h. from_false (ground (arith, h)))
                        (by_option Holds
                          (get_key str_eq target_id
                            (moved_asset machine now key q source_id target_id s).projects)
                          (λ _ h. from_false (ground (arith, h)))
                          (λ v _ h. rewritten q target ht (
                            some_inj (
                              sym eq
                              ∙ ap (λ z. relation_of key z) (some_inj (sym ea ∙ hs))
                              ∙ hr)))))))))
        done
    where
      Where : AccountStore → Type 0
      Where t =
          (relation_in t source_id key ≡ none) × (relation_in t target_id key ≡ some (stamped r))

      Holds : Outcome ProjectView → Type 0
      Holds x = is_ok x.1 ≡ true → Where x.0

      rewritten :
          (q : AssetRelationRecord) (target : ProjectRecord)
          → get_key str_eq target_id s.projects ≡ some target
          → q ≡ r
          → Where (moved_asset machine now key q source_id target_id s)
      rewritten q target ht e =
          subst (λ w. Where (moved_asset machine now key w source_id target_id s)) (sym e)
            (moved-relation_in key source_id target_id s source target r hs ht n)
