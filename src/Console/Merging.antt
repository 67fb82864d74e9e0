-- ===== src/Console/Merging.antt =====
-- dev/team-skill-admin/src/lib/asset-health.ts: the rows and the order of the merged table.
use dsh_ai_coding.Base.{
  ◌+◌, Bool, true, false, not, ◌&&◌, ◌||◌, ◌==◌, ltb, by_if, sym, String, List, [], ◌∷◌, ◌++◌,
  select, select-append, length, length-append, ◌≡◌, refl, ap, ◌∙◌, arith,
}
use dsh_ai_coding.Console.Assets.{
  HealthType, skill, knowledge, memory, AssetHealthRow, type_order, comes_first, insert_row,
  sort_rows, merge_asset_health,
}

-- Whether rows of the first type stand before those of the second: skills, then knowledge, then memory.
abbrev precedes : HealthType → HealthType → Bool
precedes skill skill = false
precedes skill knowledge = true
precedes skill memory = true
precedes knowledge skill = false
precedes knowledge knowledge = false
precedes knowledge memory = true
precedes memory skill = false
precedes memory knowledge = false
precedes memory memory = false

abbrev is_same_type : HealthType → HealthType → Bool
is_same_type t u = not (precedes t u) && not (precedes u t)

module _ (collate : String → String → Bool) where
  -- Rows of one type are in the order of their names.
  abbrev is_before : AssetHealthRow → AssetHealthRow → Bool
  is_before r q =
      precedes r.asset_type q.asset_type
      || (is_same_type r.asset_type q.asset_type && collate r.name q.name)

  abbrev pub is_ordered : List AssetHealthRow → Bool
  is_ordered [] = true
  is_ordered (r ∷ []) = true
  is_ordered (r ∷ q ∷ qs) = is_before r q && is_ordered (q ∷ qs)

  comes_first-is_before : (r q : AssetHealthRow) → comes_first collate r q ≡ is_before r q
  comes_first-is_before r q = by_types r.asset_type q.asset_type (collate r.name q.name)
    where
      by_types :
          (t u : HealthType) (named : Bool)
          → (ltb (type_order t) (type_order u) || ((type_order t == type_order u) && named))
            ≡ (precedes t u || (is_same_type t u && named))
      by_types skill skill named = refl
      by_types skill knowledge named = refl
      by_types skill memory named = refl
      by_types knowledge skill named = refl
      by_types knowledge knowledge named = refl
      by_types knowledge memory named = refl
      by_types memory skill named = refl
      by_types memory knowledge named = refl
      by_types memory memory named = refl

  select-insert_row :
      (p : AssetHealthRow → Bool) (r : AssetHealthRow) (qs : List AssetHealthRow)
      → length (select p (insert_row collate r qs)) ≡ length (select p (r ∷ qs))
  unfolding insert_row
  select-insert_row p r [] = refl
  select-insert_row p r (q ∷ qs) = ground (arith, select-insert_row p r qs)

  select-sort_rows :
      (p : AssetHealthRow → Bool) (rs : List AssetHealthRow)
      → length (select p (sort_rows collate rs)) ≡ length (select p rs)
  unfolding sort_rows
  select-sort_rows p [] = refl
  select-sort_rows p (r ∷ rs) =
      ground (arith, select-insert_row p r (sort_rows collate rs), select-sort_rows p rs)

  module _ (total : (a b : String) → (collate a b || collate b a) ≡ true) where
    is_before-total : (r q : AssetHealthRow) → is_before r q ≡ false → is_before q r ≡ true
    is_before-total r q h =
        ground (arith, h, total r.name q.name, by_types r.asset_type q.asset_type)
      where
        by_types : (t u : HealthType) → (precedes t u || precedes u t || is_same_type t u) ≡ true
        by_types t u = ground arith

    insert_row-is_ordered :
        (r : AssetHealthRow) (qs : List AssetHealthRow)
        → is_ordered qs ≡ true
        → is_ordered (insert_row collate r qs) ≡ true
    unfolding insert_row
    insert_row-is_ordered r [] h = refl
    insert_row-is_ordered r (q ∷ []) h =
        by_if (λ l. is_ordered l ≡ true) (comes_first collate r q)
          (λ e. ground (arith, e, comes_first-is_before r q))
          (λ e. ground (arith, is_before-total r q (sym (comes_first-is_before r q) ∙ e)))
    insert_row-is_ordered r (q ∷ s ∷ qs) h =
        by_if (λ l. is_ordered l ≡ true) (comes_first collate r q)
          (λ e. ground (arith, e, h, comes_first-is_before r q))
          (λ e.
            let later : is_before q r ≡ true =
              is_before-total r q (sym (comes_first-is_before r q) ∙ e) in
            by_if (λ l. is_ordered (q ∷ l) ≡ true) (comes_first collate r s)
              (λ t. ground (arith, h, later, t, comes_first-is_before r s))
              (λ t. ground (arith, h, t, insert_row-is_ordered r (s ∷ qs) (ground (arith, h)))))

    sort_rows-is_ordered : (rs : List AssetHealthRow) → is_ordered (sort_rows collate rs) ≡ true
    unfolding sort_rows
    sort_rows-is_ordered [] = refl
    sort_rows-is_ordered (r ∷ rs) =
        insert_row-is_ordered r (sort_rows collate rs) (sort_rows-is_ordered rs)

  -- Where any two names compare one way or the other, the merged table has the skills first, then the
  -- knowledge and then the memory, each in the order of the names. It loses and repeats no row: as many
  -- rows pass any test in it as in the three lists together.
  pub merge_asset_health_lem :
      (test : AssetHealthRow → Bool) (skills bases memories : List AssetHealthRow)
      → ((a b : String) → (collate a b || collate b a) ≡ true)
      → (is_ordered (merge_asset_health collate skills bases memories) ≡ true)
        × (length (select test (merge_asset_health collate skills bases memories))
            ≡ length (select test skills)
              + length (select test bases)
              + length (select test memories))
  unfolding merge_asset_health
  merge_asset_health_lem test skills bases memories total = (
    sort_rows-is_ordered total (skills ++ bases ++ memories),
    select-sort_rows test (skills ++ bases ++ memories)
        ∙ ap length (
            select-append test (skills ++ bases) memories
            ∙ ap (λ xs. xs ++ select test memories) (select-append test skills bases))
        ∙ omega (
          arith,
          length-append (select test skills ++ select test bases) (select test memories),
          length-append (select test skills) (select test bases),
        ),
  )
