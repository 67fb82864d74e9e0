-- ===== src/Examples/Console.antt =====
-- dev/team-skill-admin/src/lib, on small inputs.
use dsh_ai_coding.Base.{true, String, none, [], ◌∷◌, select, length, ◌≡◌, refl}
use dsh_ai_coding.Console.Assets.{
  HealthType, skill, memory, ready, AssetHealthRow, merge_asset_health,
}
use dsh_ai_coding.Console.Merging.{is_ordered, merge_asset_health_lem}

abbrev row : HealthType → String → AssetHealthRow
row type name = record {
  asset_id = name;
  asset_type = type;
  name = name;
  version = "1";
  authorized = true;
  readiness = ready;
  reason = none;
  healthy = true;
}

merge_asset_health_lem_example :
    (is_ordered
        (λ a b. true)
        (merge_asset_health (λ a b. true) (row skill "b" ∷ []) [] (row memory "a" ∷ []))
      ≡ true)
    × (length (
          select
            (λ r. r.healthy)
            (merge_asset_health (λ a b. true) (row skill "b" ∷ []) [] (row memory "a" ∷ [])))
        ≡ 2)
merge_asset_health_lem_example =
    merge_asset_health_lem (λ a b. true) (λ r. r.healthy) (row skill "b" ∷ []) []
      (row memory "a" ∷ []) (λ a b. refl)
