-- ===== src/Console/Assets.antt =====
-- dev/team-skill-admin/src/lib/asset-health.ts: the health of skills, knowledge and memory in one table.
use dsh_ai_coding.Base.{
  ℕ, Bool, true, false, ◌&&◌, ◌||◌, String, Option, List, [], ◌∷◌, ◌++◌, map, ltb, ◌==◌,
  if◌then◌else◌,
}

pub data HealthType : Type 0 where
  skill knowledge memory : HealthType

pub data Readiness : Type 0 where
  ready unavailable : Readiness

pub record AssetHealthInput : Type 0 where
  pub asset_id : String
  pub name : String
  pub version : String
  pub authorized : Bool
  pub readiness : Readiness
  pub reason : Option String

pub record AssetHealthRow : Type 0 where
  pub asset_id : String
  pub asset_type : HealthType
  pub name : String
  pub version : String
  pub authorized : Bool
  pub readiness : Readiness
  pub reason : Option String
  pub healthy : Bool

-- `TYPE_ORDER`.
abbrev pub type_order : HealthType → ℕ
type_order skill = 0
type_order knowledge = 1
type_order memory = 2

abbrev pub is_ready : Readiness → Bool
is_ready ready = true
is_ready unavailable = false

abbrev pub healthy_of : Bool → Readiness → Bool
healthy_of authorized readiness = authorized && is_ready readiness

unfoldable pub asset_health_rows : HealthType → List AssetHealthInput → List AssetHealthRow
asset_health_rows type rows =
    map
      (λ r. record {
        asset_id = r.asset_id;
        asset_type = type;
        name = r.name;
        version = r.version;
        authorized = r.authorized;
        readiness = r.readiness;
        reason = r.reason;
        healthy = healthy_of r.authorized r.readiness;
      })
      rows

-- `collate a b` is `a.localeCompare(b) <= 0`.
module _ (collate : String → String → Bool) where
  abbrev pub comes_first : AssetHealthRow → AssetHealthRow → Bool
  comes_first a b =
      ltb (type_order a.asset_type) (type_order b.asset_type)
      || ((type_order a.asset_type == type_order b.asset_type) && collate a.name b.name)

  -- `sort` is stable: a row goes before the first row that it may stand before.
  unfoldable pub insert_row : AssetHealthRow → List AssetHealthRow → List AssetHealthRow
  insert_row r [] = r ∷ []
  insert_row r (q ∷ qs) =
      let rest = insert_row r qs in if comes_first r q then r ∷ q ∷ qs else q ∷ rest

  unfoldable pub sort_rows : List AssetHealthRow → List AssetHealthRow
  unfolding insert_row
  sort_rows [] = []
  sort_rows (r ∷ rs) = insert_row r (sort_rows rs)

  unfoldable pub merge_asset_health :
      List AssetHealthRow → List AssetHealthRow → List AssetHealthRow → List AssetHealthRow
  unfolding sort_rows
  merge_asset_health skills bases memories = sort_rows (skills ++ bases ++ memories)
