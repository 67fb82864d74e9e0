-- ===== src/Base/Maps.antt =====
-- Maps as association lists, with the test that compares two keys.
use mathlib.Core.Path.{◌≡◌, refl}
use mathlib.Core.Bool.{Bool, true, false, ◌||◌}
use mathlib.Core.Option.{Option, none, some}
use mathlib.Core.List.{List, [], ◌∷◌}
use native.Mathlib.Omega.{arith}
use dsh_ai_coding.Base.Tests.{if◌then◌else◌}

module _ {ℓ κ} {K : Type ℓ} {V : Type κ} (same : K → K → Bool) where
  -- `Map.prototype.get`.
  abbrev pub get_key : K → List (K × V) → Option V
  get_key k [] = none
  get_key k ((j, v) ∷ m) = let rest = get_key k m in if same j k then some v else rest

  -- `Map.prototype.set`.
  abbrev pub set_key : K → V → List (K × V) → List (K × V)
  set_key k v [] = (k, v) ∷ []
  set_key k v ((j, w) ∷ m) =
      let rest = set_key k v m in if same j k then (k, v) ∷ m else (j, w) ∷ rest

  -- `Map.prototype.delete`.
  abbrev pub delete_key : K → List (K × V) → List (K × V)
  delete_key k [] = []
  delete_key k ((j, v) ∷ m) = let rest = delete_key k m in if same j k then rest else (j, v) ∷ rest

  -- `Map.prototype.has`.
  abbrev pub has_key : K → List (K × V) → Bool
  has_key k [] = false
  has_key k ((j, v) ∷ m) = same j k || has_key k m

  -- A change of the object that a key holds.
  abbrev pub update_key : K → (V → V) → List (K × V) → List (K × V)
  update_key k f [] = []
  update_key k f ((j, v) ∷ m) =
      let rest = update_key k f m in if same j k then (j, f v) ∷ m else (j, v) ∷ rest

  pub get_key-set_key :
      (k : K) (v : V) (m : List (K × V)) → same k k ≡ true → get_key k (set_key k v m) ≡ some v
  get_key-set_key k v [] e = ground arith
  get_key-set_key k v ((j, w) ∷ m) e = ground (arith, get_key-set_key k v m e)

  pub get_key-delete_key : (k : K) (m : List (K × V)) → get_key k (delete_key k m) ≡ none
  get_key-delete_key k [] = refl
  get_key-delete_key k ((j, v) ∷ m) = ground (arith, get_key-delete_key k m)

module _ {ℓ κ} {K : Type ℓ} {V : Type κ} where
  -- `[...map.values()]` and `[...map.keys()]`.
  abbrev pub values : List (K × V) → List V
  values [] = []
  values ((k, v) ∷ m) = v ∷ values m

  abbrev pub keys : List (K × V) → List K
  keys [] = []
  keys ((k, v) ∷ m) = k ∷ keys m

  -- A change of every object that a map holds.
  abbrev pub map_values : (V → V) → List (K × V) → List (K × V)
  map_values f [] = []
  map_values f ((k, v) ∷ m) = (k, f v) ∷ map_values f m
