-- ===== src/Common/Assoc.antt =====
-- JavaScript's `Map` with string keys, as an association list. The program iterates over none, so
-- the order of the entries is not kept.
use mathlib.Core.Path.{◌≡◌}
use mathlib.Core.Option.{Option, none, some}
use mathlib.Core.List.{List, [], ◌∷◌}
use native.Mathlib.Omega.{arith}
use livepeer_gateway_console.Common.Tests.{if◌then◌else◌}
use livepeer_gateway_console.Common.Text.{Text, text_eq, text_eq_iff}

module _ {ℓ} {V : Type ℓ} where
  -- `m.get(k)`
  unfoldable pub map_get : Text → List (Text × V) → Option V
  map_get k [] = none
  map_get k ((j, v) ∷ m) = if text_eq j k then some v else map_get k m

  -- `m.delete(k)`
  unfoldable pub map_delete : Text → List (Text × V) → List (Text × V)
  map_delete k [] = []
  map_delete k ((j, v) ∷ m) =
      let rest = map_delete k m in if text_eq j k then rest else (j, v) ∷ rest

  -- `m.set(k, v)`
  unfoldable pub map_set : Text → V → List (Text × V) → List (Text × V)
  unfolding map_delete
  map_set k v m = (k, v) ∷ map_delete k m

  pub get-delete :
      (k j : Text) (m : List (Text × V))
      → map_get j (map_delete k m) ≡ (if text_eq k j then none else map_get j m)
  unfolding map_get map_delete
  get-delete k j [] = ground arith
  get-delete k j ((i, v) ∷ m) =
      ground (arith, get-delete k j m, text_eq_iff i k, text_eq_iff i j, text_eq_iff k j)

  pub get-set :
      (k j : Text) (v : V) (m : List (Text × V))
      → map_get j (map_set k v m) ≡ (if text_eq k j then some v else map_get j m)
  get-set k j v m = unfold map_get map_set in ground (arith, get-delete k j m)
