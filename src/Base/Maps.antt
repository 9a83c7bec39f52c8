-- ===== src/Base/Maps.antt =====
-- Go's `map[string]V` as an association list. The order of the entries stands for the order in
-- which a `range` loop meets the keys, which Go leaves open: theorems hold for every list.
use Prim.Native.String.{String}
use mathlib.Core.Path.{◌≡◌, refl}
use mathlib.Core.Option.{Option, none, some}
use mathlib.Core.List.{List, [], ◌∷◌}
use native.Mathlib.Omega.{arith}
use text.Mathlib.Text.{◌==◌}
use text.Mathlib.TextEquality.{eq_iff}
use package.go_permissions.Base.Tests.{if◌then◌else◌}

abbrev pub Map {ℓ} : Type ℓ → Type ℓ
Map V = List (String × V)

module _ {ℓ} {V : Type ℓ} where
  -- `v, ok := m[k]`
  unfoldable pub get : Map V → String → Option V
  get [] k = none
  get ((j, v) ∷ m) k = if j == k then some v else get m k

  -- `m[k] = v`
  unfoldable pub put : Map V → String → V → Map V
  put [] k v = (k, v) ∷ []
  put ((j, w) ∷ m) k v = if j == k then (k, v) ∷ m else (j, w) ∷ put m k v

  -- `delete(m, k)`
  unfoldable pub delete : Map V → String → Map V
  delete [] k = []
  delete ((j, v) ∷ m) k = let rest = delete m k in if j == k then rest else (j, v) ∷ rest

  -- `for k := range m`
  unfoldable pub keys : Map V → List String
  keys [] = []
  keys ((k, v) ∷ m) = k ∷ keys m

  pub get-put :
      (m : Map V) (k j : String) (v : V) → get (put m k v) j ≡ (if k == j then some v else get m j)
  unfolding get put
  get-put [] k j v = refl
  get-put ((i, w) ∷ m) k j v = ground (arith, eq_iff k j, eq_iff i k, eq_iff i j, get-put m k j v)

  pub get-delete :
      (m : Map V) (k j : String) → get (delete m k) j ≡ (if k == j then none else get m j)
  unfolding get delete
  get-delete [] k j = ground arith
  get-delete ((i, w) ∷ m) k j = ground (arith, eq_iff k j, eq_iff i k, eq_iff i j, get-delete m k j)
