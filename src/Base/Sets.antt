-- ===== src/Base/Sets.antt =====
-- Go's `map[string]bool` where every stored value is `true`: the list of its keys. Membership is
-- `contains_string`; a nil map reads as the empty one.
use Prim.Native.String.{String}
use mathlib.Core.Path.{◌≡◌, refl}
use mathlib.Core.Bool.{true, false, not, ◌&&◌, ◌||◌}
use mathlib.Core.Option.{none, some}
use mathlib.Core.List.{List, [], ◌∷◌, ◌++◌}
use native.Mathlib.Omega.{arith}
use text.Mathlib.Text.{◌==◌}
use text.Mathlib.TextEquality.{eq_iff}
use package.go_permissions.Base.Tests.{if◌then◌else◌}
use package.go_permissions.Base.Lists.{
  contains_string, contains_string-filter, contains_string-append, filter,
}
use package.go_permissions.Base.Maps.{Map, get, put, delete, keys, get-put, get-delete}

-- `set[x] = true`
unfoldable pub set_add : List String → String → List String
set_add xs x = if contains_string xs x then xs else xs ++ x ∷ []

-- `for x := range ys { set[x] = true }`
unfoldable pub add_all : List String → List String → List String
unfolding set_add
add_all xs [] = xs
add_all xs (y ∷ ys) = add_all (set_add xs y) ys

-- `delete(set, x)`
unfoldable pub set_delete : List String → String → List String
unfolding filter
set_delete xs x = filter (λ y. not (y == x)) xs

-- `m[k]` of a map of sets
unfoldable pub get_set : Map (List String) → String → List String
get_set m k = elim (get m k) [ none ↦ [] | some xs ↦ xs ]

pub contains-set_add :
    (xs : List String) (x y : String)
    → contains_string (set_add xs x) y ≡ (contains_string xs y || x == y)
unfolding set_add contains_string
contains-set_add xs x y = ground (arith, contains_string-append xs (x ∷ []) y, eq_iff x y)

pub contains-add_all :
    (xs ys : List String) (z : String)
    → contains_string (add_all xs ys) z ≡ (contains_string xs z || contains_string ys z)
unfolding add_all contains_string
contains-add_all xs [] z = ground arith
contains-add_all xs (y ∷ ys) z =
    ground (arith, contains-add_all (set_add xs y) ys z, contains-set_add xs y z)

pub contains-set_delete :
    (xs : List String) (x y : String)
    → contains_string (set_delete xs x) y ≡ (contains_string xs y && not (y == x))
unfolding set_delete
contains-set_delete xs x y = contains_string-filter (λ z. not (z == x)) xs y

pub get_set-put :
    (m : Map (List String)) (k j : String) (xs : List String)
    → get_set (put m k xs) j ≡ (if k == j then xs else get_set m j)
unfolding get_set
get_set-put m k j xs = ground (arith, get-put m k j xs, eq_iff k j)

pub get_set-delete :
    (m : Map (List String)) (k j : String)
    → get_set (delete m k) j ≡ (if k == j then [] else get_set m j)
unfolding get_set
get_set-delete m k j = ground (arith, get-delete m k j, eq_iff k j)

-- A key that is not met by `range` has no entry.
pub contains-keys :
    {V : Type 0} (m : Map V) (k : String)
    → contains_string (keys m) k ≡ elim (get m k) [ none ↦ false | some _ ↦ true ]
unfolding contains_string keys get
contains-keys [] k = refl
contains-keys ((j, v) ∷ m) k = ground (arith, contains-keys m k, eq_iff j k)
