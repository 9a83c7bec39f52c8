-- ===== src/Base/Sort.antt =====
-- `sort.Strings` and `sort.Slice` by a text: ascending order, by insertion. (Go's sort is not stable;
-- the code sorts by texts that differ.)
use Prim.Native.String.{String, compare}
use mathlib.Core.List.{List, [], ◌∷◌, Perm}
use mathlib.Core.List.Perm
use mathlib.Core.Logic.{inl, inr}
use text.Mathlib.Text.{is_le}
use mathlib.Core.Path.{◌≡◌, ◌∙◌, refl}
use mathlib.Core.Bool.{Bool, ◌||◌}
use native.Mathlib.Omega.{arith}
use text.Mathlib.Text.{◌==◌}
use package.go_permissions.Base.Lists.{contains_string, any}
use package.go_permissions.Base.Tests.{if◌then◌else◌, Bool-cases}

module _ {ℓ} {A : Type ℓ} (key : A → String) where
  insert_by : A → List A → List A
  insert_by x [] = x ∷ []
  insert_by x (y ∷ ys) = if is_le (compare (key x) (key y)) then x ∷ y ∷ ys else y ∷ insert_by x ys

  unfoldable pub sort_by : List A → List A
  unfolding insert_by
  sort_by [] = []
  sort_by (x ∷ xs) = insert_by x (sort_by xs)

  insert_by-perm : (x : A) (xs : List A) → Perm (insert_by x xs) (x ∷ xs)
  unfolding insert_by
  insert_by-perm x [] = Perm.refl (x ∷ [])
  insert_by-perm x (y ∷ ys) = elim (Bool-cases (is_le (compare (key x) (key y)))) [
    | inl e ↦ rw e (Perm.refl (x ∷ y ∷ ys))
    | inr e ↦ rw e (Perm.trans (Perm.cons y (insert_by-perm x ys)) (Perm.swap x y ys))
  ]

  pub sort_by-perm : (xs : List A) → Perm (sort_by xs) xs
  unfolding sort_by
  sort_by-perm [] = Perm.refl []
  sort_by-perm (x ∷ xs) = Perm.trans (insert_by-perm x (sort_by xs)) (Perm.cons x (sort_by-perm xs))

unfoldable pub sort_strings : List String → List String
unfolding sort_by
sort_strings = sort_by (λ s. s)

contains_string-insert_by :
    (x : String) (xs : List String) (t : String)
    → contains_string (insert_by (λ s. s) x xs) t ≡ (x == t || contains_string xs t)
unfolding insert_by contains_string
contains_string-insert_by x [] t = refl
contains_string-insert_by x (y ∷ ys) t = ground (arith, contains_string-insert_by x ys t)

pub contains_string-sort_strings :
    (xs : List String) (t : String) → contains_string (sort_strings xs) t ≡ contains_string xs t
unfolding sort_strings contains_string
contains_string-sort_strings [] t = refl
contains_string-sort_strings (x ∷ xs) t =
    ground
      (arith, contains_string-insert_by x (sort_strings xs) t, contains_string-sort_strings xs t)

module _ {ℓ} {A : Type ℓ} (p : A → Bool) (key : A → String) where
  any-insert_by : (x : A) (xs : List A) → any p (insert_by key x xs) ≡ (p x || any p xs)
  unfolding insert_by any
  any-insert_by x [] = refl
  any-insert_by x (y ∷ ys) = ground (arith, any-insert_by x ys)

  -- Sorting keeps what a search finds.
  pub any-sort_by : (xs : List A) → any p (sort_by key xs) ≡ any p xs
  unfolding sort_by any
  any-sort_by [] = refl
  any-sort_by (x ∷ xs) = any-insert_by x (sort_by key xs) ∙ ground (arith, any-sort_by xs)
