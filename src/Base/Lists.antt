-- ===== src/Base/Lists.antt =====
-- Lists measured and searched with Boolean tests, and their laws.
use Prim.Native.Nat.{ℕ, zero, suc, ◌+◌, ◌-◌, ◌≤◌}
use Prim.Native.String.{String}
use mathlib.Core.Path.{◌≡◌, refl, ap}
use mathlib.Core.Bool.{Bool, true, false, ◌&&◌, ◌||◌}
use mathlib.Core.List.{List, [], ◌∷◌, ◌++◌}
use native.Mathlib.Omega.{arith}
use text.Mathlib.Text.{◌==◌}
use text.Mathlib.TextEquality.{eq_iff}
use package.go_permissions.Base.Tests.{if◌then◌else◌}

module _ {ℓ} {A : Type ℓ} where
  abbrev pub length : List A → ℕ
  length [] = 0
  length (x ∷ xs) = suc (length xs)

  abbrev pub is_empty : List A → Bool
  is_empty [] = true
  is_empty (x ∷ xs) = false

  abbrev pub take : ℕ → List A → List A
  take zero xs = []
  take (suc n) [] = []
  take (suc n) (x ∷ xs) = x ∷ take n xs

  abbrev pub drop : ℕ → List A → List A
  drop zero xs = xs
  drop (suc n) [] = []
  drop (suc n) (x ∷ xs) = drop n xs

  -- Go's loops that stop at the first element with a property, and those that keep the elements with one.
  unfoldable pub any : (A → Bool) → List A → Bool
  any p [] = false
  any p (x ∷ xs) = p x || any p xs

  unfoldable pub filter : (A → Bool) → List A → List A
  filter p [] = []
  filter p (x ∷ xs) = let rest = filter p xs in if p x then x ∷ rest else rest

  abbrev pub All {κ} : (A → Type κ) → List A → Type κ
  All P [] = Unit
  All P (x ∷ xs) = P x × All P xs

module _ {ℓ} {A : Type ℓ} where
  pub any-append : (p : A → Bool) (xs ys : List A) → any p (xs ++ ys) ≡ (any p xs || any p ys)
  unfolding any
  any-append p [] ys = refl
  any-append p (x ∷ xs) ys = ground (arith, any-append p xs ys)

  pub any-filter : (p q : A → Bool) (xs : List A) → any p (filter q xs) ≡ any (λ x. q x && p x) xs
  unfolding any filter
  any-filter p q [] = refl
  any-filter p q (x ∷ xs) = ground (arith, any-filter p q xs)

module _ {ℓ} {A : Type ℓ} where
  pub filter-filter :
      (p q : A → Bool) (xs : List A) → filter p (filter q xs) ≡ filter (λ x. q x && p x) xs
  unfolding filter
  filter-filter p q [] = refl
  filter-filter p q (x ∷ xs) = ground (arith, filter-filter p q xs)

  pub filter_cong :
      (p q : A → Bool) (xs : List A) → All (λ x. p x ≡ q x) xs → filter p xs ≡ filter q xs
  unfolding filter
  filter_cong p q [] same = refl
  filter_cong p q (x ∷ xs) same = rw same.0 (ground (arith, filter_cong p q xs same.1))

  pub All_of {κ} : {P : A → Type κ} → ((x : A) → P x) → (xs : List A) → All P xs
  All_of h [] = tt
  All_of h (x ∷ xs) = (h x, All_of h xs)

  pub All_map {κ μ} :
      {P : A → Type κ} {Q : A → Type μ}
      → ((x : A) → P x → Q x)
      → (xs : List A) → All P xs
      → All Q xs
  All_map h [] v = tt
  All_map h (x ∷ xs) v = (h x v.0, All_map h xs v.1)

-- `containsString`, `contains`, `slices.Contains`, and a key of a `map[string]bool`.
unfoldable pub contains_string : List String → String → Bool
contains_string [] target = false
contains_string (value ∷ values) target = value == target || contains_string values target

pub contains_string-append :
    (xs ys : List String) (t : String)
    → contains_string (xs ++ ys) t ≡ (contains_string xs t || contains_string ys t)
unfolding contains_string
contains_string-append [] ys t = refl
contains_string-append (x ∷ xs) ys t = ground (arith, contains_string-append xs ys t)

pub contains_string-filter :
    (keep : String → Bool) (xs : List String) (t : String)
    → contains_string (filter keep xs) t ≡ (contains_string xs t && keep t)
unfolding contains_string filter
contains_string-filter keep [] t = refl
contains_string-filter keep (x ∷ xs) t =
    ground (arith, contains_string-filter keep xs t, eq_iff x t)

module _ {ℓ} {A : Type ℓ} where
  pub length-take_le : (n : ℕ) (xs : List A) → length (take n xs) ≤ n
  length-take_le zero xs = omega arith
  length-take_le (suc n) [] = omega arith
  length-take_le (suc n) (x ∷ xs) = omega (arith, length-take_le n xs)

  pub length-drop : (n : ℕ) (xs : List A) → length (drop n xs) ≡ length xs - n
  length-drop zero xs = omega arith
  length-drop (suc n) [] = omega arith
  length-drop (suc n) (x ∷ xs) = omega (arith, length-drop n xs)

  pub take_all : (n : ℕ) (xs : List A) → length xs ≤ n → take n xs ≡ xs
  take_all zero [] h = refl
  take_all zero (x ∷ xs) h = absurd (omega arith)
  take_all (suc n) [] h = refl
  take_all (suc n) (x ∷ xs) h = ap (λ ys. x ∷ ys) (take_all n xs (omega arith))

  pub take-append-drop : (n : ℕ) (xs : List A) → take n xs ++ drop n xs ≡ xs
  take-append-drop zero xs = refl
  take-append-drop (suc n) [] = refl
  take-append-drop (suc n) (x ∷ xs) = ap (λ ys. x ∷ ys) (take-append-drop n xs)

  drop_nil : (n : ℕ) → drop {A = A} n [] ≡ []
  drop_nil zero = refl
  drop_nil (suc n) = refl

  pub drop-drop : (m n k : ℕ) (xs : List A) → k ≡ n + m → drop m (drop n xs) ≡ drop k xs
  drop-drop m zero k xs e = ap (λ j. drop j xs) (omega arith)
  drop-drop m (suc n) k [] e = rw (drop_nil m, drop_nil k) refl
  drop-drop m (suc n) zero (x ∷ xs) e = absurd (omega arith)
  drop-drop m (suc n) (suc k) (x ∷ xs) e = drop-drop m n k xs (omega arith)

  pub drop_past : (n : ℕ) (xs : List A) → length xs ≤ n → drop n xs ≡ []
  drop_past zero [] h = refl
  drop_past zero (x ∷ xs) h = absurd (omega arith)
  drop_past (suc n) [] h = refl
  drop_past (suc n) (x ∷ xs) h = drop_past n xs (omega arith)
