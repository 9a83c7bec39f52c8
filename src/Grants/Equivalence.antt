-- ===== src/Grants/Equivalence.antt =====
-- When two grants count as one: `grantsEquivalent` and its helpers of service.go, and
-- `BindingValuesEqual` of utilities.go.
use mathlib.Core.Bool.{false≢true}
use mathlib.Core.List.{Perm}
use mathlib.Core.List.Perm
use go_permissions.Base.{
  ◌≡◌, refl, String, Bool, true, false, ◌&&◌, List, [], ◌∷◌, Option, none, some, arith,
  if◌then◌else◌, ◌==◌, nat_eq, length, ℕ, eq_iff, eq_refl, text_cases, inl, inr,
}
use go_permissions.Base.Sort.{sort_strings, sort_by-perm}
use go_permissions.Base.Maps.{Map, get}
use go_permissions.Types.{Grant, Value, deep_equal, deep_equal_refl}

same_string_pointer : Option String → Option String → Bool
same_string_pointer none none = true
same_string_pointer (some a) (some b) = a == b
same_string_pointer _ _ = false

same_time_pointer : Option ℕ → Option ℕ → Bool
same_time_pointer none none = true
same_time_pointer (some a) (some b) = nat_eq a b
same_time_pointer _ _ = false

-- the loop over the two sorted copies
same_strings : List String → List String → Bool
same_strings [] [] = true
same_strings (a ∷ as') (b ∷ bs) = a == b && same_strings as' bs
same_strings _ _ = false

unfoldable pub same_string_set : List String → List String → Bool
unfolding same_strings
same_string_set left right =
    if nat_eq (length left) (length right)
    then same_strings (sort_strings left) (sort_strings right)
    else false

-- the loop `for k, av := range a`
unfoldable pub entries_in : Map Value → Map Value → Bool
entries_in [] b = true
entries_in ((k, av) ∷ a) b = elim (get b k) [
  | none ↦ false
  | some bv ↦ deep_equal av bv && entries_in a b
]

-- `BindingValuesEqual`, and `reflect.DeepEqual` at two maps that are not nil
unfoldable pub binding_values_equal : Map Value → Map Value → Bool
unfolding entries_in
binding_values_equal a b = if nat_eq (length a) (length b) then entries_in a b else false

same_spec : Option (Map Value) → Option (Map Value) → Bool
unfolding binding_values_equal
same_spec none none = true
same_spec (some a) (some b) = binding_values_equal a b
same_spec _ _ = false

unfoldable pub grants_equivalent : Grant → Grant → Bool
unfolding same_string_pointer same_time_pointer same_string_set same_spec
grants_equivalent left right =
    left.owner_kind == right.owner_kind
    && left.owner_id == right.owner_id
    && (left.effect == right.effect
        && left.team_scope == right.team_scope
        && left.permission_name == right.permission_name)
    && same_string_pointer left.object_scope right.object_scope
    && same_time_pointer left.expires_at right.expires_at
    && same_string_set left.restricted_fields right.restricted_fields
    && same_spec left.variable_spec right.variable_spec

-- No key stands twice, as in every Go map.
abbrev pub HasDistinctKeys : Map Value → Type 0
HasDistinctKeys [] = Unit
HasDistinctKeys ((k, v) ∷ m) = (get m k ≡ none) × HasDistinctKeys m

entries_in_refl :
    (a b : Map Value)
    → HasDistinctKeys a
    → ((k : String) (v : Value) → get a k ≡ some v → get b k ≡ some v)
    → entries_in a b ≡ true
unfolding entries_in get
entries_in_refl [] b d sub = refl
entries_in_refl ((k, v) ∷ a) b d sub =
    let first : get b k ≡ some v = sub k v (ground (arith, eq_refl k)) in
    let rest : entries_in a b ≡ true = entries_in_refl a b d.1 λ j w e.
      sub j w (elim (text_cases k j) [
        | inl same ↦ absurd (ground (arith, d.0))
        | inr other ↦ ground arith
      ]) in
    ground (arith, deep_equal_refl v)

pub binding_values_equal_refl :
    (m : Map Value) → HasDistinctKeys m → binding_values_equal m m ≡ true
unfolding binding_values_equal
binding_values_equal_refl m d = ground (arith, entries_in_refl m m d (λ k v e. e))

same_strings_refl : (xs : List String) → same_strings xs xs ≡ true
unfolding same_strings
same_strings_refl [] = refl
same_strings_refl (x ∷ xs) = ground (arith, eq_refl x, same_strings_refl xs)

same_strings-eq : (xs ys : List String) → same_strings xs ys ≡ true → xs ≡ ys
unfolding same_strings
same_strings-eq [] [] h = refl
same_strings-eq [] (y ∷ ys) h = absurd (false≢true h)
same_strings-eq (x ∷ xs) [] h = absurd (false≢true h)
same_strings-eq (x ∷ xs) (y ∷ ys) h = ground (arith, eq_iff x y, same_strings-eq xs ys)

-- Lists that `sameStringSet` accepts hold the same strings, as often.
pub same_string_set-perm : (xs ys : List String) → same_string_set xs ys ≡ true → Perm xs ys
unfolding same_string_set sort_strings
same_string_set-perm xs ys h =
    let e : sort_strings xs ≡ sort_strings ys =
      same_strings-eq (sort_strings xs) (sort_strings ys) (ground arith) in
    Perm.trans (Perm.symm (sort_by-perm (λ s. s) xs)) (rw e (sort_by-perm (λ s. s) ys))

-- The Go map that the grant carries, if it carries one.
abbrev pub HasDistinctSpec : Option (Map Value) → Type 0
HasDistinctSpec none = Unit
HasDistinctSpec (some m) = HasDistinctKeys m

same_spec_refl : (o : Option (Map Value)) → HasDistinctSpec o → same_spec o o ≡ true
unfolding same_spec
same_spec_refl none d = refl
same_spec_refl (some m) d = binding_values_equal_refl m d

-- A grant is equivalent to itself.
pub grants_equivalent_refl :
    (g : Grant) → HasDistinctSpec g.variable_spec → grants_equivalent g g ≡ true
unfolding grants_equivalent same_string_pointer same_time_pointer same_string_set
grants_equivalent_refl g d = ground (
  arith,
  eq_refl g.owner_kind,
  eq_refl g.owner_id,
  eq_refl g.effect,
  eq_refl g.team_scope,
  eq_refl g.permission_name,
  pointer_refl g.object_scope,
  time_refl g.expires_at,
  same_strings_refl (sort_strings g.restricted_fields),
  same_spec_refl g.variable_spec d,
)
  where
    pointer_refl : (o : Option String) → same_string_pointer o o ≡ true
    pointer_refl none = refl
    pointer_refl (some s) = eq_refl s

    time_refl : (o : Option ℕ) → same_time_pointer o o ≡ true
    time_refl none = refl
    time_refl (some t) = ground arith

pointer_eq : (a b : Option String) → same_string_pointer a b ≡ true → a ≡ b
unfolding same_string_pointer
pointer_eq none none h = refl
pointer_eq none (some b) h = absurd (false≢true h)
pointer_eq (some a) none h = absurd (false≢true h)
pointer_eq (some a) (some b) h = ground (arith, eq_iff a b)

time_eq : (a b : Option ℕ) → same_time_pointer a b ≡ true → a ≡ b
unfolding same_time_pointer
time_eq a b h = ground arith

-- What equivalent grants have in common.
pub record SamePolicy (left right : Grant) : Type 0 where
  pub owner_kind : left.owner_kind ≡ right.owner_kind
  pub owner_id : left.owner_id ≡ right.owner_id
  pub effect : left.effect ≡ right.effect
  pub team_scope : left.team_scope ≡ right.team_scope
  pub permission_name : left.permission_name ≡ right.permission_name
  pub object_scope : left.object_scope ≡ right.object_scope
  pub expires_at : left.expires_at ≡ right.expires_at
  pub restricted_fields : Perm left.restricted_fields right.restricted_fields

-- Equivalent grants agree on owner, effect, permission, both scopes and expiry, and restrict the same fields, up to order.
pub grants_equivalent-SamePolicy :
    (left right : Grant) → grants_equivalent left right ≡ true → SamePolicy left right
unfolding grants_equivalent
grants_equivalent-SamePolicy left right h = record {
  owner_kind = ground (arith, eq_iff left.owner_kind right.owner_kind);
  owner_id = ground (arith, eq_iff left.owner_id right.owner_id);
  effect = ground (arith, eq_iff left.effect right.effect);
  team_scope = ground (arith, eq_iff left.team_scope right.team_scope);
  permission_name = ground (arith, eq_iff left.permission_name right.permission_name);
  object_scope = pointer_eq left.object_scope right.object_scope (ground arith);
  expires_at = time_eq left.expires_at right.expires_at (ground arith);
  restricted_fields =
      same_string_set-perm left.restricted_fields right.restricted_fields (ground arith);
}
