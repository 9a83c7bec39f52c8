-- ===== src/Grants/Fields.antt =====
-- Field-scoped permissions: `grantMatchesFieldPath`, `fieldPathMatches` and `isIndexedFieldPath` of service.go.
use Prim.Native.Char.{code}
use go_permissions.Base.{
  ◌≡◌, refl, String, Bool, true, false, not, ◌&&◌, ◌||◌, List, Option, none, some, arith,
  if◌then◌else◌, ◌==◌, any, is_empty, leb, eq_iff,
}
use go_permissions.Base.Text.{has_prefix, trim_space, concat, split}
use go_permissions.Types.{Grant, effect_deny}

unfoldable pub field_path_matches : String → String → Bool
field_path_matches grant_path candidate =
    let g = trim_space grant_path in
    let c = trim_space candidate in
    if g == "" || c == "" then false else if g == c then true else has_prefix c (concat g ".")

-- the loop over `RestrictedFields`
unfoldable pub is_restricted : List String → String → Bool
unfolding field_path_matches any
is_restricted fields path = any (λ f. field_path_matches f path) fields

unfoldable pub grant_matches_field_path : Grant → Option String → Bool
unfolding is_restricted
grant_matches_field_path g none = true
grant_matches_field_path g (some path) =
    if is_empty g.restricted_fields
    then true
    else if g.effect == effect_deny
    then is_restricted g.restricted_fields path
    else not (is_restricted g.restricted_fields path)

-- the inner loop: a part of digits only
all_digits : String → Bool
all_digits String.[] = true
all_digits (String.◌∷◌ c s) = leb b'0' (code c) && leb (code c) b'9' && all_digits s

unfoldable pub is_indexed_field_path : String → Bool
unfolding all_digits any split
is_indexed_field_path path = any (λ part. not (part == "") && all_digits part) (split path b'.')

indexed_paths :
    (is_indexed_field_path "items.0.price" ≡ true)
    × (is_indexed_field_path "items.x1.price" ≡ false)
    × (is_indexed_field_path "..." ≡ false)
unfolding is_indexed_field_path
indexed_paths = (refl, refl, refl)

-- On one list of restricted fields, an allow and a deny grant speak of complementary paths.
pub allow_deny_complement :
    (allow deny : Grant) (path : String)
    → is_empty allow.restricted_fields ≡ false
    → allow.restricted_fields ≡ deny.restricted_fields
    → (allow.effect == effect_deny) ≡ false
    → deny.effect ≡ effect_deny
    → grant_matches_field_path allow (some path) ≡ not (grant_matches_field_path deny (some path))
unfolding grant_matches_field_path
allow_deny_complement allow deny path full same a d = ground (arith, eq_iff deny.effect effect_deny)
