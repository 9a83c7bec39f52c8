-- ===== src/InMemory/Grants.antt =====
-- The in-memory store and the bootstrap store find the same grants, but for one method.
use go_permissions.Base.{
  ℕ, ◌≡◌, refl, ap, String, false, not, List, [], ◌∷◌, arith, ◌==◌, any, filter, filter_cong,
  All_of, inl, inr, map,
}
use go_permissions.Base.Results.{ok, Result-cases}
use go_permissions.Types.{Grant, PrincipalRef, Request, is_expired_at, validate_principal}
use go_permissions.Types.Principals.{principal_key}
use go_permissions.Grants.Matching.{scope_matches}
use go_permissions.Bootstrap
use go_permissions.Bootstrap.{owner_keys}
use go_permissions.InMemory.{Store, selects, grants_for_owners, grants_for_principal}

valid_keys :
    (owners : List PrincipalRef) (keys : List String)
    → owner_keys owners ≡ ok keys
    → keys ≡ map principal_key owners
unfolding owner_keys
valid_keys [] keys h = ground arith
valid_keys (o ∷ owners) keys h = elim (Result-cases (validate_principal o)) [
  | inr (e, bad) ↦ absurd (ground arith)
  | inl (u, good) ↦ elim (Result-cases (owner_keys owners)) [
    | inr (e, bad) ↦ absurd (ground arith)
    | inl (rest, found) ↦ ground (arith, valid_keys owners rest found)
  ]
]

same_selection :
    (keys : List String) (req : Request) (now : ℕ) (g : Grant)
    → Bootstrap.selects keys req now g ≡ selects keys req now g
unfolding Bootstrap.selects selects is_expired_at
same_selection keys req now g = ground arith

-- Over the same grants, and for owners that all are valid, GrantsForOwners of the two stores returns the same grants in the
-- same order.
pub grants_for_owners-Bootstrap :
    (s : Store) (b : Bootstrap.Store) (owners : List PrincipalRef) (keys : List String)
    (req : Request) (now : ℕ)
    → b.grants ≡ s.grants
    → owner_keys owners ≡ ok keys
    → Bootstrap.grants_for_owners b owners req now ≡ ok (grants_for_owners s owners req now)
unfolding Bootstrap.grants_for_owners grants_for_owners
grants_for_owners-Bootstrap s b owners keys req now same valid =
    let named = valid_keys owners keys valid in
    ground (
      arith,
      filter_cong (Bootstrap.selects keys req now) (selects keys req now) s.grants
          (All_of (same_selection keys req now) s.grants),
      ap (λ k. filter (selects k req now) s.grants) named,
      ap (λ gs. filter (Bootstrap.selects keys req now) gs) same,
    )

unscoped :
    (keys : List String) (now : ℕ) (grants : List Grant)
    → any
        (λ g. not (g.team_scope == "*"))
        (filter
          (selects keys (record { user_id = ""; team_id = ""; object = ""; perm = "" }) now)
          grants)
      ≡ false
unfolding any filter selects scope_matches
unscoped keys now [] = refl
unscoped keys now (g ∷ grants) = ground (arith, unscoped keys now grants)

-- GrantsForPrincipal of the in-memory store returns no grant whose team scope is not "*".
pub grants_for_principal_misses :
    (s : Store) (p : PrincipalRef) (now : ℕ)
    → any (λ g. not (g.team_scope == "*")) (grants_for_principal s p now) ≡ false
unfolding grants_for_principal grants_for_owners
grants_for_principal_misses s p now = unscoped (map principal_key (p ∷ [])) now s.grants
