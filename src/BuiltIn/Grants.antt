-- ===== src/BuiltIn/Grants.antt =====
-- AddGrant adds an equivalent grant once.
use go_permissions.Base.{◌≡◌, refl, inl, inr, true, arith, any, any-append, Bool-cases}
use go_permissions.Types.{Grant}
use go_permissions.Grants.Equivalence.{grants_equivalent, grants_equivalent_refl, HasDistinctSpec}
use go_permissions.BuiltIn.{Registry, add_grant, add_new_grant, with_team_scope}

add_known_grant :
    (r : Registry) (g : Grant)
    → any (λ existing. grants_equivalent existing g) r.grants ≡ true
    → add_new_grant r g ≡ r
unfolding add_new_grant
add_known_grant r g old = rw old refl

module _ (r : Registry) (g : Grant) (d : HasDistinctSpec g.variable_spec) where
  -- the grant, or one that is equivalent to it, is there afterwards
  has_grant : any (λ existing. grants_equivalent existing g) (add_new_grant r g).grants ≡ true
  unfolding add_new_grant any
  has_grant = elim (Bool-cases (any (λ existing. grants_equivalent existing g) r.grants)) [
    | inl old ↦ rw old old
    | inr new ↦ rw new (rw (any-append, new, grants_equivalent_refl g d) refl)
  ]

  add_new_grant_twice : add_new_grant (add_new_grant r g) g ≡ add_new_grant r g
  add_new_grant_twice = add_known_grant (add_new_grant r g) g has_grant

-- A second AddGrant of the same grant, with no key twice in its variables, changes nothing and returns what the first
-- returned.
pub add_grant_idem :
    (r : Registry) (g : Grant)
    → HasDistinctSpec g.variable_spec
    → add_grant (add_grant r g).0 g ≡ ((add_grant r g).0, (add_grant r g).1)
unfolding add_grant with_team_scope
add_grant_idem r g d = ground (arith, add_new_grant_twice r (with_team_scope g) d)
