-- ===== src/CachedStore/Clones.antt =====
-- What the copies of the caching store change.
use go_permissions.Base.{
  ℕ, ◌≡◌, refl, String, false, List, [], ◌∷◌, Option, none, map, any, arith, option_intro,
}
use go_permissions.Base.Results.{Result, ok, result_intro}
use go_permissions.Types.{Grant, PrincipalRef}
use go_permissions.Grants.Equivalence.{grants_equivalent}
use go_permissions.CachedStore.{
  PermissionStore, Query, make_key, GoCache, Store, clone_grant, grants, grants_of, as_grants,
}
use go_permissions.CachedStore.Methods.{memoize, fetch, grants_for_principal}

module _ (g : Grant) (bare : g.variable_spec ≡ none) where
  clone_differs : (c : Grant) → grants_equivalent (clone_grant c) g ≡ false
  unfolding grants_equivalent clone_grant
  clone_differs c = ground (arith, bare)

  clones_differ : (cs : List Grant) → any (λ c. grants_equivalent c g) (map clone_grant cs) ≡ false
  unfolding any
  clones_differ [] = refl
  clones_differ (c ∷ cs) = ground (arith, clone_differs c, clones_differ cs)

  module _ {S C : Type 0} (b : PermissionStore S) (gc : GoCache C) (marshal : Query → Option String)
      (s : Store S C) (p : PrincipalRef) (now : ℕ) where
    abbrev NoneAlike : Store S C × Result (List Grant) → Type 0
    NoneAlike o = (gs : List Grant) → o.1 ≡ ok gs → any (λ c. grants_equivalent c g) gs ≡ false

    some_copies : (cs : List Grant) (t : Store S C) → NoneAlike (t, ok (map clone_grant cs))
    some_copies cs t gs e = ground (arith, clones_differ cs)

    fetched : NoneAlike (
        fetch b gc marshal s
          (grants_of p)
          as_grants
          grants
          (map clone_grant)
          (b.grants_for_principal s.base p now)
          now)
    unfolding fetch
    fetched =
        result_intro NoneAlike (b.grants_for_principal s.base p now)
          (λ cs _. some_copies (map clone_grant cs) s) λ e _ gs h. absurd (ground arith)

    -- No grant that GrantsForPrincipal of the caching store returns is equivalent to a grant without variables (a nil map),
    -- whatever the base and the cache hold.
    pub clones_unlike :
        (gs : List Grant)
        → (grants_for_principal b gc marshal s now p).1 ≡ ok gs
        → any (λ c. grants_equivalent c g) gs ≡ false
    unfolding grants_for_principal memoize
    clones_unlike =
        option_intro NoneAlike (gc.get s.cache (make_key marshal (grants_of p)) now) (λ _. fetched)
          λ a _. option_intro NoneAlike (as_grants a) (λ _. fetched) λ cs _. some_copies cs s
