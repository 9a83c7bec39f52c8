-- ===== src/Tests/Listings.antt =====
-- The listing of grants, and the in-memory store.
use go_permissions.Base.{
  ◌≡◌, ◌↔◌, ◌≤◌, refl, true, false, List, [], ◌∷◌, some, arith, any, contains_string, ne_of_test,
  ◌==◌, not,
}
use go_permissions.Base.Results.{ok, err, panic}
use go_permissions.Types.{Grant, GrantQuery, pos, principal_user, principal_role}
use go_permissions.GrantListing.{list_grants}
use go_permissions.GrantListing.Paging.{follow, follow_all, list_grants_bounds}
use go_permissions.Bootstrap
use go_permissions.InMemory
use go_permissions.InMemory.{
  Store, new_store, set_role_expansion, add_role_inheritance, expand_roles,
}
use go_permissions.InMemory.Grants.{grants_for_owners-Bootstrap, grants_for_principal_misses}
use go_permissions.InMemory.Expanding.{
  IsSound, Root, set_role_expansion-IsSound, add_role_inheritance-IsSound, new_store-IsSound,
  inmemory_expand_roles-Root,
}
use package.go_permissions.Tests.Program.{program}
use package.go_permissions.Tests.Data.{grant_to, ann, edit}

-- two grants of ann and one of an editor
abbrev grants : List Grant
grants =
    grant_to principal_user "ann" "docs.edit"
    ∷ grant_to principal_role "editor" "docs.edit"
    ∷ grant_to principal_user "ann" "docs.read"
    ∷ []

-- pages of one grant each
abbrev of_ann : GrantQuery
of_ann = record {
  principals = ann ∷ [];
  team_scopes = [];
  object_scopes = [];
  permissions = [];
  permission_prefix = "docs.";
  include_effective = false;
  limit = pos 1;
  cursor = "";
}

follow_all_example :
    follow 3 grants of_ann
    ≡ some
        (grant_to principal_user "ann" "docs.edit" ∷ grant_to principal_user "ann" "docs.read" ∷ [])
unfolding program
follow_all_example = follow_all grants of_ann 3 refl (omega arith) (omega arith)

list_grants_bounds_example : (1 ≤ 1) × (1 ≤ 1000)
unfolding program
list_grants_bounds_example =
    list_grants_bounds grants of_ann
      (record {
        grants = grant_to principal_user "ann" "docs.edit" ∷ [];
        next_cursor = "1";
        total_count = 2;
      })
      refl

negative :
    list_grants grants (record of_ann { cursor = "-1" }) ≡ err (panic "slice bounds out of range")
unfolding program
negative = refl

-- the largest offset wraps around: the page behind the end has a negative cursor for its next one
wrapped :
    list_grants grants (record of_ann { cursor = "9223372036854775807" })
    ≡ ok (record { grants = []; next_cursor = "-9223372036854775808"; total_count = 2 })
unfolding program
wrapped = refl

abbrev listed : Store
listed = record new_store { grants = grants }

grants_for_owners-Bootstrap_example :
    Bootstrap.grants_for_owners (record Bootstrap.new_store { grants = grants }) (ann ∷ []) edit 100
    ≡ ok (grant_to principal_user "ann" "docs.edit" ∷ [])
unfolding program
grants_for_owners-Bootstrap_example =
    grants_for_owners-Bootstrap listed (record Bootstrap.new_store { grants = grants }) (ann ∷ [])
      ("user:ann" ∷ []) edit 100 refl refl

-- a grant of ann for one team
abbrev team_grant : Grant
team_grant = record (grant_to principal_user "ann" "docs.edit") { team_scope = "dev" }

grants_for_principal_misses_example :
    any
      (λ (g : Grant). not (g.team_scope == "*"))
      (InMemory.grants_for_principal (record new_store { grants = team_grant ∷ [] }) ann 100)
    ≡ false
unfolding program
grants_for_principal_misses_example =
    grants_for_principal_misses (record new_store { grants = team_grant ∷ [] }) ann 100

-- a lead inherits editor by an edge and viewer by hand
abbrev office : Store
office =
    set_role_expansion (add_role_inheritance new_store "lead" "editor").0 "editor" ("viewer" ∷ [])

office-IsSound : IsSound office
office-IsSound =
    set_role_expansion-IsSound "editor" (add_role_inheritance new_store "lead" "editor").0
      ("viewer" ∷ []) (add_role_inheritance-IsSound new_store "lead" "editor" new_store-IsSound)

office_test : expand_roles office ("lead" ∷ []) ≡ "lead" ∷ "editor" ∷ "viewer" ∷ []
unfolding program
office_test = refl

inmemory_expand_roles-Root_example :
    (contains_string (expand_roles office ("lead" ∷ [])) "viewer" ≡ true)
    ↔ Root office ("lead" ∷ []) "viewer"
unfolding program
inmemory_expand_roles-Root_example =
    inmemory_expand_roles-Root office office-IsSound "viewer" (ne_of_test "viewer" "" refl)
      ("lead" ∷ []) refl
