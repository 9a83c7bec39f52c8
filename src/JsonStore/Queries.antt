-- ===== src/JsonStore/Queries.antt =====
-- The queries of jsonstore/store.go. A read takes the time where the Go method calls `time.Now`.
use go_permissions.Base.{
  ℕ, String, Bool, false, ◌&&◌, List, [], ◌∷◌, ◌++◌, if◌then◌else◌, ◌==◌, filter, map,
  contains_string,
}
use go_permissions.Base.Maps.{Map, keys}
use go_permissions.Base.Sets.{add_all, set_add}
use go_permissions.Base.Results.{Result, ok, err, role_id_required}
use go_permissions.Types.{
  Grant, GrantQuery, GrantQueryResult, PrincipalHit, PrincipalRef, Request, Role, RoleAssignment,
  RoleAssignmentHit, principal_user, principal_group, principal_team,
}
use go_permissions.Types.Principals.{principal_key}
use go_permissions.GrantListing
use go_permissions.GrantListing.{matches_query}
use go_permissions.Bootstrap.{assigned, owner_of, hit_values}
use go_permissions.InMemory.{hits_in, bears_on, note_bearing}
use go_permissions.InMemory.Identity
use go_permissions.InMemory.Identity.{Directory}
use go_permissions.JsonStore.{Data, clone_grant}

abbrev pub directory_of : Data → Directory
directory_of d = record { user_groups = d.user_groups; team_membership = d.team_membership }

-- IsUserInGroup, GetUserGroups, GetGroupMembers, GetUserTeams and IsUserInTeam
unfoldable pub is_user_in_group : Data → String → String → Bool
is_user_in_group d user_id group_id = Identity.is_user_in_group (directory_of d) user_id group_id

unfoldable pub get_user_groups : Data → String → List String
get_user_groups d user_id = Identity.get_user_groups (directory_of d) user_id

unfoldable pub get_group_members : Data → String → List String
get_group_members d group_id = Identity.get_group_members (directory_of d) group_id

unfoldable pub get_user_teams : Data → String → List String
get_user_teams d user_id = Identity.get_user_teams (directory_of d) user_id

unfoldable pub is_user_in_team : Data → String → String → Bool
is_user_in_team d user_id team_id = Identity.is_user_in_team (directory_of d) user_id team_id

-- the two later loops of ListKnownGroupIDs
unfoldable pub add_owners : List Grant → List String → List String
unfolding set_add
add_owners [] ids = ids
add_owners (g ∷ grants) ids =
    add_owners grants (if g.owner_kind == principal_group then set_add ids g.owner_id else ids)

unfoldable pub add_groups : Map (List String) → List String → List String
unfolding add_all
add_groups [] ids = ids
add_groups ((_, groups) ∷ m) ids = add_groups m (add_all ids groups)

-- ListKnownGroupIDs
unfoldable pub list_known_group_ids : Data → List String
unfolding add_owners add_groups add_all
list_known_group_ids d =
    add_groups d.user_groups (add_owners d.grants (add_all [] (keys d.group_role_assignments)))

-- ListRoleAssignmentsForUserAndGroups
unfoldable pub assignments_of_groups : Data → List String → List RoleAssignment
assignments_of_groups d [] = []
assignments_of_groups d (group_id ∷ group_ids) =
    assigned d.group_role_assignments group_id ++ assignments_of_groups d group_ids

unfoldable pub list_role_assignments_for_user_and_groups :
    Data → String → List String → List RoleAssignment
unfolding assignments_of_groups
list_role_assignments_for_user_and_groups d user_id group_ids =
    assigned d.user_role_assignments user_id ++ assignments_of_groups d group_ids

-- RoleAssignmentsForPrincipal
unfoldable pub role_assignments_for_principal : Data → PrincipalRef → List RoleAssignment
role_assignments_for_principal d p =
    if p.kind == principal_user
    then assigned d.user_role_assignments p.id
    else if p.kind == principal_group
    then assigned d.group_role_assignments p.id
    else if p.kind == principal_team
    then assigned d.team_role_assignments p.id
    else []

-- RoleAssignmentsForRoleID
unfoldable pub role_assignments_for_role_id : Data → String → List RoleAssignmentHit
role_assignments_for_role_id d role_id =
    hits_in role_id principal_user d.user_role_assignments
    ++ hits_in role_id principal_group d.group_role_assignments
    ++ hits_in role_id principal_team d.team_role_assignments

-- ListGrantsForOwners, GrantsForOwners
unfoldable pub grants_for_owners : Data → List PrincipalRef → Request → ℕ → List Grant
unfolding filter contains_string
grants_for_owners d owners req now = map clone_grant (
    filter
      (λ (g : Grant).
        contains_string (map principal_key owners) (principal_key (owner_of g))
        && bears_on req now g)
      d.grants)

-- GrantsForPrincipal
unfoldable pub grants_for_principal : Data → PrincipalRef → ℕ → List Grant
unfolding grants_for_owners
grants_for_principal d principal now =
    grants_for_owners d (principal ∷ [])
      (record { user_id = ""; team_id = ""; object = ""; perm = "" }) now

-- ListPrincipalsWithGrant, PrincipalsWithGrant
unfoldable pub principals_with_grant : Data → Request → ℕ → List PrincipalHit
principals_with_grant d req now =
    hit_values (note_bearing d.grants req now (record { denied = []; allowed = [] })).allowed

-- RoleDefinition
unfoldable pub role_definition : String → Result Role
role_definition role_id =
    if role_id == ""
    then err role_id_required
    else ok (record {
      id = role_id;
      name = role_id;
      description = "";
      scope = "";
      tags = [];
      permissions = [];
      built_in = false;
      is_disabled = false;
    })

-- ListGrants
unfoldable pub list_grants : Data → GrantQuery → Result GrantQueryResult
unfolding filter
list_grants d q = GrantListing.page (map clone_grant (filter (matches_query q) d.grants)) q
