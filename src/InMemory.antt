-- ===== src/InMemory.antt =====
-- The in-memory store (inmemory/store.go). Its operations take no lock. A method takes the time where
-- the Go method calls `time.Now`; roles are not kept.
pub mod Grants
pub mod Expanding
pub mod Identity
use go_permissions.Base.{
  ℕ, String, Bool, true, false, not, ◌&&◌, ◌||◌, List, [], ◌∷◌, ◌++◌, Option, none, some,
  if◌then◌else◌, ◌==◌, any, filter, contains_string, is_empty, map,
}
use go_permissions.Base.Maps.{Map, get, put, delete}
use go_permissions.Base.Sets.{set_add, add_all, get_set}
use go_permissions.Base.Results.{
  Error, Result, ok, err, ◌>>=◌, role_id_required, parent_role_id_required, child_role_id_required,
  self_inheritance, message,
}
use go_permissions.Types.{
  Grant, GrantQuery, GrantQueryResult, Role, RoleAssignment, RoleAssignmentHit, PrincipalRef,
  PrincipalHit, Request, Value, principal_user, principal_group, principal_team, effect_deny,
  is_active_at, validate_principal,
}
use go_permissions.Types.Principals.{principal_key}
use go_permissions.Grants.Matching.{scope_matches}
use go_permissions.Hierarchy
use go_permissions.Hierarchy.{Hierarchy, add_edge}
use go_permissions.GrantListing
use go_permissions.Bootstrap
use go_permissions.Bootstrap.{
  assigned, is_assignment, object_scope_matches, owner_of, Hits, note_grant, hit_values,
}

pub record Store : Type 0 where
  pub user_role_assignments : Map (List RoleAssignment)
  pub group_role_assignments : Map (List RoleAssignment)
  pub team_role_assignments : Map (List RoleAssignment)
  pub role_expansion : Map (List String)
  pub hierarchy : Hierarchy
  pub grants : List Grant

-- NewStore
abbrev pub new_store : Store
new_store = record {
  user_role_assignments = [];
  group_role_assignments = [];
  team_role_assignments = [];
  role_expansion = [];
  hierarchy = Hierarchy.empty;
  grants = [];
}

-- AddUserRoleAssignments, AddGroupRoleAssignments and AddTeamRoleAssignments, on their map
unfoldable pub append_assignments :
    Map (List RoleAssignment) → String → List RoleAssignment → Map (List RoleAssignment)
append_assignments m id assignments = put m id (assigned m id ++ assignments)

-- RemoveUserRoleAssignment, RemoveGroupRoleAssignment and RemoveTeamRoleAssignment, on their map
unfoldable pub remove_assignment :
    Map (List RoleAssignment) → String → String → Map Value → Map (List RoleAssignment)
unfolding filter
remove_assignment m id role_id values =
    let filtered = filter (λ a. not (is_assignment role_id values a)) (assigned m id) in
    if is_empty filtered then delete m id else put m id filtered

-- AddRoleInheritance
unfoldable pub add_role_inheritance : Store → String → String → Store × Option Error
add_role_inheritance s parent child =
    if parent == ""
    then (s, some parent_role_id_required)
    else if child == ""
    then (s, some child_role_id_required)
    else if parent == child
    then (s, some self_inheritance)
    else (record s { hierarchy = add_edge s.hierarchy parent child }, none)

-- the loop of SetRoleExpansion, which drops the errors
unfoldable pub inherit_all : Store → String → List String → Store
inherit_all s role_id [] = s
inherit_all s role_id (child ∷ children) =
    inherit_all (add_role_inheritance s role_id child).0 role_id children

-- SetRoleExpansion
unfoldable pub set_role_expansion : Store → String → List String → Store
unfolding inherit_all
set_role_expansion s role_id children =
    inherit_all (record s { role_expansion = put s.role_expansion role_id children }) role_id
      children

-- AddGrants and CreateGrant
unfoldable pub add_grants : Store → List Grant → Store
add_grants s grants = record s { grants = s.grants ++ grants }

unfoldable pub create_grant : Store → Grant → Store × Option Error
create_grant s g = (add_grants s (g ∷ []), none)

-- the `switch` on the kind of principal, with the write to the map that it chooses
unfoldable pub on_kind :
    Store
    → String
    → Error
    → (Map (List RoleAssignment) → Map (List RoleAssignment))
    → Store × Option Error
on_kind s kind unsupported change =
    if kind == principal_user
    then (record s { user_role_assignments = change s.user_role_assignments }, none)
    else if kind == principal_group
    then (record s { group_role_assignments = change s.group_role_assignments }, none)
    else if kind == principal_team
    then (record s { team_role_assignments = change s.team_role_assignments }, none)
    else (s, some unsupported)

-- AssignRole
unfoldable pub assign_role : Store → PrincipalRef → String → Map Value → Store × Option Error
unfolding on_kind append_assignments
assign_role s principal role_id values = elim (validate_principal principal) [
  | err e ↦ (s, some e)
  | ok _ ↦
      on_kind s principal.kind
        (message "role assignments support only user, group, or team principals")
        (λ m.
          append_assignments m principal.id
            (record { role_id = role_id; binding_values = values } ∷ []))
]

-- UnassignRole
unfoldable pub unassign_role : Store → PrincipalRef → String → Map Value → Store × Option Error
unfolding on_kind remove_assignment
unassign_role s principal role_id values = elim (validate_principal principal) [
  | err e ↦ (s, some e)
  | ok _ ↦
      on_kind s principal.kind
        (message "role unassignments support only user, group, or team principals")
        (λ m. remove_assignment m principal.id role_id values)
]

-- RoleAssignmentsForPrincipal
unfoldable pub role_assignments_for_principal : Store → PrincipalRef → List RoleAssignment
role_assignments_for_principal s p =
    if p.kind == principal_user
    then assigned s.user_role_assignments p.id
    else if p.kind == principal_group
    then assigned s.group_role_assignments p.id
    else if p.kind == principal_team
    then assigned s.team_role_assignments p.id
    else []

-- one of the three loops of RoleAssignmentsForRoleID
unfoldable pub hits_in : String → String → Map (List RoleAssignment) → List RoleAssignmentHit
unfolding Bootstrap.hits_of
hits_in role_id kind [] = []
hits_in role_id kind ((id, assignments) ∷ m) =
    Bootstrap.hits_of role_id (record { kind = kind; id = id }) assignments
    ++ hits_in role_id kind m

-- RoleAssignmentsForRoleID
unfoldable pub role_assignments_for_role_id : Store → String → List RoleAssignmentHit
unfolding hits_in
role_assignments_for_role_id s role_id =
    hits_in role_id principal_user s.user_role_assignments
    ++ hits_in role_id principal_group s.group_role_assignments
    ++ hits_in role_id principal_team s.team_role_assignments

-- one round of the loop of ExpandRoles; `seen` holds what `expanded` holds
unfoldable pub expand_one : Store → List String → String → List String
expand_one s expanded role_id =
    add_all (add_all (set_add expanded role_id) (get_set s.hierarchy.closure role_id))
      (get_set s.role_expansion role_id)

unfoldable pub expand_from : Store → List String → List String → List String
unfolding expand_one
expand_from s expanded [] = expanded
expand_from s expanded (id ∷ ids) = expand_from s (expand_one s expanded id) ids

-- ExpandRoles
unfoldable pub expand_roles : Store → List String → List String
unfolding expand_from
expand_roles s ids = expand_from s [] ids

-- the tests of the loop of GrantsForOwners
unfoldable pub selects : List String → Request → ℕ → Grant → Bool
unfolding contains_string
selects keys' req now g =
    is_active_at g now
    && contains_string keys' (principal_key (owner_of g))
    && not (not (req.perm == "") && not (g.permission_name == req.perm))
    && scope_matches g.team_scope req.team_id
    && object_scope_matches g.object_scope req.object

-- GrantsForOwners
unfoldable pub grants_for_owners : Store → List PrincipalRef → Request → ℕ → List Grant
unfolding selects filter
grants_for_owners s owners req now = filter (selects (map principal_key owners) req now) s.grants

-- GrantsForPrincipal
unfoldable pub grants_for_principal : Store → PrincipalRef → ℕ → List Grant
unfolding grants_for_owners
grants_for_principal s principal now =
    grants_for_owners s (principal ∷ [])
      (record { user_id = ""; team_id = ""; object = ""; perm = "" }) now

-- DeleteGrantsForOwner
unfoldable pub delete_grants_for_owner : Store → String → String → Store
unfolding filter
delete_grants_for_owner s kind id = record s {
  grants = filter (λ g. not (g.owner_kind == kind && g.owner_id == id)) s.grants;
}

-- the tests in front of the maps of PrincipalsWithGrant
unfoldable pub bears_on : Request → ℕ → Grant → Bool
bears_on req now g =
    is_active_at g now
    && not (not (req.perm == "") && not (g.permission_name == req.perm))
    && (if not (req.team_id == "")
        then g.team_scope == "*" || g.team_scope == req.team_id
        else g.team_scope == "*")
    && (elim g.object_scope [ none ↦ true | some scope ↦ scope == "*" || scope == req.object ])

-- the loop of PrincipalsWithGrant
unfoldable pub note_bearing : List Grant → Request → ℕ → Hits → Hits
unfolding bears_on
note_bearing [] req now h = h
note_bearing (g ∷ grants) req now h =
    note_bearing grants req now (if bears_on req now g then note_grant h g else h)

-- PrincipalsWithGrant
unfoldable pub principals_with_grant : Store → Request → ℕ → List PrincipalHit
unfolding note_bearing
principals_with_grant s req now =
    hit_values (note_bearing s.grants req now (record { denied = []; allowed = [] })).allowed

-- RoleDefinition
unfoldable pub role_definition : Store → String → Result Role
role_definition s role_id =
    if role_id == ""
    then err role_id_required
    else ok (record {
      id = role_id;
      name = role_id;
      description = "";
      scope = "";
      tags = [];
      permissions = [];
      built_in = false;
      is_disabled = false;
    })

-- ListGrants
unfoldable pub list_grants : Store → GrantQuery → Result GrantQueryResult
list_grants s q = GrantListing.list_grants s.grants q
