-- ===== src/Service/Assignments.antt =====
-- Who the user is: groups, teams and role assignments (`resolveUserGroupIDs`, `resolveUserTeamIDs`,
-- `resolveRoleAssignmentsForUserGroupsAndTeams` and what they call).
use go_permissions.Base.{
  String, Bool, true, false, not, ◌&&◌, ◌||◌, List, [], ◌∷◌, ◌++◌, none, some, if◌then◌else◌, ◌==◌,
  contains_string,
}
use go_permissions.Base.Text.{has_prefix, concat}
use go_permissions.Base.Maps.{Map, get, keys}
use go_permissions.Base.Sets.{add_all}
use go_permissions.Base.Sort.{sort_strings}
use go_permissions.Base.Results.{Result, ok, err, ◌>>=◌}
use go_permissions.Types.{
  RoleAssignment, Value, sprint, principal_user, principal_group, principal_team,
}
use go_permissions.BuiltIn.{built_in_prefix}
use go_permissions.Service.State.{Service}

-- resolveUserGroupIDs: each group once, in the provider's order
unfoldable pub resolve_user_group_ids : Service → String → Result (List String)
unfolding add_all
resolve_user_group_ids s user_id = if user_id == "" then ok [] else elim s.identity [
  | none ↦ ok []
  | some provider ↦ do ids ← provider.get_user_groups user_id; ok (add_all [] ids)
]

-- resolveUserTeamIDs
unfoldable pub resolve_user_team_ids : Service → String → Result (List String)
unfolding add_all
resolve_user_team_ids s user_id = if user_id == "" then ok [] else elim s.identity [
  | none ↦ ok []
  | some provider ↦ do ids ← provider.get_user_teams user_id; ok (add_all [] ids)
]

binding_text : Map Value → List String → String
binding_text m [] = ""
binding_text m (k ∷ ks) = concat k (
    concat "="
      (concat (elim (get m k) [ none ↦ "" | some v ↦ sprint v ]) (concat "," (binding_text m ks))))

-- assignmentKey
unfoldable pub assignment_key : RoleAssignment → String
unfolding binding_text
assignment_key a =
    concat a.role_id
      (concat ":" (binding_text a.binding_values (sort_strings (keys a.binding_values))))

-- the `switch` of `appendUnique`: the role of the assignment is known and not disabled
unfoldable pub is_usable : Service → String → Bool
is_usable s role_id =
    if role_id == ""
    then false
    else if role_id == s.public_role_id
        || role_id == s.authenticated_role_id
        || role_id == s.admin_role_id
    then true
    else if has_prefix role_id built_in_prefix
    then elim (get s.built_ins.roles role_id) [ none ↦ false | some r ↦ not r.is_disabled ]
    else elim (s.permissions.role_definition role_id) [ err e ↦ false | ok r ↦ not r.is_disabled ]

-- `seenPairs` and `result`
pub record Collected : Type 0 where
  pub seen : List String
  pub result : List RoleAssignment

abbrev nothing_collected : Collected
nothing_collected = record { seen = []; result = [] }

-- appendUnique
unfoldable pub append_unique : Service → List RoleAssignment → Collected → Collected
unfolding is_usable
append_unique s [] c = c
append_unique s (a ∷ assignments) c = append_unique s assignments (
    if not (is_usable s a.role_id) || contains_string c.seen (assignment_key a)
    then c
    else record { seen = assignment_key a ∷ c.seen; result = c.result ++ a ∷ [] })

-- syntheticRoleAssignments
plain : String → RoleAssignment
plain role_id = record { role_id = role_id; binding_values = [] }

unfoldable pub synthetic_role_assignments : Service → String → List String → List RoleAssignment
unfolding plain contains_string
synthetic_role_assignments s user_id group_ids =
    (if not (s.public_role_id == "") then plain s.public_role_id ∷ [] else [])
    ++ (if not (user_id == "") && not (s.authenticated_role_id == "")
        then plain s.authenticated_role_id ∷ []
        else [])
    ++ (if not (user_id == "")
          && not (s.admin_role_id == "")
          && not (s.admin_group_id == "")
          && contains_string group_ids s.admin_group_id
        then plain s.admin_role_id ∷ []
        else [])

-- the loops over the groups and over the teams
unfoldable pub append_principals : Service → String → List String → Collected → Result Collected
unfolding append_unique
append_principals s kind [] c = ok c
append_principals s kind (id ∷ ids) c = do
  assignments ← s.permissions.role_assignments_for_principal (record { kind = kind; id = id })
  append_principals s kind ids (append_unique s assignments c)

-- resolveRoleAssignmentsForUserGroupsAndTeams
unfoldable pub resolve_role_assignments :
    Service → String → List String → List String → Result (List RoleAssignment)
unfolding append_principals append_unique synthetic_role_assignments
resolve_role_assignments s user_id group_ids team_ids = do
  let start = nothing_collected
  users ←
      if user_id == "" then ok start else append_principals s principal_user (user_id ∷ []) start
  groups ← append_principals s principal_group group_ids users
  teams ← append_principals s principal_team team_ids groups
  ok (append_unique s (synthetic_role_assignments s user_id group_ids) teams).result
