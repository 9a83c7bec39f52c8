-- ===== src/RoleAssignmentManager/Rules.antt =====
-- The rules of role_assignment_manager.go, each as the method that the manager calls.
use go_permissions.Base.{
  ℕ, suc, ◌+◌, String, Bool, true, false, not, ◌&&◌, ◌||◌, List, [], ◌∷◌, Option, none, some,
  if◌then◌else◌, ◌==◌, ltb, nat_eq, any, filter, contains_string, is_empty,
}
use go_permissions.Base.Text.{concat}
use go_permissions.Base.Sets.{add_all}
use go_permissions.Base.Results.{Error, message}
use go_permissions.Types.{
  ℤ, pos, negsuc, RoleAssignment, RoleAssignmentHit, PrincipalRef, principal_user, principal_group,
  principal_team, itoa,
}
use go_permissions.System.{role_assignments_for_role_id}
use go_permissions.RoleAssignmentManager.{
  RoleAssignmentRule, PrincipalRemovalRule, failure, role_ids,
}
use go_permissions.RoleAssignmentManager.Scopes.{filter_assignment_hits_by_scope}

abbrev pub is_self : PrincipalRef → PrincipalRef → Bool
is_self assigner assignee = assigner.id == assignee.id && assigner.kind == assignee.kind

-- the error of a rule against a change to oneself, at one role
unfoldable pub self_error : List String → String → String → PrincipalRef → String → Option Error
unfolding contains_string
self_error ids all_text one_text assignee role_id =
    if is_empty ids
    then some (message (concat "principal " (concat assignee.id all_text)))
    else if contains_string ids role_id
    then some (message (concat "principal " (concat assignee.id (concat one_text role_id))))
    else none

-- the loop of CannotAddSelfRule
unfoldable pub self_addition :
    List String → List String → PrincipalRef → PrincipalRef → List RoleAssignment → Option Error
unfolding self_error contains_string
self_addition ids current_set assigner assignee [] = none
self_addition ids current_set assigner assignee (p ∷ proposed) =
    let rest = self_addition ids current_set assigner assignee proposed in
    if contains_string current_set p.role_id
    then rest
    else if not (is_self assigner assignee)
    then rest
    else elim (self_error ids " cannot add roles to themselves" " cannot self-assign role " assignee
        p.role_id) [ some e ↦ some e | none ↦ rest ]

-- CannotAddSelfRule
unfoldable pub cannot_add_self : List String → RoleAssignmentRule
unfolding self_addition add_all
cannot_add_self ids s b current proposed assignee assigner = elim assigner [
  | none ↦ none
  | some by_whom ↦ self_addition ids (add_all [] (role_ids current)) by_whom assignee proposed
]

-- the loop of CannotRemoveSelfRule
unfoldable pub self_removal :
    List String → List String → PrincipalRef → List RoleAssignment → Option Error
unfolding self_error contains_string
self_removal ids proposed_set assignee [] = none
self_removal ids proposed_set assignee (c ∷ current) =
    let rest = self_removal ids proposed_set assignee current in
    if contains_string proposed_set c.role_id
    then rest
    else elim (self_error ids " cannot remove roles from themselves" " cannot self-remove role "
        assignee c.role_id) [ some e ↦ some e | none ↦ rest ]

-- CannotRemoveSelfRule
unfoldable pub cannot_remove_self : List String → RoleAssignmentRule
unfolding self_removal add_all
cannot_remove_self ids s b current proposed assignee assigner = elim assigner [
  | none ↦ none
  | some by_whom ↦
      if not (is_self by_whom assignee)
      then none
      else self_removal ids (add_all [] (role_ids proposed)) assignee current
]

-- CannotCombineRolesRule
unfoldable pub cannot_combine_roles : String → String → RoleAssignmentRule
unfolding any
cannot_combine_roles role_a role_b s b current proposed assignee assigner =
    let has_a = any (λ (a : RoleAssignment). a.role_id == role_a) proposed in
    let has_b = any (λ (a : RoleAssignment). a.role_id == role_b) proposed in
    if has_a && has_b
    then some (message (concat "cannot combine roles " (concat role_a (concat " and " role_b))))
    else none

-- the three counters of a rule
pub record KindCounts : Type 0 where
  pub users : ℕ
  pub groups : ℕ
  pub teams : ℕ

abbrev pub no_counts : KindCounts
no_counts = record { users = 0; groups = 0; teams = 0 }

-- the `switch` on a kind that increases a counter
unfoldable pub count_kind : String → KindCounts → KindCounts
count_kind kind c =
    if kind == principal_user
    then record c { users = suc c.users }
    else if kind == principal_group
    then record c { groups = suc c.groups }
    else if kind == principal_team
    then record c { teams = suc c.teams }
    else c

unfoldable pub count_hits : (PrincipalRef → Bool) → List RoleAssignmentHit → KindCounts → KindCounts
unfolding count_kind
count_hits p [] c = c
count_hits p (hit ∷ hits) c =
    count_hits p hits (if p hit.principal then count_kind hit.principal.kind c else c)

pub record MinMaxInstancesRule : Type 0 where
  pub role_id : String
  pub min : ℤ
  pub max : ℤ
  pub kind : Option String

-- `count < min`, and `max > 0 && count > max`
unfoldable pub is_below : ℕ → ℤ → Bool
is_below n (pos m) = ltb n m
is_below n (negsuc _) = false

unfoldable pub is_above : ℕ → ℤ → Bool
is_above n (pos m) = ltb 0 m && ltb m n
is_above n (negsuc _) = false

-- the two tests on one count
unfoldable pub within : MinMaxInstancesRule → String → ℕ → Option Error
unfolding is_below is_above
within r noun n =
    let start : String = concat "role " r.role_id in
    let count : String = concat noun (concat ", but only " (itoa (pos n))) in
    if is_below n r.min
    then some (
        message (
          concat start (
            concat " requires at least "
              (concat (itoa r.min) (concat " " (concat count " would remain"))))))
    else if is_above n r.max
    then some (
        message (
          concat start (
            concat " allows at most " (
              concat (itoa r.max) (
                concat " "
                  (concat noun (concat ", but " (concat (itoa (pos n)) " would exist"))))))))
    else none

-- the end of MinMaxInstancesRule, by the kind of the rule
unfoldable pub check_bounds : MinMaxInstancesRule → KindCounts → Option Error
unfolding within
check_bounds r c = elim r.kind [
  | none ↦ within r "principals" (c.users + c.groups + c.teams)
  | some k ↦
      if k == principal_user
      then within r "users" c.users
      else if k == principal_group
      then within r "groups" c.groups
      else if k == principal_team
      then within r "teams" c.teams
      else none
]

-- MinMaxInstancesRule: `proposedSet` holds the ID of the assignee or nothing
unfoldable pub min_max_instances : MinMaxInstancesRule → RoleAssignmentRule
unfolding count_hits check_bounds any
min_max_instances r s b current proposed assignee assigner =
    failure (role_assignments_for_role_id s r.role_id) λ assignments.
      let filtered = filter_assignment_hits_by_scope assignments b.team_scope b.object_scope in
      let is_proposed = any (λ (p : RoleAssignment). p.role_id == r.role_id) proposed in
      check_bounds r (count_hits (λ p. is_proposed && p.id == assignee.id) filtered no_counts)

pub record RequireAtLeastRule : Type 0 where
  pub role_id : String
  pub min : ℤ
  pub kind : Option String

-- the IDs that a loop of diffRoleAssignments collects
unfoldable pub diff_set : String → List RoleAssignment → List String
unfolding filter add_all
diff_set role_id_filter as' = add_all [] (
    role_ids (
      filter
        (λ (ra : RoleAssignment).
          not (not (role_id_filter == "") && not (ra.role_id == role_id_filter)))
        as'))

-- diffRoleAssignments: what is added, and what is removed
unfoldable pub diff_role_assignments :
    List RoleAssignment → List RoleAssignment → String → List String × List String
unfolding diff_set filter contains_string
diff_role_assignments current proposed role_id_filter =
    let current_set = diff_set role_id_filter current in
    let proposed_set = diff_set role_id_filter proposed in
    (
      filter (λ id. not (contains_string current_set id)) proposed_set,
      filter (λ id. not (contains_string proposed_set id)) current_set,
    )

-- `for range ids`, with the counter of the kind
unfoldable pub count_each : String → List String → KindCounts → KindCounts
unfolding count_kind
count_each kind [] c = c
count_each kind (id ∷ ids) c = count_each kind ids (count_kind kind c)

-- the end of RequireAtLeastRule's methods; `%v` prints the minimum
unfoldable pub check_left : RequireAtLeastRule → KindCounts → KindCounts → Option Error
check_left r curr removing =
    let refusal : String → Option Error = λ noun. some (
      message (
        concat "must have a least " (
          concat (itoa r.min)
            (concat " " (concat noun (concat " assigned to role: " r.role_id)))))) in
    elim r.kind [
      | some k ↦
          if k == principal_user && nat_eq curr.users removing.users
          then refusal "user"
          else if k == principal_group && nat_eq curr.groups removing.groups
          then refusal "group"
          else if k == principal_team && nat_eq curr.teams removing.teams
          then refusal "team"
          else none
      | none ↦
          if nat_eq curr.groups removing.groups
            && nat_eq curr.users removing.users
            && nat_eq curr.teams removing.teams
          then refusal "user, group, or team"
          else none
    ]

-- RequireAtLeastRule, before an assignment
unfoldable pub require_at_least : RequireAtLeastRule → RoleAssignmentRule
unfolding count_hits count_each check_left diff_role_assignments
require_at_least r s b current proposed assignee assigner =
    failure (role_assignments_for_role_id s r.role_id) λ assignments.
      let by_scope = filter_assignment_hits_by_scope assignments b.team_scope b.object_scope in
      let diff = diff_role_assignments current proposed r.role_id in
      let curr = count_hits (λ p. true) by_scope no_counts in
      check_left r (count_each assignee.kind diff.0 curr)
        (count_each assignee.kind diff.1 no_counts)

-- who is counted as removed by ValidateRemoval
unfoldable pub is_removed : List String → List String → PrincipalRef → Bool
unfolding contains_string
is_removed users groups p =
    p.kind == principal_user && contains_string users p.id
    || p.kind == principal_group && contains_string groups p.id

-- RequireAtLeastRule, before users and groups are removed
unfoldable pub validate_removal : RequireAtLeastRule → PrincipalRemovalRule
unfolding count_hits check_left is_removed
validate_removal r s b users groups =
    failure (role_assignments_for_role_id s r.role_id) λ assignments.
      let by_scope = filter_assignment_hits_by_scope assignments b.team_scope b.object_scope in
      check_left r (count_hits (λ p. true) by_scope no_counts)
        (count_hits (is_removed users groups) by_scope no_counts)
