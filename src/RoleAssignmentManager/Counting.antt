-- ===== src/RoleAssignmentManager/Counting.antt =====
-- What MinMaxInstancesRule counts.
use go_permissions.Base.{
  ◌≡◌, refl, String, Bool, false, ◌&&◌, List, [], ◌∷◌, Option, arith, ◌==◌, any,
}
use go_permissions.Base.Results.{ok}
use go_permissions.Types.{RoleAssignment, RoleAssignmentHit, PrincipalRef}
use go_permissions.System.{System, role_assignments_for_role_id}
use go_permissions.RoleAssignmentManager.Scopes.{ManagerBase, filter_assignment_hits_by_scope}
use go_permissions.RoleAssignmentManager.Rules.{
  MinMaxInstancesRule, min_max_instances, count_hits, no_counts, KindCounts, check_bounds,
}

-- no hit in the list carries the ID
abbrev pub has_id : List RoleAssignmentHit → String → Bool
has_id hits id = any (λ (h : RoleAssignmentHit). h.principal.id == id) hits

uncounted :
    (yes_role : Bool) (hits : List RoleAssignmentHit) (id : String) (c : KindCounts)
    → has_id hits id ≡ false
    → count_hits (λ p. yes_role && p.id == id) hits c ≡ c
unfolding count_hits any
uncounted yes_role [] id c h = refl
uncounted yes_role (hit ∷ hits) id c h = ground (arith, uncounted yes_role hits id c)

module _ (r : MinMaxInstancesRule) (s : System) (b : ManagerBase) (hits : List RoleAssignmentHit)
    (read : role_assignments_for_role_id s r.role_id ≡ ok hits) (assignee : PrincipalRef)
    (absent : has_id (filter_assignment_hits_by_scope hits b.team_scope b.object_scope) assignee.id
      ≡ false) where
  -- Where the holders of the role can be read and none of those in scope has the ID of the assignee, MinMaxInstancesRule
  -- answers as though nobody held the role in scope, whatever is proposed and however
  -- many others hold it.
  pub min_max_instances_uncounted :
      (current proposed : List RoleAssignment) (assigner : Option PrincipalRef)
      → min_max_instances r s b current proposed assignee assigner ≡ check_bounds r no_counts
  unfolding min_max_instances
  min_max_instances_uncounted current proposed assigner =
      let found = filter_assignment_hits_by_scope hits b.team_scope b.object_scope in
      rw
        (
          read,
          uncounted (any (λ (p : RoleAssignment). p.role_id == r.role_id) proposed) found
              assignee.id no_counts absent,
        )
        refl
