-- ===== src/RoleAssignmentManager/Combining.antt =====
-- What AddRoles can have written, and the rule against combining two roles.
use go_permissions.Base.{
  ◌≡◌, refl, String, Bool, true, false, ◌&&◌, ◌||◌, List, [], ◌∷◌, ◌++◌, Option, none, some, arith,
  ◌==◌, any, any-append, any-filter, contains_string, contains_string-append, inl, inr, eq_iff,
  Option-cases,
}
use go_permissions.Base.Results.{Error, ok, Result-cases}
use go_permissions.Types.{RoleAssignment, PrincipalRef, validate_principal}
use go_permissions.Types.Principals.{principal_key}
use go_permissions.BuiltIn.{roles_sorted}
use go_permissions.Bootstrap
use go_permissions.Bootstrap.{assigned, add_assignment, same_assignment}
use go_permissions.Bootstrap.Assignments.{assigned-add_assignment, assign_role-Writes}
use go_permissions.System
use go_permissions.System.{System}
use go_permissions.RoleAssignmentManager.{
  RoleAssignmentManager, RoleAssignmentRule, role_ids, held_in_scope, add_roles, assign_each,
  assign_role, scope_bindings, can_add_roles, proposal_of, proposed_assignments,
}
use go_permissions.RoleAssignmentManager.Scopes.{ManagerBase, in_scope, filter_assignments_by_scope}
use go_permissions.RoleAssignmentManager.Rules.{cannot_combine_roles}
use go_permissions.RoleAssignmentManager.Proposing.{
  has_role, contains-role_ids, has_role-proposed, add-Accepts,
}

-- the principal holds the role by an assignment in the scope of the manager
unfoldable pub holds : System → ManagerBase → PrincipalRef → String → Bool
unfolding any
holds s b p role_id =
    any
      (λ (a : RoleAssignment).
        in_scope b.team_scope b.object_scope a.binding_values && a.role_id == role_id)
      (assigned s.store.assignments (principal_key p))

held_list :
    (s : System) (b : ManagerBase) (p : PrincipalRef) (filtered : List RoleAssignment)
    → held_in_scope s b p ≡ ok filtered
    → filter_assignments_by_scope
        (assigned s.store.assignments (principal_key p))
        b.team_scope
        b.object_scope
      ≡ filtered
unfolding held_in_scope System.role_assignments_for_principal
    Bootstrap.role_assignments_for_principal
held_list s b p filtered h = elim (Result-cases (validate_principal p)) [
  | inl (_, valid) ↦ ground arith
  | inr (e, invalid) ↦ absurd (ground arith)
]

pub has_role-held :
    (s : System) (b : ManagerBase) (p : PrincipalRef) (filtered : List RoleAssignment) (x : String)
    → held_in_scope s b p ≡ ok filtered
    → has_role filtered x ≡ holds s b p x
unfolding has_role holds filter_assignments_by_scope
has_role-held s b p filtered x h = rw (← held_list s b p filtered h) (
    any-filter (λ (a : RoleAssignment). a.role_id == x)
      (λ (a : RoleAssignment). in_scope b.team_scope b.object_scope a.binding_values)
      (assigned s.store.assignments (principal_key p)))

module _ (b : ManagerBase) (p q : PrincipalRef) (x : String) where
  -- one AssignRole gives at most its role, to its principal
  assign_role_gives :
      (s : System) (role_id : String)
      → holds (assign_role s b p role_id).0 b q x ≡ true
      → (holds s b q x || (role_id == x && principal_key p == principal_key q)) ≡ true
  unfolding assign_role System.assign_role holds any
  assign_role_gives s role_id =
      let wanted : RoleAssignment = record {
        role_id = role_id;
        binding_values = scope_bindings b;
      } in
      let f : RoleAssignment → Bool =
        λ a. in_scope b.team_scope b.object_scope a.binding_values && a.role_id == x in
      elim (assign_role-Writes s.store p role_id (scope_bindings b) (roles_sorted s.built_ins)) [
        | inl same ↦ rw same (λ h. ground arith)
        | inr added ↦
            rw
              (
                added,
                assigned-add_assignment s.store.assignments (principal_key p) (principal_key q)
                    wanted,
              )
              (λ h. ground (
                arith,
                any-append f (assigned s.store.assignments (principal_key p)) (wanted ∷ []),
                eq_iff (principal_key p) (principal_key q),
              ))
      ]

  assign_each_gives :
      (s : System) (roles : List String)
      → holds (assign_each s b p roles).0 b q x ≡ true
      → (holds s b q x || (contains_string roles x && principal_key p == principal_key q)) ≡ true
  unfolding assign_each contains_string
  assign_each_gives s [] h = ground arith
  assign_each_gives s (role_id ∷ roles) h =
      let o = assign_role s b p role_id in
      elim (Option-cases o.1) [
        | inl done ↦ ground (arith, assign_each_gives o.0 roles, assign_role_gives s role_id)
        | inr (e, failed) ↦ ground (arith, assign_role_gives s role_id)
      ]

-- equal keys hold equal roles
same_holder :
    (b : ManagerBase) (p q : PrincipalRef) (s : System) (x : String)
    → (principal_key p == principal_key q) ≡ true
    → holds s b p x ≡ holds s b q x
unfolding holds
same_holder b p q s x h = rw ((eq_iff (principal_key p) (principal_key q)).0 h) refl

-- the roles that AddRoles desires
pub desired :
    (m : RoleAssignmentManager) (s : System) (p : PrincipalRef) (filtered : List RoleAssignment)
    → held_in_scope s m.base p ≡ ok filtered
    → (roles : List String) (x : String)
    → contains_string (role_ids filtered ++ roles) x
      ≡ (holds s m.base p x || contains_string roles x)
desired m s p filtered held roles x = ground (
  arith,
  contains_string-append (role_ids filtered) roles x,
  contains-role_ids filtered x,
  has_role-held s m.base p filtered x held,
)

quiet :
    (m : RoleAssignmentManager) (role_a role_b : String) (s : System) (p : PrincipalRef)
    (assigner : Option PrincipalRef) (filtered : List RoleAssignment) (wanted : List String)
    → cannot_combine_roles role_a role_b s m.base filtered
        (proposed_assignments m.base filtered (proposal_of filtered wanted))
        p
        assigner
      ≡ none
    → (contains_string wanted role_a && contains_string wanted role_b) ≡ false
unfolding cannot_combine_roles has_role
quiet m role_a role_b s p assigner filtered wanted accepted = ground (
  arith,
  has_role-proposed m.base filtered wanted role_a,
  has_role-proposed m.base filtered wanted role_b,
)

-- what AddRoles does, by what CanAddRoles answers
module _ (m : RoleAssignmentManager) (s : System) (p : PrincipalRef)
    (assigner : Option PrincipalRef) (roles : List String) where
  add_refused :
      (e : Error)
      → can_add_roles s m p assigner roles ≡ some e
      → add_roles s m p roles assigner ≡ (s, some e)
  unfolding add_roles
  add_refused e refused = rw (add_roles, refused) refl

  add_allowed :
      can_add_roles s m p assigner roles ≡ none
      → add_roles s m p roles assigner ≡ assign_each s m.base p roles
  unfolding add_roles
  add_allowed allowed = ground arith

module _ (m : RoleAssignmentManager) (role_a role_b : String)
    (before after : List RoleAssignmentRule)
    (among : m.assignment_rules ≡ before ++ cannot_combine_roles role_a role_b ∷ after) where
  -- what is accepted does not hold both
  accepted_apart :
      (s : System) (p : PrincipalRef) (assigner : Option PrincipalRef) (roles : List String)
      → can_add_roles s m p assigner roles ≡ none
      → ((holds s m.base p role_a || contains_string roles role_a)
          && (holds s m.base p role_b || contains_string roles role_b))
        ≡ false
  accepted_apart s p assigner roles h =
      let (filtered, held, accepted) =
        add-Accepts s m p assigner before (cannot_combine_roles role_a role_b) after among roles
          h in
      rw (← desired m s p filtered held roles role_a, ← desired m s p filtered held roles role_b)
        (quiet m role_a role_b s p assigner filtered (role_ids filtered ++ roles) accepted)

  -- Where CannotCombineRolesRule is among the rules of the manager: if a principal does not hold both roles in the scope of the
  -- manager, it does not hold both after AddRoles for any principal, whatever AddRoles reports.
  pub add_roles_never_combines :
      (s : System) (p q : PrincipalRef) (assigner : Option PrincipalRef) (roles : List String)
      → (holds s m.base q role_a && holds s m.base q role_b) ≡ false
      → (holds (add_roles s m p roles assigner).0 m.base q role_a
          && holds (add_roles s m p roles assigner).0 m.base q role_b)
        ≡ false
  add_roles_never_combines s p q assigner roles apart =
      elim (Option-cases (can_add_roles s m p assigner roles)) [
        | inr (e, refused) ↦ rw (add_refused m s p assigner roles e refused) apart
        | inl allowed ↦ rw (add_allowed m s p assigner roles allowed) (
            ground (
              arith,
              accepted_apart s p assigner roles allowed,
              assign_each_gives m.base p q role_a s roles,
              assign_each_gives m.base p q role_b s roles,
              same_holder m.base p q s role_a,
              same_holder m.base p q s role_b,
            ))
      ]
