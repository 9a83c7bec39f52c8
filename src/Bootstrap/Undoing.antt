-- ===== src/Bootstrap/Undoing.antt =====
-- AssignRole followed by UnassignRole with the same arguments (bootstrap_store.go).
use go_permissions.Base.{
  ◌&&◌, ◌≡◌, ◌∙◌, refl, String, true, false, ◌||◌, List, [], ◌∷◌, ◌++◌, none, arith, eq_refl,
  eq_iff, ◌==◌, any, any-append,
}
use go_permissions.Base.Maps.{Map}
use go_permissions.Base.Results.{ok}
use go_permissions.Types.{Role, RoleAssignment, PrincipalRef, Value, validate_principal}
use go_permissions.Types.Principals.{principal_key}
use go_permissions.Grants.Equivalence.{
  HasDistinctKeys, binding_values_equal, binding_values_equal_refl,
}
use go_permissions.Bootstrap.{
  Store, assigned, add_assignment, same_assignment, is_assignment, map_equals, assign_role,
  unassign_role, has_role,
}
use go_permissions.Bootstrap.Assignments.{
  unassigned, assigned-add_assignment, assigned-unassign_role, unassign_role_succeeds,
}

module _ (role_id : String) (values : Map Value) where
  abbrev pub wanted : RoleAssignment
  wanted = record { role_id = role_id; binding_values = values }

  unassigned_absent :
      (as' : List RoleAssignment)
      → any (is_assignment role_id values) as' ≡ false
      → unassigned as' role_id values ≡ as'
  unfolding unassigned any
  unassigned_absent [] h = refl
  unassigned_absent (a ∷ as') h = ground (arith, unassigned_absent as')

  is_assignment-wanted : HasDistinctKeys values → is_assignment role_id values wanted ≡ true
  unfolding is_assignment
  is_assignment-wanted d = ground (arith, eq_refl role_id, binding_values_equal_refl values d)

  unassigned-snoc :
      (as' : List RoleAssignment)
      → HasDistinctKeys values
      → unassigned (as' ++ wanted ∷ []) role_id values ≡ unassigned as' role_id values
  unfolding unassigned
  unassigned-snoc [] d = ground (arith, is_assignment-wanted d)
  unassigned-snoc (a ∷ as') d = ground (arith, unassigned-snoc as' d)

module _ (s : Store) (p : PrincipalRef) (role_id : String) (built_ins : List Role)
    (v : validate_principal p ≡ ok tt) (named : (role_id == "") ≡ false)
    (exists : (any (λ (r : Role). r.id == role_id) built_ins || has_role s role_id) ≡ true) where
  -- the store that AssignRole leaves
  abbrev pub with_assignment : Map Value → Store
  with_assignment values = record s {
    assignments = add_assignment s.assignments (principal_key p) (wanted role_id values);
  }

  pub assign_role_lem :
      (values : Map Value)
      → assign_role s p role_id built_ins values ≡ (with_assignment values, none)
  unfolding assign_role
  assign_role_lem values = ground arith

  -- what the principal holds
  abbrev held : List RoleAssignment
  held = assigned s.assignments (principal_key p)

  unassign_wanted :
      (values : Map Value)
      → HasDistinctKeys values
      → any (λ existing. same_assignment existing (wanted role_id values)) held ≡ false
      → any (is_assignment role_id values) held ≡ false
      → (key : String)
      → ((unassign_role (with_assignment values) p role_id values).1 ≡ none)
        × (assigned (unassign_role (with_assignment values) p role_id values).0.assignments key
            ≡ assigned s.assignments key)
  unfolding any
  unassign_wanted values d new apart key =
      let after =
        assigned-add_assignment s.assignments (principal_key p) (principal_key p)
          (wanted role_id values) in
      let last : assigned (with_assignment values).assignments (principal_key p)
          ≡ held ++ wanted role_id values ∷ [] =
        ground (arith, after, eq_refl (principal_key p)) in
      let done : (unassign_role (with_assignment values) p role_id values).1 ≡ none =
        unassign_role_succeeds (with_assignment values) p role_id values v named (
          rw last (
            ground (
              arith,
              any-append (is_assignment role_id values) held (wanted role_id values ∷ []),
              is_assignment-wanted role_id values d,
            ))) in
      let left = assigned-unassign_role (with_assignment values) p role_id values key done in
      (
        done,
        left
            ∙ rw last (
                ground (
                  arith,
                  unassigned-snoc role_id values held d,
                  unassigned_absent role_id values held apart,
                  assigned-add_assignment s.assignments (principal_key p) key
                      (wanted role_id values),
                  eq_iff (principal_key p) key,
                )),
      )

  -- For a valid principal and a named role that exists, and values in which no key stands twice: where the principal holds no
  -- assignment of the role whose values print alike or are equal, AssignRole and then UnassignRole succeed, and every principal
  -- holds afterwards what it held before.
  pub unassign_role-assign_role :
      (values : Map Value)
      → HasDistinctKeys values
      → any (λ a. a.role_id == role_id && map_equals a.binding_values values) held ≡ false
      → any (λ a. a.role_id == role_id && binding_values_equal a.binding_values values) held ≡ false
      → (key : String)
      → ((assign_role s p role_id built_ins values).1 ≡ none)
        × ((unassign_role (assign_role s p role_id built_ins values).0 p role_id values).1 ≡ none)
        × (assigned
              (unassign_role
                (assign_role s p role_id built_ins values).0
                p
                role_id
                values).0.assignments
              key
            ≡ assigned s.assignments key)
  unfolding same_assignment is_assignment
  unassign_role-assign_role values d new apart key =
      let (done, same) = unassign_wanted values d new apart key in
      rw (assign_role_lem values) (refl, done, same)
