-- ===== src/Bootstrap/Losing.antt =====
-- An assignment that AssignRole takes for held and UnassignRole does not find: the one compares printed
-- values (`mapEquals`), the other values (`BindingValuesEqual`).
use go_permissions.Base.{
  ◌&&◌, ◌≡◌, ◌∙◌, refl, String, true, false, ◌||◌, List, [], ◌∷◌, ◌++◌, none, some, arith, eq_refl,
  ◌==◌, any, any-append, if◌then◌else◌,
}
use go_permissions.Base.Maps.{Map, get}
use go_permissions.Base.Results.{ok, role_not_assigned}
use go_permissions.Types.{
  Role, RoleAssignment, PrincipalRef, Value, str, int, ℤ, itoa, sprint, deep_equal,
  validate_principal,
}
use go_permissions.Types.Principals.{principal_key}
use go_permissions.Grants.Equivalence.{binding_values_equal}
use go_permissions.Bootstrap.{
  Store, assigned, add_assignment, same_assignment, map_equals, prints_in, is_assignment,
  assign_role, unassign_role, has_role,
}
use go_permissions.Bootstrap.Assignments.{assigned-add_assignment, unassign_role_fails, add_known}
use go_permissions.Bootstrap.Undoing.{wanted, assign_role_lem}

prints_in_alike :
    (left : Map Value) (k : String) (v w : Value)
    → sprint v ≡ sprint w
    → prints_in left ((k, v) ∷ []) ≡ prints_in left ((k, w) ∷ [])
unfolding prints_in get
prints_in_alike [] k v w e = refl
prints_in_alike ((j, u) ∷ left) k v w e = ground (arith, prints_in_alike left k v w)

-- a number and its text
abbrev number : String → ℤ → Map Value
number k n = (k, int n) ∷ []

abbrev its_text : String → ℤ → Map Value
its_text k n = (k, str (itoa n)) ∷ []

module _ (role_id k : String) (n : ℤ) where
  same_assignment_alike :
      (a : RoleAssignment)
      → same_assignment a (wanted role_id (number k n))
        ≡ same_assignment a (wanted role_id (its_text k n))
  unfolding same_assignment map_equals sprint
  same_assignment_alike a =
      ground (arith, prints_in_alike a.binding_values k (int n) (str (itoa n)) refl)

  any_alike :
      (as' : List RoleAssignment)
      → any (λ a. same_assignment a (wanted role_id (number k n))) as'
        ≡ any (λ a. same_assignment a (wanted role_id (its_text k n))) as'
  unfolding any
  any_alike [] = refl
  any_alike (a ∷ as') = ground (arith, any_alike as', same_assignment_alike a)

  number_prints :
      same_assignment (wanted role_id (number k n)) (wanted role_id (its_text k n)) ≡ true
  unfolding same_assignment map_equals prints_in get sprint
  number_prints = ground (arith, eq_refl role_id, eq_refl k, eq_refl (itoa n))

  number_differs : is_assignment role_id (its_text k n) (wanted role_id (number k n)) ≡ false
  unfolding is_assignment binding_values_equal get deep_equal
  number_differs = ground (arith, eq_refl role_id, eq_refl k)

module _ (s : Store) (p : PrincipalRef) (role_id k : String) (n : ℤ) where
  -- what the principal holds
  abbrev held : List RoleAssignment
  held = assigned s.assignments (principal_key p)

  abbrev numbered : Store
  numbered = record s {
    assignments = add_assignment s.assignments (principal_key p) (wanted role_id (number k n));
  }

  -- what the principal holds with the number
  numbered_held : assigned numbered.assignments (principal_key p) ≡ (
      if any (λ a. same_assignment a (wanted role_id (number k n))) held
      then held
      else held ++ wanted role_id (number k n) ∷ [])
  numbered_held = ground (
    arith,
    assigned-add_assignment s.assignments (principal_key p) (principal_key p)
        (wanted role_id (number k n)),
    eq_refl (principal_key p),
  )

  text_counts_as_held :
      any
        (λ a. same_assignment a (wanted role_id (its_text k n)))
        (assigned numbered.assignments (principal_key p))
      ≡ true
  unfolding any
  text_counts_as_held = rw numbered_held (
      ground (
        arith,
        any_alike role_id k n held,
        any-append (λ a. same_assignment a (wanted role_id (its_text k n))) held
            (wanted role_id (number k n) ∷ []),
        number_prints role_id k n,
      ))

  text_is_not_held :
      any (is_assignment role_id (its_text k n)) held ≡ false
      → any (is_assignment role_id (its_text k n)) (assigned numbered.assignments (principal_key p))
        ≡ false
  unfolding any
  text_is_not_held absent = rw numbered_held (
      ground (
        arith,
        any-append (is_assignment role_id (its_text k n)) held (wanted role_id (number k n) ∷ []),
        number_differs role_id k n,
      ))

module _ (s : Store) (p : PrincipalRef) (role_id : String) (built_ins : List Role)
    (v : validate_principal p ≡ ok tt) (named : (role_id == "") ≡ false)
    (exists : (any (λ (r : Role). r.id == role_id) built_ins || has_role s role_id) ≡ true)
    (k : String) (n : ℤ) where
  -- the store after the number is assigned
  abbrev after_number : Store
  after_number = numbered s p role_id k n

  -- For a valid principal and a named role that exists, and every number: after the role is assigned with the number as a binding
  -- value, AssignRole with the number's text, which the principal did not hold, reports success and changes nothing, and
  -- UnassignRole with that text then fails.
  pub assign_role_lost :
      any
          (λ a. a.role_id == role_id && binding_values_equal a.binding_values (its_text k n))
          (assigned s.assignments (principal_key p))
        ≡ false
      → (assign_role
            (assign_role s p role_id built_ins (number k n)).0
            p
            role_id
            built_ins
            (its_text k n)
          ≡ ((assign_role s p role_id built_ins (number k n)).0, none))
        × (unassign_role (assign_role s p role_id built_ins (number k n)).0 p role_id (its_text k n)
            ≡ (
              (assign_role s p role_id built_ins (number k n)).0,
              some (role_not_assigned role_id (principal_key p)),
            ))
  unfolding is_assignment
  assign_role_lost absent =
      let first = assign_role_lem s p role_id built_ins v named exists (number k n) in
      let second = assign_role_lem after_number p role_id built_ins v named exists (its_text k n) in
      let known =
        add_known after_number.assignments (principal_key p) (wanted role_id (its_text k n))
          (text_counts_as_held s p role_id k n) in
      let missing = text_is_not_held s p role_id k n absent in
      rw first (
        second ∙ rw known refl,
        unassign_role_fails after_number p role_id (its_text k n) v named missing,
      )
