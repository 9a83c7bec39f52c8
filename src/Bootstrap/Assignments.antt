-- ===== src/Bootstrap/Assignments.antt =====
-- AssignRole and UnassignRole.
use mathlib.Core.Bool.{false≢true}
use go_permissions.Base.{
  ◌≡◌, refl, ◌⊎◌, inl, inr, String, true, false, not, ◌&&◌, List, [], ◌∷◌, ◌++◌, Option, if_intro,
  none, some, arith, if◌then◌else◌, ◌==◌, eq_iff, eq_refl, any, any-append, filter, text_cases,
  is_empty,
}
use go_permissions.Base.Maps.{Map, get, put, delete, get-put, get-delete}
use go_permissions.Base.Results.{Error, ok, role_not_assigned, result_intro}
use go_permissions.Types.{Role, RoleAssignment, PrincipalRef, Value, sprint, validate_principal}
use go_permissions.Types.Principals.{principal_key}
use go_permissions.Grants.Equivalence.{HasDistinctKeys}
use go_permissions.Bootstrap.{
  Store, assigned, add_assignment, same_assignment, map_equals, prints_in, is_assignment,
  assign_role, unassign_role, has_role,
}

prints_in_refl :
    (a b : Map Value)
    → HasDistinctKeys a
    → ((k : String) (v : Value) → get a k ≡ some v → get b k ≡ some v)
    → prints_in a b ≡ true
unfolding prints_in get
prints_in_refl [] b d sub = refl
prints_in_refl ((k, v) ∷ a) b d sub =
    let first : get b k ≡ some v = sub k v (ground (arith, eq_refl k)) in
    let rest : prints_in a b ≡ true = prints_in_refl a b d.1 λ j w e.
      sub j w (elim (text_cases k j) [
        | inl same ↦ absurd (ground (arith, d.0))
        | inr other ↦ ground arith
      ]) in
    ground (arith, eq_refl (sprint v))

same_assignment_refl :
    (a : RoleAssignment) → HasDistinctKeys a.binding_values → same_assignment a a ≡ true
unfolding same_assignment map_equals
same_assignment_refl a d =
    ground
      (arith, eq_refl a.role_id, prints_in_refl a.binding_values a.binding_values d (λ k v e. e))

assigned-put :
    (m : Map (List RoleAssignment)) (key key' : String) (as' : List RoleAssignment)
    → assigned (put m key as') key' ≡ (if key == key' then as' else assigned m key')
unfolding assigned
assigned-put m key key' as' = ground (arith, get-put m key key' as', eq_iff key key')

assigned-delete :
    (m : Map (List RoleAssignment)) (key key' : String)
    → assigned (delete m key) key' ≡ (if key == key' then [] else assigned m key')
unfolding assigned
assigned-delete m key key' = ground (arith, get-delete m key key', eq_iff key key')

-- What a principal holds after AssignRole: the assignment comes last, unless one that prints alike is held already; the other
-- principals hold what they held.
pub assigned-add_assignment :
    (m : Map (List RoleAssignment)) (key key' : String) (a : RoleAssignment)
    → assigned (add_assignment m key a) key' ≡ (
        if key == key'
        then (if any (λ existing. same_assignment existing a) (assigned m key)
            then assigned m key
            else assigned m key ++ a ∷ [])
        else assigned m key')
unfolding add_assignment
assigned-add_assignment m key key' a = elim (text_cases key key') [
  | inl same ↦
      rw (← same) (ground (arith, assigned-put m key key (assigned m key ++ a ∷ []), eq_refl key))
  | inr other ↦ ground (arith, assigned-put m key key' (assigned m key ++ a ∷ []))
]

pub add_known :
    (m : Map (List RoleAssignment)) (key : String) (a : RoleAssignment)
    → any (λ existing. same_assignment existing a) (assigned m key) ≡ true
    → add_assignment m key a ≡ m
unfolding add_assignment
add_known m key a old = rw old refl

-- A second AssignRole of the same assignment changes nothing, if no key stands twice in its values.
pub add_assignment_idem :
    (m : Map (List RoleAssignment)) (key : String) (a : RoleAssignment)
    → HasDistinctKeys a.binding_values
    → add_assignment (add_assignment m key a) key a ≡ add_assignment m key a
unfolding any
add_assignment_idem m key a d = add_known (add_assignment m key a) key a held
  where
    held :
        any (λ existing. same_assignment existing a) (assigned (add_assignment m key a) key) ≡ true
    held = ground (
      arith,
      assigned-add_assignment m key key a,
      eq_refl key,
      any-append (λ existing. same_assignment existing a) (assigned m key) (a ∷ []),
      same_assignment_refl a d,
    )

-- `unassigned` is what UnassignRole leaves under its key.
unfoldable pub unassigned : List RoleAssignment → String → Map Value → List RoleAssignment
unfolding filter
unassigned as' role_id values = filter (λ a. not (is_assignment role_id values a)) as'

module _ (s : Store) (p : PrincipalRef) (role_id : String) (values : Map Value) where
  -- UnassignRole succeeds exactly when the principal is valid, the role is named and the principal holds an assignment of
  -- the role with equal binding values.
  pub unassign_role_succeeds :
      validate_principal p ≡ ok tt
      → (role_id == "") ≡ false
      → any (is_assignment role_id values) (assigned s.assignments (principal_key p)) ≡ true
      → (unassign_role s p role_id values).1 ≡ none
  unfolding unassign_role
  unassign_role_succeeds v named held = ground arith

  pub unassign_role_fails :
      validate_principal p ≡ ok tt
      → (role_id == "") ≡ false
      → any (is_assignment role_id values) (assigned s.assignments (principal_key p)) ≡ false
      → unassign_role s p role_id values ≡ (s, some (role_not_assigned role_id (principal_key p)))
  unfolding unassign_role
  unassign_role_fails v named held = ground arith

  empty_list : (as' : List RoleAssignment) → is_empty as' ≡ true → as' ≡ []
  empty_list [] h = refl
  empty_list (a ∷ as') h = absurd (false≢true h)

  -- A successful UnassignRole removes from its principal exactly the assignments of the role with equal binding values, and
  -- leaves the other principals as they were.
  pub assigned-unassign_role :
      (key : String)
      → (unassign_role s p role_id values).1 ≡ none
      → assigned (unassign_role s p role_id values).0.assignments key ≡ (
          if principal_key p == key
          then unassigned (assigned s.assignments (principal_key p)) role_id values
          else assigned s.assignments key)
  unfolding unassign_role unassigned
  assigned-unassign_role key h = ground (
    arith,
    empty_list (unassigned (assigned s.assignments (principal_key p)) role_id values),
    assigned-put s.assignments (principal_key p) key
        (unassigned (assigned s.assignments (principal_key p)) role_id values),
    assigned-delete s.assignments (principal_key p) key,
    eq_iff (principal_key p) key,
  )

module _ (s : Store) (p : PrincipalRef) (role_id : String) (values : Map Value) where
  -- the assignments are as they were, or with the one that is asked for
  abbrev Writes : Store × Option Error → Type 0
  Writes o =
      (o.0.assignments ≡ s.assignments)
      ⊎ (o.0.assignments
          ≡ add_assignment s.assignments (principal_key p)
              (record { role_id = role_id; binding_values = values }))

  pub assign_role-Writes :
      (built_ins : List Role) → Writes (assign_role s p role_id built_ins values)
  unfolding assign_role
  assign_role-Writes built_ins =
      result_intro Writes (validate_principal p)
        (λ _ _.
          if_intro Writes (role_id == "") (λ _. inl refl)
            λ _.
              if_intro Writes
                (not (any (λ (r : Role). r.id == role_id) built_ins) && not (has_role s role_id))
                (λ _. inl refl) λ _. inr refl)
        λ e _. inl refl
