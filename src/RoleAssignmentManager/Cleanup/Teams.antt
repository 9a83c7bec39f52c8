-- ===== src/RoleAssignmentManager/Cleanup/Teams.antt =====
-- What CleanupTeamRoleAssignments leaves.
use go_permissions.Base.{
  ◌≡◌, ◌≢◌, ◌∙◌, refl, sym, ap, String, Bool, true, false, not, ◌&&◌, List, [], ◌∷◌, Option, none,
  arith, ◌==◌, any, filter, if◌then◌else◌, contains_string, inl, inr, text_cases, eq_iff, eq_refl,
  Bool-cases, All, All_of, All_map, filter-filter, filter_cong,
}
use go_permissions.Base.Maps.{Map}
use go_permissions.Base.Results.{Error, ok}
use go_permissions.Types.{
  RoleAssignment, PrincipalRef, Value, principal_team, is_principal_kind, validate_principal,
}
use go_permissions.Types.Principals.{principal_key}
use go_permissions.Grants.Equivalence.{HasDistinctKeys, binding_values_equal_refl}
use go_permissions.Bootstrap
use go_permissions.Bootstrap.{assigned, is_assignment}
use go_permissions.Bootstrap.Assignments.{
  unassigned, assigned-unassign_role, unassign_role_fails, unassign_role_succeeds,
}
use go_permissions.System
use go_permissions.System.{System}
use go_permissions.RoleAssignmentManager.{MultiError}
use go_permissions.RoleAssignmentManager.Scopes.{ManagerBase}
use go_permissions.RoleAssignmentManager.Cleanup.{
  unassign_if_managed, unassign_managed, cleanup_team_role_assignments,
}

-- what a principal holds
abbrev pub held_by : System → String → List RoleAssignment
held_by s key = assigned s.store.assignments key

unassigned_none :
    (as' : List RoleAssignment) (role_id : String) (values : Map Value)
    → any (is_assignment role_id values) as' ≡ false
    → unassigned as' role_id values ≡ as'
unfolding unassigned any filter
unassigned_none [] role_id values h = refl
unassigned_none (a ∷ as') role_id values h = ground (arith, unassigned_none as' role_id values)

module _ (p : PrincipalRef) (valid : validate_principal p ≡ ok tt) where
  -- UnassignRole of a named role leaves none of what it is asked for, whatever it reports.
  held-unassign_role :
      (s : System) (a : RoleAssignment) (key : String)
      → (a.role_id == "") ≡ false
      → held_by (System.unassign_role s p a.role_id a.binding_values).0 key ≡ (
          if principal_key p == key
          then unassigned (held_by s (principal_key p)) a.role_id a.binding_values
          else held_by s key)
  unfolding System.unassign_role
  held-unassign_role s a key named =
      elim (Bool-cases
        (any (is_assignment a.role_id a.binding_values) (held_by s (principal_key p)))) [
          | inl present ↦
              assigned-unassign_role s.store p a.role_id a.binding_values key
                (unassign_role_succeeds s.store p a.role_id a.binding_values valid named present)
          | inr absent ↦
              rw (unassign_role_fails s.store p a.role_id a.binding_values valid named absent) (
                ground (
                  arith,
                  unassigned_none (held_by s (principal_key p)) a.role_id a.binding_values absent,
                  eq_iff (principal_key p) key,
                  ap (held_by s) {x = principal_key p} {y = key},
                ))
        ]

-- what is left of a list, once the managed assignments of another have been unassigned one by one
sweep : List String → List RoleAssignment → List RoleAssignment → List RoleAssignment
sweep managed [] held = held
sweep managed (a ∷ as') held =
    sweep managed as' (
      if contains_string managed a.role_id
      then unassigned held a.role_id a.binding_values
      else held)

-- the assignment is one that the list has unassigned
abbrev swept : List String → List RoleAssignment → RoleAssignment → Bool
swept managed as' h =
    any
      (λ (a : RoleAssignment).
        contains_string managed a.role_id && is_assignment a.role_id a.binding_values h)
      as'

sweep-filter :
    (managed : List String) (as' held : List RoleAssignment)
    → sweep managed as' held ≡ filter (λ h. not (swept managed as' h)) held
unfolding sweep any filter unassigned
sweep-filter managed [] held = sym (filter_all held)
  where
    filter_all : (xs : List RoleAssignment) → filter (λ h. true) xs ≡ xs
    filter_all [] = refl
    filter_all (x ∷ xs) = ap (λ ys. x ∷ ys) (filter_all xs)
sweep-filter managed (a ∷ as') held = elim (Bool-cases (contains_string managed a.role_id)) [
  | inl is_managed ↦ rw is_managed (
      sweep-filter managed as' (unassigned held a.role_id a.binding_values)
      ∙ filter-filter (λ h. not (swept managed as' h))
          (λ h. not (is_assignment a.role_id a.binding_values h)) held
      ∙ filter_cong _ _ held (All_of (λ h. ground arith) held))
  | inr other ↦ rw other (sweep-filter managed as' held)
]

abbrev HasDistinctValues : RoleAssignment → Type 0
HasDistinctValues a = HasDistinctKeys a.binding_values

is_itself :
    (a : RoleAssignment) → HasDistinctValues a → is_assignment a.role_id a.binding_values a ≡ true
unfolding is_assignment
is_itself a d = ground (arith, eq_refl a.role_id, binding_values_equal_refl a.binding_values d)

-- what is unassigned is managed
managed_of_equal :
    (managed : List String) (a h : RoleAssignment)
    → (contains_string managed a.role_id && is_assignment a.role_id a.binding_values h) ≡ true
    → contains_string managed h.role_id ≡ true
unfolding is_assignment
managed_of_equal managed a h e = rw ((eq_iff h.role_id a.role_id).0 (ground arith)) (ground arith)

managed_of_swept :
    (managed : List String) (as' : List RoleAssignment) (h : RoleAssignment)
    → swept managed as' h ≡ true
    → contains_string managed h.role_id ≡ true
unfolding any
managed_of_swept managed [] h e = cc
managed_of_swept managed (a ∷ as') h e =
    ground (arith, managed_of_equal managed a h, managed_of_swept managed as' h)

-- A list that has been swept by itself keeps what is not managed.
swept_self :
    (managed : List String) (as' : List RoleAssignment)
    → All HasDistinctValues as'
    → All (λ h. swept managed as' h ≡ contains_string managed h.role_id) as'
unfolding any
swept_self managed [] d = tt
swept_self managed (a ∷ as') d = (
  ground (arith, managed_of_swept managed as' a, is_itself a d.0),
  All_map (λ h same. ground (arith, managed_of_equal managed a h)) as' (swept_self managed as' d.1),
)

module _ (me : MultiError) (managed : List String) (named : contains_string managed "" ≡ false)
    (p : PrincipalRef) (valid : validate_principal p ≡ ok tt) where
  -- one round
  abbrev after : RoleAssignment → List RoleAssignment → List RoleAssignment
  after a held =
      if contains_string managed a.role_id then unassigned held a.role_id a.binding_values else held

  named_if_managed : (x : String) → contains_string managed x ≡ true → (x == "") ≡ false
  named_if_managed x is_managed = elim (text_cases x "") [
    | inl blank ↦ absurd (ground (arith, ap (contains_string managed) blank))
    | inr other ↦ other
  ]

  same_held :
      (s : System) (key : String)
      → held_by s key
        ≡ (if principal_key p == key then held_by s (principal_key p) else held_by s key)
  same_held s key =
      ground (arith, eq_iff (principal_key p) key, ap (held_by s) {x = principal_key p} {y = key})

  held-round :
      (s : System) (merr : Option Error) (a : RoleAssignment) (key : String)
      → held_by (unassign_if_managed me managed p a s merr).0 key
        ≡ (if principal_key p == key then after a (held_by s (principal_key p)) else held_by s key)
  unfolding unassign_if_managed
  held-round s merr a key = elim (Bool-cases (contains_string managed a.role_id)) [
    | inl is_managed ↦
        rw is_managed (held-unassign_role p valid s a key (named_if_managed a.role_id is_managed))
    | inr other ↦ rw other (same_held s key)
  ]

  held-unassign_managed :
      (as' : List RoleAssignment) (s : System) (merr : Option Error) (key : String)
      → held_by (unassign_managed me managed p as' s merr).0 key ≡ (
          if principal_key p == key
          then sweep managed as' (held_by s (principal_key p))
          else held_by s key)
  unfolding unassign_managed sweep
  held-unassign_managed [] s merr key = same_held s key
  held-unassign_managed (a ∷ as') s merr key =
      let o = unassign_if_managed me managed p a s merr in
      held-unassign_managed as' o.0 o.1 key
      ∙ rw
          (
            held-round s merr a (principal_key p),
            eq_refl (principal_key p),
            held-round s merr a key,
          )
          (ground arith)

abbrev pub team_of : String → PrincipalRef
team_of team_id = record { kind = principal_team; id = team_id }

team_valid : (team_id : String) → team_id ≢ "" → validate_principal (team_of team_id) ≡ ok tt
unfolding validate_principal is_principal_kind
team_valid team_id given = ground (arith, eq_iff team_id "")

cleanup_lem :
    (me : MultiError) (s : System) (b : ManagerBase) (team_id : String)
    → validate_principal (team_of team_id) ≡ ok tt
    → (cleanup_team_role_assignments me s b team_id).0
      ≡ (unassign_managed me b.managed_roles
          (team_of team_id)
          (held_by s (principal_key (team_of team_id)))
          s
          none).0
unfolding cleanup_team_role_assignments System.role_assignments_for_principal
    Bootstrap.role_assignments_for_principal
cleanup_lem me s b team_id valid = ground arith

module _ (me : MultiError) (s : System) (b : ManagerBase)
    (named : contains_string b.managed_roles "" ≡ false) (team_id : String) (given : team_id ≢ "")
    (distinct : All HasDistinctValues (held_by s (principal_key (team_of team_id)))) where
  -- CleanupTeamRoleAssignments of a team with an ID, by a manager whose managed roles have IDs, where no key stands twice in
  -- the binding values that the team holds: afterwards the team holds exactly the assignments of roles that are not
  -- managed, in their order, and every other principal holds what it held, whatever errors are collected.
  pub held-cleanup_team_role_assignments :
      (key : String)
      → held_by (cleanup_team_role_assignments me s b team_id).0 key ≡ (
          if principal_key (team_of team_id) == key
          then filter
              (λ (a : RoleAssignment). not (contains_string b.managed_roles a.role_id))
              (held_by s (principal_key (team_of team_id)))
          else held_by s key)
  held-cleanup_team_role_assignments key =
      let held = held_by s (principal_key (team_of team_id)) in
      let managed = b.managed_roles in
      let valid = team_valid team_id given in
      rw (cleanup_lem me s b team_id valid) (
        held-unassign_managed me managed named (team_of team_id) valid held s none key
        ∙ rw
            (
              sweep-filter managed held held,
              filter_cong (λ h. not (swept managed held h))
                  (λ (h : RoleAssignment). not (contains_string managed h.role_id)) held
                  (All_map (λ h same. ap not same) held (swept_self managed held distinct)),
            )
            refl)
