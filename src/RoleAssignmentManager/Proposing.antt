-- ===== src/RoleAssignmentManager/Proposing.antt =====
-- What the rules are shown: the roles that are desired.
use go_permissions.Base.{
  ◌≡◌, ◌∙◌, refl, sym, ap, String, Bool, not, ◌&&◌, ◌||◌, List, [], ◌∷◌, ◌++◌, Option, none, some,
  arith, ◌==◌, any, any-append, map, filter, contains_string, contains_string-filter, inl, inr,
  text_cases, Option-cases,
}
use go_permissions.Base.Sets.{add_all, contains-add_all}
use go_permissions.Base.Results.{Error, ok, err, Result-cases}
use go_permissions.Types.{RoleAssignment, PrincipalRef}
use go_permissions.System.{System}
use go_permissions.RoleAssignmentManager.{
  RoleAssignmentManager, RoleAssignmentRule, role_ids, held_in_scope, compute_proposed, proposal_of,
  proposed_assignments, first_objection, can_make_assignment_change, pointer_bindings,
  can_add_roles, can_remove_roles, failure,
}
use go_permissions.RoleAssignmentManager.Scopes.{ManagerBase}

-- an assignment of the role is in the list
unfoldable pub has_role : List RoleAssignment → String → Bool
unfolding any
has_role as' role_id = any (λ (a : RoleAssignment). a.role_id == role_id) as'

pub contains-role_ids :
    (as' : List RoleAssignment) (x : String) → contains_string (role_ids as') x ≡ has_role as' x
unfolding contains_string has_role any
contains-role_ids [] x = refl
contains-role_ids (a ∷ as') x = ground (arith, contains-role_ids as' x)

has_role-filter :
    (q : String → Bool) (as' : List RoleAssignment) (x : String)
    → has_role (filter (λ a. q a.role_id) as') x ≡ (has_role as' x && q x)
unfolding filter has_role any
has_role-filter q [] x = refl
has_role-filter q (a ∷ as') x = elim (text_cases a.role_id x) [
  | inl same ↦ ground (arith, has_role-filter q as' x, ap q same)
  | inr other ↦ ground (arith, has_role-filter q as' x)
]

has_role-map :
    (f : String → RoleAssignment) (ids : List String) (x : String)
    → ((id : String) → (f id).role_id ≡ id)
    → has_role (map f ids) x ≡ contains_string ids x
unfolding has_role any contains_string
has_role-map f [] x same = refl
has_role-map f (id ∷ ids) x same = rw (same id) (ground (arith, has_role-map f ids x same))

has_role-append :
    (xs ys : List RoleAssignment) (x : String)
    → has_role (xs ++ ys) x ≡ (has_role xs x || has_role ys x)
unfolding has_role
has_role-append xs ys x = any-append (λ (a : RoleAssignment). a.role_id == x) xs ys

-- Each rule is shown exactly the desired roles.
pub has_role-proposed :
    (b : ManagerBase) (filtered : List RoleAssignment) (desired : List String) (x : String)
    → has_role (proposed_assignments b filtered (proposal_of filtered desired)) x
      ≡ contains_string desired x
unfolding proposed_assignments proposal_of contains_string
has_role-proposed b filtered desired x =
    let p = proposal_of filtered desired in
    let current = add_all [] (role_ids filtered) in
    let wanted = add_all [] desired in
    ground (
      arith,
      has_role-append
          (filter (λ (c : RoleAssignment). not (contains_string p.remove c.role_id)) filtered)
          (map (λ (a : String). record { role_id = a; binding_values = pointer_bindings b }) p.add)
          x,
      has_role-filter (λ c. not (contains_string p.remove c)) filtered x,
      has_role-map (λ a. record { role_id = a; binding_values = pointer_bindings b }) p.add x
          (λ id. refl),
      contains_string-filter (λ d. not (contains_string current d)) wanted x,
      contains_string-filter (λ c. not (contains_string wanted c)) current x,
      contains-add_all [] desired x,
      contains-add_all [] (role_ids filtered) x,
      contains-role_ids filtered x,
    )

-- where no rule objects, a rule of the list does not
pub quiet_rule :
    (before : List RoleAssignmentRule) (rule : RoleAssignmentRule) (after : List RoleAssignmentRule)
    (s : System) (b : ManagerBase) (current proposed : List RoleAssignment) (p : PrincipalRef)
    (assigner : Option PrincipalRef)
    → first_objection (before ++ rule ∷ after) s b current proposed p assigner ≡ none
    → rule s b current proposed p assigner ≡ none
unfolding first_objection
quiet_rule [] rule after s b current proposed p assigner h =
    elim (Option-cases (rule s b current proposed p assigner)) [
      | inl quiet ↦ quiet
      | inr (e, loud) ↦ absurd (ground arith)
    ]
quiet_rule (r ∷ before) rule after s b current proposed p assigner h =
    elim (Option-cases (r s b current proposed p assigner)) [
      | inl quiet ↦ quiet_rule before rule after s b current proposed p assigner (ground arith)
      | inr (e, loud) ↦ absurd (ground arith)
    ]

-- the roles that CanRemoveRoles desires
abbrev pub kept_ids : List String → List RoleAssignment → List String
kept_ids remove filtered = role_ids (filter (λ c. not (contains_string remove c.role_id)) filtered)

pub contains-kept_ids :
    (remove : List String) (filtered : List RoleAssignment) (x : String)
    → contains_string (kept_ids remove filtered) x
      ≡ (has_role filtered x && not (contains_string remove x))
contains-kept_ids remove filtered x =
    contains-role_ids
      (filter (λ (c : RoleAssignment). not (contains_string remove c.role_id)) filtered) x
    ∙ has_role-filter (λ c. not (contains_string remove c)) filtered x

module _ (s : System) (m : RoleAssignmentManager) (p : PrincipalRef)
    (assigner : Option PrincipalRef) (before : List RoleAssignmentRule) (rule : RoleAssignmentRule)
    (after : List RoleAssignmentRule) (among : m.assignment_rules ≡ before ++ rule ∷ after) where
  -- what a rule has accepted, where a change to the desired roles is accepted
  abbrev pub Accepts : List RoleAssignment → List String → Type 0
  Accepts filtered desired =
      rule s m.base filtered (proposed_assignments m.base filtered (proposal_of filtered desired)) p
        assigner
      ≡ none

  pub change-Accepts :
      (filtered : List RoleAssignment) (desired : List String)
      → held_in_scope s m.base p ≡ ok filtered
      → can_make_assignment_change s m p assigner desired ≡ none
      → Accepts filtered desired
  unfolding can_make_assignment_change compute_proposed
  change-Accepts filtered desired held h =
      quiet_rule before rule after s m.base filtered _ p assigner (rw (← among) (rw held at h))

  add_change :
      (filtered : List RoleAssignment) (roles : List String)
      → held_in_scope s m.base p ≡ ok filtered
      → can_add_roles s m p assigner roles
        ≡ can_make_assignment_change s m p assigner (role_ids filtered ++ roles)
  unfolding can_add_roles
  add_change filtered roles held =
      ap (λ r. failure r (λ as'. can_make_assignment_change s m p assigner (role_ids as' ++ roles)))
        held

  add_failed :
      (e : Error) (roles : List String)
      → held_in_scope s m.base p ≡ err e
      → can_add_roles s m p assigner roles ≡ some e
  unfolding can_add_roles
  add_failed e roles held =
      ap (λ r. failure r (λ as'. can_make_assignment_change s m p assigner (role_ids as' ++ roles)))
        held

  pub add-Accepts :
      (roles : List String)
      → can_add_roles s m p assigner roles ≡ none
      → (filtered : List RoleAssignment) × (held_in_scope s m.base p ≡ ok filtered)
        × Accepts filtered (role_ids filtered ++ roles)
  add-Accepts roles h = elim (Result-cases (held_in_scope s m.base p)) [
    | inr (e, failed) ↦ absurd (ground (arith, add_failed e roles failed))
    | inl (filtered, held) ↦ (
      filtered,
      held,
      change-Accepts filtered (role_ids filtered ++ roles) held
          (sym (add_change filtered roles held) ∙ h),
    )
  ]

  remove_change :
      (filtered : List RoleAssignment) (roles : List String)
      → held_in_scope s m.base p ≡ ok filtered
      → can_remove_roles s m p assigner roles
        ≡ can_make_assignment_change s m p assigner (kept_ids roles filtered)
  unfolding can_remove_roles
  remove_change filtered roles held =
      ap (λ r. failure r (λ as'. can_make_assignment_change s m p assigner (kept_ids roles as')))
        held

  remove_failed :
      (e : Error) (roles : List String)
      → held_in_scope s m.base p ≡ err e
      → can_remove_roles s m p assigner roles ≡ some e
  unfolding can_remove_roles
  remove_failed e roles held =
      ap (λ r. failure r (λ as'. can_make_assignment_change s m p assigner (kept_ids roles as')))
        held

  pub remove-Accepts :
      (roles : List String)
      → can_remove_roles s m p assigner roles ≡ none
      → (filtered : List RoleAssignment) × (held_in_scope s m.base p ≡ ok filtered)
        × Accepts filtered (kept_ids roles filtered)
  remove-Accepts roles h = elim (Result-cases (held_in_scope s m.base p)) [
    | inr (e, failed) ↦ absurd (ground (arith, remove_failed e roles failed))
    | inl (filtered, held) ↦ (
      filtered,
      held,
      change-Accepts filtered (kept_ids roles filtered) held
          (sym (remove_change filtered roles held) ∙ h),
    )
  ]
