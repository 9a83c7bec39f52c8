-- ===== src/RoleAssignmentManager/SelfRules.antt =====
-- The two rules against changes to oneself.
use go_permissions.Base.{
  ◌≡◌, String, Bool, true, false, ◌||◌, List, [], ◌∷◌, ◌++◌, none, some, arith, any,
  contains_string, is_empty, inl, inr, text_cases, Bool-cases,
}
use go_permissions.Base.Sets.{add_all, contains-add_all}
use go_permissions.Types.{RoleAssignment, PrincipalRef}
use go_permissions.System.{System}
use go_permissions.RoleAssignmentManager.{
  RoleAssignmentManager, RoleAssignmentRule, role_ids, can_add_roles, can_remove_roles, proposal_of,
  proposed_assignments,
}
use go_permissions.RoleAssignmentManager.Rules.{
  cannot_add_self, cannot_remove_self, self_addition, self_removal, self_error, is_self,
}
use go_permissions.RoleAssignmentManager.Proposing.{
  has_role, contains-role_ids, has_role-proposed, add-Accepts, remove-Accepts, kept_ids,
  contains-kept_ids,
}
use go_permissions.RoleAssignmentManager.Combining.{holds, has_role-held, desired}

-- the rule is about the role
abbrev pub concerns : List String → String → Bool
concerns ids role_id = is_empty ids || contains_string ids role_id

self_addition_known :
    (ids current_set : List String) (by_whom p : PrincipalRef) (proposed : List RoleAssignment)
    (x : String)
    → is_self by_whom p ≡ true
    → self_addition ids current_set by_whom p proposed ≡ none
    → has_role proposed x ≡ true
    → concerns ids x ≡ true
    → contains_string current_set x ≡ true
unfolding self_addition self_error has_role any contains_string
self_addition_known ids current_set by_whom p [] x self quiet among c = cc
self_addition_known ids current_set by_whom p (a ∷ proposed) x self quiet among c =
    elim (text_cases a.role_id x) [
      | inl same ↦ elim (Bool-cases (contains_string current_set x)) [
        | inl known ↦ known
        | inr new ↦ absurd (ground (arith, same))
      ]
      | inr other ↦ ground (arith, self_addition_known ids current_set by_whom p proposed x)
    ]

self_removal_kept :
    (ids proposed_set : List String) (p : PrincipalRef) (current : List RoleAssignment) (x : String)
    → self_removal ids proposed_set p current ≡ none
    → has_role current x ≡ true
    → concerns ids x ≡ true
    → contains_string proposed_set x ≡ true
unfolding self_removal self_error has_role any contains_string
self_removal_kept ids proposed_set p [] x quiet among c = cc
self_removal_kept ids proposed_set p (a ∷ current) x quiet among c = elim (text_cases a.role_id x) [
  | inl same ↦ elim (Bool-cases (contains_string proposed_set x)) [
    | inl known ↦ known
    | inr new ↦ absurd (ground (arith, same))
  ]
  | inr other ↦ ground (arith, self_removal_kept ids proposed_set p current x)
]

add_rule :
    (ids : List String) (m : RoleAssignmentManager) (s : System) (p by_whom : PrincipalRef)
    (filtered : List RoleAssignment) (wanted : List String) (x : String)
    → cannot_add_self ids s m.base filtered
        (proposed_assignments m.base filtered (proposal_of filtered wanted))
        p
        (some by_whom)
      ≡ none
    → is_self by_whom p ≡ true
    → contains_string wanted x ≡ true
    → concerns ids x ≡ true
    → has_role filtered x ≡ true
unfolding cannot_add_self contains_string
add_rule ids m s p by_whom filtered wanted x accepted self among c = ground (
  arith,
  self_addition_known ids (add_all [] (role_ids filtered)) by_whom p
      (proposed_assignments m.base filtered (proposal_of filtered wanted)) x,
  has_role-proposed m.base filtered wanted x,
  contains-add_all [] (role_ids filtered) x,
  contains-role_ids filtered x,
)

remove_rule :
    (ids : List String) (m : RoleAssignmentManager) (s : System) (p by_whom : PrincipalRef)
    (filtered : List RoleAssignment) (wanted : List String) (x : String)
    → cannot_remove_self ids s m.base filtered
        (proposed_assignments m.base filtered (proposal_of filtered wanted))
        p
        (some by_whom)
      ≡ none
    → is_self by_whom p ≡ true
    → has_role filtered x ≡ true
    → concerns ids x ≡ true
    → contains_string wanted x ≡ true
unfolding cannot_remove_self contains_string
remove_rule ids m s p by_whom filtered wanted x accepted self among c = ground (
  arith,
  self_removal_kept ids
      (add_all [] (role_ids (proposed_assignments m.base filtered (proposal_of filtered wanted)))) p
      filtered x,
  has_role-proposed m.base filtered wanted x,
  contains-add_all []
      (role_ids (proposed_assignments m.base filtered (proposal_of filtered wanted))) x,
  contains-role_ids (proposed_assignments m.base filtered (proposal_of filtered wanted)) x,
)

module _ (s : System) (m : RoleAssignmentManager) (p by_whom : PrincipalRef)
    (self : is_self by_whom p ≡ true) (ids : List String) (before after : List RoleAssignmentRule)
    (roles : List String) (x : String) (among : contains_string roles x ≡ true)
    (c : concerns ids x ≡ true) where
  -- Where the assigner is the assignee itself and CannotAddSelfRule is among the rules: if CanAddRoles accepts roles, each of
  -- them that the rule concerns (that is in its list, or any where its list is empty) is one that the assignee holds in the
  -- scope of the manager already.
  pub cannot_add_self_lem :
      m.assignment_rules ≡ before ++ cannot_add_self ids ∷ after
      → can_add_roles s m p (some by_whom) roles ≡ none
      → holds s m.base p x ≡ true
  cannot_add_self_lem rules h =
      let (filtered, held, accepted) =
        add-Accepts s m p (some by_whom) before (cannot_add_self ids) after rules roles h in
      ground (
        arith,
        add_rule ids m s p by_whom filtered (role_ids filtered ++ roles) x accepted self,
        desired m s p filtered held roles x,
        has_role-held s m.base p filtered x held,
      )

  -- Where the assigner is the assignee itself and CannotRemoveSelfRule is among the rules: if CanRemoveRoles accepts roles, the
  -- assignee holds none of them that the rule concerns (that is in its list, or any where its list is empty) in the scope of
  -- the manager.
  pub cannot_remove_self_lem :
      m.assignment_rules ≡ before ++ cannot_remove_self ids ∷ after
      → can_remove_roles s m p (some by_whom) roles ≡ none
      → holds s m.base p x ≡ false
  cannot_remove_self_lem rules h =
      let (filtered, held, accepted) =
        remove-Accepts s m p (some by_whom) before (cannot_remove_self ids) after rules roles h in
      ground (
        arith,
        remove_rule ids m s p by_whom filtered (kept_ids roles filtered) x accepted self,
        contains-kept_ids roles filtered x,
        has_role-held s m.base p filtered x held,
      )
