-- ===== src/Service/Templates.antt =====
-- A grant with variables that a role inherits from another role has no binding: the evaluation resolves
-- it by the bindings of the assigned role alone.
use go_permissions.Base.{
  ℕ, ◌≡◌, ◌≢◌, inl, inr, String, Bool, true, false, not, ◌&&◌, List, [], ◌∷◌, ◌++◌, Option, none,
  some, arith, ◌==◌, any, Bool-cases, contains_string, is_empty,
}
use go_permissions.Base.Maps.{get}
use go_permissions.Base.Results.{ok, err, Result-cases, missing_role_binding}
use go_permissions.Types.{Grant, RoleAssignment, Request, is_expired_at, principal_role}
use go_permissions.Grants.Bindings.{resolve_grant_bindings}
use go_permissions.Service.Evaluation.{Vote, binding_map, Case, gather, evaluate_permission}
use go_permissions.Service.State.{Service, DisabledCache}
use go_permissions.Service.Expansion.{fetch_role_grants}
use go_permissions.Service.Ballot.{
  role_ballot, assignment_ballot, assignments_ballot, ballot, expansion, disabled_now,
}
use go_permissions.Service.Decision.{evaluate-granted, assignment_parts}

abbrev has_variables : Grant → Bool
has_variables g = elim g.variable_spec [ none ↦ false | some spec ↦ not (is_empty spec) ]

-- an active grant with variables that belongs to another of the expanded roles than the assigned one
abbrev pub is_inherited_template : ℕ → List String → RoleAssignment → Grant → Bool
is_inherited_template now role_ids a g =
    g.owner_kind == principal_role
    && contains_string role_ids g.owner_id
    && not (a.role_id == g.owner_id)
    && not (is_expired_at g now)
    && has_variables g

template_unresolved :
    (now : ℕ) (role_ids : List String) (a : RoleAssignment) (g : Grant)
    → is_inherited_template now role_ids a g ≡ true
    → resolve_grant_bindings g (binding_map a) ≡ err (missing_role_binding g.owner_id)
unfolding resolve_grant_bindings get
template_unresolved now role_ids a g h = ground arith

-- If the expanded roles of an assignment own an active grant with variables, among those fetched, that comes
-- from another role than the assigned one, then the votes of the assignment cannot be read.
pub inherited_template_blocks :
    (now : ℕ) (req : Request) (field : Option String) (role_ids : List String) (a : RoleAssignment)
    (grants : List Grant) (votes : List Vote)
    → any (is_inherited_template now role_ids a) grants ≡ true
    → role_ballot now req field role_ids (binding_map a) grants ≢ ok votes
unfolding any role_ballot
inherited_template_blocks now req field role_ids a [] votes h e = ground arith
inherited_template_blocks now req field role_ids a (g ∷ grants) votes h e =
    elim (Bool-cases (is_inherited_template now role_ids a g)) [
      | inl this ↦ ground (arith, template_unresolved now role_ids a g this)
      | inr later ↦
          elim (Result-cases (role_ballot now req field role_ids (binding_map a) grants)) [
            | inl (rest, r) ↦
                inherited_template_blocks now req field role_ids a grants rest (ground arith) r
            | inr (x, bad) ↦ ground arith
          ]
    ]

module _ (s : Service) (now : ℕ) (disabled : List String) (req : Request)
    (field : Option String) where
  -- where the votes of all assignments can be read, so can those of each
  ballot_of_each :
      (before later : List RoleAssignment) (a : RoleAssignment) (votes : List Vote)
      → assignments_ballot s now disabled req field (before ++ a ∷ later) ≡ ok votes
      → (own : List Vote) × (assignment_ballot s now disabled req field a ≡ ok own)
  unfolding assignments_ballot
  ballot_of_each [] later a votes h =
      elim (Result-cases (assignment_ballot s now disabled req field a)) [
        | inl (own, e) ↦ (own, e)
        | inr (x, e) ↦ absurd (ground arith)
      ]
  ballot_of_each (b ∷ before) later a votes h =
      elim (Result-cases (assignments_ballot s now disabled req field (before ++ a ∷ later))) [
        | inl (rest, e) ↦ ballot_of_each before later a rest e
        | inr (x, e) ↦ elim (Result-cases (assignment_ballot s now disabled req field b)) [
          | inl (own, e') ↦ absurd (ground arith)
          | inr (x', e') ↦ absurd (ground arith)
        ]
      ]

  case_of_ballot :
      (case : Case) (votes : List Vote)
      → gather s req ≡ ok case
      → ballot s now disabled req field ≡ ok votes
      → (more : List Vote) × (assignments_ballot s now disabled req field case.assignments
          ≡ ok more)
  unfolding ballot
  case_of_ballot case votes got h =
      elim (Result-cases (assignments_ballot s now disabled req field case.assignments)) [
        | inl (more, e) ↦ (more, e)
        | inr (x, e) ↦ absurd (ground arith)
      ]

-- If, among the grants fetched for one of the user's assignments, there is an active grant with variables that one of the
-- expanded roles owns but not the assigned role itself, then the request is not granted, whatever else the user holds.
pub inherited_template_denies :
    (s : Service) (now : ℕ) (req : Request) (field : Option String) (c : DisabledCache)
    (case : Case) (before later : List RoleAssignment) (a : RoleAssignment) (role_ids : List String)
    (grants : List Grant)
    → gather s req ≡ ok case
    → case.assignments ≡ before ++ a ∷ later
    → expansion s (disabled_now s now c) a.role_id ≡ ok role_ids
    → fetch_role_grants s now role_ids req ≡ ok grants
    → any (is_inherited_template now role_ids a) grants ≡ true
    → (evaluate_permission s now req field c).0 ≢ ok true
inherited_template_denies s now req field c case before later a role_ids grants got held expanded
      found bad granted =
    let disabled = disabled_now s now c in
    let (votes, cast, _) = evaluate-granted s now req field c granted in
    let (more, each) = case_of_ballot s now disabled req field case votes got cast in
    let (own, voted) =
      ballot_of_each s now disabled req field before later a more (rw (← held) each) in
    let (role_ids', grants', e, f, b) = assignment_parts s now disabled req field a own voted in
    let same_roles : role_ids' ≡ role_ids = ground arith in
    let same_grants : grants' ≡ grants = ground (arith, same_roles) in
    inherited_template_blocks now req field role_ids a grants own bad (ground arith)
