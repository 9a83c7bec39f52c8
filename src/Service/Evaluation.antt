-- ===== src/Service/Evaluation.antt =====
-- `evaluatePermission` (service.go).
use go_permissions.Base.{
  ℕ, String, Bool, true, false, not, ◌&&◌, ◌||◌, List, [], ◌∷◌, ◌++◌, Option, none, some,
  if◌then◌else◌, ◌==◌, contains_string, is_empty, map,
}
use go_permissions.Base.Maps.{Map}
use go_permissions.Base.Results.{Result, ok, err, ◌>>=◌, permission_name_required}
use go_permissions.Types.{
  Grant, RoleAssignment, PrincipalRef, Request, Value, is_expired_at, effect_deny, principal_user,
  principal_group, principal_role,
}
use go_permissions.Grants.Matching.{grant_matches_request}
use go_permissions.Grants.Fields.{grant_matches_field_path}
use go_permissions.Grants.Bindings.{resolve_grant_bindings}
use go_permissions.Service.State.{Service, DisabledCache}
use go_permissions.Service.Expansion.{Progress, expand_roles_cached, fetch_role_grants}
use go_permissions.Service.Assignments.{
  resolve_user_group_ids, resolve_user_team_ids, resolve_role_assignments,
}

-- what one grant says of a request
pub data Vote : Type 0 where
  abstain veto permit : Vote

-- the tests at the end of both loops. A deny grant that restricts fields does not deny the whole permission.
unfoldable pub vote : Request → Option String → Grant → Vote
vote req field g =
    if not (grant_matches_request g req) || not (grant_matches_field_path g field)
    then abstain
    else if g.effect == effect_deny
    then (elim field [
      | none ↦ if not (is_empty g.restricted_fields) then abstain else veto
      | some _ ↦ veto
    ])
    else permit

-- `return false, nil`, or on with `allowed`
pub data Scan : Type 0 where
  denied : Scan
  going : Bool → Scan

-- the loop over the direct grants
unfoldable pub scan_direct : ℕ → Request → Option String → List Grant → Bool → Scan
unfolding vote
scan_direct now req field [] allowed = going allowed
scan_direct now req field (g ∷ grants) allowed =
    let rest = scan_direct now req field grants allowed in
    let found = scan_direct now req field grants true in
    if is_expired_at g now
    then rest
    else elim (vote req field g) [ abstain ↦ rest | veto ↦ denied | permit ↦ found ]

-- `grant.OwnerKind == PrincipalRole && !roleIDSet[grant.OwnerID]`
abbrev pub is_foreign : List String → Grant → Bool
is_foreign role_ids g = g.owner_kind == principal_role && not (contains_string role_ids g.owner_id)

-- the loop over the grants of one assignment
unfoldable pub scan_roles :
    ℕ → Request → Option String → List String → Map (Map Value) → List Grant → Bool → Result Scan
unfolding vote contains_string
scan_roles now req field role_ids bindings [] allowed = ok (going allowed)
scan_roles now req field role_ids bindings (g ∷ grants) allowed =
    let rest = scan_roles now req field role_ids bindings grants allowed in
    let found = scan_roles now req field role_ids bindings grants true in
    if is_foreign role_ids g
    then rest
    else if is_expired_at g now
    then rest
    else elim (resolve_grant_bindings g bindings) [
      | err e ↦ err e
      | ok g' ↦ elim (vote req field g') [ abstain ↦ rest | veto ↦ ok denied | permit ↦ found ]
    ]

-- the binding values that the grants of one assignment are resolved by
abbrev pub binding_map : RoleAssignment → Map (Map Value)
binding_map a = (a.role_id, a.binding_values) ∷ []

-- the loop over the assignments
unfoldable pub scan_assignments :
    Service
    → ℕ
    → Request
    → Option String
    → List RoleAssignment
    → Bool
    → Progress
    → Result Scan × Progress
unfolding scan_roles
scan_assignments s now req field [] allowed p = (ok (going allowed), p)
scan_assignments s now req field (a ∷ assignments) allowed p =
    let (expansion, p') = expand_roles_cached s now a.role_id p in
    elim expansion [
      | err e ↦ (err e, p')
      | ok role_ids ↦ elim (fetch_role_grants s now role_ids req) [
        | err e ↦ (err e, p')
        | ok grants ↦ elim (scan_roles now req field role_ids (binding_map a) grants allowed) [
          | err e ↦ (err e, p')
          | ok denied ↦ (ok denied, p')
          | ok (going b) ↦ scan_assignments s now req field assignments b p'
        ]
      ]
    ]

-- `unboundOwners`
unfoldable pub unbound_owners : String → List String → List PrincipalRef
unbound_owners user_id group_ids =
    (if user_id == "" then [] else record { kind = principal_user; id = user_id } ∷ [])
    ++ map (λ id. record { kind = principal_group; id = id }) group_ids

-- Phase 1
unfoldable pub direct_grants : Service → Request → List String → Result (List Grant)
unfolding unbound_owners
direct_grants s req group_ids =
    let owners = unbound_owners req.user_id group_ids in
    if is_empty owners then ok [] else s.permissions.grants_for_owners owners req

-- what stands before the loops: the assignments and the direct grants
pub record Case : Type 0 where
  pub assignments : List RoleAssignment
  pub direct : List Grant

unfoldable pub gather : Service → Request → Result Case
unfolding direct_grants
gather s req = if req.perm == "" then err permission_name_required else do
  groups ← resolve_user_group_ids s req.user_id
  teams ← resolve_user_team_ids s req.user_id
  assignments ← resolve_role_assignments s req.user_id groups teams
  direct ← direct_grants s req groups
  ok (record { assignments = assignments; direct = direct })

abbrev pub answer : Scan → Bool
answer denied = false
answer (going allowed) = allowed

-- both phases, on what was gathered
unfoldable pub decide_case :
    Service → ℕ → Request → Option String → Case → DisabledCache → Result Bool × DisabledCache
unfolding scan_direct scan_assignments
decide_case s now req field case c = elim (scan_direct now req field case.direct false) [
  | denied ↦ (ok false, c)
  | going allowed ↦
      let (result, p) =
        scan_assignments s now req field case.assignments allowed
          (record { cache = c; expanded = [] }) in
      (elim result [ err e ↦ err e | ok scan ↦ ok (answer scan) ], p.cache)
]

-- evaluatePermission
unfoldable pub evaluate_permission :
    Service → ℕ → Request → Option String → DisabledCache → Result Bool × DisabledCache
unfolding gather decide_case
evaluate_permission s now req field c = elim (gather s req) [
  | err e ↦ (err e, c)
  | ok case ↦ decide_case s now req field case c
]

-- HasPermission
unfoldable pub has_permission : Service → ℕ → Request → DisabledCache → Result Bool × DisabledCache
has_permission s now req c = evaluate_permission s now req none c
