-- ===== src/Service/Ballot.antt =====
-- What an evaluation is to compute, with no cache, no memo and no early return: every grant that
-- bears on the request casts a vote, and a permission is granted when some vote permits and none vetoes.
use go_permissions.Base.{
  ℕ, String, Bool, true, false, not, ◌&&◌, ◌||◌, List, [], ◌∷◌, ◌++◌, Option, none, some,
  if◌then◌else◌, contains_string, filter, any,
}
use go_permissions.Base.Maps.{Map}
use go_permissions.Base.Results.{Result, ok, err, ◌>>=◌}
use go_permissions.Types.{Grant, RoleAssignment, Request, Value, is_expired_at}
use go_permissions.Grants.Bindings.{resolve_grant_bindings}
use go_permissions.BuiltIn
use go_permissions.Service.State.{Service, DisabledCache, fresh_entries, or_empty}
use go_permissions.Service.Expansion.{inherited, says_disabled, fetch_role_grants}
use go_permissions.Service.Evaluation.{Vote, veto, permit, vote, is_foreign, binding_map, gather}

-- the disabled roles, as seen at `now`
unfoldable pub disabled_now : Service → ℕ → DisabledCache → List String
unfolding fresh_entries or_empty
disabled_now s now c = elim (fresh_entries c now) [
  | some ids ↦ ids
  | none ↦ or_empty s.permissions.disabled_built_in_roles
]

-- the role's definition says that it is disabled
unfoldable pub is_disabled_role : Service → List String → String → Bool
unfolding says_disabled
is_disabled_role s disabled id = elim (BuiltIn.role s.built_ins id) [
  | some r ↦ r.is_disabled || contains_string disabled id
  | none ↦ says_disabled (s.permissions.role_definition id)
]

-- the roles of the list that are not disabled
unfoldable pub enabled : Service → List String → List String → List String
unfolding filter is_disabled_role
enabled s disabled ids =
    filter (λ id. not (contains_string disabled id) && not (is_disabled_role s disabled id)) ids

unfoldable pub expansion : Service → List String → String → Result (List String)
unfolding enabled
expansion s disabled root = do ids ← inherited s root; ok (enabled s disabled ids)

unfoldable pub direct_ballot : ℕ → Request → Option String → List Grant → List Vote
direct_ballot now req field [] = []
direct_ballot now req field (g ∷ grants) =
    let rest = direct_ballot now req field grants in
    if is_expired_at g now then rest else vote req field g ∷ rest

unfoldable pub role_ballot :
    ℕ → Request → Option String → List String → Map (Map Value) → List Grant → Result (List Vote)
role_ballot now req field role_ids bindings [] = ok []
role_ballot now req field role_ids bindings (g ∷ grants) =
    let rest = role_ballot now req field role_ids bindings grants in
    if is_foreign role_ids g
    then rest
    else if is_expired_at g now
    then rest
    else elim (resolve_grant_bindings g bindings) [
      | err e ↦ err e
      | ok g' ↦ elim rest [ err e ↦ err e | ok votes ↦ ok (vote req field g' ∷ votes) ]
    ]

unfoldable pub assignment_ballot :
    Service → ℕ → List String → Request → Option String → RoleAssignment → Result (List Vote)
unfolding expansion role_ballot
assignment_ballot s now disabled req field a = elim (expansion s disabled a.role_id) [
  | err e ↦ err e
  | ok role_ids ↦ elim (fetch_role_grants s now role_ids req) [
    | err e ↦ err e
    | ok grants ↦ role_ballot now req field role_ids (binding_map a) grants
  ]
]

unfoldable pub assignments_ballot :
    Service → ℕ → List String → Request → Option String → List RoleAssignment → Result (List Vote)
assignments_ballot s now disabled req field [] = ok []
assignments_ballot s now disabled req field (a ∷ assignments) =
    let rest = assignments_ballot s now disabled req field assignments in
    elim (assignment_ballot s now disabled req field a) [
      | err e ↦ err e
      | ok first ↦ elim rest [ err e ↦ err e | ok votes ↦ ok (first ++ votes) ]
    ]

-- all votes on the request
unfoldable pub ballot : Service → ℕ → List String → Request → Option String → Result (List Vote)
unfolding direct_ballot assignments_ballot
ballot s now disabled req field = elim (gather s req) [
  | err e ↦ err e
  | ok case ↦ elim (assignments_ballot s now disabled req field case.assignments) [
    | err e ↦ err e
    | ok votes ↦ ok (direct_ballot now req field case.direct ++ votes)
  ]
]

unfoldable pub is_permit : Vote → Bool
is_permit permit = true
is_permit _ = false

unfoldable pub is_veto : Vote → Bool
is_veto veto = true
is_veto _ = false

-- some vote permits and none vetoes
unfoldable pub carried : List Vote → Bool
unfolding any is_permit is_veto
carried votes = any is_permit votes && not (any is_veto votes)
