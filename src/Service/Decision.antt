-- ===== src/Service/Decision.antt =====
-- What an evaluation answers, in terms of the votes on the request.
use go_permissions.Base.{
  ℕ, ◌≡◌, ◌⊎◌, ◌∙◌, sym, refl, inl, inr, String, Bool, true, false, ◌||◌, List, [], ◌∷◌, ◌++◌,
  Option, arith, if◌then◌else◌, any, any-append, Bool-cases,
}
use go_permissions.Base.Maps.{Map}
use go_permissions.Base.Results.{Error, Result, ok, err, Result-cases}
use go_permissions.Types.{Grant, RoleAssignment, Request, Value, is_expired_at}
use go_permissions.Grants.Bindings.{resolve_grant_bindings}
use go_permissions.Service.State.{Service, DisabledCache}
use go_permissions.Service.Expansion.{Progress, expand_roles_cached, fetch_role_grants}
use go_permissions.Service.Evaluation.{
  Vote, abstain, veto, permit, vote, Scan, denied, going, scan_direct, scan_roles, scan_assignments,
  is_foreign, binding_map, Case, gather, evaluate_permission,
}
use go_permissions.Service.Ballot.{
  disabled_now, expansion, direct_ballot, role_ballot, assignment_ballot, assignments_ballot,
  ballot, carried, is_permit, is_veto,
}
use go_permissions.Service.Caching.{IsCoherent, IsCoherent-start, expand_roles_cached-expansion}

Vote-cases : (v : Vote) → (v ≡ abstain) ⊎ ((v ≡ veto) ⊎ (v ≡ permit))
Vote-cases abstain = inl refl
Vote-cases veto = inr (inl refl)
Vote-cases permit = inr (inr refl)

-- a loop that ran to its end, or stopped by a veto or an error
pub Scan-cases :
    (r : Result Scan)
    → ((b : Bool) × (r ≡ ok (going b))) ⊎ ((r ≡ ok denied) ⊎ ((e : Error) × (r ≡ err e)))
Scan-cases (ok (going b)) = inl (b, refl)
Scan-cases (ok denied) = inr (inl refl)
Scan-cases (err e) = inr (inr (e, refl))

-- where a loop stands that began with `allowed` and met these votes
abbrev outcome : Bool → List Vote → Scan
outcome allowed votes = if any is_veto votes then denied else going (allowed || any is_permit votes)

scan_direct-outcome :
    (now : ℕ) (req : Request) (field : Option String) (grants : List Grant) (allowed : Bool)
    → scan_direct now req field grants allowed
      ≡ outcome allowed (direct_ballot now req field grants)
unfolding scan_direct direct_ballot any is_permit is_veto
scan_direct-outcome now req field [] allowed = ground arith
scan_direct-outcome now req field (g ∷ grants) allowed = ground (
  arith,
  scan_direct-outcome now req field grants allowed,
  scan_direct-outcome now req field grants true,
)

module _ (now : ℕ) (req : Request) (field : Option String) (role_ids : List String)
    (bindings : Map (Map Value)) where
  scan_roles-outcome :
      (grants : List Grant) (allowed : Bool) (votes : List Vote)
      → role_ballot now req field role_ids bindings grants ≡ ok votes
      → scan_roles now req field role_ids bindings grants allowed ≡ ok (outcome allowed votes)
  unfolding scan_roles role_ballot any is_permit is_veto
  scan_roles-outcome [] allowed votes h = ground arith
  scan_roles-outcome (g ∷ grants) allowed votes h = elim (Bool-cases (is_foreign role_ids g)) [
    | inl e ↦ let later = scan_roles-outcome grants allowed votes (ground arith) in ground arith
    | inr e ↦ elim (Bool-cases (is_expired_at g now)) [
      | inl f ↦ let later = scan_roles-outcome grants allowed votes (ground arith) in ground arith
      | inr f ↦ elim (Result-cases (resolve_grant_bindings g bindings)) [
        | inr (x, bad) ↦ absurd (ground arith)
        | inl (g', good) ↦
            elim (Result-cases (role_ballot now req field role_ids bindings grants)) [
              | inr (x, bad) ↦ absurd (ground arith)
              | inl (rest, r) ↦ ground (
                arith,
                scan_roles-outcome grants allowed rest r,
                scan_roles-outcome grants true rest r,
              )
            ]
      ]
    ]
  ]

  -- A loop that runs to its end has met no grant that cannot be resolved.
  scan_roles-ballot :
      (grants : List Grant) (allowed b : Bool)
      → scan_roles now req field role_ids bindings grants allowed ≡ ok (going b)
      → (votes : List Vote) × (role_ballot now req field role_ids bindings grants ≡ ok votes)
  unfolding scan_roles role_ballot
  scan_roles-ballot [] allowed b h = ([], refl)
  scan_roles-ballot (g ∷ grants) allowed b h = elim (Bool-cases (is_foreign role_ids g)) [
    | inl e ↦
        let (votes, r) = scan_roles-ballot grants allowed b (ground arith) in (votes, ground arith)
    | inr e ↦ elim (Bool-cases (is_expired_at g now)) [
      | inl f ↦
          let (votes, r) = scan_roles-ballot grants allowed b (ground arith) in
          (votes, ground arith)
      | inr f ↦ elim (Result-cases (resolve_grant_bindings g bindings)) [
        | inr (x, bad) ↦ absurd (ground arith)
        | inl (g', good) ↦ elim (Vote-cases (vote req field g')) [
          | inl v ↦
              let (votes, r) = scan_roles-ballot grants allowed b (ground arith) in
              (vote req field g' ∷ votes, ground arith)
          | inr (inl v) ↦ absurd (ground arith)
          | inr (inr v) ↦
              let (votes, r) = scan_roles-ballot grants true b (ground arith) in
              (vote req field g' ∷ votes, ground arith)
        ]
      ]
    ]
  ]

module _ (s : Service) (now : ℕ) (disabled : List String) (req : Request)
    (field : Option String) where
  -- What stands behind the votes of one assignment.
  pub assignment_parts :
      (a : RoleAssignment) (votes : List Vote)
      → assignment_ballot s now disabled req field a ≡ ok votes
      → (role_ids : List String) × (grants : List Grant) × (expansion s disabled a.role_id
          ≡ ok role_ids)
        × (fetch_role_grants s now role_ids req ≡ ok grants)
        × (role_ballot now req field role_ids (binding_map a) grants ≡ ok votes)
  unfolding assignment_ballot
  assignment_parts a votes h = elim (Result-cases (expansion s disabled a.role_id)) [
    | inr (e, bad) ↦ absurd (ground arith)
    | inl (role_ids, good) ↦ elim (Result-cases (fetch_role_grants s now role_ids req)) [
      | inr (e, bad) ↦ absurd (ground arith)
      | inl (grants, found) ↦ (role_ids, grants, good, found, ground arith)
    ]
  ]

  scan_assignments-outcome :
      (assignments : List RoleAssignment) (allowed : Bool) (p : Progress) (votes : List Vote)
      → IsCoherent s now disabled p
      → assignments_ballot s now disabled req field assignments ≡ ok votes
      → (scan_assignments s now req field assignments allowed p).0 ≡ ok (outcome allowed votes)
  unfolding scan_assignments assignments_ballot any
  scan_assignments-outcome [] allowed p votes co h = ground arith
  scan_assignments-outcome (a ∷ assignments) allowed p votes co h =
      elim (Result-cases (assignment_ballot s now disabled req field a)) [
        | inr (e, bad) ↦ absurd (ground arith)
        | inl (first, voted) ↦
            elim (Result-cases (assignments_ballot s now disabled req field assignments)) [
              | inr (e, bad) ↦ absurd (ground arith)
              | inl (more, r) ↦
                  let (role_ids, grants, e, f, b) = assignment_parts a first voted in
                  let (same, co') = expand_roles_cached-expansion s now disabled a.role_id p co in
                  let scanned =
                    scan_roles-outcome now req field role_ids (binding_map a) grants allowed first
                      b in
                  let later =
                    scan_assignments-outcome assignments (allowed || any is_permit first)
                      (expand_roles_cached s now a.role_id p).1 more co' r in
                  ground (arith, any-append is_veto first more, any-append is_permit first more)
            ]
      ]

  scan_assignments-ballot :
      (assignments : List RoleAssignment) (allowed b : Bool) (p : Progress)
      → IsCoherent s now disabled p
      → (scan_assignments s now req field assignments allowed p).0 ≡ ok (going b)
      → (votes : List Vote) × (assignments_ballot s now disabled req field assignments ≡ ok votes)
  unfolding scan_assignments assignments_ballot assignment_ballot
  scan_assignments-ballot [] allowed b p co h = ([], refl)
  scan_assignments-ballot (a ∷ assignments) allowed b p co h =
      let (same, co') = expand_roles_cached-expansion s now disabled a.role_id p co in
      let p' = (expand_roles_cached s now a.role_id p).1 in
      elim (Result-cases (expansion s disabled a.role_id)) [
        | inr (e, bad) ↦ absurd (ground arith)
        | inl (role_ids, good) ↦ elim (Result-cases (fetch_role_grants s now role_ids req)) [
          | inr (e, bad) ↦ absurd (ground arith)
          | inl (grants, found) ↦
              elim (Scan-cases (scan_roles now req field role_ids (binding_map a) grants allowed)) [
                | inr stopped ↦ absurd (ground arith)
                | inl (b', went) ↦
                    let (first, voted) =
                      scan_roles-ballot now req field role_ids (binding_map a) grants allowed b'
                        went in
                    let (more, r) =
                      scan_assignments-ballot assignments b' b p' co' (ground arith) in
                    (first ++ more, ground arith)
              ]
        ]
      ]

module _ (s : Service) (now : ℕ) (req : Request) (field : Option String) (c : DisabledCache) where
  abbrev start : Progress
  start = record { cache = c; expanded = [] }

  start-IsCoherent : IsCoherent s now (disabled_now s now c) start
  start-IsCoherent = IsCoherent-start s now (disabled_now s now c) c refl

  -- Where every grant that bears on the request can be read and resolved, with the roles disabled that the cache shows
  -- at that moment, the evaluation answers yes exactly when some vote permits and none vetoes.
  pub evaluate-carried :
      (votes : List Vote)
      → ballot s now (disabled_now s now c) req field ≡ ok votes
      → (evaluate_permission s now req field c).0 ≡ ok (carried votes)
  unfolding evaluate_permission ballot carried
  evaluate-carried votes h = elim (Result-cases (gather s req)) [
    | inr (e, bad) ↦ absurd (ground arith)
    | inl (case, got) ↦
        elim (Result-cases
          (assignments_ballot s now (disabled_now s now c) req field case.assignments)) [
            | inr (e, bad) ↦ absurd (ground arith)
            | inl (more, r) ↦
                let first = direct_ballot now req field case.direct in
                let direct = scan_direct-outcome now req field case.direct false in
                let scanned =
                  scan_assignments-outcome s now (disabled_now s now c) req field case.assignments
                    (any is_permit first) start more start-IsCoherent r in
                ground (arith, any-append is_veto first more, any-append is_permit first more)
          ]
  ]

  -- the votes of a case whose loops ran to their end
  granted_ballot :
      (case : Case)
      → gather s req ≡ ok case
      → (evaluate_permission s now req field c).0 ≡ ok true
      → (votes : List Vote) × (ballot s now (disabled_now s now c) req field ≡ ok votes)
  unfolding evaluate_permission ballot
  granted_ballot case got h =
      let first = direct_ballot now req field case.direct in
      let direct = scan_direct-outcome now req field case.direct false in
      let scanned =
        (scan_assignments s now req field case.assignments (any is_permit first) start).0 in
      elim (Bool-cases (any is_veto first)) [
        | inl veto_first ↦ absurd (ground arith)
        | inr none_first ↦ elim (Scan-cases scanned) [
          | inr stopped ↦ absurd (ground arith)
          | inl (b, went) ↦
              let (more, r) =
                scan_assignments-ballot s now (disabled_now s now c) req field case.assignments
                  (any is_permit first) b start start-IsCoherent went in
              (first ++ more, ground arith)
        ]
      ]

  -- Nobody is granted a permission by an evaluation that passed over a vote: if it answers yes, then every grant that bears on
  -- the request was read and resolved, some vote permits and none vetoes.
  pub evaluate-granted :
      (evaluate_permission s now req field c).0 ≡ ok true
      → (votes : List Vote) × (ballot s now (disabled_now s now c) req field ≡ ok votes)
        × (carried votes ≡ true)
  evaluate-granted h = elim (Result-cases (gather s req)) [
    | inr (e, bad) ↦ absurd (unfold evaluate_permission in ground arith)
    | inl (case, got) ↦
        let (votes, r) = granted_ballot case got h in
        (votes, r, ok_injective (sym (evaluate-carried votes r) ∙ h))
  ]
    where
      ok_injective : {a b : Bool} → ok a ≡ ok b → a ≡ b
      ok_injective e = cc
