-- ===== src/RoleAssignmentManager/Removal.antt =====
-- What RequireAtLeastRule requires when users and groups are removed.
use go_permissions.Base.{
  contains_string, ℕ, suc, ◌+◌, ◌≡◌, ◌↔◌, refl, String, Bool, true, false, not, ◌&&◌, ◌||◌, List,
  [], ◌∷◌, Option, none, some, arith, ◌==◌, any, if◌then◌else◌, nat_eq, eq_iff, ◌⊎◌, inl, inr,
  text_cases, Option-cases,
}
use go_permissions.Base.Results.{ok}
use go_permissions.Types.{
  RoleAssignmentHit, PrincipalRef, principal_user, principal_group, principal_team,
}
use go_permissions.System.{System, role_assignments_for_role_id}
use go_permissions.RoleAssignmentManager.Scopes.{ManagerBase, filter_assignment_hits_by_scope}
use go_permissions.RoleAssignmentManager.Rules.{
  RequireAtLeastRule, validate_removal, is_removed, count_hits, count_kind, no_counts, KindCounts,
  check_left,
}

-- how many hits of the kind are not removed
kept_of : (PrincipalRef → Bool) → String → List RoleAssignmentHit → ℕ
kept_of p kind [] = 0
kept_of p kind (hit ∷ hits) =
    let rest = kept_of p kind hits in
    if hit.principal.kind == kind && not (p hit.principal) then suc rest else rest

-- a kind that is one of two different ones is not the other
apart : (k a b : String) → (a == b) ≡ false → (k == a) ≡ true → (k == b) ≡ false
apart k a b other same = rw ((eq_iff k a).0 same) other

module _ (p : PrincipalRef → Bool) where
  -- the two counts differ by the hits that are kept
  count_users :
      (hits : List RoleAssignmentHit) (c d : KindCounts)
      → (count_hits (λ q. true) hits c).users + d.users
        ≡ (count_hits p hits d).users + c.users + kept_of p principal_user hits
  unfolding count_hits count_kind kept_of
  count_users [] c d = omega arith
  count_users (hit ∷ hits) c d = ground (
    arith,
    count_users hits (count_kind hit.principal.kind c)
        (if p hit.principal then count_kind hit.principal.kind d else d),
  )

  count_groups :
      (hits : List RoleAssignmentHit) (c d : KindCounts)
      → (count_hits (λ q. true) hits c).groups + d.groups
        ≡ (count_hits p hits d).groups + c.groups + kept_of p principal_group hits
  unfolding count_hits count_kind kept_of
  count_groups [] c d = omega arith
  count_groups (hit ∷ hits) c d = ground (
    arith,
    count_groups hits (count_kind hit.principal.kind c)
        (if p hit.principal then count_kind hit.principal.kind d else d),
    apart hit.principal.kind principal_user principal_group refl,
  )

  count_teams :
      (hits : List RoleAssignmentHit) (c d : KindCounts)
      → (count_hits (λ q. true) hits c).teams + d.teams
        ≡ (count_hits p hits d).teams + c.teams + kept_of p principal_team hits
  unfolding count_hits count_kind kept_of
  count_teams [] c d = omega arith
  count_teams (hit ∷ hits) c d = ground (
    arith,
    count_teams hits (count_kind hit.principal.kind c)
        (if p hit.principal then count_kind hit.principal.kind d else d),
    apart hit.principal.kind principal_user principal_team refl,
    apart hit.principal.kind principal_group principal_team refl,
  )

  abbrev left : String → List RoleAssignmentHit → Bool
  left kind hits =
      any (λ (h : RoleAssignmentHit). h.principal.kind == kind && not (p h.principal)) hits

  kept_iff :
      (kind : String) (hits : List RoleAssignmentHit)
      → nat_eq (kept_of p kind hits) 0 ≡ not (left kind hits)
  unfolding kept_of any
  kept_iff kind [] = refl
  kept_iff kind (hit ∷ hits) = ground (arith, kept_iff kind hits)

  -- the two counts of a kind are equal exactly when none of it is left
  equal_counts :
      (hits : List RoleAssignmentHit)
      → let all = count_hits (λ q. true) hits no_counts in
        let gone = count_hits p hits no_counts in
        (nat_eq all.users gone.users ≡ not (left principal_user hits))
        × (nat_eq all.groups gone.groups ≡ not (left principal_group hits))
        × (nat_eq all.teams gone.teams ≡ not (left principal_team hits))
  equal_counts hits = (
    ground (arith, count_users hits no_counts no_counts, kept_iff principal_user hits),
    ground (arith, count_groups hits no_counts no_counts, kept_iff principal_group hits),
    ground (arith, count_teams hits no_counts no_counts, kept_iff principal_team hits),
  )

-- somebody is left whom the rule counts: of its kind, where it names one
abbrev pub is_left : Option String → (PrincipalRef → Bool) → List RoleAssignmentHit → Bool
is_left none p hits =
    left p principal_user hits || left p principal_group hits || left p principal_team hits
is_left (some kind) p hits = left p kind hits

-- The principal is neither a removed user nor a removed group.
abbrev pub stays : List String → List String → PrincipalRef → Bool
stays users groups p =
    if p.kind == principal_user
    then not (contains_string users p.id)
    else if p.kind == principal_group
    then not (contains_string groups p.id)
    else true

-- A principal of the kind (a user, a group or a team, where none is named) stays.
abbrev pub some_stays : Option String → List String → List String → List RoleAssignmentHit → Bool
some_stays kind users groups hits =
    any
      (λ (h : RoleAssignmentHit). stays users groups h.principal && elim kind [
        | none ↦
            h.principal.kind == principal_user
            || h.principal.kind == principal_group
            || h.principal.kind == principal_team
        | some k ↦ h.principal.kind == k
      ])
      hits

not_removed :
    (users groups : List String) (p : PrincipalRef)
    → not (is_removed users groups p) ≡ stays users groups p
unfolding is_removed
not_removed users groups p = ground (arith, apart p.kind principal_user principal_group refl)

is_left-stays :
    (kind : Option String) (users groups : List String) (hits : List RoleAssignmentHit)
    → is_left kind (is_removed users groups) hits ≡ some_stays kind users groups hits
unfolding any
is_left-stays none users groups [] = refl
is_left-stays (some k) users groups [] = refl
is_left-stays none users groups (h ∷ hits) =
    ground (arith, is_left-stays none users groups hits, not_removed users groups h.principal)
is_left-stays (some k) users groups (h ∷ hits) =
    ground (arith, is_left-stays (some k) users groups hits, not_removed users groups h.principal)

abbrev pub is_known : Option String → Bool
is_known none = true
is_known (some k) = k == principal_user || k == principal_group || k == principal_team

-- the end of the rule, where the counts are those of the hits
module _ (r : RequireAtLeastRule) (p : PrincipalRef → Bool) (hits : List RoleAssignmentHit) where
  abbrev Verdict : Type 0
  Verdict =
      (check_left r (count_hits (λ q. true) hits no_counts) (count_hits p hits no_counts) ≡ none)
      ↔ (is_left r.kind p hits ≡ true)

  of_kind :
      (kind : String)
      → r.kind ≡ some kind
      → (kind ≡ principal_user) ⊎ (kind ≡ principal_group) ⊎ (kind ≡ principal_team)
      → Verdict
  unfolding check_left
  of_kind kind e (inl same) = rw (e, same) (ground (arith, equal_counts p hits))
  of_kind kind e (inr (inl same)) = rw (e, same) (ground (arith, equal_counts p hits))
  of_kind kind e (inr (inr same)) = rw (e, same) (ground (arith, equal_counts p hits))

  check_left_iff : is_known r.kind ≡ true → Verdict
  unfolding check_left
  check_left_iff known = elim (Option-cases r.kind) [
    | inl e ↦ rw e (ground (arith, equal_counts p hits))
    | inr (k, e) ↦ of_kind k e (elim (text_cases k principal_user) [
      | inl user ↦ inl user
      | inr no_user ↦ elim (text_cases k principal_group) [
        | inl group ↦ inr (inl group)
        | inr no_group ↦ inr (inr (ground (arith, eq_iff k principal_team)))
      ]
    ])
  ]

module _ (r : RequireAtLeastRule) (s : System) (b : ManagerBase) (hits : List RoleAssignmentHit)
    (read : role_assignments_for_role_id s r.role_id ≡ ok hits)
    (known : is_known r.kind ≡ true) where
  -- Where the holders of the role can be read and the rule names no kind or the kind user, group or team: RequireAtLeastRule
  -- lets users and groups be removed exactly when at least one principal in scope holds the role, is of the rule's kind (a user, a
  -- group or a team, where it names none), and is not among those to be removed. Its minimum has no part in it.
  pub validate_removal_iff :
      (users groups : List String)
      → (validate_removal r s b users groups ≡ none) ↔ (
          some_stays r.kind users groups
            (filter_assignment_hits_by_scope hits b.team_scope b.object_scope)
          ≡ true)
  unfolding validate_removal
  validate_removal_iff users groups =
      let found = filter_assignment_hits_by_scope hits b.team_scope b.object_scope in
      rw (read, ← is_left-stays r.kind users groups found)
        (check_left_iff r (is_removed users groups) found known)
