-- ===== src/Grants/Matching.antt =====
-- Which requests a grant speaks of: `grantMatchesRequest`, `matchesTeamScope` (service.go) and
-- `scopeMatches` (bootstrap_store.go).
use go_permissions.Base.{
  ◌≡◌, refl, String, Bool, true, false, not, ◌||◌, Option, none, some, arith, if◌then◌else◌, ◌==◌,
  eq_iff, ◌⊎◌, inl, inr, ◌↔◌, text_cases, ne_of_test, ◌≢◌,
}
use go_permissions.Base.Text.{has_prefix}
use go_permissions.Types.{Grant, Request}

unfoldable pub matches_team_scope : Grant → String → Bool
matches_team_scope g team_id =
    if team_id == "" then g.team_scope == "*" else g.team_scope == "*" || g.team_scope == team_id

-- the object scope of a grant against the object of a request
abbrev object_matches : Option String → String → Bool
object_matches none object = true
object_matches (some scope) object = if scope == "*" then true else scope == object

unfoldable pub grant_matches_request : Grant → Request → Bool
unfolding matches_team_scope
grant_matches_request g req =
    if not (g.permission_name == req.perm)
    then false
    else if not (matches_team_scope g req.team_id)
    then false
    else object_matches g.object_scope req.object

-- `scopeMatches` of bootstrap_store.go
unfoldable pub scope_matches : String → String → Bool
scope_matches scope req_value =
    if scope == "*"
    then true
    else if has_prefix scope "?"
    then not (req_value == "")
    else if not (req_value == "")
    then scope == req_value
    else false

-- What a grant speaks of, written out.
pub record Covers (g : Grant) (req : Request) : Type 0 where
  pub same_permission : g.permission_name ≡ req.perm
  pub team : (g.team_scope ≡ "*") ⊎ ((req.team_id ≢ "") × (g.team_scope ≡ req.team_id))
  pub object : (s : String) → g.object_scope ≡ some s → (s ≡ "*") ⊎ (s ≡ req.object)

module _ (g : Grant) (req : Request) where
  matches-team :
      matches_team_scope g req.team_id ≡ true
      → (g.team_scope ≡ "*") ⊎ ((req.team_id ≢ "") × (g.team_scope ≡ req.team_id))
  unfolding matches_team_scope
  matches-team h = elim (text_cases g.team_scope "*") [
    | inl e ↦ inl e
    | inr e ↦ elim (text_cases req.team_id "") [
      | inl e' ↦ absurd (ground (arith, eq_iff req.team_id ""))
      | inr e' ↦ inr (ne_of_test req.team_id "" e', ground (arith, eq_iff g.team_scope req.team_id))
    ]
  ]

  team-matches :
      (g.team_scope ≡ "*") ⊎ ((req.team_id ≢ "") × (g.team_scope ≡ req.team_id))
      → matches_team_scope g req.team_id ≡ true
  unfolding matches_team_scope
  team-matches h =
      ground
        (arith, eq_iff g.team_scope req.team_id, eq_iff g.team_scope "*", eq_iff req.team_id "")

  matches-Covers : grant_matches_request g req ≡ true → Covers g req
  unfolding grant_matches_request
  matches-Covers h = record {
    same_permission = ground (arith, eq_iff g.permission_name req.perm);
    team = matches-team (ground arith);
    object = λ s e. ground (arith, eq_iff s "*", eq_iff s req.object);
  }

  Covers-matches : Covers g req → grant_matches_request g req ≡ true
  unfolding grant_matches_request
  Covers-matches c = elim (object_cases g.object_scope) [
    | inl e ↦ ground (arith, eq_iff g.permission_name req.perm, team-matches c.team)
    | inr (s, e) ↦ ground (
      arith,
      eq_iff g.permission_name req.perm,
      team-matches c.team,
      c.object s e,
      eq_iff s "*",
      eq_iff s req.object,
    )
  ]
    where
      object_cases : (o : Option String) → (o ≡ none) ⊎ ((s : String) × (o ≡ some s))
      object_cases none = inl refl
      object_cases (some s) = inr (s, refl)

-- A grant matches a request exactly when it names the request's permission, its team scope is "*" or the request's
-- non-empty team, and its object scope is absent, "*" or the request's object.
pub grant_matches_request-Covers :
    (g : Grant) (req : Request) → (grant_matches_request g req ≡ true) ↔ Covers g req
grant_matches_request-Covers g req = (matches-Covers g req, Covers-matches g req)

-- A grant that the evaluation uses is never lost by the store's filter: where no scope is a variable, whatever matches the
-- request has scopes that `scope_matches` accepts.
pub grant_matches_request-scope_matches :
    (g : Grant) (req : Request)
    → has_prefix g.team_scope "?" ≡ false
    → grant_matches_request g req ≡ true
    → scope_matches g.team_scope req.team_id ≡ true
unfolding grant_matches_request scope_matches
grant_matches_request-scope_matches g req plain h =
    ground (arith, eq_iff g.team_scope "*", eq_iff req.team_id "")
