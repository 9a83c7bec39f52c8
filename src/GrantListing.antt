-- ===== src/GrantListing.antt =====
-- ListGrants: the filters and the pages, which bootstrapStore (bootstrap_store.go) and the in-memory store
-- (inmemory/store.go) compute with one code.
pub mod Paging
pub mod Outcome
use go_permissions.Base.{
  ℕ, ◌-◌, ◌^◌, String, Bool, true, false, not, ◌&&◌, List, [], ◌∷◌, Option, none, some, leb, ltb,
  if◌then◌else◌, ◌==◌, any, filter, contains_string, length, take, drop, is_empty,
}
use go_permissions.Base.Text.{has_prefix}
use go_permissions.Base.Results.{Result, ok, err, panic}
use go_permissions.Types.{Grant, GrantQuery, GrantQueryResult, PrincipalRef, ℤ, pos, negsuc, itoa}
use go_permissions.Types.Numbers.{max_int, atoi, add_int}

-- the loops over the four lists of the query: an empty list accepts every grant
unfoldable pub accepts {ℓ} : {A : Type ℓ} → List A → (A → Bool) → Bool
unfolding any
accepts xs p = if is_empty xs then true else any p xs

-- `grant.ObjectScope != nil && *grant.ObjectScope == os`
abbrev pub is_object_scope : Option String → String → Bool
is_object_scope none os = false
is_object_scope (some scope) os = scope == os

-- the tests of the loop of ListGrants
unfoldable pub matches_query : GrantQuery → Grant → Bool
unfolding accepts
matches_query q g =
    accepts q.principals (λ p. g.owner_kind == p.kind && g.owner_id == p.id)
    && accepts q.team_scopes (λ ts. g.team_scope == ts)
    && accepts q.object_scopes (λ os. is_object_scope g.object_scope os)
    && accepts q.permissions (λ p. g.permission_name == p)
    && (if not (q.permission_prefix == "")
        then has_prefix g.permission_name q.permission_prefix
        else true)

-- a cursor that is empty or no number starts at the front
unfoldable pub offset_of : String → ℤ
offset_of cursor =
    if not (cursor == "")
    then (elim (atoi cursor) [ none ↦ pos 0 | some offset ↦ offset ])
    else pos 0

-- a limit that is not positive is 50, and one above 1000 is 1000
unfoldable pub limit_of : ℤ → ℕ
limit_of (negsuc n) = 50
limit_of (pos n) = if leb n 0 then 50 else if ltb 1000 n then 1000 else n

-- `if end > len(filtered) { end = len(filtered) }`
unfoldable pub cut : ℤ → ℕ → ℤ
cut (pos e) n = if ltb n e then pos n else pos e
cut (negsuc e) n = negsuc e

unfoldable pub below : ℤ → ℕ → Bool
below (pos o) n = ltb o n
below (negsuc o) n = true

-- `filtered[offset:end]`, where `end` is at most the length
unfoldable pub slice_grants : List Grant → ℤ → ℤ → Result (List Grant)
slice_grants grants (pos o) (pos e) =
    if leb o e then ok (take (e - o) (drop o grants)) else err (panic "slice bounds out of range")
slice_grants grants _ _ = err (panic "slice bounds out of range")

-- the page of a filtered list
unfoldable pub page : List Grant → GrantQuery → Result GrantQueryResult
unfolding offset_of limit_of cut below slice_grants add_int
page filtered q =
    let offset = offset_of q.cursor in
    let end = cut (add_int offset (limit_of q.limit)) (length filtered) in
    let sliced =
      if below offset (length filtered) then slice_grants filtered offset end else ok [] in
    elim sliced [
      | err e ↦ err e
      | ok grants ↦ ok (record {
        grants = grants;
        next_cursor = if below end (length filtered) then itoa end else "";
        total_count = length filtered;
      })
    ]

-- ListGrants
unfoldable pub list_grants : List Grant → GrantQuery → Result GrantQueryResult
unfolding matches_query filter page
list_grants grants q = page (filter (matches_query q) grants) q
