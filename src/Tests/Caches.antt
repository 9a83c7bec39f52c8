-- ===== src/Tests/Caches.antt =====
-- The caching store over the bootstrap store, with a list as its cache.
use go_permissions.Base.{
  ℕ, ◌+◌, ◌≡◌, ◌∙◌, refl, sym, String, false, List, [], ◌∷◌, Option, none, some, arith,
  if◌then◌else◌, ◌==◌, leb, any, eq_iff, eq_refl,
}
use go_permissions.Types.{Grant, pos, principal_user}
use go_permissions.Grants.Equivalence.{grants_equivalent}
use go_permissions.Bootstrap
use go_permissions.CachedStore.{Answer, role_ids, Query, expanded, GoCache, new_store_with_ttl}
use go_permissions.CachedStore.Keys.{IsMarshal}
use go_permissions.CachedStore.Staleness.{IsCache, Recent}
use go_permissions.CachedStore.History.{Call, read, write, drop_role, cached_answers}
use go_permissions.CachedStore.Clones.{clones_unlike}
use go_permissions.CachedStore.OverBootstrap.{bootstrap_base, bootstrap-IsAtomic}
use package.go_permissions.Tests.Program.{program}
use package.go_permissions.Tests.Data.{grant_to, store, ann}

record Entry : Type 0 where
  key : String
  value : Answer
  end : ℕ

-- the newest entry of a key counts, as long as it lives
abbrev find : List Entry → String → ℕ → Option Answer
find [] k now = none
find (e ∷ es) k now =
    let rest = find es k now in
    if e.key == k then if leb now e.end then some e.value else none else rest

abbrev entries : GoCache (List Entry)
entries = record {
  empty = [];
  get = find;
  set = λ es k v ttl t. record { key = k; value = v; end = t + ttl } ∷ es;
  flush = λ es. [];
}

entries-IsCache : IsCache entries
entries-IsCache = record {
  new = λ k t. refl;
  flushed = λ es k t. refl;
  own = λ es k v w ttl t now found. (ground (arith, eq_refl k), ground (arith, eq_refl k));
  other = λ es k j v w ttl t now differ found. ground (arith, eq_iff k j);
}

-- one read is asked
abbrev encode : Query → String
encode (expanded ids) = "lead"
encode _ = ""

abbrev marshal : Query → Option String
marshal q = some (encode q)

abbrev Asked : Query → Type 0
Asked q = q ≡ expanded ("lead" ∷ [])

asked-IsMarshal : IsMarshal marshal Asked
asked-IsMarshal = record {
  total = λ q asked. (encode q, refl);
  distinct = λ q r asked asked' _ _. asked ∙ sym asked';
}

-- a read, a write that fails, a read from the cache, and a write that empties it
abbrev calls : List (ℕ × Call)
calls =
    (1, read (expanded ("lead" ∷ [])))
    ∷ (2, write (drop_role "ghost"))
    ∷ (5, read (expanded ("lead" ∷ [])))
    ∷ []

cached_answers_example :
    Recent bootstrap_base entries marshal entries-IsCache Asked asked-IsMarshal store 60 10
      (expanded ("lead" ∷ []))
      (role_ids ("lead" ∷ "editor" ∷ []))
unfolding program
cached_answers_example =
    cached_answers bootstrap_base entries marshal entries-IsCache Asked asked-IsMarshal
      bootstrap-IsAtomic store (pos 60) calls 10
      (omega arith, (omega arith, (omega arith, omega arith))) (refl, (refl, tt))
      (expanded ("lead" ∷ [])) refl

-- ann's grant without variables, as the bootstrap store keeps it
abbrev held : Bootstrap.Store
held = record Bootstrap.new_store { grants = grant_to principal_user "ann" "docs.edit" ∷ [] }

clones_unlike_example :
    any
      (λ (c : Grant). grants_equivalent c (grant_to principal_user "ann" "docs.edit"))
      (record (grant_to principal_user "ann" "docs.edit") { variable_spec = some [] } ∷ [])
    ≡ false
unfolding program
clones_unlike_example =
    clones_unlike (grant_to principal_user "ann" "docs.edit") refl bootstrap_base entries marshal
      (new_store_with_ttl entries held (pos 60)) ann 10
      (record (grant_to principal_user "ann" "docs.edit") { variable_spec = some [] } ∷ []) refl
