-- ===== src/System/Switches.antt =====
-- Disabling a built-in role takes effect at once.
use go_permissions.Base.{
  ℕ, ◌≡◌, ◌∙◌, sym, ap, refl, String, true, false, not, ◌&&◌, List, [], none, arith, ◌==◌, ltb,
  eq_refl, contains_string, contains_string-filter, inl, inr,
}
use go_permissions.Base.Sets.{set_add, contains-set_add}
use go_permissions.Base.Sort.{sort_strings, contains_string-sort_strings}
use go_permissions.Base.Results.{ok, Result-cases}
use go_permissions.Bootstrap
use go_permissions.Service.State.{Service, cache_ttl, invalidate_disabled_cache}
use go_permissions.Service.Expansion.{Progress, inherited, expand_roles_cached}
use go_permissions.Service.Ballot.{disabled_now, enabled, expansion, is_disabled_role}
use go_permissions.Service.Caching.{IsCoherent-start, expand_roles_cached-expansion}
use go_permissions.System.{System, after_switch, service_at, disable_built_in_role}

-- what an expansion does not answer
disabled_excluded :
    (s : Service) (disabled : List String) (root id : String) (ids : List String)
    → contains_string disabled id ≡ true
    → expansion s disabled root ≡ ok ids
    → contains_string ids id ≡ false
unfolding expansion enabled
disabled_excluded s disabled root id ids off h = elim (Result-cases (inherited s root)) [
  | inr (e, failed) ↦ absurd (ground arith)
  | inl (found, e) ↦
      let same : enabled s disabled found ≡ ids = ground arith in
      rw (← same) (
        ground (
          arith,
          contains_string-filter
              (λ x. not (contains_string disabled x) && not (is_disabled_role s disabled x)) found
              id,
        ))
]

module _ (s : System) (id : String) (now : ℕ) (named : (id == "") ≡ false)
    (late : ltb now cache_ttl ≡ false) where
  abbrev after : System
  after = (disable_built_in_role s id).0

  abbrev switched : System
  switched = record s {
    store = record s.store { disabled_built_in_roles = set_add s.store.disabled_built_in_roles id };
    cache = record s.cache { at = 0 };
  }

  disabled_store : Bootstrap.disable_built_in_role s.store id ≡ (switched.store, none)
  unfolding Bootstrap.disable_built_in_role
  disabled_store = ground arith

  after-switched : after ≡ switched
  unfolding disable_built_in_role after_switch invalidate_disabled_cache
  after-switched = ap (λ o. (after_switch s o).0) disabled_store

  switched_now :
      disabled_now (service_at switched now) now switched.cache
      ≡ sort_strings (set_add s.store.disabled_built_in_roles id)
  unfolding disabled_now Bootstrap.disabled_built_in_roles
  switched_now = ground arith

  listed : contains_string (disabled_now (service_at after now) now after.cache) id ≡ true
  listed =
      rw (after-switched, switched_now)
        (ground (
          arith,
          contains_string-sort_strings (set_add s.store.disabled_built_in_roles id) id,
          contains-set_add s.store.disabled_built_in_roles id id,
          eq_refl id,
        ))

  abbrev fresh : Progress
  fresh = record { cache = after.cache; expanded = [] }

  -- Once DisableBuiltInRole has succeeded, no request expands any role to the disabled one, however full the cache of disabled
  -- roles was. (The clock is past the first five seconds after the zero time.)
  pub disable_built_in_role-expansion :
      (root : String) (ids : List String)
      → (expand_roles_cached (service_at after now) now root fresh).0 ≡ ok ids
      → contains_string ids id ≡ false
  disable_built_in_role-expansion root ids h =
      let service = service_at after now in
      let off = disabled_now service now after.cache in
      let (same, _) =
        expand_roles_cached-expansion service now off root fresh
          (IsCoherent-start service now off after.cache refl) in
      disabled_excluded service off root id ids listed (sym same ∙ h)
