-- ===== src/Tests/Systems.antt =====
-- The writes of a service, and the keys of principals.
use go_permissions.Base.{
  ◌≡◌, refl, true, false, List, [], ◌∷◌, ◌++◌, map, none, some, contains_string,
}
use go_permissions.Base.Maps.{get}
use go_permissions.Base.Results.{ok, role_exists, message}
use go_permissions.Types.{Grant, PrincipalRef, pos, is_expired_at}
use go_permissions.Types.Principals.{parse_principal_key}
use go_permissions.Types.Principals.Keys.{parse_principal_key-principal_key}
use go_permissions.BuiltIn
use go_permissions.BuiltIn.Invariant.{new_registry-IsValid}
use go_permissions.Bootstrap
use go_permissions.Service.Expansion.{expand_roles_cached}
use go_permissions.Service.Ballot.{expansion}
use go_permissions.Service.Querying.{expand_roles}
use go_permissions.Service.Agreement.{SameRoles, expand_roles-expansion}
use go_permissions.System.{System, service_at}
use go_permissions.System.Seeding.{ensure_synthetic_roles, save_built_ins}
use go_permissions.System.Soundness.{IsSound}
use go_permissions.System.Writes.{
  Write, built_in_role, built_in_team_role, inherit, new_role, synthetic, ensure_grants,
  default_grant, deny_for, set_group, write_all,
}
use go_permissions.System.History.{write_all-IsSound}
use go_permissions.System.Switches.{disable_built_in_role-expansion}
use go_permissions.System.Restarting.{save_built_ins_twice}
use go_permissions.System.Shortcuts.{deny_user_for}
use go_permissions.System.Batches.{
  IsEnsurable, ensure_grants_for_owners, ensure_grants_for_owners_idem,
  ensure_grants_for_owners_doubles,
}
use package.go_permissions.Tests.Program.{program}
use package.go_permissions.Tests.Data.{grant_to, role_named}

-- a new service whose cache was filled a second ago
abbrev system : System
system = record {
  identity = none;
  store = Bootstrap.new_store;
  built_ins = BuiltIn.new_registry;
  cache = record { entries = some []; at = 9_000_000_000 };
  public_role_id = "everyone";
  authenticated_role_id = "";
  admin_role_id = "";
  admin_group_id = "";
}

abbrev writes : List Write
writes =
    built_in_role (record (role_named "reader") { permissions = "docs.read" ∷ [] })
    ∷ built_in_team_role (record (role_named "lead") { permissions = "docs.edit" ∷ [] })
    ∷ inherit "builtin.lead" "builtin.reader"
    ∷ new_role (role_named "guest")
    ∷ synthetic
    ∷ default_grant "reader" "docs.list" ""
    ∷ ensure_grants (grant_to "role" "guest" "docs.list" ∷ []) 9_000_000_000
    ∷ deny_for "bob" "docs.read" none (pos 60) 9_000_000_000
    ∷ set_group "admins"
    ∷ []

system-IsSound : IsSound system
unfolding get
system-IsSound = record { registry = new_registry-IsValid; apart = λ id h. refl }

write_all-IsSound_example : IsSound (write_all system writes)
write_all-IsSound_example = write_all-IsSound system writes system-IsSound

abbrev running : System
running = write_all system writes

-- the lead inherits the reader until that is disabled
expansions :
    (expand_roles_cached
      (service_at running 10_000_000_000)
      10_000_000_000
      "builtin.lead"
      (record { cache = running.cache; expanded = [] })).0
    ≡ ok ("builtin.lead" ∷ "builtin.reader" ∷ [])
unfolding program
expansions = refl

disable_built_in_role-expansion_example :
    contains_string ("builtin.lead" ∷ []) "builtin.reader" ≡ false
unfolding program
disable_built_in_role-expansion_example =
    disable_built_in_role-expansion running "builtin.reader" 10_000_000_000 refl refl "builtin.lead"
      ("builtin.lead" ∷ []) refl

expand_roles-expansion_example :
    SameRoles
      (expand_roles
        (service_at running 10_000_000_000)
        10_000_000_000
        ("builtin.lead" ∷ [])
        running.cache).0
      (expansion (service_at running 10_000_000_000) [] "builtin.lead")
unfolding program
expand_roles-expansion_example =
    expand_roles-expansion (service_at running 10_000_000_000) 10_000_000_000 [] "builtin.lead"
      running.cache refl

abbrev anns : Grant
anns = grant_to "user" "ann" "docs.edit"

anns-IsEnsurable : IsEnsurable 10_000_000_000 anns
unfolding program
anns-IsEnsurable = record { complete = refl; owner = refl; active = refl; distinct = tt }

ensure_grants_for_owners_idem_example :
    ((ensure_grants_for_owners running (anns ∷ anns ∷ []) 10_000_000_000).1 ≡ none)
    × (ensure_grants_for_owners
          (ensure_grants_for_owners running (anns ∷ anns ∷ []) 10_000_000_000).0
          (anns ∷ anns ∷ [])
          10_000_000_000
        ≡ ((ensure_grants_for_owners running (anns ∷ anns ∷ []) 10_000_000_000).0, none))
ensure_grants_for_owners_idem_example =
    ensure_grants_for_owners_idem running (anns ∷ anns ∷ []) 10_000_000_000
      (anns-IsEnsurable, (anns-IsEnsurable, tt))

ensure_grants_for_owners_doubles_example :
    (ensure_grants_for_owners running (anns ∷ anns ∷ []) 10_000_000_000).0.store.grants
    ≡ running.store.grants ++ anns ∷ anns ∷ []
unfolding program
ensure_grants_for_owners_doubles_example =
    ensure_grants_for_owners_doubles running anns 10_000_000_000 anns-IsEnsurable refl

-- a lasting denial ends, and one that lasts no time is refused
denials :
    (map
        (λ (g : Grant). is_expired_at g 10_000_000_004)
        (deny_user_for running "ann" "docs.edit" none (pos 5) 10_000_000_000).0.store.grants
      ≡ false ∷ true ∷ false ∷ [])
    × ((deny_user_for running "ann" "docs.edit" none (pos 0) 10_000_000_000).1
        ≡ some (message "ttl must be greater than zero"))
unfolding program
denials = (refl, refl)

-- a second start-up with no grants
save_built_ins_twice_example :
    (ensure_synthetic_roles (ensure_synthetic_roles system).0
      ≡ ((ensure_synthetic_roles system).0, some (role_exists "everyone")))
    × (save_built_ins (save_built_ins system []).0 []
        ≡ ((save_built_ins system []).0, some (role_exists "everyone")))
unfolding program
save_built_ins_twice_example = save_built_ins_twice system refl refl [] []

abbrev odd : PrincipalRef
odd = record { kind = "user"; id = "a:b" }

parse_principal_key-principal_key_example : parse_principal_key "user:a:b" ≡ ok odd
unfolding program
parse_principal_key-principal_key_example = parse_principal_key-principal_key odd refl
