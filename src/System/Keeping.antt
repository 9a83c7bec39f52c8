-- ===== src/System/Keeping.antt =====
-- The methods of the Service that write in several steps keep what each step keeps.
use go_permissions.Base.{
  ℕ, String, true, not, ◌||◌, List, [], ◌∷◌, Option, ◌==◌, contains_string, if◌then◌else◌, if_intro,
  option_intro, is_empty, ltb, ◌+◌,
}
use go_permissions.Base.Text.{has_prefix, concat, trim_space}
use go_permissions.Base.Maps.{Map}
use go_permissions.Base.Results.{Error, result_intro}
use go_permissions.Types.{Grant, Role, Value, principal_role, principal_user, ℤ, pos, negsuc}
use go_permissions.BuiltIn
use go_permissions.BuiltIn.{Registry, built_in_prefix}
use go_permissions.BuiltIn.Invariant.{IsValid, register_role-IsValid, add_grant-IsValid}
use go_permissions.System.{System}
use go_permissions.System.Seeding.{
  ensure_role_exists, ensure_roles, ensure_synthetic_roles, synthetic_roles, save_grants,
  save_built_ins, seed_grants, add_seeded,
}
use go_permissions.System.Batches.{ensure_grants_for_owners, missing_grants}
use go_permissions.System.Shortcuts.{
  lasting, assign_role_to_user, add_default_grant, default_grant_of,
}
use go_permissions.System.Soundness.{
  IsSound, Sound, registry_keeps, create_grants-Sound, create_role-Sound, assign_role-Sound,
}

ensure_role_exists-Sound :
    (s : System) (role : Role) → IsSound s → Sound (ensure_role_exists s role)
unfolding ensure_role_exists
ensure_role_exists-Sound s role v =
    if_intro Sound (role.id == "") (λ _. v)
      λ _. if_intro Sound (role.name == "") (λ _. v) λ _. create_role-Sound s v role

ensure_roles-Sound :
    (s : System) (roles : List Role) (seen : List String)
    → IsSound s
    → Sound (ensure_roles s roles seen)
unfolding ensure_roles
ensure_roles-Sound s [] seen v = v
ensure_roles-Sound s (role ∷ roles) seen v =
    let next = ensure_role_exists-Sound s role v in
    if_intro Sound (role.id == "" || contains_string seen role.id)
      (λ _. ensure_roles-Sound s roles seen v)
      λ _.
        option_intro Sound (ensure_role_exists s role).1
          (λ _. ensure_roles-Sound (ensure_role_exists s role).0 roles (role.id ∷ seen) next)
          λ _ _. next

pub ensure_synthetic_roles-Sound : (s : System) → IsSound s → Sound (ensure_synthetic_roles s)
unfolding ensure_synthetic_roles
ensure_synthetic_roles-Sound s v = ensure_roles-Sound s (synthetic_roles s) [] v

save_grants-Sound : (s : System) (gs : List Grant) → IsSound s → Sound (save_grants s gs)
unfolding save_grants
save_grants-Sound s [] v = v
save_grants-Sound s (g ∷ gs) v =
    let next =
      registry_keeps s v (BuiltIn.add_grant s.built_ins g)
        (add_grant-IsValid s.built_ins v.registry g) in
    if_intro Sound (not (g.owner_kind == principal_role)) (λ _. v)
      λ _.
        option_intro Sound (BuiltIn.add_grant s.built_ins g).1
          (λ _.
            save_grants-Sound (record s { built_ins = (BuiltIn.add_grant s.built_ins g).0 }) gs
              next)
          λ _ _. next

pub save_built_ins-Sound : (s : System) (gs : List Grant) → IsSound s → Sound (save_built_ins s gs)
unfolding save_built_ins
save_built_ins-Sound s gs v =
    let next = ensure_synthetic_roles-Sound s v in
    option_intro Sound (ensure_synthetic_roles s).1
      (λ _. save_grants-Sound (ensure_synthetic_roles s).0 gs next) λ _ _. next

seed_grants-IsValid :
    (r : Registry) (id : String) (seed : String → Grant) (perms : List String)
    → IsValid r
    → IsValid (seed_grants r id seed perms).0
unfolding seed_grants
seed_grants-IsValid r id seed [] v = v
seed_grants-IsValid r id seed (perm ∷ perms) v =
    let next = add_grant-IsValid r v (seed perm) in
    option_intro (λ (o : Registry × Option Error). IsValid o.0) (BuiltIn.add_grant r (seed perm)).1
      (λ _. seed_grants-IsValid (BuiltIn.add_grant r (seed perm)).0 id seed perms next) λ _ _. next

pub add_seeded-Sound :
    (s : System) (role : Role) (seed : String → String → Grant)
    → IsSound s
    → Sound (add_seeded s role seed)
unfolding add_seeded
add_seeded-Sound s role seed v =
    let id =
      if has_prefix role.id built_in_prefix then role.id else concat built_in_prefix role.id in
    let entry : Role = record role { id = id; built_in = true } in
    let next = register_role-IsValid s.built_ins v.registry entry in
    if_intro Sound (role.id == "") (λ _. v)
      λ _.
        if_intro Sound (role.name == "") (λ _. v)
          λ _.
            option_intro Sound (BuiltIn.register_role s.built_ins entry).1
              (λ _.
                registry_keeps s v
                  (seed_grants (BuiltIn.register_role s.built_ins entry).0 id (seed id)
                    role.permissions)
                  (seed_grants-IsValid (BuiltIn.register_role s.built_ins entry).0 id (seed id)
                    role.permissions next))
              λ _ _. record { registry = next; apart = v.apart }

pub ensure_grants_for_owners-Sound :
    (s : System) (gs : List Grant) (now : ℕ) → IsSound s → Sound (ensure_grants_for_owners s gs now)
unfolding ensure_grants_for_owners
ensure_grants_for_owners-Sound s gs now v =
    if_intro Sound (is_empty gs) (λ _. v)
      λ _.
        result_intro Sound (missing_grants s.store gs now)
          (λ missing _. create_grants-Sound s v missing) λ _ _. v

pub lasting-Sound :
    (s : System) (ttl : ℤ) (now : ℕ) (until : ℕ → System × Option Error)
    → IsSound s
    → ((at : ℕ) → Sound (until at))
    → Sound (lasting s ttl now until)
unfolding lasting
lasting-Sound s (negsuc n) now until v w = v
lasting-Sound s (pos n) now until v w = if_intro Sound (ltb 0 n) (λ _. w (now + n)) λ _. v

pub assign_role_to_user-Sound :
    (s : System) (id role_id : String) (values : Map Value)
    → IsSound s
    → Sound (assign_role_to_user s id role_id values)
unfolding assign_role_to_user
assign_role_to_user-Sound s id role_id values v =
    if_intro Sound (id == "") (λ _. v)
      λ _.
        if_intro Sound (role_id == "") (λ _. v)
          λ _. assign_role-Sound s v (record { kind = principal_user; id = id }) role_id values

pub add_default_grant-IsValid :
    (r : Registry) (id perm team : String)
    → IsValid r
    → IsValid (add_default_grant r id perm team).0
unfolding add_default_grant
add_default_grant-IsValid r id perm team v =
    if_intro (λ (o : Registry × Option Error). IsValid o.0) (trim_space id == "") (λ _. v)
      λ _.
        if_intro (λ (o : Registry × Option Error). IsValid o.0) (trim_space perm == "") (λ _. v)
          λ _. add_grant-IsValid r v (default_grant_of id perm team)
