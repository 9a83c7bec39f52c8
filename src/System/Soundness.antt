-- ===== src/System/Soundness.antt =====
-- What every write of the service keeps.
use go_permissions.Base.{
  ℕ, ◌≡◌, refl, String, true, false, not, ◌&&◌, List, [], ◌∷◌, ◌++◌, Option, none, some, arith,
  ◌==◌, eq_iff, is_empty, any, if_intro, option_intro,
}
use go_permissions.Base.Text.{has_prefix}
use go_permissions.Base.Maps.{Map, get, get-put, get-delete}
use go_permissions.Base.Results.{Error, result_intro}
use go_permissions.Types.{
  Grant, Role, PrincipalRef, Value, principal_role, validate_principal, is_expired_at,
}
use go_permissions.Grants.Equivalence.{grants_equivalent}
use go_permissions.BuiltIn
use go_permissions.BuiltIn.{Registry, built_in_prefix}
use go_permissions.BuiltIn.Invariant.{
  IsValid, register_role-IsValid, add_role_inheritance-IsValid, add_grant-IsValid,
}
use go_permissions.Bootstrap
use go_permissions.Bootstrap.{Store, grant_error}
use go_permissions.System.{
  System, after_switch, to_store, to_built_ins, create_grant, create_grants, ensure_grant_for_owner,
  disable_built_in_role, enable_built_in_role, create_role, add_role_inheritance, update_role,
  delete_role, assign_role, unassign_role, delete_grants_for_owner, first_error,
}

-- The registry is valid, and no role of the store has an ID of the registry's kind.
pub record IsSound (s : System) : Type 0 where
  pub registry : IsValid s.built_ins
  pub apart : (id : String) → has_prefix id built_in_prefix ≡ true → get s.store.roles id ≡ none

abbrev pub Sound : System × Option Error → Type 0
Sound o = IsSound o.0

module _ (s : System) (v : IsSound s) where
  pub store_keeps :
      (o : Store × Option Error)
      → ((id : String) → has_prefix id built_in_prefix ≡ true → get o.0.roles id ≡ none)
      → Sound (to_store s o)
  store_keeps o apart = record { registry = v.registry; apart = apart }

  pub same_roles : (o : Store × Option Error) → o.0.roles ≡ s.store.roles → Sound (to_store s o)
  same_roles o e = store_keeps o λ id h. rw e (v.apart id h)

  pub registry_keeps : (o : Registry × Option Error) → IsValid o.0 → Sound (to_built_ins s o)
  registry_keeps o valid = record { registry = valid; apart = v.apart }

create_grants-roles :
    (grants : List Grant) (t : Store) → (Bootstrap.create_grants t grants).0.roles ≡ t.roles
unfolding Bootstrap.create_grants
create_grants-roles [] t = refl
create_grants-roles (g ∷ grants) t =
    ground (arith, create_grants-roles grants (record t { grants = t.grants ++ g ∷ [] }))

module _ (s : Store) where
  assign_role-roles :
      (p : PrincipalRef) (id : String) (built_ins : List Role) (values : Map Value)
      → (Bootstrap.assign_role s p id built_ins values).0.roles ≡ s.roles
  unfolding Bootstrap.assign_role
  assign_role-roles p id built_ins values = ground arith

  unassign_role-roles :
      (p : PrincipalRef) (id : String) (values : Map Value)
      → (Bootstrap.unassign_role s p id values).0.roles ≡ s.roles
  unfolding Bootstrap.unassign_role
  unassign_role-roles p id values = ground arith

  create_grant-roles : (g : Grant) → (Bootstrap.create_grant s g).0.roles ≡ s.roles
  unfolding Bootstrap.create_grant
  create_grant-roles g = ground arith

  add_role_inheritance-roles :
      (parent child : String) → (Bootstrap.add_role_inheritance s parent child).0.roles ≡ s.roles
  unfolding Bootstrap.add_role_inheritance
  add_role_inheritance-roles parent child = ground arith

  -- a role is written under its own ID
  create_role-get :
      (role : Role) (id : String)
      → (role.id == id) ≡ false
      → get (Bootstrap.create_role s role).0.roles id ≡ get s.roles id
  unfolding Bootstrap.create_role
  create_role-get role id other = ground (arith, get-put s.roles role.id id role)

  update_role-get :
      (role : Role) (id : String)
      → (role.id == id) ≡ false
      → get (Bootstrap.update_role s role).0.roles id ≡ get s.roles id
  unfolding Bootstrap.update_role
  update_role-get role id other = ground (arith, get-put s.roles role.id id role)

  delete_role-get :
      (role_id id : String)
      → get s.roles id ≡ none
      → get (Bootstrap.delete_role s role_id).0.roles id ≡ none
  unfolding Bootstrap.delete_role
  delete_role-get role_id id absent = ground (arith, get-delete s.roles role_id id)

-- IDs of which one alone has the prefix differ
prefix_differs :
    (a b : String)
    → has_prefix a built_in_prefix ≡ false
    → has_prefix b built_in_prefix ≡ true
    → (a == b) ≡ false
prefix_differs a b f t = ground (arith, eq_iff a b)

module _ (s : System) (v : IsSound s) where
  pub create_grant-Sound : (g : Grant) → Sound (create_grant s g)
  unfolding create_grant
  create_grant-Sound g =
      option_intro Sound (grant_error g)
        (λ _.
          if_intro Sound (g.owner_kind == principal_role && has_prefix g.owner_id built_in_prefix)
            (λ _.
              registry_keeps s v (BuiltIn.add_grant s.built_ins g)
                (add_grant-IsValid s.built_ins v.registry g))
            λ _. same_roles s v (Bootstrap.create_grant s.store g) (create_grant-roles s.store g))
        λ _ _. v

  pub create_role-Sound : (role : Role) → Sound (create_role s role)
  unfolding create_role
  create_role-Sound role =
      if_intro Sound (has_prefix role.id built_in_prefix)
        (λ _.
          registry_keeps s v (BuiltIn.register_role s.built_ins role)
            (register_role-IsValid s.built_ins v.registry role))
        λ plain. store_keeps s v (Bootstrap.create_role s.store role) λ id h.
          rw (create_role-get s.store role id (prefix_differs role.id id plain h)) (v.apart id h)

  pub update_role-Sound : (role : Role) → Sound (update_role s role)
  unfolding update_role
  update_role-Sound role =
      if_intro Sound (has_prefix role.id built_in_prefix) (λ _. v)
        λ plain. store_keeps s v (Bootstrap.update_role s.store role) λ id h.
          rw (update_role-get s.store role id (prefix_differs role.id id plain h)) (v.apart id h)

  pub delete_role-Sound : (role_id : String) → Sound (delete_role s role_id)
  unfolding delete_role
  delete_role-Sound role_id =
      if_intro Sound (has_prefix role_id built_in_prefix) (λ _. v)
        λ plain.
          store_keeps s v (Bootstrap.delete_role s.store role_id)
            λ id h. delete_role-get s.store role_id id (v.apart id h)

  pub add_role_inheritance-Sound :
      (parent child : String) → Sound (add_role_inheritance s parent child)
  unfolding add_role_inheritance
  add_role_inheritance-Sound parent child =
      if_intro Sound (has_prefix parent built_in_prefix && has_prefix child built_in_prefix)
        (λ _.
          registry_keeps s v (BuiltIn.add_role_inheritance s.built_ins parent child)
            (add_role_inheritance-IsValid s.built_ins v.registry parent child))
        λ _.
          same_roles s v (Bootstrap.add_role_inheritance s.store parent child)
            (add_role_inheritance-roles s.store parent child)

  pub create_grants-Sound : (grants : List Grant) → Sound (create_grants s grants)
  unfolding create_grants
  create_grants-Sound grants =
      if_intro Sound (is_empty grants) (λ _. v)
        λ _.
          option_intro Sound (first_error grants)
            (λ _.
              same_roles s v (Bootstrap.create_grants s.store grants)
                (create_grants-roles grants s.store))
            λ _ _. v

  pub ensure_grant_for_owner-Sound : (g : Grant) (now : ℕ) → Sound (ensure_grant_for_owner s g now)
  unfolding ensure_grant_for_owner
  ensure_grant_for_owner-Sound g now =
      option_intro Sound (grant_error g)
        (λ _.
          result_intro Sound (validate_principal (record { kind = g.owner_kind; id = g.owner_id }))
            (λ _ _.
              result_intro Sound
                (Bootstrap.grants_for_principal s.store
                  (record { kind = g.owner_kind; id = g.owner_id }) now)
                (λ existing _.
                  if_intro Sound
                    (any (λ current. not (is_expired_at current now) && grants_equivalent current g)
                      existing)
                    (λ _. v)
                    λ _.
                      same_roles s v (Bootstrap.create_grant s.store g)
                        (create_grant-roles s.store g))
                λ _ _. v)
            λ _ _. v)
        λ _ _. v

  switch_keeps : (o : Store × Option Error) → o.0.roles ≡ s.store.roles → Sound (after_switch s o)
  unfolding after_switch
  switch_keeps (t, none) e = record { registry = v.registry; apart = λ id h. rw e (v.apart id h) }
  switch_keeps (t, some x) e = record { registry = v.registry; apart = λ id h. rw e (v.apart id h) }

  pub disable_built_in_role-Sound : (role_id : String) → Sound (disable_built_in_role s role_id)
  unfolding disable_built_in_role Bootstrap.disable_built_in_role
  disable_built_in_role-Sound role_id =
      switch_keeps (Bootstrap.disable_built_in_role s.store role_id) (ground arith)

  pub enable_built_in_role-Sound : (role_id : String) → Sound (enable_built_in_role s role_id)
  unfolding enable_built_in_role Bootstrap.enable_built_in_role
  enable_built_in_role-Sound role_id =
      switch_keeps (Bootstrap.enable_built_in_role s.store role_id) (ground arith)

  pub delete_grants_for_owner-Sound : (kind id : String) → Sound (delete_grants_for_owner s kind id)
  unfolding delete_grants_for_owner Bootstrap.delete_grants_for_owner
  delete_grants_for_owner-Sound kind id =
      if_intro Sound (kind == principal_role && has_prefix id built_in_prefix) (λ _. v)
        λ _. record { registry = v.registry; apart = v.apart }

  pub assign_role-Sound :
      (p : PrincipalRef) (id : String) (values : Map Value) → Sound (assign_role s p id values)
  unfolding assign_role
  assign_role-Sound p id values =
      same_roles s v (Bootstrap.assign_role s.store p id (BuiltIn.roles_sorted s.built_ins) values)
        (assign_role-roles s.store p id (BuiltIn.roles_sorted s.built_ins) values)

  pub unassign_role-Sound :
      (p : PrincipalRef) (id : String) (values : Map Value) → Sound (unassign_role s p id values)
  unfolding unassign_role
  unassign_role-Sound p id values =
      same_roles s v (Bootstrap.unassign_role s.store p id values)
        (unassign_role-roles s.store p id values)
