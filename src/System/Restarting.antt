-- ===== src/System/Restarting.antt =====
-- A second start-up (EnsureSyntheticRoles and SaveBuiltIns, service.go) where the public role is a role of
-- the store.
use go_permissions.Base.{
  ◌≡◌, refl, String, true, false, ◌||◌, List, [], ◌∷◌, Option, some, arith, ◌==◌, eq_refl, if_intro,
  option_intro, contains_string, not, ◌++◌,
}
use go_permissions.Base.Maps.{get-put}
use go_permissions.Base.Text.{has_prefix}
use go_permissions.Base.Results.{Error, role_exists}
use go_permissions.Types.{Grant, Role, principal_role}
use go_permissions.BuiltIn
use go_permissions.BuiltIn.{built_in_prefix}
use go_permissions.Bootstrap
use go_permissions.System.{System, create_role}
use go_permissions.System.Seeding.{
  ensure_synthetic_roles, synthetic_roles, synthetic_role, ensure_roles, ensure_role_exists,
  save_grants, save_built_ins,
}

-- Where the public role is kept in the store and exists already, EnsureSyntheticRoles writes nothing.
ensure_synthetic_roles_again :
    (s : System)
    → (s.public_role_id == "") ≡ false
    → has_prefix s.public_role_id built_in_prefix ≡ false
    → Bootstrap.has_role s.store s.public_role_id ≡ true
    → ensure_synthetic_roles s ≡ (s, some (role_exists s.public_role_id))
unfolding ensure_synthetic_roles synthetic_roles ensure_roles ensure_role_exists create_role
    Bootstrap.create_role contains_string
ensure_synthetic_roles_again s named plain there = ground arith

module _ (id : String) where
  -- the public role has this ID and is in the store
  record HasStarted (s : System) : Type 0 where
    stored : Bootstrap.has_role s.store id ≡ true
    same : s.public_role_id ≡ id

  abbrev Started : System × Option Error → Type 0
  Started o = HasStarted o.0

  create_role-stored :
      (s : Bootstrap.Store) (role : Role)
      → Bootstrap.has_role s id ≡ true
      → Bootstrap.has_role (Bootstrap.create_role s role).0 id ≡ true
  unfolding Bootstrap.create_role
  create_role-stored s role h = ground (arith, get-put s.roles role.id id role)

  create_role-Started : (s : System) (role : Role) → HasStarted s → Started (create_role s role)
  unfolding create_role
  create_role-Started s role h =
      if_intro Started (has_prefix role.id built_in_prefix)
        (λ _. record { stored = h.stored; same = h.same })
        λ _. record { stored = create_role-stored s.store role h.stored; same = h.same }

  ensure_role_exists-Started :
      (s : System) (role : Role) → HasStarted s → Started (ensure_role_exists s role)
  unfolding ensure_role_exists
  ensure_role_exists-Started s role h =
      if_intro Started (role.id == "") (λ _. h)
        λ _. if_intro Started (role.name == "") (λ _. h) λ _. create_role-Started s role h

  ensure_roles-Started :
      (s : System) (roles : List Role) (seen : List String)
      → HasStarted s
      → Started (ensure_roles s roles seen)
  unfolding ensure_roles
  ensure_roles-Started s [] seen h = h
  ensure_roles-Started s (role ∷ roles) seen h =
      let next = ensure_role_exists-Started s role h in
      if_intro Started (role.id == "" || contains_string seen role.id)
        (λ _. ensure_roles-Started s roles seen h)
        λ _.
          option_intro Started (ensure_role_exists s role).1
            (λ _. ensure_roles-Started (ensure_role_exists s role).0 roles (role.id ∷ seen) next)
            λ _ _. next

  save_grants-Started :
      (s : System) (grants : List Grant) → HasStarted s → Started (save_grants s grants)
  unfolding save_grants
  save_grants-Started s [] h = h
  save_grants-Started s (g ∷ grants) h =
      let s' : System = record s { built_ins = (BuiltIn.add_grant s.built_ins g).0 } in
      let next : HasStarted s' = record { stored = h.stored; same = h.same } in
      if_intro Started (not (g.owner_kind == principal_role)) (λ _. h)
        λ _.
          option_intro Started (BuiltIn.add_grant s.built_ins g).1
            (λ _. save_grants-Started s' grants next) λ _ _. next

  -- a role that is not a built-in one is in the store after it was ensured, or was there
  first_role :
      (s : System) (role : Role)
      → role.id ≡ id
      → (role.id == "") ≡ false
      → (role.name == "") ≡ false
      → has_prefix role.id built_in_prefix ≡ false
      → s.public_role_id ≡ id
      → Started (ensure_role_exists s role)
  unfolding ensure_role_exists create_role Bootstrap.create_role
  first_role s role e full name plain same = record {
    stored = ground (arith, get-put s.store.roles role.id id role, eq_refl id);
    same = ground arith;
  }

  ensure_roles_first :
      (s : System) (role : Role) (roles : List Role)
      → (role.id == "") ≡ false
      → Started (ensure_role_exists s role)
      → Started (ensure_roles s (role ∷ roles) [])
  unfolding ensure_roles contains_string
  ensure_roles_first s role roles full next =
      if_intro Started (role.id == "" || contains_string [] role.id) (λ e. absurd (ground arith))
        λ _.
          option_intro Started (ensure_role_exists s role).1
            (λ _. ensure_roles-Started (ensure_role_exists s role).0 roles (role.id ∷ []) next)
            λ _ _. next

-- SaveBuiltIns stops at an error of EnsureSyntheticRoles
save_built_ins_failing :
    (t : System) (e : Error) (later : List Grant)
    → ensure_synthetic_roles t ≡ (t, some e)
    → save_built_ins t later ≡ (t, some e)
unfolding save_built_ins
save_built_ins_failing t e later h = ground (arith, h)

module _ (s : System) (named : (s.public_role_id == "") ≡ false)
    (plain : has_prefix s.public_role_id built_in_prefix ≡ false) where
  abbrev public_role : Role
  public_role = record {
    id = s.public_role_id;
    name = s.public_role_id;
    description = "synthetic public role";
    scope = "";
    tags = [];
    permissions = [];
    built_in = false;
    is_disabled = false;
  }

  listed_first :
      synthetic_roles s
      ≡ public_role
        ∷ (synthetic_role s.authenticated_role_id "synthetic authenticated role"
            ++ synthetic_role s.admin_role_id "synthetic admin role")
  unfolding synthetic_roles
  listed_first = ground (arith, named)

  ensure_synthetic_roles-Started : HasStarted s.public_role_id (ensure_synthetic_roles s).0
  unfolding ensure_synthetic_roles
  ensure_synthetic_roles-Started = rw listed_first (
      ensure_roles_first s.public_role_id s public_role
        (synthetic_role s.authenticated_role_id "synthetic authenticated role"
          ++ synthetic_role s.admin_role_id "synthetic admin role")
        named (first_role s.public_role_id s public_role refl named named plain refl))

  save_built_ins-Started :
      (grants : List Grant) → HasStarted s.public_role_id (save_built_ins s grants).0
  unfolding save_built_ins
  save_built_ins-Started grants =
      option_intro (Started s.public_role_id) (ensure_synthetic_roles s).1
        (λ _.
          save_grants-Started s.public_role_id (ensure_synthetic_roles s).0 grants
            ensure_synthetic_roles-Started)
        λ _ _. ensure_synthetic_roles-Started

  again :
      (t : System)
      → HasStarted s.public_role_id t
      → ensure_synthetic_roles t ≡ (t, some (role_exists s.public_role_id))
  again t h =
      rw (← h.same)
        (ensure_synthetic_roles_again t (rw h.same named) (rw h.same plain) (rw h.same h.stored))

  -- Where the public role has an ID that is not of the registry's kind, and whatever the first call did: after EnsureSyntheticRoles
  -- a second one fails because the public role exists, and after SaveBuiltIns so does a second one, with whatever grants. Neither
  -- second call changes anything.
  pub save_built_ins_twice :
      (grants later : List Grant)
      → (ensure_synthetic_roles (ensure_synthetic_roles s).0
          ≡ ((ensure_synthetic_roles s).0, some (role_exists s.public_role_id)))
        × (save_built_ins (save_built_ins s grants).0 later
            ≡ ((save_built_ins s grants).0, some (role_exists s.public_role_id)))
  save_built_ins_twice grants later = (
    again (ensure_synthetic_roles s).0 ensure_synthetic_roles-Started,
    save_built_ins_failing (save_built_ins s grants).0 (role_exists s.public_role_id) later
        (again (save_built_ins s grants).0 (save_built_ins-Started grants)),
  )
