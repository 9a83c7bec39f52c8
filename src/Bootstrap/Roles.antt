-- ===== src/Bootstrap/Roles.antt =====
-- The roles of the store: which calls keep the closure exact, and what DeleteRole does to it.
use go_permissions.Base.{
  ◌≡◌, ◌≢◌, refl, String, false, not, ◌&&◌, ◌||◌, Option, arith, ◌==◌, eq_iff, if_intro,
  contains_string,
}
use go_permissions.Base.Sets.{contains-set_add, contains-set_delete}
use go_permissions.Base.Results.{Error}
use go_permissions.Types.{Role}
use go_permissions.Hierarchy
use go_permissions.Hierarchy.{Hierarchy, add_edge}
use go_permissions.Hierarchy.Reach.{Edge, Reach, here, step, Known, IsClosed}
use go_permissions.Hierarchy.Adding.{add_role-IsClosed, add_edge-IsClosed}
use go_permissions.Hierarchy.Deleting.{delete_role-closure, delete_role-inheritance}
use go_permissions.Bootstrap.{
  Store, create_role, update_role, add_role_inheritance, disable_built_in_role,
  enable_built_in_role, has_role,
}

module _ (s : Store) (v : IsClosed s.hierarchy) where
  abbrev Keeps : Store × Option Error → Type 0
  Keeps o = IsClosed o.0.hierarchy

  -- CreateRole, UpdateRole and AddRoleInheritance keep the closure exact, also where they fail.
  pub create_role-IsClosed : (role : Role) → IsClosed (create_role s role).0.hierarchy
  unfolding create_role
  create_role-IsClosed role =
      if_intro Keeps (role.id == "") (λ _. v)
        λ _.
          if_intro Keeps (role.name == "") (λ _. v)
            λ _.
              if_intro Keeps (has_role s role.id) (λ _. v)
                λ _. add_role-IsClosed s.hierarchy role.id v

  pub update_role-IsClosed : (role : Role) → IsClosed (update_role s role).0.hierarchy
  unfolding update_role
  update_role-IsClosed role =
      if_intro Keeps (role.id == "") (λ _. v)
        λ _.
          if_intro Keeps (role.name == "") (λ _. v)
            λ _. if_intro Keeps (not (has_role s role.id)) (λ _. v) λ _. v

  pub add_role_inheritance-IsClosed :
      (parent child : String) → IsClosed (add_role_inheritance s parent child).0.hierarchy
  unfolding add_role_inheritance
  add_role_inheritance-IsClosed parent child =
      if_intro Keeps (parent == "") (λ _. v)
        λ _.
          if_intro Keeps (child == "") (λ _. v)
            λ _.
              if_intro Keeps (parent == child) (λ _. v)
                λ _. add_edge-IsClosed s.hierarchy parent child v

-- DeleteRole does not compute the closure anew: what a role inherited through the deleted one it inherits still, though no
-- edge leads there.
module _ (h : Hierarchy) (v : IsClosed h) (id : String) where
  pub delete_role_keeps :
      (a d : String)
      → a ≢ id
      → d ≢ id
      → Known h a
      → Reach h.inheritance a d
      → Edge (Hierarchy.delete_role h id).closure a d
  delete_role_keeps a d na nd known r =
      let e : Edge h.closure a d = v.complete a d known r in
      ground (arith, delete_role-closure h id a d, eq_iff id a, eq_iff d id)

  -- no way leaves a role whose only child was the deleted one
  stranded :
      (a : String)
      → ((b : String) → Edge h.inheritance a b → b ≡ id)
      → {d : String} → Reach (Hierarchy.delete_role h id).inheritance a d
      → a ≡ d
  stranded a only here = refl
  stranded a only (step {b = b} e r) =
      absurd (kept (only b (ground (arith, delete_role-inheritance h id a b))))
    where
      kept : b ≢ id
      kept p = ground (arith, delete_role-inheritance h id a b, eq_iff b id)

  -- Where the closure was exact: if a role's only child is deleted, and the child had another child of its own, the closure
  -- is not exact afterwards.
  pub delete_role_breaks :
      (a d : String)
      → a ≢ id
      → d ≢ id
      → a ≢ d
      → ((b : String) → Edge h.inheritance a b → b ≡ id)
      → Edge h.inheritance a id
      → Edge h.inheritance id d
      → ¬ IsClosed (Hierarchy.delete_role h id)
  delete_role_breaks a d na nd other only e f closed = other (
      stranded a only
        (closed.sound a d (delete_role_keeps a d na nd (v.ends a id e).0 (step e (step f here)))))

-- The disabled list after the two switches: exactly the role that was switched changes.
pub disable_built_in_role-contains :
    (s : Store) (id x : String)
    → (id == "") ≡ false
    → contains_string (disable_built_in_role s id).0.disabled_built_in_roles x
      ≡ (contains_string s.disabled_built_in_roles x || id == x)
unfolding disable_built_in_role
disable_built_in_role-contains s id x named =
    ground (arith, contains-set_add s.disabled_built_in_roles id x)

pub enable_built_in_role-contains :
    (s : Store) (id x : String)
    → (id == "") ≡ false
    → contains_string (enable_built_in_role s id).0.disabled_built_in_roles x
      ≡ (contains_string s.disabled_built_in_roles x && not (x == id))
unfolding enable_built_in_role
enable_built_in_role-contains s id x named =
    ground (arith, contains-set_delete s.disabled_built_in_roles id x)
