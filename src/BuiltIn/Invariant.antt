-- ===== src/BuiltIn/Invariant.antt =====
-- What every operation of the registry keeps.
use mathlib.Core.Bool.{false≢true}
use go_permissions.Base.Sets.{get_set}
use go_permissions.Hierarchy
use go_permissions.Base.{
  ◌≡◌, refl, inl, inr, String, true, false, not, ◌||◌, List, [], ◌∷◌, ◌++◌, Option, none, some,
  arith, ◌==◌, eq_iff, contains_string, any, Bool-cases, text_cases, All, if_intro,
}
use go_permissions.Base.Text.{has_prefix}
use go_permissions.Base.Maps.{get, put, get-put}
use go_permissions.Base.Results.{Error}
use go_permissions.Types.{Grant, Role}
use go_permissions.Grants.Equivalence.{grants_equivalent}
use go_permissions.Hierarchy.{Hierarchy, add_role, add_edge}
use go_permissions.Hierarchy.Reach.{IsClosed}
use go_permissions.Hierarchy.Adding.{add_role-IsClosed, add_edge-IsClosed}
use go_permissions.BuiltIn.{
  Registry, new_registry, register_role, add_role_inheritance, add_grant, add_new_grant,
  with_team_scope, built_in_prefix,
}

-- A grant of the registry belongs to a built-in role, and names a permission and a team scope.
pub record IsBuiltInGrant (g : Grant) : Type 0 where
  pub owner : has_prefix g.owner_id built_in_prefix ≡ true
  pub permission : (g.permission_name == "") ≡ false
  pub team : (g.team_scope == "") ≡ false

pub record IsBuiltInRole (id : String) (role : Role) : Type 0 where
  pub keyed : role.id ≡ id
  pub marked : role.built_in ≡ true
  pub prefixed : has_prefix id built_in_prefix ≡ true
  pub named : (role.name == "") ≡ false

-- no grant is equivalent to a later one
abbrev pub NoTwins : List Grant → Type 0
NoTwins [] = Unit
NoTwins (g ∷ grants) = All (λ x. grants_equivalent g x ≡ false) grants × NoTwins grants

pub record IsValid (r : Registry) : Type 0 where
  pub closed : IsClosed r.hierarchy
  pub roles : (id : String) (role : Role) → get r.roles id ≡ some role → IsBuiltInRole id role
  pub grants : All IsBuiltInGrant r.grants
  pub twins : NoTwins r.grants

module _ (P : Grant → Type 0) where
  All-snoc : (grants : List Grant) (g : Grant) → All P grants → P g → All P (grants ++ g ∷ [])
  All-snoc [] g h p = (p, tt)
  All-snoc (x ∷ grants) g h p = (h.0, All-snoc grants g h.1 p)

NoTwins-snoc :
    (grants : List Grant) (g : Grant)
    → NoTwins grants
    → any (λ existing. grants_equivalent existing g) grants ≡ false
    → NoTwins (grants ++ g ∷ [])
unfolding any
NoTwins-snoc [] g h new = (tt, tt)
NoTwins-snoc (x ∷ grants) g h new = (
  All-snoc (λ y. grants_equivalent x y ≡ false) grants g h.0 (ground arith),
  NoTwins-snoc grants g h.1 (ground arith),
)

-- The empty hierarchy is closed.
pub empty-IsClosed : IsClosed Hierarchy.empty
unfolding get_set get contains_string
empty-IsClosed = record {
  sound = λ a d e. absurd (false≢true e);
  complete = λ a d known r. absurd (known refl);
  ends = λ a b e. absurd (false≢true e);
}

pub new_registry-IsValid : IsValid new_registry
unfolding get
new_registry-IsValid = record {
  closed = empty-IsClosed;
  roles = λ id role e. absurd (none≢some e);
  grants = tt;
  twins = tt;
}
  where
    none≢some : {x : Role} → none ≡ some x → ⊥
    none≢some e = cc

module _ (r : Registry) (v : IsValid r) where
  put_roles :
      (role : Role)
      → has_prefix role.id built_in_prefix ≡ true
      → (role.name == "") ≡ false
      → (id : String) (found : Role)
      → get (put r.roles role.id (record role { built_in = true })) id ≡ some found
      → IsBuiltInRole id found
  put_roles role prefixed named id found e = elim (text_cases role.id id) [
    | inl same ↦
        let is : record role { built_in = true } ≡ found = ground (
          arith,
          get-put r.roles role.id id (record role { built_in = true }),
          eq_iff role.id id,
        ) in
        rw (← is)
          (record { keyed = same; marked = refl; prefixed = rw (← same) prefixed; named = named })
    | inr other ↦ v.roles id found (
        ground
          (arith, get-put r.roles role.id id (record role { built_in = true }), eq_iff role.id id))
  ]

  pub register_role-IsValid : (role : Role) → IsValid (register_role r role).0
  unfolding register_role
  register_role-IsValid role = elim (Bool-cases (role.id == "")) [
    | inl e ↦ rw e v
    | inr e ↦ rw e (elim (Bool-cases (has_prefix role.id built_in_prefix)) [
      | inr f ↦ rw f v
      | inl f ↦ rw f (elim (Bool-cases (role.name == "")) [
        | inl g ↦ rw g v
        | inr g ↦ rw g (record {
          closed = add_role-IsClosed r.hierarchy role.id v.closed;
          roles = put_roles role f g;
          grants = v.grants;
          twins = v.twins;
        })
      ])
    ])
  ]

  pub add_role_inheritance-IsValid :
      (parent child : String) → IsValid (add_role_inheritance r parent child).0
  unfolding add_role_inheritance
  add_role_inheritance-IsValid parent child =
      if_intro Keeps (parent == "" || child == "") (λ _. v)
        λ _.
          if_intro Keeps (not (has_prefix parent built_in_prefix)) (λ _. v)
            λ _.
              if_intro Keeps (not (has_prefix child built_in_prefix)) (λ _. v)
                λ _.
                  if_intro Keeps (parent == child) (λ _. v)
                    λ _. record {
                      closed = add_edge-IsClosed r.hierarchy parent child v.closed;
                      roles = v.roles;
                      grants = v.grants;
                      twins = v.twins;
                    }
    where
      Keeps : Registry × Option Error → Type 0
      Keeps o = IsValid o.0

  add_new_grant-IsValid : (g : Grant) → IsBuiltInGrant g → IsValid (add_new_grant r g)
  unfolding add_new_grant
  add_new_grant-IsValid g built =
      if_intro IsValid (any (λ existing. grants_equivalent existing g) r.grants) (λ _. v)
        λ new. record {
          closed = v.closed;
          roles = v.roles;
          grants = All-snoc IsBuiltInGrant r.grants g v.grants built;
          twins = NoTwins-snoc r.grants g v.twins new;
        }

  pub add_grant-IsValid : (g : Grant) → IsValid (add_grant r g).0
  unfolding add_grant with_team_scope
  add_grant-IsValid g =
      if_intro Keeps (g.owner_id == "") (λ _. v)
        λ _.
          if_intro Keeps (not (has_prefix g.owner_id built_in_prefix)) (λ _. v)
            λ owned.
              if_intro Keeps (g.permission_name == "") (λ _. v)
                λ named. add_new_grant-IsValid (with_team_scope g) (record {
                  owner = ground arith;
                  permission = named;
                  team =
                      if_intro (λ s. (s == "") ≡ false) (g.team_scope == "") (λ _. refl) (λ n. n);
                })
    where
      Keeps : Registry × Option Error → Type 0
      Keeps o = IsValid o.0

-- The calls that change the registry.
pub data Call : Type 0 where
  register : Role → Call
  inherit : String → String → Call
  grant : Grant → Call

unfoldable pub call : Registry → Call → Registry × Option Error
call r (register role) = register_role r role
call r (inherit parent child) = add_role_inheritance r parent child
call r (grant g) = add_grant r g

unfoldable pub run : Registry → List Call → Registry
run r [] = r
run r (c ∷ calls) = run (call r c).0 calls

pub call-IsValid : (r : Registry) (c : Call) → IsValid r → IsValid (call r c).0
unfolding call
call-IsValid r (register role) v = register_role-IsValid r v role
call-IsValid r (inherit parent child) v = add_role_inheritance-IsValid r v parent child
call-IsValid r (grant g) v = add_grant-IsValid r v g

run-IsValid_from : (r : Registry) (calls : List Call) → IsValid r → IsValid (run r calls)
unfolding run
run-IsValid_from r [] v = v
run-IsValid_from r (c ∷ calls) v = run-IsValid_from (call r c).0 calls (call-IsValid r c v)

-- After any calls on a new registry, failing ones among them: the closure is exactly what the inheritance edges reach;
-- each role is kept under its own prefixed ID, is marked as built in and has a name; each grant has a prefixed owner, a
-- permission and a team scope; and no grant is equivalent to a later one.
pub run-IsValid : (calls : List Call) → IsValid (run new_registry calls)
run-IsValid calls = run-IsValid_from new_registry calls new_registry-IsValid

module _ (r : Registry) where
  register_role_fails :
      (role : Role) (e : Error) → (register_role r role).1 ≡ some e → (register_role r role).0 ≡ r
  unfolding register_role
  register_role_fails role e h = ground arith

  add_role_inheritance_fails :
      (parent child : String) (e : Error)
      → (add_role_inheritance r parent child).1 ≡ some e
      → (add_role_inheritance r parent child).0 ≡ r
  unfolding add_role_inheritance
  add_role_inheritance_fails parent child e h = ground arith

  add_grant_fails : (g : Grant) (e : Error) → (add_grant r g).1 ≡ some e → (add_grant r g).0 ≡ r
  unfolding add_grant
  add_grant_fails g e h = ground arith

-- A call that returns an error leaves the registry as it was.
pub call_fails : (r : Registry) (c : Call) (e : Error) → (call r c).1 ≡ some e → (call r c).0 ≡ r
unfolding call
call_fails r (register role) e h = register_role_fails r role e h
call_fails r (inherit parent child) e h = add_role_inheritance_fails r parent child e h
call_fails r (grant g) e h = add_grant_fails r g e h
