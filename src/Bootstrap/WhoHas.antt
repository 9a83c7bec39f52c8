-- ===== src/Bootstrap/WhoHas.antt =====
-- The answer of PrincipalsWithGrant (bootstrap_store.go): which principals are among the hits.
use go_permissions.Base.{
  ℕ, ◌≡◌, ◌∙◌, refl, String, false, not, ◌&&◌, ◌||◌, List, [], ◌∷◌, arith, ◌==◌, any, inl, inr,
  if_intro, contains_string, Option-cases,
}
use go_permissions.Base.Maps.{Map, get, put, delete}
use go_permissions.Base.Sort.{sort_by, any-sort_by}
use go_permissions.Base.Results.{ok}
use go_permissions.Types.{Grant, PrincipalHit, Request, effect_deny, is_expired_at}
use go_permissions.Types.Principals.{principal_key}
use go_permissions.Bootstrap.{
  Store, Hits, note_grant, note_grants, hit_values, owner_of, principals_with_grant,
}
use go_permissions.Bootstrap.Grants.{concerns, denies, is_some, present_lem}

-- the key of the principal that a hit names
abbrev pub hit_key : PrincipalHit → String
hit_key h = principal_key (record { kind = h.kind; id = h.id })

-- Every hit stands under its principal's key.
abbrev AreKeyed : Map PrincipalHit → Type 0
AreKeyed [] = Unit
AreKeyed ((k, h) ∷ m) = (hit_key h ≡ k) × AreKeyed m

put-AreKeyed :
    (m : Map PrincipalHit) (k : String) (h : PrincipalHit)
    → AreKeyed m
    → hit_key h ≡ k
    → AreKeyed (put m k h)
unfolding put
put-AreKeyed [] k h m' e = (e, tt)
put-AreKeyed ((j, g) ∷ m) k h m' e =
    if_intro AreKeyed (j == k) (λ _. (e, m'.1)) λ _. (m'.0, put-AreKeyed m k h m'.1 e)

delete-AreKeyed : (m : Map PrincipalHit) (k : String) → AreKeyed m → AreKeyed (delete m k)
unfolding delete
delete-AreKeyed [] k m' = tt
delete-AreKeyed ((j, g) ∷ m) k m' =
    let rest = delete-AreKeyed m k m'.1 in if_intro AreKeyed (j == k) (λ _. rest) λ _. (m'.0, rest)

note_grant-AreKeyed :
    (h : Hits) (g : Grant) → AreKeyed h.allowed → AreKeyed (note_grant h g).allowed
unfolding note_grant
note_grant-AreKeyed h g m =
    let key = principal_key (owner_of g) in
    if_intro (λ (o : Hits). AreKeyed o.allowed) (g.effect == effect_deny)
      (λ _. delete-AreKeyed h.allowed key m)
      λ _.
        if_intro (λ (o : Hits). AreKeyed o.allowed) (contains_string h.denied key) (λ _. m)
          λ _. elim (Option-cases (get h.allowed key)) [
            | inr (old, e) ↦ rw e m
            | inl e ↦ rw e (
                put-AreKeyed h.allowed key
                  (record {
                    kind = g.owner_kind;
                    id = g.owner_id;
                    team_scope = g.team_scope;
                    object_scope = g.object_scope;
                    permission_name = g.permission_name;
                  })
                  m refl)
          ]

note_grants-AreKeyed :
    (grants : List Grant) (perm : String) (now : ℕ) (h : Hits)
    → AreKeyed h.allowed
    → AreKeyed (note_grants grants perm now h).allowed
unfolding note_grants
note_grants-AreKeyed [] perm now h m = m
note_grants-AreKeyed (g ∷ grants) perm now h m = note_grants-AreKeyed grants perm now _ (
    if_intro (λ (o : Hits). AreKeyed o.allowed)
      (not (g.permission_name == perm) || is_expired_at g now) (λ _. m)
      λ _. note_grant-AreKeyed h g m)

any-hit_values :
    (m : Map PrincipalHit) (key : String)
    → AreKeyed m
    → any (λ h. hit_key h == key) (hit_values m) ≡ is_some (get m key)
unfolding any hit_values get
any-hit_values [] key m' = refl
any-hit_values ((k, h) ∷ m) key m' = ground (arith, m'.0, any-hit_values m key m'.1)

module _ (s : Store) (req : Request) (now : ℕ) (named : (req.perm == "") ≡ false) where
  -- For a request that names a permission, and whatever team and object it names, PrincipalsWithGrant answers, and a principal's
  -- key is that of a hit exactly when an active grant of the permission, for whatever team and object, belongs to that key
  -- and none of those denies.
  pub principals_with_grant-hits :
      (key : String)
      → (hits : List PrincipalHit) × (principals_with_grant s req now ≡ ok hits)
        × (any (λ h. hit_key h == key) hits ≡ (
            any (concerns req.perm now key) s.grants
            && not (any (denies req.perm now key) s.grants)))
  unfolding principals_with_grant
  principals_with_grant-hits key =
      let values =
        hit_values
          (note_grants s.grants req.perm now (record { denied = []; allowed = [] })).allowed in
      (
        sort_by (λ (h : PrincipalHit). h.kind) (sort_by (λ (h : PrincipalHit). h.id) values),
        ground (arith, named),
        any-sort_by (λ h. hit_key h == key) (λ (h : PrincipalHit). h.kind)
              (sort_by (λ (h : PrincipalHit). h.id) values)
            ∙ any-sort_by (λ h. hit_key h == key) (λ (h : PrincipalHit). h.id) values
            ∙ any-hit_values
                (note_grants s.grants req.perm now (record { denied = []; allowed = [] })).allowed
                key
                (note_grants-AreKeyed s.grants req.perm now (record { denied = []; allowed = [] })
                  tt)
            ∙ present_lem req.perm now s.grants key,
      )
