-- ===== src/Tests/Stores.antt =====
-- The bootstrap store.
use go_permissions.Base.{
  ◌≡◌, refl, true, List, [], ◌∷◌, ◌++◌, none, some, String, length, any, ◌==◌,
}
use go_permissions.Base.Results.{ok, role_not_assigned}
use go_permissions.Types.{
  Grant, PrincipalHit, Request, Value, pos, str, int, opaque, principal_user,
}
use go_permissions.Bootstrap
use go_permissions.Bootstrap.{
  Store, assigned, assign_role, unassign_role, create_grants, principals_with_grant,
}
use go_permissions.Bootstrap.Undoing.{unassign_role-assign_role}
use go_permissions.Bootstrap.Losing.{assign_role_lost}
use go_permissions.Bootstrap.Grants.{create_grants-accepted}
use go_permissions.Bootstrap.WhoHas.{hit_key, principals_with_grant-hits}
use package.go_permissions.Tests.Program.{program}
use package.go_permissions.Tests.Data.{grant_to, role_named, store, ann}

-- ann holds an editor's role for document 42 and then not
unassign_role-assign_role_example :
    ((assign_role store ann "editor" [] (("doc", int (pos 42)) ∷ [])).1 ≡ none)
    × ((unassign_role
          (assign_role store ann "editor" [] (("doc", int (pos 42)) ∷ [])).0
          ann
          "editor"
          (("doc", int (pos 42)) ∷ [])).1
        ≡ none)
    × (assigned
          (unassign_role
            (assign_role store ann "editor" [] (("doc", int (pos 42)) ∷ [])).0
            ann
            "editor"
            (("doc", int (pos 42)) ∷ [])).0.assignments
          "user:ann"
        ≡ assigned store.assignments "user:ann")
unfolding program
unassign_role-assign_role_example =
    unassign_role-assign_role store ann "editor" [] refl refl refl (("doc", int (pos 42)) ∷ [])
      (refl, tt) refl refl "user:ann"

-- zeros of two signs print differently and are equal, so that UnassignRole of one takes both
abbrev zero_of : String → Value
zero_of text =
    opaque
      (record { type_name = "float64"; identity = 0; printed = text; truncated = some (pos 0) })

abbrev two_zeros : Store
two_zeros =
    (assign_role
      (assign_role Bootstrap.new_store ann "editor"
        (record (role_named "editor") { built_in = true } ∷ []) (("level", zero_of "0") ∷ [])).0
      ann "editor" (record (role_named "editor") { built_in = true } ∷ [])
      (("level", zero_of "-0") ∷ [])).0

zeros :
    (length (assigned two_zeros.assignments "user:ann") ≡ 2)
    × (assigned
          (unassign_role two_zeros ann "editor" (("level", zero_of "0") ∷ [])).0.assignments
          "user:ann"
        ≡ [])
unfolding program
zeros = (refl, refl)

assign_role_lost_example :
    (assign_role
        (assign_role store ann "editor" [] (("doc", int (pos 42)) ∷ [])).0
        ann
        "editor"
        []
        (("doc", str "42") ∷ [])
      ≡ ((assign_role store ann "editor" [] (("doc", int (pos 42)) ∷ [])).0, none))
    × (unassign_role
          (assign_role store ann "editor" [] (("doc", int (pos 42)) ∷ [])).0
          ann
          "editor"
          (("doc", str "42") ∷ [])
        ≡ (
          (assign_role store ann "editor" [] (("doc", int (pos 42)) ∷ [])).0,
          some (role_not_assigned "editor" "user:ann"),
        ))
unfolding program
assign_role_lost_example = assign_role_lost store ann "editor" [] refl refl refl "doc" (pos 42) refl

-- bob may read in the team "ops" alone, and is a hit for the team "dev"
abbrev reading : Request
reading = record { user_id = ""; team_id = "dev"; object = ""; perm = "docs.read" }

abbrev of_bob : Store
of_bob = record Bootstrap.new_store {
  grants = record (grant_to principal_user "bob" "docs.read") { team_scope = "ops" } ∷ [];
}

principals_with_grant-hits_example :
    (hits : List PrincipalHit) × (principals_with_grant of_bob reading 100 ≡ ok hits)
    × (any (λ h. hit_key h == "user:bob") hits ≡ true)
unfolding program
principals_with_grant-hits_example = principals_with_grant-hits of_bob reading 100 refl "user:bob"

-- the second of three grants names no owner
abbrev bulk : List Grant
bulk =
    grant_to principal_user "ann" "docs.edit"
    ∷ grant_to principal_user "" "docs.edit"
    ∷ grant_to principal_user "bob" "docs.edit"
    ∷ []

create_grants-accepted_example :
    (create_grants store bulk).0.grants
    ≡ store.grants ++ grant_to principal_user "ann" "docs.edit" ∷ []
unfolding program
create_grants-accepted_example = create_grants-accepted store bulk
