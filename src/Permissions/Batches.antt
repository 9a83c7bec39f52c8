-- ===== src/Permissions/Batches.antt =====
-- Any, All and Filter agree with one another, and no answer is yes after an error.
use go_permissions.Base.{
  ◌≡◌, ◌⊎◌, refl, String, Bool, true, false, not, ◌==◌, ◌&&◌, List, [], ◌∷◌, Option, none, some,
  arith, is_empty, contains_string, text_cases, inl, inr, eq_refl, Bool-cases,
}
use go_permissions.Base.Results.{ok, err, Result-cases}
use go_permissions.Types.{Request}
use go_permissions.Permissions.{
  PermissionMeta, Checker, Subject, ask, loop_any, loop_all, loop_filter, any_of, all_of, filter_of,
  extract_subject_id, with_subject, can_team, can_object, team_filter, object_filter, optional,
}

loop_any-filter :
    (can : String → Bool) (ids : List String)
    → loop_any can ids ≡ not (is_empty (loop_filter can ids))
unfolding loop_any loop_filter
loop_any-filter can [] = refl
loop_any-filter can (id ∷ ids) = ground (arith, loop_any-filter can ids)

contains-loop_filter :
    (can : String → Bool) (ids : List String) (id : String)
    → contains_string (loop_filter can ids) id ≡ (contains_string ids id && can id)
unfolding contains_string loop_filter
contains-loop_filter can [] id = refl
contains-loop_filter can (x ∷ ids) id = elim (text_cases x id) [
  | inl same ↦ rw same (elim (Bool-cases (can id)) [
    | inl t ↦ rw t (ground (arith, contains-loop_filter can ids id, eq_refl id))
    | inr t ↦ rw t (ground (arith, contains-loop_filter can ids id, eq_refl id))
  ])
  | inr other ↦ ground (arith, contains-loop_filter can ids id)
]

loop_all_filter :
    (can : String → Bool) (ids : List String) → loop_all can ids ≡ true → loop_filter can ids ≡ ids
unfolding loop_all loop_filter
loop_all_filter can [] h = refl
loop_all_filter can (id ∷ ids) h = ground (arith, loop_all_filter can ids)

loop_all_of_contains :
    (can : String → Bool) (ids : List String)
    → ((id : String) → contains_string ids id ≡ true → can id ≡ true)
    → loop_all can ids ≡ true
unfolding loop_all contains_string
loop_all_of_contains can [] h = refl
loop_all_of_contains can (id ∷ ids) h =
    let first : can id ≡ true = h id (ground (arith, eq_refl id)) in
    let rest = loop_all_of_contains can ids (λ x e. h x (ground arith)) in ground arith

module _ (p : PermissionMeta) (can : String → String → Bool) (s : Subject) (ids : List String) where
  -- Any says yes exactly when Filter keeps something.
  pub any_of-filter_of : any_of p can s ids ≡ not (is_empty (filter_of p can s ids))
  unfolding any_of filter_of with_subject
  any_of-filter_of = elim (Result-cases (extract_subject_id p.checker s)) [
    | inl (u, e) ↦ ground (arith, loop_any-filter (can u) ids)
    | inr (x, e) ↦ ground arith
  ]

  -- Where All says yes, Filter keeps the whole list.
  pub all_of-filter_of : all_of p can s ids ≡ true → filter_of p can s ids ≡ ids
  unfolding all_of filter_of with_subject
  all_of-filter_of h = elim (Result-cases (extract_subject_id p.checker s)) [
    | inl (u, e) ↦ ground (arith, loop_all_filter (can u) ids)
    | inr (x, e) ↦ ground arith
  ]

  -- Filter keeps exactly the given IDs that CanUserID accepts for the subject's user, and none if the subject has no user ID.
  pub contains-filter_of :
      (id : String)
      → contains_string (filter_of p can s ids) id
        ≡ (contains_string ids id && with_subject p s (λ u. can u id))
  unfolding filter_of with_subject contains_string
  contains-filter_of id = elim (Result-cases (extract_subject_id p.checker s)) [
    | inl (u, e) ↦ ground (arith, contains-loop_filter (can u) ids id)
    | inr (x, e) ↦ ground arith
  ]

-- the checker says yes, without an error, to what is asked of it for the subject's user
unfoldable pub says_yes : PermissionMeta → Subject → (String → Request) → Bool
says_yes p s request = elim p.checker [
  | none ↦ false
  | some c ↦ elim (extract_subject_id p.checker s) [
    | err e ↦ false
    | ok user_id ↦ elim (c.has_permission (request user_id)) [ err e ↦ false | ok b ↦ b ]
  ]
]

with_subject-can_team :
    (p : PermissionMeta) (s : Subject) (id : String)
    → with_subject p s (λ u. can_team p u id)
      ≡ says_yes p s (λ u. record { user_id = u; team_id = id; object = ""; perm = p.id })
unfolding with_subject can_team ask says_yes
with_subject-can_team p s id = ground arith

with_subject-can_object :
    (p : PermissionMeta) (s : Subject) (team : Option String) (id : String)
    → with_subject p s (λ u. can_object p u id team) ≡ (
        not (id == "")
        && says_yes p s
            (λ u. record { user_id = u; team_id = optional team; object = id; perm = p.id }))
unfolding with_subject can_object ask says_yes
with_subject-can_object p s team id = ground arith

-- TeamPermission.Filter keeps exactly the given teams for which the checker says yes, without an error, to the permission of the
-- subject's user in that team; ObjectPermission.Filter keeps exactly the given objects that are not empty and for which it says
-- so of that object in the given team. Neither keeps anything without a checker or without a user ID.
pub filters_ask :
    (p : PermissionMeta) (s : Subject) (ids : List String) (team : Option String) (id : String)
    → (contains_string (team_filter p s ids) id ≡ (
        contains_string ids id
        && says_yes p s (λ u. record { user_id = u; team_id = id; object = ""; perm = p.id })))
      × (contains_string (object_filter p s team ids) id ≡ (
          contains_string ids id
          && (not (id == "")
              && says_yes p s (λ u. record {
                user_id = u;
                team_id = optional team;
                object = id;
                perm = p.id;
              }))))
unfolding team_filter object_filter
filters_ask p s ids team id = (
  rw (← with_subject-can_team p s id) (contains-filter_of p (can_team p) s ids id),
  rw (← with_subject-can_object p s team id)
      (contains-filter_of p (λ u x. can_object p u x team) s ids id),
)

-- A permission is granted only where a checker is configured and answers yes without an error.
pub ask_granted :
    (p : PermissionMeta) (req : Request)
    → ask p req ≡ true
    → (c : Checker) × (p.checker ≡ some c) × (c.has_permission req ≡ ok true)
unfolding ask
ask_granted p req h = elim (checker_cases p.checker) [
  | inl e ↦ absurd (ground arith)
  | inr (c, e) ↦ (c, e, ground arith)
]
  where
    checker_cases : (o : Option Checker) → (o ≡ none) ⊎ ((c : Checker) × (o ≡ some c))
    checker_cases none = inl refl
    checker_cases (some c) = inr (c, refl)
