-- ===== src/CachedStore/Staleness.antt =====
-- How old an answer of the caching store can be.
use go_permissions.Base.{
  ℕ, ◌+◌, ◌≤◌, ◌≡◌, ◌≢◌, ◌∙◌, refl, sym, ap, String, List, [], ◌∷◌, Option, none, some, map, arith,
  inl, inr, text_cases, ne_of_test, option_intro,
}
use go_permissions.Base.Results.{Error, Result, ok, err, ◌>>=◌, Result-cases, result_intro}
use go_permissions.Types.{Grant, GrantQueryResult}
use go_permissions.CachedStore.{
  PermissionStore, Answer, roles, role, assignments, hits, grants, role_ids, principals, grant_page,
  Query, all_roles, one_role, assignments_of, holders_of, grants_of, expanded, owned, granted,
  listed, make_key, GoCache, Store, clone_grant, clone_page, as_roles, as_role, as_assignments,
  as_hits, as_grants, as_role_ids, as_principals, as_page,
}
use go_permissions.CachedStore.Keys.{IsMarshal, make_key-injective}
use go_permissions.CachedStore.Methods
use go_permissions.CachedStore.Methods.{memoize, fetch}

-- What is relied on of go-cache: an emptied cache has no entry, an entry that is found is the last one set for its key, and
-- it is not older than its time to live.
pub record IsCache {C : Type 0} (gc : GoCache C) : Type 0 where
  pub new : (k : String) (t : ℕ) → gc.get gc.empty k t ≡ none
  pub flushed : (c : C) (k : String) (t : ℕ) → gc.get (gc.flush c) k t ≡ none
  pub own :
      (c : C) (k : String) (v w : Answer) (ttl t now : ℕ)
      → gc.get (gc.set c k v ttl t) k now ≡ some w
      → (w ≡ v) × (now ≤ t + ttl)
  pub other :
      (c : C) (k j : String) (v w : Answer) (ttl t now : ℕ)
      → k ≢ j
      → gc.get (gc.set c k v ttl t) j now ≡ some w
      → gc.get c j now ≡ some w

read_back : {A : Type 0} → (Answer → Option A) → Result Answer → Option A
read_back cast (ok a) = cast a
read_back cast (err e) = none

unsome : {A : Type 0} {x y : A} → some x ≡ some y → x ≡ y
unsome e = cc

module _ {S C : Type 0} (b : PermissionStore S) (gc : GoCache C) (marshal : Query → Option String)
    (cached : IsCache gc) (Asked : Query → Type 0) (keys : IsMarshal marshal Asked) where
  -- what the base itself answers, copied
  abbrev pub answer : S → Query → ℕ → Result Answer
  answer s all_roles t = b.role_definitions s t >>= λ v. ok (roles v)
  answer s (one_role i) t = b.role_definition s i t >>= λ v. ok (role v)
  answer s (assignments_of p) t = b.role_assignments_for_principal s p t >>= λ v. ok (assignments v)
  answer s (holders_of i) t = b.role_assignments_for_role_id s i t >>= λ v. ok (hits v)
  answer s (grants_of p) t = b.grants_for_principal s p t >>= λ v. ok (grants (map clone_grant v))
  answer s (expanded ids) t = b.expand_roles s ids t >>= λ v. ok (role_ids v)
  answer s (owned ps r) t = b.grants_for_owners s ps r t >>= λ v. ok (grants (map clone_grant v))
  answer s (granted r) t = b.principals_with_grant s r t >>= λ v. ok (principals v)
  answer s (listed r) t = b.list_grants s r t >>= λ v. ok (grant_page (clone_page v))

  -- the base in this state gave the answer within the last `ttl`
  abbrev pub Recent : S → ℕ → ℕ → Query → Answer → Type 0
  Recent s ttl now q a = (t : ℕ) × (t ≤ now) × (now ≤ t + ttl) × (answer s q t ≡ ok a)

  -- every entry is an answer that the base in its present state gave, at most `ttl` before it is found
  abbrev pub IsFresh : Store S C → ℕ → Type 0
  IsFresh s clock =
      (q : Query) (now : ℕ) (a : Answer)
      → Asked q
      → gc.get s.cache (make_key marshal q) now ≡ some a
      → (t : ℕ) × (t ≤ clock) × (now ≤ t + s.ttl) × (answer s.base q t ≡ ok a)

  -- an answer is put into the cache at `now`
  set-IsFresh :
      (s : Store S C) (clock now : ℕ) (q : Query) (a : Answer)
      → Asked q
      → IsFresh s clock
      → clock ≤ now
      → answer s.base q now ≡ ok a
      → IsFresh (record s { cache = gc.set s.cache (make_key marshal q) a s.ttl now }) now
  set-IsFresh s clock now q a asked v later given r at w asked' found =
      elim (text_cases (make_key marshal q) (make_key marshal r)) [
        | inl same ↦
            let (is_it, young) = cached.own s.cache (make_key marshal q) a w s.ttl now at (
              ap (λ k. gc.get (gc.set s.cache (make_key marshal q) a s.ttl now) k at) same
              ∙ found) in
            let one = make_key-injective marshal Asked keys q r asked asked' same in
            (
              now,
              omega arith,
              young,
              sym (ap (λ x. answer s.base x now) one) ∙ given ∙ sym (ap ok is_it),
            )
        | inr differ ↦
            let (t, before, young, old) = v r at w asked' (
              cached.other s.cache (make_key marshal q) (make_key marshal r) a w s.ttl now at
                (ne_of_test (make_key marshal q) (make_key marshal r) differ) found) in
            (t, omega arith, young, old)
      ]

  -- what a read of `q` does: the store stays fresh, its base is as it was, and the answer is recent
  abbrev pub Reads : Store S C → ℕ → Query → Store S C × Result Answer → Type 0
  Reads s now q o =
      IsFresh o.0 now
      × (o.0.base ≡ s.base)
      × (o.0.ttl ≡ s.ttl)
      × ((a : Answer) → o.1 ≡ ok a → Recent s.base s.ttl now q a)
      × ((e : Error) → o.1 ≡ err e → answer s.base q now ≡ err e)

  -- a typed outcome, as an answer
  abbrev pub as_answer :
      {A : Type 0} → (A → Answer) → Store S C × Result A → Store S C × Result Answer
  as_answer wrap (s, r) = (s, r >>= λ v. ok (wrap v))

  module _ {A : Type 0} (q : Query) (cast : Answer → Option A) (wrap : A → Answer) (copy : A → A)
      (s : Store S C) (value : ℕ → Result A)
      (answers : (t : ℕ) → answer s.base q t ≡ (value t >>= λ v. ok (wrap (copy v))))
      (cast_wrap : (x : A) → cast (wrap x) ≡ some x)
      (wrap_cast : (a : Answer) (x : A) → cast a ≡ some x → a ≡ wrap x)
      (idem : (x : A) → copy (copy x) ≡ copy x) (asked : Asked q) (clock now : ℕ)
      (v : IsFresh s clock) (later : clock ≤ now) where
    -- what the base answers, as the read sees it
    got : (t : ℕ) (r : Result A) → value t ≡ r → answer s.base q t ≡ (r >>= λ x. ok (wrap (copy x)))
    got t r e = answers t ∙ ap (λ o. o >>= λ x. ok (wrap (copy x))) e

    still-IsFresh : IsFresh s now
    still-IsFresh r at a asked' found =
        let (t, before, young, old) = v r at a asked' found in (t, omega arith, young, old)

    abbrev Done : Store S C × Result A → Type 0
    Done o = Reads s now q (as_answer wrap o)

    fetch-Reads : Done (fetch b gc marshal s q cast wrap copy (value now) now)
    unfolding fetch
    fetch-Reads =
        result_intro Done (value now)
          (λ x e.
            let kept = got now (ok x) e in
            (
              set-IsFresh s clock now q (wrap (copy x)) asked v later kept,
              refl,
              refl,
              λ a same. (
                now,
                omega arith,
                omega arith,
                kept ∙ ap (λ y. ok (wrap y)) (sym (idem x)) ∙ same,
              ),
              λ f differ. absurd (ground arith),
            ))
          λ f e. (
            still-IsFresh,
            refl,
            refl,
            λ a same. absurd (ground arith),
            λ g same. got now (err f) e ∙ same,
          )

    -- an answer of the base that is cached is a copy
    copied : (t : ℕ) (x : A) → answer s.base q t ≡ ok (wrap x) → copy x ≡ x
    unfolding read_back
    copied t x given = elim (Result-cases (value t)) [
      | inr (f, e) ↦ absurd (ground (arith, got t (err f) e))
      | inl (y, e) ↦
          let casts = ap (read_back cast) (sym (got t (ok y) e) ∙ given) in
          let same : copy y ≡ x = unsome (sym (cast_wrap (copy y)) ∙ casts ∙ cast_wrap x) in
          ap copy (sym same) ∙ idem y ∙ same
    ]

    hit-Reads :
        (a : Answer) (x : A)
        → gc.get s.cache (make_key marshal q) now ≡ some a
        → cast a ≡ some x
        → Done (s, ok (copy x))
    hit-Reads a x found is_x =
        let (t, before, young, old) = v q now a asked found in
        let whole = wrap_cast a x is_x in
        let given = old ∙ ap ok whole in
        (
          still-IsFresh,
          refl,
          refl,
          λ w same. (
            t,
            omega arith,
            young,
            given ∙ ap (λ y. ok (wrap y)) (sym (copied t x given)) ∙ same,
          ),
          λ f differ. absurd (ground arith),
        )

    memoize-Reads : Done (memoize b gc marshal s q cast wrap copy (value now) now)
    unfolding memoize
    memoize-Reads =
        option_intro Done (gc.get s.cache (make_key marshal q) now) (λ missing. fetch-Reads)
          λ a found.
            option_intro Done (cast a) (λ other. fetch-Reads) λ x is_x. hit-Reads a x found is_x

  clone_grants_idem : (gs : List Grant) → map clone_grant (map clone_grant gs) ≡ map clone_grant gs
  unfolding clone_grant
  clone_grants_idem [] = refl
  clone_grants_idem (g ∷ gs) = ap (λ hs. clone_grant g ∷ hs) (clone_grants_idem gs)

  clone_page_idem : (r : GrantQueryResult) → clone_page (clone_page r) ≡ clone_page r
  unfolding clone_page
  clone_page_idem r = ap (λ gs. record r { grants = gs }) (clone_grants_idem r.grants)

  -- a read through the store, by what it asks
  abbrev pub ask : Store S C → Query → ℕ → Store S C × Result Answer
  ask s all_roles now = as_answer roles (Methods.role_definitions b gc marshal s now)
  ask s (one_role i) now = as_answer role (Methods.role_definition b gc marshal s now i)
  ask s (assignments_of p) now =
      as_answer assignments (Methods.role_assignments_for_principal b gc marshal s now p)
  ask s (holders_of i) now =
      as_answer hits (Methods.role_assignments_for_role_id b gc marshal s now i)
  ask s (grants_of p) now = as_answer grants (Methods.grants_for_principal b gc marshal s now p)
  ask s (expanded ids) now = as_answer role_ids (Methods.expand_roles b gc marshal s now ids)
  ask s (owned ps r) now = as_answer grants (Methods.grants_for_owners b gc marshal s now ps r)
  ask s (granted r) now = as_answer principals (Methods.principals_with_grant b gc marshal s now r)
  ask s (listed r) now = as_answer grant_page (Methods.list_grants b gc marshal s now r)

  pub ask-Reads :
      (s : Store S C) (q : Query) (clock now : ℕ)
      → Asked q
      → IsFresh s clock
      → clock ≤ now
      → Reads s now q (ask s q now)
  unfolding Methods.role_definitions Methods.role_definition Methods.role_assignments_for_principal
      Methods.role_assignments_for_role_id Methods.grants_for_principal Methods.expand_roles
      Methods.grants_for_owners Methods.principals_with_grant Methods.list_grants
  ask-Reads s all_roles clock now asked v later =
      memoize-Reads all_roles as_roles roles (λ x. x) s (b.role_definitions s.base) (λ t. refl)
        (λ x. refl) (λ a x e. ground arith) (λ x. refl) asked clock now v later
  ask-Reads s (one_role i) clock now asked v later =
      memoize-Reads (one_role i) as_role role (λ x. x) s (b.role_definition s.base i) (λ t. refl)
        (λ x. refl) (λ a x e. ground arith) (λ x. refl) asked clock now v later
  ask-Reads s (assignments_of p) clock now asked v later =
      memoize-Reads (assignments_of p) as_assignments assignments (λ x. x) s
        (b.role_assignments_for_principal s.base p) (λ t. refl) (λ x. refl) (λ a x e. ground arith)
        (λ x. refl) asked clock now v later
  ask-Reads s (holders_of i) clock now asked v later =
      memoize-Reads (holders_of i) as_hits hits (λ x. x) s (b.role_assignments_for_role_id s.base i)
        (λ t. refl) (λ x. refl) (λ a x e. ground arith) (λ x. refl) asked clock now v later
  ask-Reads s (grants_of p) clock now asked v later =
      memoize-Reads (grants_of p) as_grants grants (map clone_grant) s
        (b.grants_for_principal s.base p) (λ t. refl) (λ x. refl) (λ a x e. ground arith)
        clone_grants_idem asked clock now v later
  ask-Reads s (expanded ids) clock now asked v later =
      memoize-Reads (expanded ids) as_role_ids role_ids (λ x. x) s (b.expand_roles s.base ids)
        (λ t. refl) (λ x. refl) (λ a x e. ground arith) (λ x. refl) asked clock now v later
  ask-Reads s (owned ps r) clock now asked v later =
      memoize-Reads (owned ps r) as_grants grants (map clone_grant) s
        (b.grants_for_owners s.base ps r) (λ t. refl) (λ x. refl) (λ a x e. ground arith)
        clone_grants_idem asked clock now v later
  ask-Reads s (granted r) clock now asked v later =
      memoize-Reads (granted r) as_principals principals (λ x. x) s
        (b.principals_with_grant s.base r) (λ t. refl) (λ x. refl) (λ a x e. ground arith)
        (λ x. refl) asked clock now v later
  ask-Reads s (listed r) clock now asked v later =
      memoize-Reads (listed r) as_page grant_page clone_page s (b.list_grants s.base r) (λ t. refl)
        (λ x. refl) (λ a x e. ground arith) clone_page_idem asked clock now v later
