-- ===== src/CachedStore/History.antt =====
-- Reads and writes through the caching store, one after another.
use go_permissions.Base.{
  ℕ, ◌≤◌, ◌≡◌, ◌∙◌, refl, ap, String, List, [], ◌∷◌, Option, none, some, arith,
}
use go_permissions.Base.Maps.{Map}
use go_permissions.Base.Results.{Error, Result, ok, err}
use go_permissions.Types.{ℤ, Grant, PrincipalRef, Role, Value}
use go_permissions.CachedStore.{
  PermissionStore, Answer, Query, make_key, GoCache, Store, new_store_with_ttl,
}
use go_permissions.CachedStore.Keys.{IsMarshal}
use go_permissions.CachedStore.Methods
use go_permissions.CachedStore.Methods.{after_write}
use go_permissions.CachedStore.Staleness.{IsCache, IsFresh, Recent, Reads, answer, ask, ask-Reads}

-- a write, by the method that is called
pub data Write : Type 0 where
  new_grant : Grant → Write
  assign : PrincipalRef → String → List Role → Map Value → Write
  unassign : PrincipalRef → String → List Role → Map Value → Write
  new_role : Role → Write
  set_role : Role → Write
  drop_role : String → Write
  inherit : String → String → Write
  drop_grants : String → String → Write
  disable : String → Write
  enable : String → Write

pub data Call : Type 0 where
  read : Query → Call
  write : Write → Call

module _ {S : Type 0} (b : PermissionStore S) where
  -- the write on the base itself
  abbrev pub change : S → Write → S × Option Error
  change s (new_grant g) = b.create_grant s g
  change s (assign p i bs vs) = b.assign_role s p i bs vs
  change s (unassign p i bs vs) = b.unassign_role s p i bs vs
  change s (new_role r) = b.create_role s r
  change s (set_role r) = b.update_role s r
  change s (drop_role i) = b.delete_role s i
  change s (inherit p c) = b.add_role_inheritance s p c
  change s (drop_grants k i) = b.delete_grants_for_owner s k i
  change s (disable i) = b.disable_built_in_role s i
  change s (enable i) = b.enable_built_in_role s i

  -- What is relied on of the base: a write that fails changes nothing.
  abbrev pub IsAtomic : Type 0
  IsAtomic = (s : S) (w : Write) (e : Error) → (change s w).1 ≡ some e → (change s w).0 ≡ s

  -- the base after the writes among the calls
  abbrev pub changed : S → List (ℕ × Call) → S
  changed s [] = s
  changed s ((t, read q) ∷ calls) = changed s calls
  changed s ((t, write w) ∷ calls) = changed (change s w).0 calls

-- The calls come in the order of time, from `clock` to `now`.
abbrev pub Ordered : ℕ → List (ℕ × Call) → ℕ → Type 0
Ordered clock [] now = clock ≤ now
Ordered clock ((t, call) ∷ calls) now = (clock ≤ t) × Ordered t calls now

-- the reads among the calls are asked
abbrev pub AllAsked : (Query → Type 0) → List (ℕ × Call) → Type 0
AllAsked Asked [] = Unit
AllAsked Asked ((t, read q) ∷ calls) = Asked q × AllAsked Asked calls
AllAsked Asked ((t, write w) ∷ calls) = AllAsked Asked calls

module _ {S C : Type 0} (b : PermissionStore S) (gc : GoCache C) (marshal : Query → Option String)
    (cached : IsCache gc) (Asked : Query → Type 0) (keys : IsMarshal marshal Asked) where
  -- a write through the store
  abbrev pub perform : Store S C → Write → Store S C × Option Error
  perform s (new_grant g) = Methods.create_grant b gc marshal s g
  perform s (assign p i bs vs) = Methods.assign_role b gc marshal s p i bs vs
  perform s (unassign p i bs vs) = Methods.unassign_role b gc marshal s p i bs vs
  perform s (new_role r) = Methods.create_role b gc marshal s r
  perform s (set_role r) = Methods.update_role b gc marshal s r
  perform s (drop_role i) = Methods.delete_role b gc marshal s i
  perform s (inherit p c) = Methods.add_role_inheritance b gc marshal s p c
  perform s (drop_grants k i) = Methods.delete_grants_for_owner b gc marshal s k i
  perform s (disable i) = Methods.disable_built_in_role b gc marshal s i
  perform s (enable i) = Methods.enable_built_in_role b gc marshal s i

  perform_lem :
      (s : Store S C) (w : Write) → perform s w ≡ after_write b gc marshal s (change b s.base w)
  unfolding Methods.create_grant Methods.assign_role Methods.unassign_role Methods.create_role
      Methods.update_role Methods.delete_role Methods.add_role_inheritance
      Methods.delete_grants_for_owner Methods.disable_built_in_role Methods.enable_built_in_role
  perform_lem s (new_grant g) = refl
  perform_lem s (assign p i bs vs) = refl
  perform_lem s (unassign p i bs vs) = refl
  perform_lem s (new_role r) = refl
  perform_lem s (set_role r) = refl
  perform_lem s (drop_role i) = refl
  perform_lem s (inherit p c) = refl
  perform_lem s (drop_grants k i) = refl
  perform_lem s (disable i) = refl
  perform_lem s (enable i) = refl

  -- what a write leaves
  abbrev pub Written : Store S C → ℕ → S → Store S C → Type 0
  Written s clock base t =
      IsFresh b gc marshal cached Asked keys t clock × (t.base ≡ base) × (t.ttl ≡ s.ttl)

  after_write-Written :
      (s : Store S C) (clock : ℕ) (o : S × Option Error)
      → ((e : Error) → o.1 ≡ some e → o.0 ≡ s.base)
      → IsFresh b gc marshal cached Asked keys s clock
      → Written s clock o.0 (after_write b gc marshal s o).0
  unfolding after_write Methods.invalidate_all
  after_write-Written s clock (base, some e) same v = (
    λ q now a asked found.
        let (t, before, young, old) = v q now a asked found in
        (
          t,
          before,
          young,
          ap (λ x. answer b gc marshal cached Asked keys x q t) (same e refl) ∙ old,
        ),
    refl,
    refl,
  )
  after_write-Written s clock (base, none) same v = (
    λ q now a asked found. absurd (ground (arith, cached.flushed s.cache (make_key marshal q) now)),
    refl,
    refl,
  )

  perform-Written :
      IsAtomic b
      → (s : Store S C) (clock : ℕ) (w : Write) → IsFresh b gc marshal cached Asked keys s clock
      → Written s clock (change b s.base w).0 (perform s w).0
  perform-Written atomic s clock w v =
      rw (perform_lem s w)
        (after_write-Written s clock (change b s.base w) (λ e failed. atomic s.base w e failed) v)

  later-IsFresh :
      (s : Store S C) (clock now : ℕ)
      → clock ≤ now
      → IsFresh b gc marshal cached Asked keys s clock
      → IsFresh b gc marshal cached Asked keys s now
  later-IsFresh s clock now later v q at a asked found =
      let (t, before, young, old) = v q at a asked found in (t, omega arith, young, old)

  -- the store after some calls
  abbrev pub run : Store S C → List (ℕ × Call) → Store S C
  run s [] = s
  run s ((t, read q) ∷ calls) = run (ask b gc marshal cached Asked keys s q t).0 calls
  run s ((t, write w) ∷ calls) = run (perform s w).0 calls

  abbrev After : Store S C → List (ℕ × Call) → ℕ → Type 0
  After s calls now =
      IsFresh b gc marshal cached Asked keys (run s calls) now
      × ((run s calls).base ≡ changed b s.base calls)
      × ((run s calls).ttl ≡ s.ttl)

  -- a recent answer, or the error of the base itself
  abbrev pub Justified : S → ℕ → ℕ → Query → Result Answer → Type 0
  Justified base ttl now q (ok a) = Recent b gc marshal cached Asked keys base ttl now q a
  Justified base ttl now q (err e) = answer b gc marshal cached Asked keys base q now ≡ err e

  justified :
      (s : Store S C) (now : ℕ) (q : Query) (o : Store S C × Result Answer)
      → Reads b gc marshal cached Asked keys s now q o
      → Justified s.base s.ttl now q o.1
  justified s now q (t, ok a) (_, _, _, good, bad) = good a refl
  justified s now q (t, err e) (_, _, _, good, bad) = bad e refl

  moved :
      {base base' : S} {ttl ttl' : ℕ} (now : ℕ) (q : Query) (r : Result Answer)
      → base ≡ base'
      → ttl ≡ ttl'
      → Justified base ttl now q r
      → Justified base' ttl' now q r
  moved now q r same same' j = rw (← same, ← same') j

  module _ (atomic : IsAtomic b) where
    run_lem :
        (calls : List (ℕ × Call)) (s : Store S C) (clock now : ℕ)
        → IsFresh b gc marshal cached Asked keys s clock
        → Ordered clock calls now
        → AllAsked Asked calls
        → After s calls now
    run_lem [] s clock now v order asked = (later-IsFresh s clock now order v, refl, refl)
    run_lem ((t, read q) ∷ calls) s clock now v order asked =
        let (v', same, ttl', _, _) =
          ask-Reads b gc marshal cached Asked keys s q clock t asked.0 v order.0 in
        let (v'', same', ttl'') =
          run_lem calls (ask b gc marshal cached Asked keys s q t).0 t now v' order.1 asked.1 in
        (v'', same' ∙ ap (λ x. changed b x calls) same, ttl'' ∙ ttl')
    run_lem ((t, write w) ∷ calls) s clock now v order asked =
        let (v', same, ttl') = perform-Written atomic s clock w v in
        let (v'', same', ttl'') =
          run_lem calls (perform s w).0 t now (later-IsFresh (perform s w).0 clock t order.0 v')
            order.1 asked in
        (v'', same' ∙ ap (λ x. changed b x calls) same, ttl'' ∙ ttl')

    -- A read through the caching store answers as the base does. After any calls in the order of time, from a new store on,
    -- the answer to a read is one that the base, in the state after all those writes, gives itself (copied, a nil map of
    -- variables becoming an empty one) at some moment, no later than the read and no earlier than the time to live before
    -- it; and an error is the base's own at this moment. This holds where the base changes nothing when a write fails, where
    -- an entry that go-cache finds is the last one set for its key, no older than its time to live, and a new or emptied
    -- cache has none, and where `json.Marshal` encodes the arguments of the reads that are asked, and different ones of one
    -- method differently.
    pub cached_answers :
        (base : S) (ttl : ℤ) (calls : List (ℕ × Call)) (now : ℕ)
        → Ordered 0 calls now
        → AllAsked Asked calls
        → (q : Query) → Asked q
        → Justified
            (changed b base calls)
            (new_store_with_ttl gc base ttl).ttl
            now
            q
            (ask b gc marshal cached Asked keys
              (run (new_store_with_ttl gc base ttl) calls)
              q
              now).1
    unfolding new_store_with_ttl
    cached_answers base ttl calls now order all_asked q asked =
        let start = new_store_with_ttl gc base ttl in
        let fresh : IsFresh b gc marshal cached Asked keys start 0 =
          λ r at a asked found. absurd (ground (arith, cached.new (make_key marshal r) at)) in
        let (v, same, ttl') = run_lem calls start 0 now fresh order all_asked in
        let o =
          ask-Reads b gc marshal cached Asked keys (run start calls) q now now asked v
            (omega arith) in
        moved now q _ same ttl' (justified (run start calls) now q _ o)
