-- ===== src/Hierarchy/Adding/Roles.antt =====
-- An entry for a role: `ensure_self` and `add_role`.
use mathlib.Core.Path.{subst}
use go_permissions.Base.{
  String, ◌≡◌, ◌≢◌, ◌⊎◌, inl, inr, sym, refl, none, arith, ◌==◌, ◌||◌, ◌&&◌, eq_iff, eq_refl,
  text_cases, Option-cases, Bool-cases, contains_string,
}
use go_permissions.Base.Maps.{get, get-put}
use go_permissions.Base.Sets.{set_add, get_set, get_set-put, contains-set_add}
use go_permissions.Hierarchy.{Hierarchy, add_role, ensure_self}
use go_permissions.Hierarchy.Reach.{Edge, Reach, here, step, Known, IsClosed}

-- What an unknown role reaches is itself.
Reach-unknown :
    (h : Hierarchy) {a d : String}
    → IsClosed h
    → get h.closure a ≡ none
    → Reach h.inheritance a d
    → a ≡ d
Reach-unknown h v e here = refl
Reach-unknown h v e (step {a = a} {b = b} x r) = absurd ((v.ends a b x).0 e)

module _ (h : Hierarchy) (k : String) where
  Edge-add_role :
      (a d : String)
      → contains_string (get_set (add_role h k).closure a) d
        ≡ (contains_string (get_set h.closure a) d || (k == a && k == d))
  unfolding add_role
  Edge-add_role a d = ground (
    arith,
    get_set-put h.closure k a (set_add (get_set h.closure k) k),
    contains-set_add (get_set h.closure k) k d,
    eq_iff k a,
  )

  pub add_role-Known : (a : String) → Known h a → Known (add_role h k) a
  unfolding add_role
  add_role-Known a known e =
      known (ground (arith, get-put h.closure k a (set_add (get_set h.closure k) k), eq_iff k a))

  pub add_role-Known_self : Known (add_role h k) k
  unfolding add_role
  add_role-Known_self e =
      ground (arith, get-put h.closure k k (set_add (get_set h.closure k) k), eq_refl k)

  Known-before : (a : String) → k ≢ a → Known (add_role h k) a → Known h a
  unfolding add_role
  Known-before a other known e =
      known (ground (arith, get-put h.closure k a (set_add (get_set h.closure k) k), eq_iff k a))

module _ (h : Hierarchy) (k : String) (v : IsClosed h) where
  sound_with_role : (a d : String) → Edge (add_role h k).closure a d → Reach h.inheritance a d
  sound_with_role a d e = elim (Bool-cases (contains_string (get_set h.closure a) d)) [
    | inl old ↦ v.sound a d old
    | inr new ↦
        let same : a ≡ d = ground (arith, Edge-add_role h k a d, eq_iff k a, eq_iff k d) in
        rw same here
  ]

  self-Edge : Edge (add_role h k).closure k k
  self-Edge = ground (arith, Edge-add_role h k k k, eq_refl k)

  old-Edge : (a d : String) → Edge h.closure a d → Edge (add_role h k).closure a d
  old-Edge a d e = ground (arith, Edge-add_role h k a d)

  complete_with_role :
      (a d : String)
      → Known (add_role h k) a
      → Reach h.inheritance a d
      → Edge (add_role h k).closure a d
  complete_with_role a d known r = elim (Option-cases (get h.closure a)) [
    | inl unknown ↦ elim (text_cases k a) [
      | inl e ↦ rw (← Reach-unknown h v unknown r, ← e) self-Edge
      | inr e ↦ absurd (Known-before h k a (λ p. ground (arith, eq_iff k a)) known unknown)
    ]
    | inr (xs, e) ↦ old-Edge a d (v.complete a d (λ n. ground arith) r)
  ]

  -- Registering a role, known or not, keeps the closure exact.
  pub add_role-IsClosed : IsClosed (add_role h k)
  add_role-IsClosed = record {
    sound = λ a d e. unfold add_role in sound_with_role a d e;
    complete = λ a d known r. complete_with_role a d known (unfold add_role in r);
    ends = λ a b e.
        let (ka, kb) = v.ends a b (unfold add_role in e) in
        (add_role-Known h k a ka, add_role-Known h k b kb);
  }

-- `ensure_self` on a role with no entry is `add_role`.
abbrev pub ensured : Hierarchy → String → Hierarchy
ensured h k = record h { closure = ensure_self h.closure k }

module _ (h : Hierarchy) (k : String) where
  ensured_cases : ((get h.closure k ≢ none) × (ensured h k ≡ h)) ⊎ (ensured h k ≡ add_role h k)
  unfolding ensure_self add_role get_set set_add contains_string
  ensured_cases = elim (Option-cases (get h.closure k)) [
    | inl e ↦ inr (ground arith)
    | inr (xs, e) ↦ inl (λ n. ground arith, ground arith)
  ]

  pub ensured-IsClosed : IsClosed h → IsClosed (ensured h k)
  ensured-IsClosed v = elim ensured_cases [
    | inl (_, e) ↦ rw e v
    | inr e ↦ rw e (add_role-IsClosed h k v)
  ]

  pub ensured-Known : Known (ensured h k) k
  ensured-Known = elim ensured_cases [
    | inl (known, e) ↦ subst (λ g. Known g k) (sym e) known
    | inr e ↦ subst (λ g. Known g k) (sym e) (add_role-Known_self h k)
  ]

  pub ensured-Known_old : (a : String) → Known h a → Known (ensured h k) a
  ensured-Known_old a known = elim ensured_cases [
    | inl (_, e) ↦ subst (λ g. Known g a) (sym e) known
    | inr e ↦ subst (λ g. Known g a) (sym e) (add_role-Known h k a known)
  ]
