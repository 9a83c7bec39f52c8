-- ===== src/Hierarchy/Adding/Edges.antt =====
-- Adding an edge between two roles that have entries.
use mathlib.Core.Path.{subst}
use go_permissions.Base.{
  contains_string-filter, String, ◌≡◌, ◌≢◌, ◌⊎◌, inl, inr, sym, refl, false, not, List, [], ◌∷◌,
  none, arith, ◌==◌, ◌||◌, ◌&&◌, eq_iff, eq_refl, text_cases, Bool-cases, contains_string,
}
use go_permissions.Base.Maps.{Map, get, put, get-put, keys}
use go_permissions.Base.Sets.{
  set_add, add_all, get_set, get_set-put, contains-set_add, contains-add_all, contains-keys,
}
use go_permissions.Hierarchy.{Hierarchy, add_edge, ancestors_of, spread}
use go_permissions.Hierarchy.Reach.{
  Edge, Reach, here, step, Reach-trans, Reach-mono, Known, IsClosed,
}
use go_permissions.Hierarchy.Adding.Roles.{
  ensured, ensured-IsClosed, ensured-Known, ensured-Known_old,
}

-- After the loop an ancestor has its old descendants and the new ones.
contains-spread :
    (m : Map (List String)) (ancestors fresh : List String) (a d : String)
    → contains_string (get_set (spread m ancestors fresh) a) d ≡ (
        contains_string (get_set m a) d || (contains_string ancestors a && contains_string fresh d))
unfolding spread contains_string
contains-spread m [] fresh a d = ground arith
contains-spread m (x ∷ ancestors) fresh a d = ground (
  arith,
  contains-spread (put m x (add_all (get_set m x) fresh)) ancestors fresh a d,
  get_set-put m x a (add_all (get_set m x) fresh),
  contains-add_all (get_set m x) fresh d,
  eq_iff x a,
)

get-spread :
    (m : Map (List String)) (ancestors fresh : List String) (a : String)
    → get m a ≢ none
    → get (spread m ancestors fresh) a ≢ none
unfolding spread
get-spread m [] fresh a known = known
get-spread m (x ∷ ancestors) fresh a known =
    get-spread (put m x (add_all (get_set m x) fresh)) ancestors fresh a
      λ e. known (ground (arith, get-put m x a (add_all (get_set m x) fresh), eq_iff x a))

contains-ancestors_of :
    (m : Map (List String)) (p a : String)
    → contains_string (ancestors_of m p) a
      ≡ (p == a || (contains_string (get_set m a) p && not (a == p)))
unfolding ancestors_of contains_string get_set
contains-ancestors_of m p a = ground (
  arith,
  contains_string-filter (λ x. contains_string (get_set m x) p && not (x == p)) (keys m) a,
  contains-keys m a,
)

get-spread_other :
    (m : Map (List String)) (ancestors fresh : List String) (a : String)
    → contains_string ancestors a ≡ false
    → get (spread m ancestors fresh) a ≡ get m a
unfolding spread contains_string
get-spread_other m [] fresh a absent = refl
get-spread_other m (x ∷ ancestors) fresh a absent = ground (
  arith,
  get-spread_other (put m x (add_all (get_set m x) fresh)) ancestors fresh a,
  get-put m x a (add_all (get_set m x) fresh),
  eq_iff x a,
)

-- The state after the edge, where both roles have entries.
abbrev linked : Hierarchy → String → String → Hierarchy
linked h p c = record {
  inheritance = put h.inheritance p (set_add (get_set h.inheritance p) c);
  closure = spread h.closure (ancestors_of h.closure p) (get_set h.closure c);
}

module _ (h : Hierarchy) (p c : String) where
  linked-closure :
      (a d : String)
      → contains_string (get_set (linked h p c).closure a) d ≡ (
          contains_string (get_set h.closure a) d
          || ((p == a || (contains_string (get_set h.closure a) p && not (a == p)))
              && contains_string (get_set h.closure c) d))
  linked-closure a d = ground (
    arith,
    contains-spread h.closure (ancestors_of h.closure p) (get_set h.closure c) a d,
    contains-ancestors_of h.closure p a,
  )

  linked-inheritance :
      (a b : String)
      → contains_string (get_set (linked h p c).inheritance a) b
        ≡ (contains_string (get_set h.inheritance a) b || (p == a && c == b))
  linked-inheritance a b = ground (
    arith,
    get_set-put h.inheritance p a (set_add (get_set h.inheritance p) c),
    contains-set_add (get_set h.inheritance p) c b,
    eq_iff p a,
  )

  -- every old edge is kept
  pub linked_mono : (a b : String) → Edge h.inheritance a b → Edge (linked h p c).inheritance a b
  linked_mono a b e = ground (arith, linked-inheritance a b)

  pub linked-Edge : Edge (linked h p c).inheritance p c
  linked-Edge = ground (arith, linked-inheritance p c, eq_refl p, eq_refl c)

  linked-Known : (a : String) → Known h a → Known (linked h p c) a
  linked-Known a = get-spread h.closure (ancestors_of h.closure p) (get_set h.closure c) a

module _ (h : Hierarchy) (p c : String) (v : IsClosed h) (kp : Known h p) (kc : Known h c) where
  Known-linked : (a : String) → Known (linked h p c) a → Known h a
  unfolding get_set contains_string
  Known-linked a known e = known (
      ground (
        arith,
        get-spread_other h.closure (ancestors_of h.closure p) (get_set h.closure c) a,
        contains-ancestors_of h.closure p a,
        eq_iff p a,
        λ (q : p ≡ a). kp (rw q e),
      ))

  -- the way over the new edge
  over-Edge :
      (a d : String)
      → Reach h.inheritance a p
      → Edge h.closure c d
      → Reach (linked h p c).inheritance a d
  over-Edge a d r e =
      Reach-trans (Reach-mono (linked_mono h p c) r)
        (step (linked-Edge h p c) (Reach-mono (linked_mono h p c) (v.sound c d e)))

  linked_sound :
      (a d : String) → Edge (linked h p c).closure a d → Reach (linked h p c).inheritance a d
  linked_sound a d e = elim (Bool-cases (contains_string (get_set h.closure a) d)) [
    | inl old ↦ Reach-mono (linked_mono h p c) (v.sound a d old)
    | inr new ↦
        let child : Edge h.closure c d = ground (arith, linked-closure h p c a d) in
        elim (text_cases p a) [
          | inl same ↦ over-Edge a d (rw same here) child
          | inr other ↦ over-Edge a d (v.sound a p (ground (arith, linked-closure h p c a d))) child
        ]
  ]

  -- what an ancestor of the parent gains
  ancestor-Edge :
      (a d : String) → Edge h.closure a p → Edge h.closure c d → Edge (linked h p c).closure a d
  ancestor-Edge a d e f = ground (arith, linked-closure h p c a d, eq_iff p a, eq_iff a p)

  old_step :
      (a b d : String)
      → Known h a
      → Edge h.inheritance a b
      → Edge (linked h p c).closure b d
      → Edge (linked h p c).closure a d
  old_step a b d ka e f = elim (Bool-cases (contains_string (get_set h.closure b) d)) [
    | inl old ↦
        let whole : Edge h.closure a d = v.complete a d ka (step e (v.sound b d old)) in
        ground (arith, linked-closure h p c a d)
    | inr new ↦
        let child : Edge h.closure c d = ground (arith, linked-closure h p c b d) in
        elim (text_cases p b) [
          | inl same ↦ ancestor-Edge a d (v.complete a p ka (step e (rw same here))) child
          | inr other ↦
              let up : Edge h.closure b p = ground (arith, linked-closure h p c b d) in
              ancestor-Edge a d (v.complete a p ka (step e (v.sound b p up))) child
        ]
  ]

  new_step :
      (a b d : String)
      → p ≡ a
      → c ≡ b
      → Edge (linked h p c).closure b d
      → Edge (linked h p c).closure a d
  new_step a b d same_p same_c f =
      let f' : Edge (linked h p c).closure c d =
        subst (λ x. Edge (linked h p c).closure x d) (sym same_c) f in
      let child : Edge h.closure c d = ground (arith, linked-closure h p c c d) in
      ground (arith, linked-closure h p c a d, eq_iff p a)

  linked_complete :
      {a d : String}
      → Known h a
      → Reach (linked h p c).inheritance a d
      → Edge (linked h p c).closure a d
  linked_complete ka (here {a = a}) =
      let own : Edge h.closure a a = v.complete a a ka here in
      ground (arith, linked-closure h p c a a)
  linked_complete ka (step {a = a} {b = b} {d = d} e r) =
      elim (Bool-cases (contains_string (get_set h.inheritance a) b)) [
        | inl old ↦ old_step a b d ka old (linked_complete (v.ends a b old).1 r)
        | inr new ↦
            let same_p : p ≡ a = ground (arith, linked-inheritance h p c a b, eq_iff p a) in
            let same_c : c ≡ b = ground (arith, linked-inheritance h p c a b, eq_iff c b) in
            new_step a b d same_p same_c (linked_complete (rw (← same_c) kc) r)
      ]

  linked_ends :
      (a b : String)
      → Edge (linked h p c).inheritance a b
      → Known (linked h p c) a × Known (linked h p c) b
  linked_ends a b e = elim (Bool-cases (contains_string (get_set h.inheritance a) b)) [
    | inl old ↦ let (ka, kb) = v.ends a b old in (linked-Known h p c a ka, linked-Known h p c b kb)
    | inr new ↦
        let same_p : p ≡ a = ground (arith, linked-inheritance h p c a b, eq_iff p a) in
        let same_c : c ≡ b = ground (arith, linked-inheritance h p c a b, eq_iff c b) in
        (linked-Known h p c a (rw (← same_p) kp), linked-Known h p c b (rw (← same_c) kc))
  ]

  pub linked-IsClosed : IsClosed (linked h p c)
  linked-IsClosed = record {
    sound = linked_sound;
    complete = λ a d known r. linked_complete (Known-linked a known) r;
    ends = linked_ends;
  }

module _ (h : Hierarchy) (p c : String) where
  abbrev both : Hierarchy
  both = ensured (ensured h p) c

  add_edge_cases :
      ((Edge h.inheritance p c) × (add_edge h p c ≡ h)) ⊎ (add_edge h p c ≡ linked both p c)
  unfolding add_edge
  add_edge_cases = elim (Bool-cases (contains_string (get_set h.inheritance p) c)) [
    | inl e ↦ inl (e, ground arith)
    | inr e ↦ inr (ground arith)
  ]

  -- Adding an edge keeps an exact closure exact, with cycles too.
  pub add_edge-IsClosed : IsClosed h → IsClosed (add_edge h p c)
  add_edge-IsClosed v = elim add_edge_cases [
    | inl (_, e) ↦ rw e v
    | inr e ↦ rw e (
        linked-IsClosed both p c (ensured-IsClosed (ensured h p) c (ensured-IsClosed h p v))
          (ensured-Known_old (ensured h p) c p (ensured-Known h p)) (ensured-Known (ensured h p) c))
  ]

  -- After the call the edge is there, and so are the old ones.
  pub add_edge-Edge :
      Edge (add_edge h p c).inheritance p c
      × ((a b : String) → Edge h.inheritance a b → Edge (add_edge h p c).inheritance a b)
  add_edge-Edge = elim add_edge_cases [
    | inl (old, e) ↦ rw e (old, λ a b f. f)
    | inr e ↦ rw e (linked-Edge both p c, linked_mono both p c)
  ]
