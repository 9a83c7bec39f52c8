-- ===== src/Hierarchy/Reach.antt =====
-- What the closure is to hold: the reflexive and transitive closure of the inheritance edges.
use go_permissions.Base.{String, ◌≡◌, true, contains_string, none, ◌≢◌, List}
use go_permissions.Base.Maps.{Map, get}
use go_permissions.Base.Sets.{get_set}
use go_permissions.Hierarchy.{Hierarchy}

-- `b` is a direct child of `a`
abbrev pub Edge : Map (List String) → String → String → Type 0
Edge m a b = contains_string (get_set m a) b ≡ true

-- `d` is `a` or is inherited by it over any number of edges
pub data Reach (m : Map (List String)) : String → String → Type 0 where
  here : {a : String} → Reach m a a
  step : {a b d : String} → Edge m a b → Reach m b d → Reach m a d

pub Reach-trans : {m : Map (List String)} {a b d : String} → Reach m a b → Reach m b d → Reach m a d
Reach-trans here r = r
Reach-trans (step e q) r = step e (Reach-trans q r)

pub Reach-mono :
    {m n : Map (List String)} {a b : String}
    → ((x y : String) → Edge m x y → Edge n x y)
    → Reach m a b
    → Reach n a b
Reach-mono more here = here
Reach-mono more (step {a = x} {b = y} e q) = step (more x y e) (Reach-mono more q)

-- The role has an entry in the closure.
abbrev pub Known : Hierarchy → String → Type 0
Known h a = get h.closure a ≢ none

-- The closure holds exactly what the edges reach from the roles that it knows, and knows both ends of each edge.
pub record IsClosed (h : Hierarchy) : Type 0 where
  pub sound : (a d : String) → Edge h.closure a d → Reach h.inheritance a d
  pub complete : (a d : String) → Known h a → Reach h.inheritance a d → Edge h.closure a d
  pub ends : (a b : String) → Edge h.inheritance a b → Known h a × Known h b
