-- ===== src/Hierarchy/Deleting.antt =====
-- What DeleteRole leaves of the closure.
use go_permissions.Base.{
  String, ◌≡◌, refl, not, List, [], ◌∷◌, arith, ◌==◌, ◌&&◌, eq_iff, contains_string,
}
use go_permissions.Base.Maps.{Map, delete, get}
use go_permissions.Base.Sets.{get_set, contains-set_delete, get_set-delete}
use go_permissions.Hierarchy.{Hierarchy, delete_in_all, delete_role}

contains-delete_in_all :
    (m : Map (List String)) (id a d : String)
    → contains_string (get_set (delete_in_all m id) a) d
      ≡ (contains_string (get_set m a) d && not (d == id))
unfolding delete_in_all get_set get contains_string
contains-delete_in_all [] id a d = refl
contains-delete_in_all ((k, set) ∷ m) id a d =
    ground (arith, contains-delete_in_all m id a d, contains-set_delete set id d, eq_iff k a)

-- After DeleteRole the closure holds what it held, but for the role itself on either side.
pub delete_role-closure :
    (h : Hierarchy) (id a d : String)
    → contains_string (get_set (delete_role h id).closure a) d
      ≡ (not (id == a) && contains_string (get_set h.closure a) d && not (d == id))
unfolding delete_role contains_string
delete_role-closure h id a d = ground (
  arith,
  contains-delete_in_all (delete h.closure id) id a d,
  get_set-delete h.closure id a,
  eq_iff id a,
)

pub delete_role-inheritance :
    (h : Hierarchy) (id a d : String)
    → contains_string (get_set (delete_role h id).inheritance a) d
      ≡ (not (id == a) && contains_string (get_set h.inheritance a) d && not (d == id))
unfolding delete_role contains_string
delete_role-inheritance h id a d = ground (
  arith,
  contains-delete_in_all (delete h.inheritance id) id a d,
  get_set-delete h.inheritance id a,
  eq_iff id a,
)
