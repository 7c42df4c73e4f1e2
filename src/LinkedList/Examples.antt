-- ===== src/LinkedList/Examples.antt =====
-- The list operations at a list of two nodes, 2 and 3, at head 1, and one of a node 5 at head 4.
use pcfs.Base.{ℕ, ◌≡◌, refl, [], ◌∷◌, some, arith, ◌==◌, if◌then◌else◌}
use pcfs.LinkedList.{Node, Store, null, list_add, list_del, list_for_each, list_for_each_prev}
use pcfs.LinkedList.Ring.{Represents, Apart}
use pcfs.LinkedList.Delete.{list_del-Represents}
use pcfs.LinkedList.Traverse.{list_for_each-Represents}

abbrev node : ℕ → ℕ → Node
node n p = record { next = n; prev = p }

abbrev two_lists : Store
two_lists a =
    if a == 1
    then node 2 3
    else if a == 2
    then node 3 1
    else if a == 3
    then node 1 2
    else if a == 4
    then node 5 5
    else if a == 5
    then node 4 4
    else node 0 0

first_list : Represents two_lists 1 (2 ∷ 3 ∷ [])
first_list = record {
  links = (refl, refl, (refl, refl, (refl, refl)));
  distinct = (refl, (refl, (refl, tt)));
}

second_list : Represents two_lists 4 (5 ∷ [])
second_list = record { links = (refl, refl, (refl, refl)); distinct = (refl, (refl, tt)) }

lists-Apart : Apart (1 ∷ 2 ∷ 3 ∷ []) (4 ∷ 5 ∷ [])
lists-Apart p m = ground arith

back-Apart : Apart (4 ∷ 5 ∷ []) (1 ∷ 2 ∷ 3 ∷ [])
back-Apart p m = ground arith

list_del-Represents_example :
    Represents (list_del 2 two_lists) 1 (3 ∷ [])
    × ((list_del 2 two_lists 2).next ≡ null)
    × ((list_del 2 two_lists 2).prev ≡ null)
list_del-Represents_example = list_del-Represents [] 2 (3 ∷ []) first_list

list_for_each-Represents_example : list_for_each 3 1 two_lists ≡ some (2 ∷ 3 ∷ [])
list_for_each-Represents_example = list_for_each-Represents 3 first_list (omega arith)

-- The operations run.
add_then_walk : list_for_each 5 1 (list_add 9 1 two_lists) ≡ some (9 ∷ 2 ∷ 3 ∷ [])
unfolding list_for_each list_add
add_then_walk = refl

walk_back : list_for_each_prev 5 1 two_lists ≡ some (3 ∷ 2 ∷ [])
unfolding list_for_each_prev
walk_back = refl
