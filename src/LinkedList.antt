-- ===== src/LinkedList.antt =====
-- list.h: circular doubly linked lists of nodes that are embedded in other structures.
-- A node's address is a number, and the store gives each address its two pointers.
pub mod Delete
mod Examples
pub mod Insert
pub mod Move
pub mod Ring
pub mod Splice
pub mod Traverse
use pcfs.Base.{ℕ, zero, suc, ◌≡◌, Bool, List, [], ◌∷◌, Option, none, some, ◌==◌, if◌then◌else◌}

abbrev pub null : ℕ
null = 0

-- struct list_head
pub record Node : Type 0 where
  pub next : ℕ
  pub prev : ℕ

abbrev pub Store : Type 0
Store = ℕ → Node

unfoldable pub set_next : ℕ → ℕ → Store → Store
set_next p q h a = if a == p then record { next = q; prev = (h a).prev } else h a

unfoldable pub set_prev : ℕ → ℕ → Store → Store
set_prev p q h a = if a == p then record { next = (h a).next; prev = q } else h a

-- INIT_LIST_HEAD
unfoldable pub init_list_head : ℕ → Store → Store
unfolding set_next set_prev
init_list_head p h = set_prev p p (set_next p p h)

-- __list_add
unfoldable pub list_add_between : ℕ → ℕ → ℕ → Store → Store
unfolding set_next set_prev
list_add_between new prev next h =
    set_next prev new (set_prev new prev (set_next new next (set_prev next new h)))

unfoldable pub list_add : ℕ → ℕ → Store → Store
unfolding list_add_between
list_add new head h = list_add_between new head (h head).next h

unfoldable pub list_add_tail : ℕ → ℕ → Store → Store
unfolding list_add_between
list_add_tail new head h = list_add_between new (h head).prev head h

-- __list_del
unfoldable pub list_del_between : ℕ → ℕ → Store → Store
unfolding set_next set_prev
list_del_between prev next h = set_next prev next (set_prev next prev h)

unfoldable pub list_del : ℕ → Store → Store
unfolding list_del_between
list_del entry h =
    set_prev entry null (set_next entry null (list_del_between (h entry).prev (h entry).next h))

unfoldable pub list_del_init : ℕ → Store → Store
unfolding list_del_between init_list_head
list_del_init entry h = init_list_head entry (list_del_between (h entry).prev (h entry).next h)

unfoldable pub list_move : ℕ → ℕ → Store → Store
unfolding list_del_between list_add
list_move list head h = list_add list head (list_del_between (h list).prev (h list).next h)

unfoldable pub list_move_tail : ℕ → ℕ → Store → Store
unfolding list_del_between list_add_tail
list_move_tail list head h =
    list_add_tail list head (list_del_between (h list).prev (h list).next h)

unfoldable pub list_empty : ℕ → Store → Bool
list_empty head h = (h head).next == head

-- __list_splice: the pointers are read before the first of the four writes.
unfoldable pub list_splice_between : ℕ → ℕ → Store → Store
unfolding set_next set_prev
list_splice_between list head h =
    let first = (h list).next in
    let last = (h list).prev in
    let at = (h head).next in
    set_prev at last (set_next last at (set_next head first (set_prev first head h)))

unfoldable pub list_splice : ℕ → ℕ → Store → Store
unfolding list_splice_between list_empty
list_splice list head h = if list_empty list h then h else list_splice_between list head h

unfoldable pub list_splice_init : ℕ → ℕ → Store → Store
unfolding list_splice_between list_empty init_list_head
list_splice_init list head h =
    if list_empty list h then h else init_list_head list (list_splice_between list head h)

-- list_for_each: the nodes that the loop visits; `none` when the fuel runs out.
unfoldable pub list_for_each_from : ℕ → ℕ → ℕ → Store → Option (List ℕ)
list_for_each_from zero pos head h = none
list_for_each_from (suc k) pos head h =
    let rest = list_for_each_from k (h pos).next head h in
    if pos == head then some [] else elim rest [ none ↦ none | some xs ↦ some (pos ∷ xs) ]

unfoldable pub list_for_each : ℕ → ℕ → Store → Option (List ℕ)
unfolding list_for_each_from
list_for_each fuel head h = list_for_each_from fuel (h head).next head h

-- list_for_each_prev
unfoldable pub list_for_each_prev_from : ℕ → ℕ → ℕ → Store → Option (List ℕ)
list_for_each_prev_from zero pos head h = none
list_for_each_prev_from (suc k) pos head h =
    let rest = list_for_each_prev_from k (h pos).prev head h in
    if pos == head then some [] else elim rest [ none ↦ none | some xs ↦ some (pos ∷ xs) ]

unfoldable pub list_for_each_prev : ℕ → ℕ → Store → Option (List ℕ)
unfolding list_for_each_prev_from
list_for_each_prev fuel head h = list_for_each_prev_from fuel (h head).prev head h
