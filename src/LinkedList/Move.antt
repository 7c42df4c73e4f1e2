-- ===== src/LinkedList/Move.antt =====
-- list_move and list_move_tail take a node from one list to the front or the end of another.
use pcfs.Base.{
  ℕ, ◌≡◌, refl, true, false, List, [], ◌∷◌, ◌++◌, arith, has, has-append, has-ne, Distinct-mid,
}
use pcfs.LinkedList.{Store, list_del_between, list_move, list_move_tail}
use pcfs.LinkedList.Ring.{Represents, has-prev, has-next, Apart, Represents-same, Links-split}
use pcfs.LinkedList.Insert.{list_add-Represents, list_add_tail-Represents, list_add-same}
use pcfs.LinkedList.Delete.{del-Represents}

module _ {h : Store} {from to : ℕ} (xs : List ℕ) (x : ℕ) (ys zs : List ℕ)
    (r : Represents h from (xs ++ x ∷ ys)) (s : Represents h to zs)
    (apart : Apart (to ∷ zs) (from ∷ xs ++ x ∷ ys)) where
  abbrev taken : Store
  taken = list_del_between (h x).prev (h x).next h

  taken-from : Represents taken from (xs ++ ys)
  taken-from = del-Represents h taken from xs x ys r (λ p ne. refl)

  taken-same : (p : ℕ) → has p (to ∷ zs) ≡ true → taken p ≡ h p
  unfolding list_del_between
  taken-same p m =
      let l = Links-split h from xs x ys from r.links in
      ground (
        arith,
        apart p,
        has-append p xs (x ∷ ys),
        has-prev h from xs x l.0,
        has-next h x ys from l.1,
        has-ne p (h x).prev,
        has-ne p (h x).next,
      )

  taken-to : Represents taken to zs
  taken-to = Represents-same {h = h} s taken-same

  x_out : has x (to ∷ zs) ≡ false
  x_out = ground (arith, apart x, has-append x xs (x ∷ ys))

  rest_apart : (p : ℕ) → has p (from ∷ xs ++ ys) ≡ true → has p (x ∷ to ∷ zs) ≡ false
  rest_apart p m = ground (
    arith,
    apart p,
    has-append p xs (x ∷ ys),
    has-append p xs ys,
    r.distinct,
    Distinct-mid xs x ys r.distinct.1,
    has-ne p x (from ∷ xs ++ ys),
    has-append x xs ys,
    has-append from xs (x ∷ ys),
  )

  -- `list_move` takes the node out of its list and puts it first in the other.
  pub list_move-Represents :
      Represents (list_move x to h) from (xs ++ ys) × Represents (list_move x to h) to (x ∷ zs)
  unfolding list_move
  list_move-Represents = (
    Represents-same {h = taken} taken-from
        (λ p m. (list_add-same {h = taken} x p taken-to (rest_apart p m)).0),
    list_add-Represents {h = taken} x taken-to x_out,
  )

  -- `list_move_tail` takes the node out of its list and puts it last in the other.
  pub list_move_tail-Represents :
      Represents (list_move_tail x to h) from (xs ++ ys)
      × Represents (list_move_tail x to h) to (zs ++ x ∷ [])
  unfolding list_move_tail
  list_move_tail-Represents = (
    Represents-same {h = taken} taken-from
        (λ p m. (list_add-same {h = taken} x p taken-to (rest_apart p m)).1),
    list_add_tail-Represents {h = taken} x taken-to x_out,
  )
