-- ===== src/LinkedList/Traverse.antt =====
-- The list_for_each loops end and visit each node once, in order.
use pcfs.Base.{ℕ, zero, suc, ◌<◌, ◌≡◌, false, List, [], ◌∷◌, arith, has, length, some, subst}
use mathlib.Core.List.{reverse, reverse-append}
use pcfs.LinkedList.{
  Store, list_for_each_from, list_for_each, list_for_each_prev_from, list_for_each_prev,
}
use pcfs.LinkedList.Ring.{Links, Represents, Links-split}

list_for_each_from-Links :
    (k : ℕ) (h : Store) (a : ℕ) (xs : List ℕ) (b : ℕ)
    → Links h a xs b
    → has b xs ≡ false
    → length xs < k
    → list_for_each_from k (h a).next b h ≡ some xs
unfolding list_for_each_from
list_for_each_from-Links zero h a xs b l out fuel = elim fuel [ ]
list_for_each_from-Links (suc k) h a [] b l out fuel = ground arith
list_for_each_from-Links (suc k) h a (x ∷ xs) b l out fuel =
    ground (arith, list_for_each_from-Links k h x xs b l.2)

-- With fuel for one round more than there are nodes, `list_for_each` visits them all in order.
pub list_for_each-Represents :
    {h : Store} {head : ℕ} {xs : List ℕ} (k : ℕ)
    → Represents h head xs
    → length xs < k
    → list_for_each k head h ≡ some xs
unfolding list_for_each
list_for_each-Represents {h} {head} {xs} k r fuel =
    list_for_each_from-Links k h head xs head r.links r.distinct.0 fuel

list_for_each_prev_from-Links :
    (k : ℕ) (h : Store) (a : ℕ) (xs : List ℕ) (b : ℕ)
    → Links h b (reverse xs) a
    → has b xs ≡ false
    → length xs < k
    → list_for_each_prev_from k (h a).prev b h ≡ some xs
unfolding list_for_each_prev_from
list_for_each_prev_from-Links zero h a xs b l out fuel = elim fuel [ ]
list_for_each_prev_from-Links (suc k) h a [] b l out fuel = ground arith
list_for_each_prev_from-Links (suc k) h a (x ∷ xs) b l out fuel =
    let s =
      Links-split h b (reverse xs) x [] a
        (subst (λ ys. Links h b ys a) (reverse-append (x ∷ []) xs) l) in
    ground (arith, s.1, list_for_each_prev_from-Links k h x xs b s.0)

-- `list_for_each_prev` visits the same nodes backwards.
pub list_for_each_prev-Represents :
    {h : Store} {head : ℕ} {xs : List ℕ} (k : ℕ)
    → Represents h head (reverse xs)
    → has head xs ≡ false
    → length xs < k
    → list_for_each_prev k head h ≡ some xs
unfolding list_for_each_prev
list_for_each_prev-Represents {h} {head} {xs} k r out fuel =
    list_for_each_prev_from-Links k h head xs head r.links out fuel
