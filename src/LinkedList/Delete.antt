-- ===== src/LinkedList/Delete.antt =====
-- list_del and list_del_init take one node out and close the gap.
use pcfs.Base.{
  ℕ, ◌≡◌, true, false, List, [], ◌∷◌, ◌++◌, arith, ◌==◌, has, Distinct, has-append,
  Distinct-drop_mid, Distinct-mid, has-ne, ap, ◌↔◌,
}
use pcfs.LinkedList.{Node, Store, null, list_del_between, list_del, list_del_init, list_empty}
use pcfs.LinkedList.Ring.{Links, Represents, frame, has-prev, has-next, Links-split}

-- `x` is the first node of the segment.
del_first-Links :
    (h : Store) (a x : ℕ) (ys : List ℕ) (b : ℕ)
    → Links h a (x ∷ ys) b
    → Distinct (a ∷ x ∷ ys)
    → has b (x ∷ ys) ≡ false
    → Links (list_del_between (h x).prev (h x).next h) a ys b
unfolding list_del_between
del_first-Links h a x [] b l d out = ground arith
del_first-Links h a x (y ∷ ys) b l d out = (
  ground arith,
  ground arith,
  frame {h = h} y ys b l.2.2 (λ p m. ground arith) (λ p m. ground arith),
)

del-Links :
    (h : Store) (a : ℕ) (xs : List ℕ) (x : ℕ) (ys : List ℕ) (b : ℕ)
    → Links h a (xs ++ x ∷ ys) b
    → Distinct (a ∷ xs ++ x ∷ ys)
    → has b (xs ++ x ∷ ys) ≡ false
    → Links (list_del_between (h x).prev (h x).next h) a (xs ++ ys) b
unfolding list_del_between
del-Links h a [] x ys b l d out = del_first-Links h a x ys b l d out
del-Links h a (y ∷ xs) x ys b l d out =
    let s = Links-split h y xs x ys b l.2 in
    let mid = Distinct-mid xs x ys d.1.1 in
    (
      ground (arith, has-prev h y xs x s.0, has-append a xs (x ∷ ys)),
      ground (arith, has-next h x ys b s.1, has-append y xs (x ∷ ys), has-append b xs (x ∷ ys)),
      del-Links h y xs x ys b l.2 d.1 (ground arith),
    )

-- `x` leaves the list at `head`, also where its own two pointers are written afterwards.
pub del-Represents :
    (h g : Store) (head : ℕ) (xs : List ℕ) (x : ℕ) (ys : List ℕ)
    → Represents h head (xs ++ x ∷ ys)
    → ((p : ℕ) → (p == x) ≡ false → g p ≡ list_del_between (h x).prev (h x).next h p)
    → Represents g head (xs ++ ys)
del-Represents h g head xs x ys r same = record {
  links =
      frame {h = list_del_between (h x).prev (h x).next h} head (xs ++ ys) head
        (del-Links h head xs x ys head r.links r.distinct r.distinct.0)
        (λ p m. ap (λ (n : Node). n.next) (same p (has-ne p x (head ∷ xs ++ ys) m out)))
        (λ p m. ap (λ (n : Node). n.prev) (same p (has-ne p x (head ∷ xs ++ ys) m out)));
  distinct = (
    ground (arith, has-append head xs ys, has-append head xs (x ∷ ys), r.distinct),
    Distinct-drop_mid xs x ys r.distinct.1,
  );
}
  where
    out : has x (head ∷ xs ++ ys) ≡ false
    out = ground (
      arith,
      r.distinct,
      has-append head xs (x ∷ ys),
      has-append x xs ys,
      Distinct-mid xs x ys r.distinct.1,
    )

-- `list_del` takes the node out and leaves null pointers in it.
pub list_del-Represents :
    {h : Store} {head : ℕ} (xs : List ℕ) (x : ℕ) (ys : List ℕ)
    → Represents h head (xs ++ x ∷ ys)
    → Represents (list_del x h) head (xs ++ ys)
      × ((list_del x h x).next ≡ null)
      × ((list_del x h x).prev ≡ null)
unfolding list_del
list_del-Represents {h} {head} xs x ys r = (
  del-Represents h (list_del x h) head xs x ys r (λ p ne. ground arith),
  ground arith,
  ground arith,
)

-- `list_del_init` takes the node out and makes it an empty list of its own.
pub list_del_init-Represents :
    {h : Store} {head : ℕ} (xs : List ℕ) (x : ℕ) (ys : List ℕ)
    → Represents h head (xs ++ x ∷ ys)
    → Represents (list_del_init x h) head (xs ++ ys) × Represents (list_del_init x h) x []
unfolding list_del_init
list_del_init-Represents {h} {head} xs x ys r =
    (del-Represents h (list_del_init x h) head xs x ys r (λ p ne. ground arith), ground arith)

-- `list_empty` decides whether the list holds a node.
pub list_empty-Represents :
    {h : Store} {head : ℕ} (xs : List ℕ)
    → Represents h head xs
    → (list_empty head h ≡ true) ↔ (xs ≡ [])
unfolding list_empty
list_empty-Represents [] r = ground (arith, r.links)
list_empty-Represents (x ∷ xs) r = ground (arith, r.links, r.distinct)
