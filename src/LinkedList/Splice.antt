-- ===== src/LinkedList/Splice.antt =====
-- list_splice and list_splice_init put one list in front of another.
use pcfs.Base.{
  ℕ, ◌≡◌, true, false, List, [], ◌∷◌, ◌++◌, arith, ◌==◌, has, Distinct, has-append, has-ne, subst,
}
use pcfs.LinkedList.{Store, list_splice_between, list_splice, list_splice_init}
use pcfs.LinkedList.Ring.{Links, Represents, frame, has-prev, has-next, Apart, Represents-same}

==_self : {a b : ℕ} → a ≡ b → (a == b) ≡ true
==_self e = ground arith

-- A segment whose last node is linked on to another one.
glue :
    (h g : Store) (a : ℕ) (xs : List ℕ) (l : ℕ) (ys : List ℕ) (b : ℕ)
    → Links h a xs l
    → Distinct (a ∷ xs)
    → Links g (h l).prev ys b
    → ((p : ℕ) → has p (a ∷ xs) ≡ true → (p == (h l).prev) ≡ false → (g p).next ≡ (h p).next)
    → ((p : ℕ) → has p xs ≡ true → (g p).prev ≡ (h p).prev)
    → Links g a (xs ++ ys) b
glue h g a [] l ys b s d t fn fp = subst (λ q. Links g q ys b) s.1 t
glue h g a (x ∷ xs) l ys b s d t fn fp = (
  ground (arith, fn a, has-prev h x xs l s.2),
  ground (arith, fp x),
  glue h g x xs l ys b s.2 d.1 t (λ p m. fn p (ground arith)) (λ p m. fp p (ground arith)),
)

-- The second list, as the spliced store links it behind the last node `q` of the first.
behind :
    (h g : Store) (head q : ℕ) (ys : List ℕ)
    → Links h head ys head
    → Distinct (head ∷ ys)
    → (g q).next ≡ (h head).next
    → (g (h head).next).prev ≡ q
    → ((p : ℕ) → has p ys ≡ true → (g p).next ≡ (h p).next)
    → ((p : ℕ) → has p (head ∷ ys) ≡ true → (p == (h head).next) ≡ false → (g p).prev ≡ (h p).prev)
    → Links g q ys head
behind h g head q [] l d n p fn fp = ground arith
behind h g head q (y ∷ ys) l d n p fn fp = (
  ground arith,
  ground arith,
  frame {h = h} y ys head l.2 (λ r m. fn r (ground arith))
      (λ r m. fp r (ground arith) (ground arith)),
)

Distinct-append : (xs ys : List ℕ) → Distinct xs → Distinct ys → Apart xs ys → Distinct (xs ++ ys)
Distinct-append [] ys d e apart = e
Distinct-append (x ∷ xs) ys d e apart = (
  ground (arith, has-append x xs ys, apart x),
  Distinct-append xs ys d.1 e (λ p m. apart p (ground arith)),
)

module _ {h : Store} {list head : ℕ} {x : ℕ} {xs ys : List ℕ} (r : Represents h list (x ∷ xs))
    (s : Represents h head ys) (apart : Apart (list ∷ x ∷ xs) (head ∷ ys)) where
  last_mem : has (h list).prev (x ∷ xs) ≡ true
  last_mem = has-prev h x xs list r.links.2

  at_mem : has (h head).next (head ∷ ys) ≡ true
  at_mem = has-next h head ys head s.links

  -- The last node of the first list and the first of the second are no nodes of the other list.
  last_out : has (h list).prev (head ∷ ys) ≡ false
  last_out = ground (arith, last_mem, apart (h list).prev)

  at_out : has (h head).next (list ∷ x ∷ xs) ≡ false
  at_out = ground (arith, at_mem, apart-sym (h head).next)
    where
      apart-sym : (p : ℕ) → has p (head ∷ ys) ≡ true → has p (list ∷ x ∷ xs) ≡ false
      apart-sym p m = ground (arith, apart p)

  splice-behind : Links (list_splice_between list head h) (h list).prev ys head
  unfolding list_splice_between
  splice-behind =
      behind h (list_splice_between list head h) head (h list).prev ys s.links s.distinct
        (ground (arith, last_out, r.links.0)) (ground (arith, r.links.0))
        (λ p m. ground (
          arith,
          has-ne p (h list).prev (head ∷ ys) (ground arith) last_out,
          s.distinct.0,
          has-ne p head ys m s.distinct.0,
        ))
        (λ p m ne. ground (arith, r.links.0, apart x))

  splice_between-Links : Links (list_splice_between list head h) head (x ∷ xs ++ ys) head
  unfolding list_splice_between
  splice_between-Links = (
    ground (arith, last_out, r.links.0),
    ground (arith, at_out, r.links.0),
    glue h (list_splice_between list head h) x xs list ys head r.links.2 r.distinct.1 splice-behind
        (λ p m ne. ground (arith, apart p))
        (λ p m. ground (
          arith,
          r.links.0,
          has-ne p x xs m r.distinct.1.0,
          has-ne p (h head).next (x ∷ xs) (ground arith) (ground (arith, at_out)),
        )),
  )

  splice_between-Represents : Represents (list_splice_between list head h) head (x ∷ xs ++ ys)
  splice_between-Represents = record {
    links = splice_between-Links;
    distinct = (
      ground (arith, has-append head (x ∷ xs) ys, s.distinct, apart head),
      Distinct-append (x ∷ xs) ys r.distinct.1 s.distinct.1 (λ p m. ground (arith, apart p)),
    );
  }

-- `list_splice` puts the nodes of one list, in their order, in front of those of another that shares
-- no node with it.
pub list_splice-Represents :
    {h : Store} {list head : ℕ} (xs ys : List ℕ)
    → Represents h list xs
    → Represents h head ys
    → Apart (list ∷ xs) (head ∷ ys)
    → Represents (list_splice list head h) head (xs ++ ys)
unfolding list_splice
list_splice-Represents {h} {list} {head} [] ys r s apart = rw (==_self r.links.0) s
list_splice-Represents {h} {list} {head} (x ∷ xs) ys r s apart =
    let ne : ((h list).next == list) ≡ false = ground (arith, r.links, r.distinct) in
    rw ne (splice_between-Represents r s apart)

-- `list_splice_init` does the same, and leaves the first list empty.
pub list_splice_init-Represents :
    {h : Store} {list head : ℕ} (xs ys : List ℕ)
    → Represents h list xs
    → Represents h head ys
    → Apart (list ∷ xs) (head ∷ ys)
    → Represents (list_splice_init list head h) head (xs ++ ys)
      × Represents (list_splice_init list head h) list []
unfolding list_splice_init
list_splice_init-Represents {h} {list} {head} [] ys r s apart = rw (==_self r.links.0) (s, r)
list_splice_init-Represents {h} {list} {head} (x ∷ xs) ys r s apart =
    let ne : ((h list).next == list) ≡ false = ground (arith, r.links, r.distinct) in
    rw ne (
      Represents-same {h = list_splice_between list head h} (splice_between-Represents r s apart)
          (λ p m. ground (
            arith,
            has-ne p list (head ∷ x ∷ xs ++ ys) m
                (ground (arith, apart list, r.distinct, has-append list xs ys)),
          )),
      ground arith,
    )
