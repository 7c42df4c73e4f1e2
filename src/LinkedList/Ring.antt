-- ===== src/LinkedList/Ring.antt =====
-- What a list of list.h stands for: the nodes from the head on, linked both ways and distinct.
use pcfs.Base.{ℕ, ◌≡◌, true, false, List, [], ◌∷◌, ◌++◌, arith, has, Distinct, ap}
use pcfs.LinkedList.{Node, Store}

-- `xs` are the nodes strictly between `a` and `b`, each linked to its neighbour both ways.
abbrev pub Links : Store → ℕ → List ℕ → ℕ → Type 0
Links h a [] b = ((h a).next ≡ b) × ((h b).prev ≡ a)
Links h a (x ∷ xs) b = ((h a).next ≡ x) × ((h x).prev ≡ a) × Links h x xs b

-- The list at `head` holds `xs`.
pub record Represents (h : Store) (head : ℕ) (xs : List ℕ) : Type 0 where
  pub links : Links h head xs head
  pub distinct : Distinct (head ∷ xs)

-- A segment survives a change of store that spares its forward and its backward pointers.
pub frame :
    {h g : Store} (a : ℕ) (xs : List ℕ) (b : ℕ)
    → Links h a xs b
    → ((p : ℕ) → has p (a ∷ xs) ≡ true → (g p).next ≡ (h p).next)
    → ((p : ℕ) → has p (b ∷ xs) ≡ true → (g p).prev ≡ (h p).prev)
    → Links g a xs b
frame a [] b (n, p) fn fp = (ground (arith, fn a), ground (arith, fp b))
frame a (x ∷ xs) b (n, p, r) fn fp = (
  ground (arith, fn a),
  ground (arith, fp x),
  frame x xs b r (λ q m. fn q (ground arith)) (λ q m. fp q (ground arith)),
)

-- The last pointer back leads to a node of the segment.
pub has-prev :
    (h : Store) (a : ℕ) (xs : List ℕ) (b : ℕ) → Links h a xs b → has (h b).prev (a ∷ xs) ≡ true
has-prev h a [] b l = ground arith
has-prev h a (x ∷ xs) b l = ground (arith, has-prev h x xs b l.2)

-- The first pointer forward leads to a node of the segment or to its end.
pub has-next :
    (h : Store) (a : ℕ) (xs : List ℕ) (b : ℕ) → Links h a xs b → has (h a).next (b ∷ xs) ≡ true
has-next h a [] b l = ground arith
has-next h a (x ∷ xs) b l = ground arith

pub Links-split :
    (h : Store) (a : ℕ) (xs : List ℕ) (x : ℕ) (ys : List ℕ) (b : ℕ)
    → Links h a (xs ++ x ∷ ys) b
    → Links h a xs x × Links h x ys b
Links-split h a [] x ys b (n, p, r) = ((n, p), r)
Links-split h a (y ∷ xs) x ys b (n, p, r) =
    let s = Links-split h y xs x ys b r in ((n, p, s.0), s.1)

pub Links-join :
    (h : Store) (a : ℕ) (xs : List ℕ) (x : ℕ) (ys : List ℕ) (b : ℕ)
    → Links h a xs x
    → Links h x ys b
    → Links h a (xs ++ x ∷ ys) b
Links-join h a [] x ys b (n, p) r = (n, p, r)
Links-join h a (y ∷ xs) x ys b (n, p, s) r = (n, p, Links-join h y xs x ys b s r)

-- A list stays what it is when none of its nodes is written to.
pub Represents-same :
    {h g : Store} {head : ℕ} {xs : List ℕ}
    → Represents h head xs
    → ((p : ℕ) → has p (head ∷ xs) ≡ true → g p ≡ h p)
    → Represents g head xs
Represents-same {h} {g} {head} {xs} r same = record {
  links =
      frame {h = h} head xs head r.links (λ p m. ap (λ (n : Node). n.next) (same p m))
        (λ p m. ap (λ (n : Node). n.prev) (same p m));
  distinct = r.distinct;
}

-- Two lists with no node in common, heads included.
abbrev pub Apart : List ℕ → List ℕ → Type 0
Apart xs ys = (p : ℕ) → has p xs ≡ true → has p ys ≡ false
