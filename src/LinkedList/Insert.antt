-- ===== src/LinkedList/Insert.antt =====
-- list_add and list_add_tail: where the new node stands.
use pcfs.Base.{ℕ, ◌≡◌, false, List, [], ◌∷◌, ◌++◌, arith, has, Distinct, has-append, Distinct-snoc}
use pcfs.LinkedList.{Store, list_add, list_add_tail}
use pcfs.LinkedList.Ring.{Links, Represents, frame, has-prev, has-next}

list_add-Links :
    (h : Store) (new a : ℕ) (xs : List ℕ) (b : ℕ)
    → Links h a xs b
    → has new (b ∷ a ∷ xs) ≡ false
    → Distinct (a ∷ xs)
    → has b xs ≡ false
    → Links (list_add new a h) a (new ∷ xs) b
unfolding list_add
list_add-Links h new a [] b l fresh d out = ground arith
list_add-Links h new a (x ∷ xs) b l fresh d out = (
  ground arith,
  ground arith,
  (
    ground arith,
    ground arith,
    frame {h = h} x xs b l.2 (λ p m. ground arith) (λ p m. ground arith),
  ),
)

-- `list_add` puts the new node first.
pub list_add-Represents :
    {h : Store} {head : ℕ} {xs : List ℕ} (new : ℕ)
    → Represents h head xs
    → has new (head ∷ xs) ≡ false
    → Represents (list_add new head h) head (new ∷ xs)
list_add-Represents {h} {head} {xs} new r fresh = record {
  links = list_add-Links h new head xs head r.links (ground arith) r.distinct r.distinct.0;
  distinct = ground (arith, r.distinct);
}

list_add_tail-Links :
    (h : Store) (new a : ℕ) (xs : List ℕ) (b : ℕ)
    → Links h a xs b
    → has new (b ∷ a ∷ xs) ≡ false
    → Distinct (a ∷ xs)
    → has b xs ≡ false
    → Links (list_add_tail new b h) a (xs ++ new ∷ []) b
unfolding list_add_tail
list_add_tail-Links h new a [] b l fresh d out = ground arith
list_add_tail-Links h new a (x ∷ xs) b l fresh d out = (
  ground (arith, has-prev h x xs b l.2),
  ground (arith, has-prev h x xs b l.2),
  list_add_tail-Links h new x xs b l.2 (ground arith) d.1 (ground arith),
)

-- `list_add_tail` puts the new node last.
pub list_add_tail-Represents :
    {h : Store} {head : ℕ} {xs : List ℕ} (new : ℕ)
    → Represents h head xs
    → has new (head ∷ xs) ≡ false
    → Represents (list_add_tail new head h) head (xs ++ new ∷ [])
list_add_tail-Represents {h} {head} {xs} new r fresh = record {
  links = list_add_tail-Links h new head xs head r.links (ground arith) r.distinct r.distinct.0;
  distinct = (
    ground (arith, r.distinct, has-append head xs (new ∷ [])),
    Distinct-snoc new xs r.distinct.1 (ground arith),
  );
}

-- Neither operation writes to a node outside the list.
pub list_add-same :
    {h : Store} {head : ℕ} {xs : List ℕ} (new p : ℕ)
    → Represents h head xs
    → has p (new ∷ head ∷ xs) ≡ false
    → (list_add new head h p ≡ h p) × (list_add_tail new head h p ≡ h p)
unfolding list_add list_add_tail
list_add-same {h} {head} {xs} new p r out =
    ground (arith, has-prev h head xs head r.links, has-next h head xs head r.links)
