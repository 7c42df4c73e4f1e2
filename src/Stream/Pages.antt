-- ===== src/Stream/Pages.antt =====
-- What the pages of a file's cache hold, for a file with the decompressed content `c`.
use pcfs.Base.{
  ℕ, zero, suc, ◌+◌, ◌*◌, ◌≤◌, ◌≡◌, refl, sym, ap, ◌∙◌, List, [], ◌∷◌, Option, none, some, arith,
  length, take, drop, get_elem?, set, length-take, length-drop, subst, none_ne_some, some_ne_none,
}
use mathlib.Core.Option.{some-injective}
use pcfs.Types.{page_size}
use pcfs.Stream.{Pages}

-- The bytes of the page number `i`.
unfoldable pub page : List ℕ → ℕ → List ℕ
page c i = take page_size (drop (i * page_size) c)

-- All of the page lies in the content.
abbrev pub IsFull : List ℕ → ℕ → Type 0
IsFull c i = suc i * page_size ≤ length c

-- Each page that is kept, from the number `i` on, is full and has the bytes of the content.
abbrev pub Holds : List ℕ → ℕ → Pages → Type 0
Holds c i [] = Unit {0}
Holds c i (none ∷ ps) = Holds c (suc i) ps
Holds c i (some p ∷ ps) = (p ≡ page c i) × IsFull c i × Holds c (suc i) ps

pub length-page : (c : List ℕ) (i : ℕ) → IsFull c i → length (page c i) ≡ page_size
unfolding page
length-page c i h =
    omega (arith, h, length-take page_size (drop (i * page_size) c), length-drop (i * page_size) c)

Holds-tail :
    (c : List ℕ) (i : ℕ) (x : Option (List ℕ)) (ps : Pages)
    → Holds c i (x ∷ ps)
    → Holds c (suc i) ps
Holds-tail c i none ps h = h
Holds-tail c i (some p) ps h = h.2

pub Holds-get :
    (c : List ℕ) (i j k : ℕ) (ps : Pages) (p : List ℕ)
    → k ≡ i + j
    → Holds c i ps
    → get_elem? ps j ≡ some (some p)
    → (p ≡ page c k) × IsFull c k
Holds-get c i j k [] p a h e = elim (none_ne_some _ e) [ ]
Holds-get c i zero k (none ∷ ps) p a h e = elim (none_ne_some _ (some-injective _ _ e)) [ ]
Holds-get c i zero k (some q ∷ ps) p a h e =
    let same : i ≡ k = omega (arith, a) in
    (
      sym (some-injective _ _ (some-injective _ _ e)) ∙ h.0 ∙ ap (page c) same,
      subst (IsFull c) same h.1,
    )
Holds-get c i (suc j) k (none ∷ ps) p a h e = Holds-get c (suc i) j k ps p (omega (arith, a)) h e
Holds-get c i (suc j) k (some q ∷ ps) p a h e =
    Holds-get c (suc i) j k ps p (omega (arith, a)) h.2 e

pub Holds-set :
    (c : List ℕ) (i j k : ℕ) (ps : Pages)
    → k ≡ i + j
    → Holds c i ps
    → IsFull c k
    → Holds c i (set ps j (some (page c k)))
Holds-set c i j k [] a h f = tt
Holds-set c i zero k (x ∷ ps) a h f =
    let same : k ≡ i = omega (arith, a) in
    (ap (page c) same, subst (IsFull c) same f, Holds-tail c i x ps h)
Holds-set c i (suc j) k (none ∷ ps) a h f = Holds-set c (suc i) j k ps (omega (arith, a)) h f
Holds-set c i (suc j) k (some q ∷ ps) a h f =
    (h.0, h.1, Holds-set c (suc i) j k ps (omega (arith, a)) h.2 f)

pub Holds-clear : (c : List ℕ) (i j : ℕ) (ps : Pages) → Holds c i ps → Holds c i (set ps j none)
Holds-clear c i j [] h = tt
Holds-clear c i zero (none ∷ ps) h = h
Holds-clear c i zero (some p ∷ ps) h = h.2
Holds-clear c i (suc j) (none ∷ ps) h = Holds-clear c (suc i) j ps h
Holds-clear c i (suc j) (some p ∷ ps) h = (h.0, h.1, Holds-clear c (suc i) j ps h.2)

-- The bytes that a cache takes of `decomp_cache_size`.
abbrev pub weight : Pages → ℕ
weight [] = 0
weight (none ∷ ps) = weight ps
weight (some p ∷ ps) = weight ps + page_size

pub weight-set :
    (j : ℕ) (ps : Pages) (p : List ℕ)
    → get_elem? ps j ≡ some none
    → weight (set ps j (some p)) ≡ weight ps + page_size
weight-set j [] p e = elim (none_ne_some _ e) [ ]
weight-set zero (none ∷ ps) p e = refl
weight-set zero (some q ∷ ps) p e = elim (some_ne_none _ (some-injective _ _ e)) [ ]
weight-set (suc j) (none ∷ ps) p e = weight-set j ps p e
weight-set (suc j) (some q ∷ ps) p e = omega (arith, weight-set j ps p e)

pub weight-clear :
    (j : ℕ) (ps : Pages) (p : List ℕ)
    → get_elem? ps j ≡ some (some p)
    → weight (set ps j none) + page_size ≡ weight ps
weight-clear j [] p e = elim (none_ne_some _ e) [ ]
weight-clear zero (none ∷ ps) p e = elim (none_ne_some _ (some-injective _ _ e)) [ ]
weight-clear zero (some q ∷ ps) p e = refl
weight-clear (suc j) (none ∷ ps) p e = weight-clear j ps p e
weight-clear (suc j) (some q ∷ ps) p e = omega (arith, weight-clear j ps p e)
