-- ===== src/Stream/Turn.antt =====
-- One turn of the skipping loop of `direct_decompress`, at a page that lies in the content.
use pcfs.Base.{
  ℕ, suc, ◌+◌, ◌*◌, ◌/◌, ◌≤◌, ◌<◌, ◌≡◌, ◌⊎◌, inl, inr, refl, sym, ap, ◌∙◌, true, false, ◌&&◌, List,
  ◌++◌, Option, none, some, arith, ltb, ◌==◌, if◌then◌else◌, length, take, drop, get_elem?,
  get_elem?-in, set, length-set, drop_past, zero_plus, subst, if-true, if-false, elim-at_some,
  Bool-cases, append-nil,
}
use pcfs.Types.{page_size}
use pcfs.Stream.{
  Pages, Reader, Around, Skim, Place, outside, own_page, caller, page_at, choose_place, more,
  is_short, keep_page, max_of, touch, move_on, read_some, turn,
}
use pcfs.Stream.Pages.{page, IsFull, Holds, Holds-set, length-page, weight, weight-set}

-- The module reads what is there: all that it is asked for, or up to the end.
abbrev pub Reads : List ℕ → Reader → Type 0
Reads c read = (p n : ℕ) → read p n ≡ some (take n (drop p c))

-- A cache with a place for each page that the content has a byte of, and with the right pages.
abbrev pub Ready : List ℕ → Option Pages → Type 0
Ready c none = Unit {0}
Ready c (some ps) = Holds c 0 ps × (length c / page_size < length ps)

-- The bytes that the cache of a file takes.
abbrev pub weight_of : Option Pages → ℕ
weight_of none = 0
weight_of (some ps) = weight ps

-- The number of places of a cache, and `n` without one.
abbrev pub length_or : ℕ → Option Pages → ℕ
length_or n none = n
length_or n (some ps) = length ps

-- The descriptor is at the beginning of the page number `i`, and there is a cache if it is used.
abbrev pub IsAt : List ℕ → Around → ℕ → Skim → Type 0
IsAt c e i k =
    (k.offset ≡ i * page_size)
    × Ready c k.cache
    × (e.caching ≡ true → (ps : Pages) × (k.cache ≡ some ps))

-- `decomp_cache_size` and the cache grow by the same, the buffer is written to in one page, and the
-- cache keeps its length.
abbrev pub Balanced : Skim → Skim → Type 0
Balanced k l =
    (l.total + weight_of k.cache ≡ k.total + weight_of l.cache)
    × ((b : ℕ) → page_size ≤ b → k.reach ≤ b → l.reach ≤ b)
    × ((n : ℕ) → length_or n k.cache ≡ length_or n l.cache)

-- Everything around the loop is well: the size is known, the module reads, `malloc` returns pages.
abbrev pub Healthy : List ℕ → Around → Type 0
Healthy c e =
    (e.size ≡ some (length c))
    × Reads c e.read
    × ((p : ℕ) → e.allocated p ≡ true)
    × ((p : ℕ) → length (e.garbage p) ≡ page_size)

-- What a turn comes to in which a page is read.
abbrev after : Around → Place → List ℕ → Skim → Skim
after e outside bs k = k
after e own_page bs k = move_on e own_page bs (record k { total = k.total + page_size })
after e caller bs k = move_on e caller bs (touch caller bs k)

not_ltb : (n m : ℕ) → n ≡ m → ltb n m ≡ false
not_ltb n m e = ground (arith, e)

not_short : (o : Option ℕ) (p n m : ℕ) → n ≡ m → is_short o p n m ≡ false
unfolding is_short
not_short o p n m e =
    ap (λ b. b && (elim o [ none ↦ true | some s ↦ ltb (p + n) s ])) (not_ltb n m e)

suc_not_zero : (m n : ℕ) → m ≡ suc n → (m == 0) ≡ false
suc_not_zero m n e = ground (arith, e)

read_some-full :
    (e : Around) (n : ℕ) (p : Place) (k : Skim) (bs : List ℕ)
    → e.read k.offset (suc n) ≡ some bs
    → length bs ≡ suc n
    → read_some e (suc n) p k ≡ more (suc n) (move_on e p bs (touch p bs k))
unfolding read_some
read_some-full e n p k bs r h =
    elim-at_some _ _ bs r
    ∙ if-false _ _ (not_ltb (suc n) (length bs) (sym h))
    ∙ if-false _ _ (not_short e.size k.offset (length bs) (suc n) h)
    ∙ if-false _ _ (suc_not_zero (length bs) n h)
    ∙ ap (λ m. more m (move_on e p bs (touch p bs k))) h

IsInside : Place → Type 0
IsInside outside = ⊥
IsInside own_page = Unit {0}
IsInside caller = Unit {0}

turn-full :
    (e : Around) (n : ℕ) (p : Place) (k : Skim) (bs : List ℕ)
    → IsInside p
    → e.read k.offset (suc n) ≡ some bs
    → length bs ≡ suc n
    → e.allocated k.offset ≡ true
    → turn e (suc n) p k ≡ more (suc n) (after e p bs k)
unfolding turn IsInside
turn-full e n outside k bs i r h a = elim i [ ]
turn-full e n own_page k bs i r h a =
    if-true _ _ a ∙ read_some-full e n own_page (record k { total = k.total + page_size }) bs r h
turn-full e n caller k bs i r h a = read_some-full e n caller k bs r h

-- Where the next page goes, with the cache as it should be.
abbrev Chosen : Around → Skim → ℕ → Type 0
Chosen e k i =
    (choose_place e k ≡ caller)
    ⊎ ((choose_place e k ≡ own_page)
        × (ps : Pages) × (k.cache ≡ some ps)
        × (get_elem? ps i ≡ some none))

page_at-cases :
    (ps : Pages) (i : ℕ) (p : Place) (x : Option (List ℕ))
    → get_elem? ps i ≡ some x
    → (page_at (some ps) i p ≡ caller)
      ⊎ ((page_at (some ps) i p ≡ p) × (get_elem? ps i ≡ some none))
page_at-cases ps i p none e = inr (elim-at_some _ _ none e, e)
page_at-cases ps i p (some q) e = inl (elim-at_some _ _ (some q) e)

at_page : (p i : ℕ) → p ≡ i * page_size → p / page_size ≡ i
at_page p i e = omega (arith, e)

in_cache : (c : List ℕ) (i n : ℕ) → IsFull c i → length c / page_size < n → i < n
in_cache c i n f h = omega (arith, f, h)

chosen : (e : Around) (k : Skim) (c : List ℕ) (i : ℕ) → IsAt c e i k → IsFull c i → Chosen e k i
unfolding choose_place
chosen e k c i at f = elim (Bool-cases e.caching) [
  | inr n ↦ inl (if-false _ _ n)
  | inl y ↦
      let (ps, q) = at.2 y in
      let ready : Holds c 0 ps × (length c / page_size < length ps) = subst (Ready c) q at.1 in
      let (x, g) = get_elem?-in i ps (in_cache c i (length ps) f ready.1) in
      let free : Place = if ltb k.total e.max then own_page else caller in
      let here : choose_place e k ≡ page_at (some ps) i free =
        if-true _ _ y
        ∙ ap (λ o. page_at o (k.offset / page_size) free) q
        ∙ ap (λ j. page_at (some ps) j free) (at_page k.offset i at.0) in
      elim (page_at-cases ps i free x g) [
        | inl b ↦ inl (here ∙ b)
        | inr (b, g0) ↦ elim (Bool-cases (ltb k.total e.max)) [
          | inl t ↦ inr (here ∙ b ∙ if-true _ _ t, ps, q, g0)
          | inr t ↦ inl (here ∙ b ∙ if-false _ _ t)
        ]
      ]
]

pub max_of-le : (a n b : ℕ) → n ≤ b → a ≤ b → max_of a n ≤ b
max_of-le a n b h g = ground (arith, h, g)

next_page : (p n i : ℕ) → p ≡ i * page_size → n ≡ page_size → p + n ≡ suc i * page_size
next_page p n i e f = omega (arith, e, f)

-- What a turn leads to.
abbrev pub Turned : List ℕ → Around → ℕ → Skim → Skim → Type 0
Turned c e i k l =
    (turn e page_size (choose_place e k) k ≡ more page_size l) × IsAt c e (suc i) l × Balanced k l

thrown :
    (c : List ℕ) (e : Around) (i : ℕ) (k : Skim) (bs : List ℕ)
    → IsAt c e i k
    → turn e page_size (choose_place e k) k ≡ more page_size (after e caller bs k)
    → length bs ≡ page_size
    → Turned c e i k (after e caller bs k)
thrown c e i k bs at t n = (
  t,
  (next_page k.offset (length bs) i at.0 n, at.1, at.2),
  (refl, λ b h g. max_of-le k.reach (length bs) b (omega (arith, n, h)) g, λ m. refl),
)

kept_page :
    (c : List ℕ) (e : Around) (i : ℕ) (k : Skim) (ps : Pages)
    → length (e.garbage k.offset) ≡ page_size
    → k.cache ≡ some ps
    → k.offset ≡ i * page_size
    → IsFull c i
    → keep_page e (page c i) k ≡ some (set ps i (some (page c i)))
kept_page c e i k ps g q o f =
    elim-at_some _ _ ps q
    ∙ ap (λ j. some (set ps j (some (page c i ++ drop (length (page c i)) (e.garbage k.offset)))))
        (at_page k.offset i o)
    ∙ ap (λ r. some (set ps i (some (page c i ++ r))))
        (drop_past (length (page c i)) (e.garbage k.offset) (omega (arith, g, length-page c i f)))
    ∙ ap (λ r. some (set ps i (some r))) (append-nil (page c i))

kept :
    (c : List ℕ) (e : Around) (i : ℕ) (k : Skim) (ps : Pages)
    → Healthy c e
    → IsAt c e i k
    → IsFull c i
    → turn e page_size (choose_place e k) k ≡ more page_size (after e own_page (page c i) k)
    → k.cache ≡ some ps
    → get_elem? ps i ≡ some none
    → Turned c e i k (after e own_page (page c i) k)
kept c e i k ps h at f t q g =
    let made = kept_page c e i k ps (h.3 k.offset) q at.0 f in
    let ready : Holds c 0 ps × (length c / page_size < length ps) = subst (Ready c) q at.1 in
    let holds : Ready c (some (set ps i (some (page c i)))) = (
      Holds-set c 0 i i ps (sym (zero_plus i)) ready.0 f,
      omega (arith, ready.1, length-set ps i (some (page c i))),
    ) in
    (
      t,
      (
        next_page k.offset (length (page c i)) i at.0 (length-page c i f),
        subst (Ready c) (sym made) holds,
        λ y. (set ps i (some (page c i)), made),
      ),
      (
        omega (arith, ap weight_of q, ap weight_of made, weight-set i ps (page c i) g),
        λ b hb hr. hr,
        λ m. ap (length_or m) q ∙ sym (ap (length_or m) made ∙ length-set ps i (some (page c i))),
      ),
    )

-- A page is read, and kept or thrown away.
pub turn-Turned :
    (c : List ℕ) (e : Around) (i : ℕ) (k : Skim)
    → Healthy c e
    → IsAt c e i k
    → IsFull c i
    → (l : Skim) × Turned c e i k l
unfolding page IsInside
turn-Turned c e i k h at f =
    let bs : List ℕ = page c i in
    let n : length bs ≡ page_size = length-page c i f in
    let r : e.read k.offset page_size ≡ some bs =
      h.1 k.offset page_size ∙ ap (λ p. some (take page_size (drop p c))) at.0 in
    elim (chosen e k c i at f) [
      | inl p ↦ (
        after e caller bs k,
        thrown c e i k bs at
            (ap (λ x. turn e page_size x k) p ∙ turn-full e 4095 caller k bs tt r n (h.2 k.offset))
            n,
      )
      | inr (p, ps, q, g) ↦ (
        after e own_page bs k,
        kept c e i k ps h at f
            (ap (λ x. turn e page_size x k) p
              ∙ turn-full e 4095 own_page k bs tt r n (h.2 k.offset))
            q g,
      )
    ]
