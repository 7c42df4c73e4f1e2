-- ===== src/Unpack/Pages.antt =====
-- Unpacking gives the pages that the segments stand for.
use pcfs.Base.{
  ℕ, zero, suc, ◌+◌, ◌-◌, ◌≤◌, ◌≡◌, refl, sym, ap, ◌∙◌, Bool, true, false, List, [], ◌∷◌, ◌++◌,
  Option, some, arith, ltb, ◌==◌, bind-at, length, length-append, append_assoc, take, drop, if-true,
  if-false, elim-at_some, map, suc_le_zero, elim-all,
}
use mathlib.Core.Path.{ap₂}
use pcfs.Types.{page_size}
use pcfs.Sectors.{get_type, padded}
use pcfs.Sectors.Packing.{Group, alone, pair, is_pair, sector_of}
use pcfs.Unpack.{
  Inflate, Given, offset, decompress_page_1, second_page, decompress_page_2, sector_out, and_rest,
  turn, unpack_sectors,
}

abbrev pub flat : List (List ℕ) → List ℕ
flat [] = []
flat (s ∷ ss) = s ++ flat ss

module _ (inflate : Inflate) (page : List ℕ → List ℕ) where
  -- A segment at the input, whatever follows it, gives its page.
  abbrev pub Decodes : List ℕ → Type 0
  Decodes s =
      ((rest : List ℕ) → (k : ℕ) × (inflate (take page_size (s ++ rest)) ≡ (k, page s)))
      × (length (page s) ≡ page_size)

  -- And where enough follows in the page, `inflate` goes on for five bytes behind it.
  abbrev pub GoesOn : List ℕ → Type 0
  GoesOn s =
      (rest : List ℕ)
      → offset ≤ length rest
      → length s + offset ≤ page_size
      → (inflate (take page_size (s ++ rest))).0 ≡ length s + offset

  -- The same of all groups, whose segments fit into their sectors.
  abbrev pub AllDecode : List Group → Type 0
  AllDecode [] = Unit {0}
  AllDecode (alone s ∷ gs) = (length s ≤ page_size) × Decodes s × AllDecode gs
  AllDecode (pair s t ∷ gs) =
      (length (s ++ t) ≤ page_size)
      × (Decodes s × GoesOn s × Decodes t × (offset ≤ length t))
      × AllDecode gs

  -- The pages of the groups, one after the other from the offset `p` on.
  abbrev pub pages_from : ℕ → List Group → List (ℕ × List ℕ)
  pages_from p [] = []
  pages_from p (alone s ∷ gs) = (p, page s) ∷ pages_from (p + page_size) gs
  pages_from p (pair s t ∷ gs) =
      (p, page s) ∷ (p + page_size, page t) ∷ pages_from (p + (page_size + page_size)) gs

-- The bytes that groups unpack_sectors to.
abbrev pub size_of : List Group → ℕ
size_of [] = 0
size_of (alone s ∷ gs) = page_size + size_of gs
size_of (pair s t ∷ gs) = page_size + page_size + size_of gs

-- The marks of the sectors from the number `blk` on tell which groups are pairs.
abbrev pub Marked : List ℕ → ℕ → List Group → Type 0
Marked mark blk [] = Unit {0}
Marked mark blk (g ∷ gs) = (get_type mark blk ≡ some (is_pair g)) × Marked mark (blk + 1) gs

drop-append : (xs ys : List ℕ) (n : ℕ) → n ≡ length xs → drop n (xs ++ ys) ≡ ys
drop-append [] ys n e = ap (λ k. drop k ys) e
drop-append (x ∷ xs) ys n e = ap (λ k. drop k (x ∷ xs ++ ys)) e ∙ drop-append xs ys (length xs) refl

-- A padded segment is the segment and what follows it.
padded-follows : (n : ℕ) (xs : List ℕ) → length xs ≤ n → (zs : List ℕ) × (padded n xs ≡ xs ++ zs)
unfolding padded
padded-follows n [] h = (padded n [], refl)
padded-follows zero (x ∷ xs) h = elim (suc_le_zero (length xs) h) [ ]
padded-follows (suc n) (x ∷ xs) h =
    let (zs, e) = padded-follows n xs (omega (arith, h)) in (zs, ap (λ r. x ∷ r) e)

padded-length : (n : ℕ) (xs : List ℕ) → length xs ≤ n → length (padded n xs) ≡ n
unfolding padded
padded-length zero [] h = refl
padded-length zero (x ∷ xs) h = elim (suc_le_zero (length xs) h) [ ]
padded-length (suc n) [] h = ap suc (padded-length n [] (omega arith))
padded-length (suc n) (x ∷ xs) h = ap suc (padded-length n xs (omega (arith, h)))

less : (m n : ℕ) → m + 1 ≤ n → ltb m n ≡ true
less m n h = ground (arith, h)

not_less : (m n : ℕ) → n ≤ m → ltb m n ≡ false
not_less m n h = ground (arith, h)

not_zero : (m : ℕ) → 1 ≤ m → (m == 0) ≡ false
not_zero m h = ground (arith, h)

-- A sector is a page long, and the next one begins behind it.
reaches :
    (xs rest : List ℕ) → length xs ≤ page_size → page_size ≤ length (padded page_size xs ++ rest)
reaches xs rest h =
    let e = length-append (padded page_size xs) rest in
    let n = padded-length page_size xs h in omega (arith, e, n)

behind-sector :
    (xs rest : List ℕ) → length xs ≤ page_size → drop page_size (padded page_size xs ++ rest) ≡ rest
behind-sector xs rest h =
    drop-append (padded page_size xs) rest page_size (sym (padded-length page_size xs h))

-- A turn of the loop in which there is something to do.
turn-goes :
    (total req : ℕ) (memory : List ℕ) (body : Option (List (ℕ × List ℕ)))
    → total + 1 ≤ req
    → page_size ≤ length memory
    → turn (ltb total req) memory body ≡ body
unfolding turn
turn-goes total req memory body g l =
    if-true _ _ (less total req g) ∙ if-false _ _ (not_less (length memory) page_size l)

module _ (inflate : Inflate) (page : List ℕ → List ℕ) where
  alone-out :
      (s rest : List ℕ) (total : ℕ)
      → length s ≤ page_size
      → Decodes inflate page s
      → sector_out inflate false (padded page_size s ++ rest) total
        ≡ some ((total, page s) ∷ [], page_size)
  unfolding sector_out decompress_page_1
  alone-out s rest total h (d, n) =
      let (zs, e) = padded-follows page_size s h in
      let (k, out) = d (zs ++ rest) in
      let apart : padded page_size s ++ rest ≡ s ++ (zs ++ rest) =
        ap (λ u. u ++ rest) e ∙ append_assoc s zs rest in
      ap (λ r. some ((total, r.1) ∷ [], length r.1))
        (ap (λ w. inflate (take page_size w)) apart ∙ out)
      ∙ ap (λ k. some ((total, page s) ∷ [], k)) n

  second-out :
      (s t rest memory : List ℕ) (total : ℕ)
      → memory ≡ s ++ (t ++ rest)
      → length (page s) ≡ page_size
      → Decodes inflate page t
      → second_page inflate memory total (length s + offset, page s)
        ≡ some ((total, page s) ∷ (total + page_size, page t) ∷ [], page_size + page_size)
  unfolding second_page
  second-out s t rest memory total apart n (dt, m) =
      let (k, out) = dt rest in
      let behind : drop (length s + offset - offset) memory ≡ t ++ rest =
        ap (drop (length s + offset - offset)) apart ∙ drop-append s (t ++ rest) _ (omega arith) in
      if-false _ _ (not_less (length s + offset) offset (omega arith))
      ∙ ap
          (λ r.
            some ((total, page s) ∷ (total + page_size, r.1) ∷ [], length (page s) + length r.1))
          (ap (λ w. inflate (take page_size w)) behind ∙ out)
      ∙ ap₂ (λ a b. some ((total, page s) ∷ (total + page_size, page t) ∷ [], a + b)) n m

  pair-out :
      (s t rest : List ℕ) (total : ℕ)
      → length (s ++ t) ≤ page_size
      → Decodes inflate page s
        × GoesOn inflate page s
        × Decodes inflate page t
        × (offset ≤ length t)
      → sector_out inflate true (padded page_size (s ++ t) ++ rest) total
        ≡ some ((total, page s) ∷ (total + page_size, page t) ∷ [], page_size + page_size)
  unfolding sector_out decompress_page_2
  pair-out s t rest total h (ds, gs, dt, some_bytes) =
      let (zs, e) = padded-follows page_size (s ++ t) h in
      let apart : padded page_size (s ++ t) ++ rest ≡ s ++ (t ++ (zs ++ rest)) =
        ap (λ u. u ++ rest) e ∙ append_assoc (s ++ t) zs rest ∙ append_assoc s t (zs ++ rest) in
      let (k, out) = ds.0 (t ++ (zs ++ rest)) in
      let fits = length-append s t in
      let long = length-append t (zs ++ rest) in
      let goes =
        gs (t ++ (zs ++ rest)) (omega (arith, some_bytes, long))
          (omega (arith, some_bytes, fits, h)) in
      let consumed : k ≡ length s + offset = sym (ap (λ r. r.0) out) ∙ goes in
      ap (second_page inflate _ total)
        (ap (λ w. inflate (take page_size w)) apart ∙ out ∙ ap (λ n. (n, page s)) consumed)
      ∙ second-out s t (zs ++ rest) _ total apart ds.1 dt

  -- A turn at a sector that gives something, with all the rest that follows from it.
  sector-goes :
      (mark memory : List ℕ) (fuel req blk total : ℕ) (type : Bool) (o : Given)
      (ws : List (ℕ × List ℕ))
      → get_type mark blk ≡ some type
      → sector_out inflate type memory total ≡ some o
      → total + 1 ≤ req
      → page_size ≤ length memory
      → 1 ≤ o.1
      → unpack_sectors inflate mark fuel req (drop page_size memory) (blk + 1) (total + o.1)
        ≡ some ws
      → unpack_sectors inflate mark (suc fuel) req memory blk total ≡ some (o.0 ++ ws)
  unfolding unpack_sectors and_rest
  sector-goes mark memory fuel req blk total type o ws t e g l n r =
      elim-at_some _ _ type t
      ∙ turn-goes total req memory _ g l
      ∙ bind-at _ o e
      ∙ if-false _ _ (not_zero o.1 n)
      ∙ bind-at _ ws r

  -- When all that was asked for is there, nothing more is written.
  unpack_sectors-done :
      (mark memory : List ℕ) (fuel req blk total : ℕ)
      → req ≤ total
      → unpack_sectors inflate mark fuel req memory blk total ≡ some []
  unfolding unpack_sectors turn
  unpack_sectors-done mark memory zero req blk total h = if-false _ _ (not_less total req h)
  unpack_sectors-done mark memory (suc fuel) req blk total h =
      elim-all (λ r. r ≡ some []) (get_type mark blk) _ _ (λ _. if-false _ _ (not_less total req h))
        (λ type _. if-false _ _ (not_less total req h))

  -- The groups of a packed file, behind whatever has been put out: all their pages come out, each at its
  -- place, one after the other.
  pub unpack_sectors-pages :
      (mark behind : List ℕ) (gs : List Group) (fuel req blk total : ℕ)
      → length gs ≤ fuel
      → req ≡ total + size_of gs
      → Marked mark blk gs
      → AllDecode inflate page gs
      → unpack_sectors inflate mark fuel req (flat (map sector_of gs) ++ behind) blk total
        ≡ some (pages_from inflate page total gs)
  unpack_sectors-pages mark behind [] fuel req blk total f r m d =
      unpack_sectors-done mark behind fuel req blk total (omega (arith, r))
  unpack_sectors-pages mark behind (g ∷ gs) zero req blk total f r m d =
      elim (suc_le_zero (length gs) f) [ ]
  unpack_sectors-pages mark behind (alone s ∷ gs) (suc fuel) req blk total f r (t, m) (h, ds, d) =
      let rest = flat (map sector_of gs) ++ behind in
      let sector : flat (map sector_of (alone s ∷ gs)) ++ behind ≡ padded page_size s ++ rest =
        append_assoc (padded page_size s) (flat (map sector_of gs)) behind in
      ap (λ w. unpack_sectors inflate mark (suc fuel) req w blk total) sector
      ∙ sector-goes mark _ fuel req blk total false _
          (pages_from inflate page (total + page_size) gs) t (alone-out s rest total h ds)
          (omega (arith, r)) (reaches s rest h) (omega arith)
          (ap (λ w. unpack_sectors inflate mark fuel req w (blk + 1) (total + page_size))
              (behind-sector s rest h)
            ∙ unpack_sectors-pages mark behind gs fuel req (blk + 1) (total + page_size)
                (omega (arith, f)) (omega (arith, r)) m d)
  unpack_sectors-pages mark behind (pair s u ∷ gs) (suc fuel) req blk total f r (t, m) (h, ds, d) =
      let rest = flat (map sector_of gs) ++ behind in
      let sector : flat (map sector_of (pair s u ∷ gs)) ++ behind
          ≡ padded page_size (s ++ u) ++ rest =
        append_assoc (padded page_size (s ++ u)) (flat (map sector_of gs)) behind in
      ap (λ w. unpack_sectors inflate mark (suc fuel) req w blk total) sector
      ∙ sector-goes mark _ fuel req blk total true _
          (pages_from inflate page (total + (page_size + page_size)) gs) t
          (pair-out s u rest total h ds) (omega (arith, r)) (reaches (s ++ u) rest h) (omega arith)
          (ap
              (λ w.
                unpack_sectors inflate mark fuel req w (blk + 1) (total + (page_size + page_size)))
              (behind-sector (s ++ u) rest h)
            ∙ unpack_sectors-pages mark behind gs fuel req (blk + 1)
                (total + (page_size + page_size)) (omega (arith, f)) (omega (arith, r)) m d)
