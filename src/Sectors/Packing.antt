-- ===== src/Sectors/Packing.antt =====
-- What `pack` writes: the segments in groups of one or two, one group in each sector.
use pcfs.Base.{
  ℕ, zero, suc, ◌+◌, ◌-◌, ◌*◌, ◌≤◌, ◌≡◌, refl, ap, Bool, true, false, ◌&&◌, List, [], ◌∷◌, ◌++◌,
  some, arith, ltb, leb, ◌==◌, if◌then◌else◌, bind-some, length, length-append, sym, ◌∙◌, map,
  append_assoc, append-nil, if-cases, subst,
}
use mathlib.Core.Option.{some-injective}
use pcfs.Types.{page_size}
use pcfs.Sectors.{Packer, padded, mark_sector, flush_page, check_and_flush, pack, get_type}
use pcfs.Sectors.Marks.{AllBytes, set_flag-get_type}

pub ltb-false→le : (a b : ℕ) → ltb a b ≡ false → b ≤ a
ltb-false→le a b e = ground arith

-- What one sector holds.
pub data Group : Type 0 where
  alone : List ℕ → Group
  pair : List ℕ → List ℕ → Group

abbrev pub content : Group → List ℕ
content (alone s) = s
content (pair s t) = s ++ t

abbrev pub is_pair : Group → Bool
is_pair (alone s) = false
is_pair (pair s t) = true

-- A segment waits for the next one. If both fit into a sector they share it, and otherwise the first
-- gets its own and the second waits.
abbrev pub groups : List ℕ → List (List ℕ) → List Group
groups last [] = if length last == 0 then [] else alone last ∷ []
groups last (c ∷ cs) =
    let apart = alone last ∷ groups c cs in
    let first = groups c cs in
    let together = pair last c ∷ groups [] cs in
    if ltb page_size (length c + length last)
    then apart
    else if length last == 0
    then first
    else together

-- Whether the group with an index is a pair.
abbrev pub paired : List Group → ℕ → Bool
paired [] i = false
paired (g ∷ gs) zero = is_pair g
paired (g ∷ gs) (suc i) = paired gs i

abbrev pub sector_of : Group → List ℕ
sector_of g = padded page_size (content g)

-- What a write of these groups does to the state.
pub record Packed (gs : List Group) (p q : Packer) : Type 0 where
  pub sectors : q.wr_buf ≡ p.wr_buf ++ map sector_of gs
  pub blks : q.blk ≡ p.blk + length gs
  pub bytes : AllBytes q.mark
  pub capacity : q.capacity ≡ p.capacity
  pub marks :
      (c : ℕ)
      → get_type q.mark c
        ≡ (if leb p.blk c && paired gs (c - p.blk) then some true else get_type p.mark c)

paired-cons :
    (g : Group) (gs : List Group) (i : ℕ)
    → paired (g ∷ gs) i ≡ (if i == 0 then is_pair g else paired gs (i - 1))
paired-cons g gs zero = refl
paired-cons g gs (suc i) = ground arith

nothing-Packed : (p : Packer) → AllBytes p.mark → Packed [] p p
nothing-Packed p small = record {
  sectors = sym (append-nil p.wr_buf);
  blks = omega arith;
  bytes = small;
  capacity = refl;
  marks = λ c. ground arith;
}

mark_sector-marks :
    (type : Bool) (p : Packer) (m : List ℕ) (c : ℕ)
    → AllBytes p.mark
    → mark_sector type p ≡ some m
    → (get_type m c ≡ (if (c == p.blk) && type then some true else get_type p.mark c)) × AllBytes m
unfolding mark_sector
mark_sector-marks true p m c small e =
    let (seen, bytes) = set_flag-get_type p.mark m p.blk c small e in (seen ∙ ground arith, bytes)
mark_sector-marks false p m c small e =
    let same : p.mark ≡ m = some-injective p.mark m e in
    (ap (λ l. get_type l c) (sym same) ∙ ground arith, subst AllBytes same small)

-- One sector.
flush-Packed :
    (g : Group) (p q : Packer)
    → length (content g) ≤ page_size
    → AllBytes p.mark
    → flush_page (content g) (is_pair g) p ≡ some q
    → Packed (g ∷ []) p q × (q.last ≡ p.last)
unfolding flush_page
flush-Packed g p q fits small e =
    if-cases (ltb page_size (length (content g))) _ _ (some q) e
      (λ large _. ground (arith, large, fits))
      (λ _ h.
        if-cases (ltb p.capacity (page_size * (p.blk + 1))) _ _ (some q) h
          (λ _ h1. ground (arith, h1))
          (λ _ h1.
            let (m, marked, h2) = bind-some (mark_sector (is_pair g) p) _ q h1 in
            let same = some-injective _ q h2 in
            subst (λ r. Packed (g ∷ []) p r × (r.last ≡ p.last)) same
              (
                record {
                  sectors = refl;
                  blks = refl;
                  bytes = (mark_sector-marks (is_pair g) p m 0 small marked).1;
                  capacity = refl;
                  marks = λ c.
                      (mark_sector-marks (is_pair g) p m c small marked).0
                      ∙ ground (arith, paired-cons g [] (c - p.blk));
                },
                refl,
              )))

-- One write after another.
then_Packed :
    (g : Group) (gs : List Group) (p q r : Packer)
    → Packed (g ∷ []) p q
    → Packed gs q r
    → Packed (g ∷ gs) p r
then_Packed g gs p q r a b = record {
  sectors = b.sectors ∙ ap (λ l. l ++ map sector_of gs) a.sectors ∙ append_assoc p.wr_buf _ _;
  blks = omega (arith, a.blks, b.blks);
  bytes = b.bytes;
  capacity = b.capacity ∙ a.capacity;
  marks = λ c.
      let shift : paired gs (c - q.blk) ≡ paired gs (c - p.blk - 1) =
        ap (paired gs) (omega (arith, a.blks)) in
      ground (
        arith,
        a.marks c,
        b.marks c,
        a.blks,
        shift,
        paired-cons g gs (c - p.blk),
        paired-cons g [] (c - p.blk),
      );
}

-- Every segment fits into a sector.
abbrev pub AllFit : List (List ℕ) → Type 0
AllFit [] = Unit {0}
AllFit (c ∷ cs) = (length c ≤ page_size) × AllFit cs

nil_of : (l : List ℕ) → (length l == 0) ≡ true → l ≡ []
nil_of [] e = refl
nil_of (x ∷ l) e = ground (arith, e)

-- A change of the segment that waits is none of the buffers.
relast :
    (gs : List Group) (p q : Packer) (l : List ℕ)
    → Packed gs (record p { last = l }) q
    → Packed gs p q
relast gs p q l b = record {
  sectors = b.sectors;
  blks = b.blks;
  bytes = b.bytes;
  capacity = b.capacity;
  marks = b.marks;
}

-- Whatever is packed, the sectors that are written hold the groups of the segments in their order,
-- padded with zeros; the mark of a sector is set exactly if it holds two segments, and no other mark
-- is touched.
pub pack-Packed :
    (cs : List (List ℕ)) (p q : Packer)
    → length p.last ≤ page_size
    → AllFit cs
    → AllBytes p.mark
    → pack cs p ≡ some q
    → Packed (groups p.last cs) p q
unfolding pack check_and_flush
pack-Packed [] p q fits all small e =
    if-cases (length p.last == 0) _ _ (some q) e
      (λ empty h.
        subst (λ gs. Packed gs p q) (ground (arith, empty))
          (subst (λ r. Packed [] p r) (some-injective p q h) (nothing-Packed p small)))
      (λ full h.
        subst (λ gs. Packed gs p q) (ground (arith, full))
          (flush-Packed (alone p.last) p q fits small h).0)
pack-Packed (c ∷ cs) p q fits (c_fits, all) small e =
    let (r, step, rest) = bind-some (check_and_flush c p) _ q e in
    if-cases (ltb page_size (length c)) _ _ (some r) step (λ large _. ground (arith, large, c_fits))
      (λ _ h.
        if-cases (ltb page_size (length c + length p.last)) _ _ (some r) h
          (λ apart h1.
            let (t, flushed, h2) = bind-some (flush_page p.last false p) _ r h1 in
            let (one, _) = flush-Packed (alone p.last) p t fits small flushed in
            let same = some-injective (record t { last = c }) r h2 in
            let rest1 = subst (λ u. pack cs u ≡ some q) (sym same) rest in
            let more = pack-Packed cs (record t { last = c }) q c_fits all one.bytes rest1 in
            subst (λ gs. Packed gs p q) (ground (arith, apart))
              (then_Packed (alone p.last) (groups c cs) p t q one
                (relast (groups c cs) t q c more)))
          (λ close h1.
            if-cases (length p.last == 0) _ _ (some r) h1
              (λ empty h2.
                let same = some-injective (record p { last = c }) r h2 in
                let rest1 = subst (λ u. pack cs u ≡ some q) (sym same) rest in
                let more = pack-Packed cs (record p { last = c }) q c_fits all small rest1 in
                subst (λ gs. Packed gs p q) (ground (arith, close, empty))
                  (relast (groups c cs) p q c more))
              (λ full h2.
                let (t, flushed, h3) = bind-some (flush_page (p.last ++ c) true p) _ r h2 in
                let both : length (p.last ++ c) ≤ page_size = omega (
                  arith,
                  length-append p.last c,
                  ltb-false→le page_size (length c + length p.last) close,
                ) in
                let (one, _) = flush-Packed (pair p.last c) p t both small flushed in
                let same = some-injective (record t { last = [] }) r h3 in
                let rest1 = subst (λ u. pack cs u ≡ some q) (sym same) rest in
                let more =
                  pack-Packed cs (record t { last = [] }) q (omega arith) all one.bytes rest1 in
                subst (λ gs. Packed gs p q) (ground (arith, close, full))
                  (then_Packed (pair p.last c) (groups [] cs) p t q one
                    (relast (groups [] cs) t q [] more)))))
