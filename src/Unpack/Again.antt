-- ===== src/Unpack/Again.antt =====
-- The unpacking of what `PCFS_compress` packed.
use pcfs.Base.{
  ℕ, zero, suc, ◌+◌, ◌-◌, ◌*◌, ◌/◌, ◌%◌, not, ◌≤◌, ◌<◌, ◌≡◌, refl, sym, ap, ◌∙◌, Bool, true, false,
  ◌&&◌, List, [], ◌∷◌, ◌++◌, some, arith, ltb, leb, ◌==◌, if◌then◌else◌, bind-at, length,
  length-append, append-nil, map, Bool-cases, inl, inr, if-false, if-true, if-all, subst, bit_and,
}
use mathlib.Core.Path.{ap₂}
use pcfs.Types.{page_size}
use pcfs.Sectors.{Packer, nth, mask, padded, get_type, segments, pcfs_compress}
use pcfs.Sectors.Packing.{
  Group, alone, pair, paired, sector_of, groups, AllFit, Packed, ltb-false→le,
}
use pcfs.Sectors.Calls.{pcfs_compress-Packed}
use pcfs.Unpack.{Inflate, offset, unpack_sectors}
use pcfs.Unpack.Pages.{
  Decodes, GoesOn, AllDecode, pages_from, size_of, Marked, flat, unpack_sectors-pages,
}

-- The segments of groups, and all of a call with the one that waits.
abbrev segments_of : List Group → List (List ℕ)
segments_of [] = []
segments_of (alone s ∷ gs) = s ∷ segments_of gs
segments_of (pair s t ∷ gs) = s ∷ t ∷ segments_of gs

-- Segments that fit into a page and are no shorter than what `inflate` reads ahead.
abbrev pub AllFilled : List (List ℕ) → Type 0
AllFilled [] = Unit {0}
AllFilled (c ∷ cs) = (length c ≤ page_size) × (offset ≤ length c) × AllFilled cs

segments_of-groups :
    (cs : List (List ℕ)) (last : List ℕ)
    → AllFilled cs
    → segments_of (groups last cs) ≡ (if length last == 0 then cs else last ∷ cs)
segments_of-groups [] last all = elim (Bool-cases (length last == 0)) [
  | inl empty ↦ rw empty refl
  | inr full ↦ rw full refl
]
segments_of-groups (c ∷ cs) last (fits, filled, all) =
    elim (Bool-cases (ltb page_size (length c + length last))) [
      | inl apart ↦
          rw (apart, waits last c fits apart)
            (ap (λ l. last ∷ l) (segments_of-groups cs c all ∙ first c cs filled))
      | inr close ↦ elim (Bool-cases (length last == 0)) [
        | inl empty ↦ rw (close, empty) (segments_of-groups cs c all ∙ first c cs filled)
        | inr full ↦ rw (close, full) (ap (λ l. last ∷ c ∷ l) (segments_of-groups cs [] all))
      ]
    ]
  where
    first :
        (c : List ℕ) (cs : List (List ℕ))
        → offset ≤ length c
        → (if length c == 0 then cs else c ∷ cs) ≡ c ∷ cs
    first c cs h = if-false {b = length c == 0} _ _ (ground (arith, h))

    waits :
        (last c : List ℕ)
        → length c ≤ page_size
        → ltb page_size (length c + length last) ≡ true
        → (length last == 0) ≡ false
    waits last c fits apart = ground (arith, fits, apart)

size_of-segments : (gs : List Group) → size_of gs ≡ page_size * length (segments_of gs)
size_of-segments [] = refl
size_of-segments (alone s ∷ gs) = omega (arith, size_of-segments gs)
size_of-segments (pair s t ∷ gs) = omega (arith, size_of-segments gs)

-- New marks are all of sectors with one segment.
nth-zeros : (n i : ℕ) → i < n → nth (padded n []) i ≡ some 0
unfolding nth padded
nth-zeros zero i h = absurd (omega (arith, h))
nth-zeros (suc n) zero h = refl
nth-zeros (suc n) (suc i) h = nth-zeros n i (omega (arith, h))

zero_masked : (o : ℕ) → o < 8 → bit_and 0 (mask o) ≡ 0
zero_masked zero h = refl
zero_masked (suc zero) h = refl
zero_masked (suc (suc zero)) h = refl
zero_masked (suc (suc (suc zero))) h = refl
zero_masked (suc (suc (suc (suc zero)))) h = refl
zero_masked (suc (suc (suc (suc (suc zero))))) h = refl
zero_masked (suc (suc (suc (suc (suc (suc zero)))))) h = refl
zero_masked (suc (suc (suc (suc (suc (suc (suc zero))))))) h = refl
zero_masked (suc (suc (suc (suc (suc (suc (suc (suc o)))))))) h = absurd (omega (arith, h))

get_type-zeros : (n i : ℕ) → i < 8 * n → get_type (padded n []) i ≡ some false
unfolding get_type
get_type-zeros n i h =
    bind-at _ 0 (nth-zeros n (i / 8) (omega (arith, h)))
    ∙ ap (λ b. some (not (b == 0))) (zero_masked (i % 8) (omega arith))

-- Marks that are known one by one.
marks-Marked :
    (mark : List ℕ) (gs : List Group) (blk : ℕ)
    → ((i : ℕ) → i < length gs → get_type mark (blk + i) ≡ some (paired gs i))
    → Marked mark blk gs
marks-Marked mark [] blk h = tt
marks-Marked mark (g ∷ gs) blk h = (
  ap (get_type mark) (omega arith) ∙ h 0 (omega arith),
  marks-Marked mark gs (blk + 1)
      (λ i lt. ap (get_type mark) (omega arith) ∙ h (suc i) (omega (arith, lt))),
)

Packed-Marked :
    (gs : List Group) (p q : Packer)
    → Packed gs p q
    → p.blk ≡ 0
    → p.mark ≡ padded page_size []
    → length gs ≤ 8 * page_size
    → Marked q.mark 0 gs
Packed-Marked gs p q packed b m few = marks-Marked q.mark gs 0 (λ i lt.
    ap (get_type q.mark) (omega arith)
    ∙ packed.marks i
    ∙ ap₂ (λ k t. if leb k i && paired gs (i - k) then some true else t) b
        (ap (λ m. get_type m i) m ∙ get_type-zeros page_size i (omega (arith, lt, few)))
    ∙ marked i (paired gs (i - 0))
    ∙ ap (λ k. some (paired gs k)) (omega arith))
  where
    marked : (i : ℕ) (t : Bool) → (if leb 0 i && t then some true else some false) ≡ some t
    marked i t = ground arith

module _ (inflate : Inflate) (page : List ℕ → List ℕ) where
  -- The pages of segments, one after the other from the offset `p` on.
  abbrev pub each : ℕ → List (List ℕ) → List (ℕ × List ℕ)
  each p [] = []
  each p (c ∷ cs) = (p, page c) ∷ each (p + page_size) cs

  each-pages : (gs : List Group) (p : ℕ) → pages_from inflate page p gs ≡ each p (segments_of gs)
  each-pages [] p = refl
  each-pages (alone s ∷ gs) p = ap (λ l. (p, page s) ∷ l) (each-pages gs (p + page_size))
  each-pages (pair s t ∷ gs) p =
      ap (λ l. (p, page s) ∷ (p + page_size, page t) ∷ l)
        (each-pages gs (p + (page_size + page_size))
          ∙ ap (λ k. each k (segments_of gs)) (omega arith))

  -- Every segment is one that `inflate` knows.
  abbrev pub AllKnown : List (List ℕ) → Type 0
  AllKnown [] = Unit {0}
  AllKnown (c ∷ cs) = (Decodes inflate page c × GoesOn inflate page c) × AllKnown cs

  -- Groups that fit into their sectors.
  abbrev AllSectors : List Group → Type 0
  AllSectors [] = Unit {0}
  AllSectors (alone s ∷ gs) = (length s ≤ page_size) × AllSectors gs
  AllSectors (pair s t ∷ gs) = ((length (s ++ t) ≤ page_size) × (offset ≤ length t)) × AllSectors gs

  known-AllDecode :
      (gs : List Group) → AllSectors gs → AllKnown (segments_of gs) → AllDecode inflate page gs
  known-AllDecode [] h k = tt
  known-AllDecode (alone s ∷ gs) (h, hs) ((d, g), ks) = (h, d, known-AllDecode gs hs ks)
  known-AllDecode (pair s t ∷ gs) ((h, n), hs) ((d, g), ((e, _), ks)) =
      (h, (d, g, e, n), known-AllDecode gs hs ks)

  groups-AllSectors :
      (cs : List (List ℕ)) (last : List ℕ)
      → length last ≤ page_size
      → AllFilled cs
      → AllSectors (groups last cs)
  groups-AllSectors [] last h all = elim (Bool-cases (length last == 0)) [
    | inl empty ↦ subst AllSectors (sym (if-true _ _ empty)) tt
    | inr full ↦ subst AllSectors (sym (if-false _ _ full)) (h, tt)
  ]
  groups-AllSectors (c ∷ cs) last h (fits, filled, all) =
      if-all AllSectors (ltb page_size (length c + length last)) _ _
        (λ _. (h, groups-AllSectors cs c fits all))
        (λ close.
          if-all AllSectors (length last == 0) _ _ (λ _. groups-AllSectors cs c fits all)
            (λ _. (
              (
                omega (
                  arith,
                  length-append last c,
                  ltb-false→le page_size (length c + length last) close,
                ),
                filled,
              ),
              groups-AllSectors cs [] (omega arith) all,
            )))

filled-AllFit : (cs : List (List ℕ)) → AllFilled cs → AllFit cs
filled-AllFit [] h = tt
filled-AllFit (c ∷ cs) (fits, _, h) = (fits, filled-AllFit cs h)

-- The unpacking of a whole call, for groups that decode.
unpacked :
    (inflate : Inflate) (page : List ℕ → List ℕ) (deflate : List ℕ → ℕ × List ℕ)
    (buf behind : List ℕ) (total_w : ℕ) (cs : List (List ℕ))
    → segments deflate (length buf + 1) (buf ++ behind) 0 (length buf) ≡ some cs
    → AllFilled cs
    → AllDecode inflate page (groups [] cs)
    → page_size * length cs ≤ length buf
    → length cs ≤ 8 * page_size
    → (q : Packer) × (pcfs_compress deflate buf behind total_w 0 ≡ some q)
      × (unpack_sectors inflate q.mark (length cs) (page_size * length cs) (flat q.wr_buf) 0 0
          ≡ some (each inflate page 0 cs))
unpacked inflate page deflate buf behind total_w cs parts filled decode space few =
    let (q, e, packed, bytes, less) =
      pcfs_compress-Packed deflate buf behind total_w cs parts (filled-AllFit cs filled) space
        few in
    let gs = groups [] cs in
    let same : segments_of gs ≡ cs = segments_of-groups cs [] filled in
    let size : size_of gs ≡ page_size * length cs =
      size_of-segments gs ∙ ap (λ l. page_size * length l) same in
    let memory : flat q.wr_buf ≡ flat (map sector_of gs) ++ [] =
      ap flat packed.sectors ∙ sym (append-nil (flat (map sector_of gs))) in
    (
      q,
      e,
      ap (λ m. unpack_sectors inflate q.mark (length cs) (page_size * length cs) m 0 0) memory
          ∙ unpack_sectors-pages inflate page q.mark [] gs (length cs) (page_size * length cs) 0 0
              less (omega (arith, size))
              (Packed-Marked gs _ q packed refl refl (omega (arith, less, few))) decode
          ∙ ap some (each-pages inflate page gs 0 ∙ ap (each inflate page 0) same),
    )

-- When `inflate` reads five bytes ahead, the pages come back of pairs as well.
unpack_sectors-pairs :
    (inflate : Inflate) (page : List ℕ → List ℕ) (deflate : List ℕ → ℕ × List ℕ)
    (buf behind : List ℕ) (total_w : ℕ) (cs : List (List ℕ))
    → segments deflate (length buf + 1) (buf ++ behind) 0 (length buf) ≡ some cs
    → AllFilled cs
    → AllKnown inflate page cs
    → page_size * length cs ≤ length buf
    → length cs ≤ 8 * page_size
    → (q : Packer) × (pcfs_compress deflate buf behind total_w 0 ≡ some q)
      × (unpack_sectors inflate q.mark (length cs) (page_size * length cs) (flat q.wr_buf) 0 0
          ≡ some (each inflate page 0 cs))
unpack_sectors-pairs inflate page deflate buf behind total_w cs parts filled known space few =
    unpacked inflate page deflate buf behind total_w cs parts filled
      (known-AllDecode inflate page (groups [] cs)
        (groups-AllSectors inflate page cs [] (omega arith) filled)
        (subst (AllKnown inflate page) (sym (segments_of-groups cs [] filled)) known))
      space few

not_empty : (l : List ℕ) → offset ≤ length l → (length l == 0) ≡ false
not_empty l h = ground (arith, h)

over : (n : ℕ) → page_size < n → ltb page_size n ≡ true
over n h = ground (arith, h)

fits_alone : (c : List ℕ) → length c ≤ page_size → ltb page_size (length c + 0) ≡ false
fits_alone c h = ground (arith, h)

-- No two segments that follow each other fit into one sector.
abbrev pub Apart : List ℕ → List (List ℕ) → Type 0
Apart last [] = Unit {0}
Apart last (c ∷ cs) = (page_size < length c + length last) × Apart c cs

abbrev pub AllApart : List (List ℕ) → Type 0
AllApart [] = Unit {0}
AllApart (c ∷ cs) = Apart c cs

abbrev pub AllDecoded : Inflate → (List ℕ → List ℕ) → List (List ℕ) → Type 0
AllDecoded inflate page [] = Unit {0}
AllDecoded inflate page (c ∷ cs) = Decodes inflate page c × AllDecoded inflate page cs

groups-AllDecode :
    (inflate : Inflate) (page : List ℕ → List ℕ) (cs : List (List ℕ)) (last : List ℕ)
    → length last ≤ page_size
    → offset ≤ length last
    → AllFilled cs
    → Apart last cs
    → Decodes inflate page last
    → AllDecoded inflate page cs
    → AllDecode inflate page (groups last cs)
groups-AllDecode inflate page [] last fits filled all apart d ds =
    subst (AllDecode inflate page) (sym (if-false _ _ (not_empty last filled))) (fits, d, tt)
groups-AllDecode inflate page (c ∷ cs) last fits filled (fits_c, filled_c, all) (apart, more) d
      (e, ds) =
    subst (AllDecode inflate page) (sym (if-true _ _ (over (length c + length last) apart)))
      (fits, d, groups-AllDecode inflate page cs c fits_c filled_c all more e ds)

first_groups-AllDecode :
    (inflate : Inflate) (page : List ℕ → List ℕ) (cs : List (List ℕ))
    → AllFilled cs
    → AllApart cs
    → AllDecoded inflate page cs
    → AllDecode inflate page (groups [] cs)
first_groups-AllDecode inflate page [] all apart ds = tt
first_groups-AllDecode inflate page (c ∷ cs) (fits, filled, all) apart (d, ds) =
    subst (AllDecode inflate page) (sym (if-false _ _ (fits_alone c fits)))
      (groups-AllDecode inflate page cs c fits filled all apart d ds)

-- A call of `PCFS_compress` that finds `blk` at 0, with a buffer that has a page for every segment, and
-- with segments no two of which share a sector, makes marks and sectors from which the loop of
-- `testDecompress` writes the page of every segment, each a page behind the one before it, and nothing
-- else; when as many bytes are asked for as those pages have. Every segment has to have at least five
-- bytes, to fit into a page, and to be one that `inflate` makes a page of, whatever follows it.
pub unpack_sectors-pcfs_compress :
    (inflate : Inflate) (page : List ℕ → List ℕ) (deflate : List ℕ → ℕ × List ℕ)
    (buf behind : List ℕ) (total_w : ℕ) (cs : List (List ℕ))
    → segments deflate (length buf + 1) (buf ++ behind) 0 (length buf) ≡ some cs
    → AllFilled cs
    → AllApart cs
    → AllDecoded inflate page cs
    → page_size * length cs ≤ length buf
    → length cs ≤ 8 * page_size
    → (q : Packer) × (pcfs_compress deflate buf behind total_w 0 ≡ some q)
      × (unpack_sectors inflate q.mark (length cs) (page_size * length cs) (flat q.wr_buf) 0 0
          ≡ some (each inflate page 0 cs))
unpack_sectors-pcfs_compress inflate page deflate buf behind total_w cs parts filled apart decoded
      space few =
    unpacked inflate page deflate buf behind total_w cs parts filled
      (first_groups-AllDecode inflate page cs filled apart decoded) space few
