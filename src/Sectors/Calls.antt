-- ===== src/Sectors/Calls.antt =====
-- Whole calls of `PCFS_compress`.
use pcfs.Base.{
  ℕ, zero, suc, ◌+◌, ◌*◌, ◌<◌, ◌≤◌, ◌≡◌, refl, ap, Bool, true, false, List, [], ◌∷◌, ◌++◌, none,
  some, arith, ltb, ltb→lt, ◌==◌, length, length-append, Bool-cases, inl, inr, sym, ◌∙◌,
}
use pcfs.Types.{page_size}
use pcfs.Sectors.{
  Packer, padded, nth, flush_page, check_and_flush, pack, skip, segments, pcfs_compress,
}
use pcfs.Sectors.Packing.{alone, pair, groups, AllFit, Packed, pack-Packed, ltb-false→le}
use pcfs.Sectors.Room.{
  Room, flush-runs, groups-few, groups-bytes, all_bytes, flatten, nil_of, not_less,
}

is_less : (a b : ℕ) → a < b → ltb a b ≡ true
is_less a b lt = ground arith

-- The three ways in which `check_and_flush` goes on.
pack-apart :
    (c : List ℕ) (cs : List (List ℕ)) (p t : Packer)
    → ltb page_size (length c) ≡ false
    → ltb page_size (length c + length p.last) ≡ true
    → flush_page p.last false p ≡ some t
    → pack (c ∷ cs) p ≡ pack cs (record t { last = c })
unfolding pack check_and_flush
pack-apart c cs p t small apart e = rw (small, apart, e)

pack-first :
    (c : List ℕ) (cs : List (List ℕ)) (p : Packer)
    → ltb page_size (length c) ≡ false
    → ltb page_size (length c + length p.last) ≡ false
    → (length p.last == 0) ≡ true
    → pack (c ∷ cs) p ≡ pack cs (record p { last = c })
unfolding pack check_and_flush
pack-first c cs p small close empty = rw (small, close, empty)

pack-together :
    (c : List ℕ) (cs : List (List ℕ)) (p t : Packer)
    → ltb page_size (length c) ≡ false
    → ltb page_size (length c + length p.last) ≡ false
    → (length p.last == 0) ≡ false
    → flush_page (p.last ++ c) true p ≡ some t
    → pack (c ∷ cs) p ≡ pack cs (record t { last = [] })
unfolding pack check_and_flush
pack-together c cs p t small close full e = rw (small, close, full, e)

pack-runs :
    (cs : List (List ℕ)) (p : Packer)
    → length p.last ≤ page_size
    → AllFit cs
    → Room (length (groups p.last cs)) p
    → (q : Packer) × (pack cs p ≡ some q)
unfolding pack
pack-runs [] p fits all room = elim (Bool-cases (length p.last == 0)) [
  | inl empty ↦ (p, rw empty)
  | inr full ↦
      let (q, e, _) = flush-runs (alone p.last) 0 p fits (ground (arith, room, full)) in
      (q, ground (arith, full, e))
]
pack-runs (c ∷ cs) p fits (c_fits, all) room =
    let small : ltb page_size (length c) ≡ false = not_less page_size (length c) c_fits in
    elim (Bool-cases (ltb page_size (length c + length p.last))) [
      | inl apart ↦
          let (t, e, room1) =
            flush-runs (alone p.last) (length (groups c cs)) p fits (ground (arith, room, apart)) in
          let (q, e1) = pack-runs cs (record t { last = c }) c_fits all room1 in
          (q, pack-apart c cs p t small apart e ∙ e1)
      | inr close ↦ elim (Bool-cases (length p.last == 0)) [
        | inl empty ↦
            let (q, e1) =
              pack-runs cs (record p { last = c }) c_fits all
                (ground (arith, room, close, empty)) in
            (q, pack-first c cs p small close empty ∙ e1)
        | inr full ↦
            let both : length (p.last ++ c) ≤ page_size = omega (
              arith,
              length-append p.last c,
              ltb-false→le page_size (length c + length p.last) close,
            ) in
            let (t, e, room1) =
              flush-runs (pair p.last c) (length (groups [] cs)) p both
                (ground (arith, room, close, full)) in
            let (q, e1) = pack-runs cs (record t { last = [] }) (omega arith) all room1 in
            (q, pack-together c cs p t small close full e ∙ e1)
      ]
    ]

-- A sector behind the end of the buffer.
flush-overflows :
    (buf : List ℕ) (type : Bool) (p : Packer)
    → length buf ≤ page_size
    → p.capacity < page_size * (p.blk + 1)
    → flush_page buf type p ≡ none
unfolding flush_page
flush-overflows buf type p fits full =
    rw (not_less page_size (length buf) fits, is_less p.capacity (page_size * (p.blk + 1)) full)

pack-overflows :
    (cs : List (List ℕ)) (p : Packer)
    → length p.last ≤ page_size
    → AllFit cs
    → 0 < length (groups p.last cs)
    → p.capacity < page_size * (p.blk + 1)
    → pack cs p ≡ none
unfolding pack check_and_flush
pack-overflows [] p fits all some_group full = elim (Bool-cases (length p.last == 0)) [
  | inl empty ↦ ground (arith, some_group, empty)
  | inr waits ↦ rw (waits, flush-overflows p.last false p fits full)
]
pack-overflows (c ∷ cs) p fits (c_fits, all) some_group full =
    let small : ltb page_size (length c) ≡ false = not_less page_size (length c) c_fits in
    elim (Bool-cases (ltb page_size (length c + length p.last))) [
      | inl apart ↦ rw (small, apart, flush-overflows p.last false p fits full)
      | inr close ↦ elim (Bool-cases (length p.last == 0)) [
        | inl empty ↦
            rw (small, close, empty)
              (pack-overflows cs (record p { last = c }) c_fits all
                (ground (arith, some_group, close, empty)) full)
        | inr waits ↦
            let both : length (p.last ++ c) ≤ page_size = omega (
              arith,
              length-append p.last c,
              ltb-false→le page_size (length c + length p.last) close,
            ) in
            rw (small, close, waits, flush-overflows (p.last ++ c) true p both full)
      ]
    ]

-- `deflate` always consumes something.
abbrev pub Consumes : (List ℕ → ℕ × List ℕ) → Type 0
Consumes deflate = (window : List ℕ) → 0 < (deflate window).0

-- The loop of `testCompress` ends: one call for each byte that is left is enough.
pub segments-runs :
    (deflate : List ℕ → ℕ × List ℕ) (k : ℕ) (memory : List ℕ) (total_in len : ℕ)
    → Consumes deflate
    → len < total_in + k
    → 0 < k
    → (cs : List (List ℕ)) × (segments deflate k memory total_in len ≡ some cs)
unfolding segments
segments-runs deflate zero memory total_in len consumes enough more = absurd (omega arith)
segments-runs deflate (suc k) memory total_in len consumes enough more =
    let window = padded page_size memory in
    elim (Bool-cases (ltb total_in len)) [
      | inl going ↦
          let (cs, e) =
            segments-runs deflate k (skip (deflate window).0 memory) (total_in + (deflate window).0)
              len consumes (omega (arith, consumes window, ltb→lt total_in len going))
              (omega (arith, ltb→lt total_in len going)) in
          ((deflate window).1 ∷ cs, rw (going, e))
      | inr over ↦ ([], rw over)
    ]

length-padded : (n : ℕ) (bs : List ℕ) → length (padded n bs) ≡ n
unfolding padded
length-padded zero bs = refl
length-padded (suc n) [] = ap suc (length-padded n [])
length-padded (suc n) (b ∷ bs) = ap suc (length-padded n bs)

zeros-AllBytes : (n i b : ℕ) → nth (padded n []) i ≡ some b → b < 256
unfolding nth padded
zeros-AllBytes zero i b e = ground (arith, e)
zeros-AllBytes (suc n) zero b e = ground (arith, e)
zeros-AllBytes (suc n) (suc i) b e = zeros-AllBytes n i b e

-- The state in which a call starts: no segment waits, and the marks and the buffer are new.
abbrev pub start : List ℕ → ℕ → ℕ → Packer
start buf total_w blk = record {
  last = [];
  total_w = total_w;
  blk = blk;
  mark = padded page_size [];
  wr_buf = [];
  capacity = length buf;
}

-- A call that finds `blk` at 0, with a buffer that has a page for every segment, stays inside its
-- buffers. It writes the segments in groups of one or two, each in a sector of its own, padded with
-- zeros, with the marks set for the pairs; the groups hold the bytes of all segments in their order,
-- and there are not more groups than segments.
pub pcfs_compress-Packed :
    (deflate : List ℕ → ℕ × List ℕ) (buf behind : List ℕ) (total_w : ℕ) (cs : List (List ℕ))
    → segments deflate (length buf + 1) (buf ++ behind) 0 (length buf) ≡ some cs
    → AllFit cs
    → page_size * length cs ≤ length buf
    → length cs ≤ 8 * page_size
    → (q : Packer) × (pcfs_compress deflate buf behind total_w 0 ≡ some q)
      × Packed (groups [] cs) (start buf total_w 0) q
      × (all_bytes (groups [] cs) ≡ flatten cs)
      × (length (groups [] cs) ≤ length cs)
unfolding pcfs_compress
pcfs_compress-Packed deflate buf behind total_w cs parts all space few =
    let less : length (groups [] cs) ≤ length cs = omega (arith, groups-few cs [] all) in
    let room : Room (length (groups [] cs)) (start buf total_w 0) =
      (omega (arith, less, space), omega (arith, less, few, length-padded page_size [])) in
    let (q, e) = pack-runs cs (start buf total_w 0) (omega arith) all room in
    (
      q,
      rw (parts, e),
      pack-Packed cs (start buf total_w 0) q (omega arith) all (zeros-AllBytes page_size) e,
      groups-bytes cs [],
      less,
    )

some_group : (cs : List (List ℕ)) → 0 < length (flatten cs) → 0 < length (groups [] cs)
some_group cs some_byte = elim (Bool-cases (length (groups [] cs) == 0)) [
  | inl empty ↦
      let same : all_bytes (groups [] cs) ≡ flatten cs = groups-bytes cs [] in
      let gone : all_bytes (groups [] cs) ≡ [] = ap all_bytes (nil_of (groups [] cs) empty) in
      let zero_length : length (flatten cs) ≡ 0 = ap length (sym same ∙ gone) in
      absurd (omega (arith, some_byte, zero_length))
  | inr full ↦ ground (arith, full)
]

-- A call that finds fewer bytes in its buffer than `blk` sectors and one more take writes behind the
-- end of the buffer, if there is anything to write: so does every write of less than a page, and,
-- since nothing sets `blk` back, a second write of one page.
pub pcfs_compress-overflows :
    (deflate : List ℕ → ℕ × List ℕ) (buf behind : List ℕ) (total_w blk : ℕ) (cs : List (List ℕ))
    → segments deflate (length buf + 1) (buf ++ behind) 0 (length buf) ≡ some cs
    → AllFit cs
    → 0 < length (flatten cs)
    → length buf < page_size * (blk + 1)
    → pcfs_compress deflate buf behind total_w blk ≡ none
unfolding pcfs_compress
pcfs_compress-overflows deflate buf behind total_w blk cs parts all some_byte full =
    rw parts
      (pack-overflows cs (start buf total_w blk) (omega arith) all (some_group cs some_byte) full)
