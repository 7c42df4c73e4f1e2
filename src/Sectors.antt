-- ===== src/Sectors.antt =====
-- compress_W.c and the look at the marks in compress_R.c: what a write is packed into. `deflate` of
-- zlib is a parameter: from the 4096 bytes at its input, it consumes some and produces a segment.
pub mod Marks
pub mod Packing
pub mod Room
pub mod Calls
pub mod Examples
use pcfs.Base.{
  ℕ, zero, suc, ◌+◌, ◌-◌, ◌*◌, ◌/◌, ◌%◌, ◌^◌, ◌≡◌, Bool, true, false, not, ◌&&◌, ◌||◌, List, [],
  ◌∷◌, ◌++◌, Option, none, some, ltb, leb, ◌==◌, if◌then◌else◌, is_some, ◌>>=◌, length, bit_or,
  bit_and,
}
use pcfs.Types.{page_size}

-- The byte at an index, and the list with another byte there; `none` stands for a place outside.
unfoldable pub nth : List ℕ → ℕ → Option ℕ
nth [] i = none
nth (x ∷ xs) zero = some x
nth (x ∷ xs) (suc i) = nth xs i

unfoldable pub set_nth : List ℕ → ℕ → ℕ → Option (List ℕ)
set_nth [] i b = none
set_nth (x ∷ xs) zero b = some (b ∷ xs)
set_nth (x ∷ xs) (suc i) b = do rest ← set_nth xs i b; some (x ∷ rest)

-- 0x80 >> offset
abbrev pub mask : ℕ → ℕ
mask offset = 128 / 2 ^ offset

-- `set_flag`: `none` stands for a write outside of the marks.
unfoldable pub set_flag : List ℕ → ℕ → Option (List ℕ)
set_flag mark blk = do
  byte ← nth mark (blk / 8)
  set_nth mark (blk / 8) (bit_or byte (mask (blk % 8)))

-- `get_type`: 0 or 1 as a Boolean, `none` for a read outside of the marks.
unfoldable pub get_type : List ℕ → ℕ → Option Bool
get_type mark blk = do byte ← nth mark (blk / 8); some (not (bit_and byte (mask (blk % 8)) == 0))

-- The state of a write: the segment that waits for a partner (`lastBuf` and `lastSize`), the globals
-- `totalW`, `blk` and `mark`, the sectors written to `wrBuf` in their order, and how many bytes
-- `calloc` gave `wrBuf`.
pub record Packer : Type 0 where
  pub last : List ℕ
  pub total_w : ℕ
  pub blk : ℕ
  pub mark : List ℕ
  pub wr_buf : List (List ℕ)
  pub capacity : ℕ

-- The first bytes of a buffer that holds a segment, and zeros after it.
unfoldable pub padded : ℕ → List ℕ → List ℕ
padded zero bs = []
padded (suc n) [] = 0 ∷ padded n []
padded (suc n) (b ∷ bs) = b ∷ padded n bs

-- The part of `flush_page` that sets the mark.
unfoldable pub mark_sector : Bool → Packer → Option (List ℕ)
mark_sector type p = if type then set_flag p.mark p.blk else some p.mark

-- `flush_page`; what it returns is not looked at. `none` stands for a write behind the end of `wrBuf`
-- or of the marks.
unfoldable pub flush_page : List ℕ → Bool → Packer → Option Packer
flush_page buf type p =
    if ltb page_size (length buf)
    then some p
    else if ltb p.capacity (page_size * (p.blk + 1))
    then none
    else (mark_sector type p >>= λ mark. some (record p {
      total_w = p.total_w + length buf;
      blk = p.blk + 1;
      mark = mark;
      wr_buf = p.wr_buf ++ padded page_size buf ∷ [];
    }))

-- `check_and_flush` with the segment `cur`.
unfoldable pub check_and_flush : List ℕ → Packer → Option Packer
check_and_flush cur p =
    if ltb page_size (length cur)
    then (flush_page p.last false p >>= λ q.
        flush_page cur false q >>= λ r. some (record r { last = [] }))
    else if ltb page_size (length cur + length p.last)
    then (flush_page p.last false p >>= λ q. some (record q { last = cur }))
    else if length p.last == 0
    then some (record p { last = cur })
    else (flush_page (p.last ++ cur) true p >>= λ q. some (record q { last = [] }))

-- The segments one after another, and the last one that still waits.
unfoldable pub pack : List (List ℕ) → Packer → Option Packer
pack [] p = if length p.last == 0 then some p else flush_page p.last false p
pack (c ∷ cs) p = check_and_flush c p >>= λ q. pack cs q

-- What comes after the first bytes.
unfoldable pub skip : ℕ → List ℕ → List ℕ
skip zero bs = bs
skip (suc n) [] = []
skip (suc n) (b ∷ bs) = skip n bs

-- The loop of `testCompress` around `deflate`, from the byte `total_in` of `len` on. `memory` is the
-- buffer from there and what lies behind it, and the module is always told that it has 4096 bytes.
-- `none` if the fuel runs out.
unfoldable pub segments : (List ℕ → ℕ × List ℕ) → ℕ → List ℕ → ℕ → ℕ → Option (List (List ℕ))
segments deflate zero memory total_in len = none
segments deflate (suc k) memory total_in len =
    let (consumed, segment) = deflate (padded page_size memory) in
    let rest = segments deflate k (skip consumed memory) (total_in + consumed) len in
    if ltb total_in len then (rest >>= λ cs. some (segment ∷ cs)) else some []

-- `PCFS_compress` and `testCompress`: the marks and the buffer are new, and the globals `totalW` and
-- `blk` are as the last call left them. One call of `deflate` for each byte is fuel enough.
unfoldable pub pcfs_compress : (List ℕ → ℕ × List ℕ) → List ℕ → List ℕ → ℕ → ℕ → Option Packer
pcfs_compress deflate buf behind total_w blk =
    segments deflate (length buf + 1) (buf ++ behind) 0 (length buf) >>= λ cs. pack cs (record {
      last = [];
      total_w = total_w;
      blk = blk;
      mark = padded page_size [];
      wr_buf = [];
      capacity = length buf;
    })

-- What `PCFS_compress` returns.
abbrev pub written_size : Packer → ℕ
written_size p = page_size * p.blk
