-- ===== src/Unpack.antt =====
-- The unpacking of sectors in compress_R.c: decompress_page_1, decompress_page_2 and the loop of
-- testDecompress. `inflate` of zlib is a parameter: from the bytes at its input, of which it is told
-- that there are 4096, it consumes some and produces at most a page.
pub mod Pages
pub mod Again
mod Examples
use pcfs.Base.{
  ℕ, zero, suc, ◌+◌, ◌-◌, ◌≡◌, Bool, true, false, List, [], ◌∷◌, ◌++◌, Option, none, some, ltb,
  ◌==◌, if◌then◌else◌, ◌>>=◌, length, take, drop,
}
use pcfs.Types.{page_size}
use pcfs.Sectors.{get_type}

-- What `inflate` consumes and produces, in an error too: CHECK_ERR only writes a message.
abbrev pub Inflate : Type 0
Inflate = List ℕ → ℕ × List ℕ

-- What one sector gives: the bytes that are written, by their offsets in the output, and how many they
-- are.
abbrev pub Given : Type 0
Given = List (ℕ × List ℕ) × ℕ

-- OFFSET: how much `inflate` consumes behind a segment that another one follows.
abbrev pub offset : ℕ
offset = 5

-- `decompress_page_1`, at the beginning of a sector, to the offset `total` of the output.
unfoldable pub decompress_page_1 : Inflate → List ℕ → ℕ → Given
decompress_page_1 inflate memory total =
    let r : ℕ × List ℕ = inflate (take page_size memory) in ((total, r.1) ∷ [], length r.1)

-- The second half of `decompress_page_2`, behind `r` of the first; a start before the sector, which less
-- than five consumed bytes would make, is `none`. The page is always written a page behind the first.
unfoldable pub second_page : Inflate → List ℕ → ℕ → ℕ × List ℕ → Option Given
second_page inflate memory total r =
    if ltb r.0 offset
    then none
    else (let s : ℕ × List ℕ = inflate (take page_size (drop (r.0 - offset) memory)) in
        some ((total, r.1) ∷ (total + page_size, s.1) ∷ [], length r.1 + length s.1))

unfoldable pub decompress_page_2 : Inflate → List ℕ → ℕ → Option Given
decompress_page_2 inflate memory total =
    second_page inflate memory total (inflate (take page_size memory))

unfoldable pub sector_out : Inflate → Bool → List ℕ → ℕ → Option Given
sector_out inflate true memory total = decompress_page_2 inflate memory total
sector_out inflate false memory total = some (decompress_page_1 inflate memory total)

-- What is written in all, from what a sector gives and what the rest of the loop does: nothing ends it.
unfoldable pub and_rest : Given → Option (List (ℕ × List ℕ)) → Option (List (ℕ × List ℕ))
and_rest o rest = if o.1 == 0 then some o.0 else (rest >>= λ ws. some (o.0 ++ ws))

-- The test of the loop around its body; `none` is a read behind the input.
unfoldable pub turn : Bool → List ℕ → Option (List (ℕ × List ℕ)) → Option (List (ℕ × List ℕ))
turn go memory body = if go then if ltb (length memory) page_size then none else body else some []

-- The loop of `testDecompress` from the sector number `blk` on, with `memory` from there and `total`
-- bytes put out; one unit of fuel for each sector is enough.
unfoldable pub unpack_sectors :
    Inflate → List ℕ → ℕ → ℕ → List ℕ → ℕ → ℕ → Option (List (ℕ × List ℕ))
unpack_sectors inflate mark zero req memory blk total = if ltb total req then none else some []
unpack_sectors inflate mark (suc fuel) req memory blk total = elim (get_type mark blk) [
  | none ↦ if ltb total req then none else some []
  | some type ↦ turn (ltb total req) memory (
      sector_out inflate type memory total >>= λ o.
      and_rest o
        (unpack_sectors inflate mark fuel req (drop page_size memory) (blk + 1) (total + o.1)))
]
