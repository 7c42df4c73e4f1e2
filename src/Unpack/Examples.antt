-- ===== src/Unpack/Examples.antt =====
-- A concrete write that is unpacked again.
use pcfs.Base.{ℕ, zero, suc, ◌+◌, ◌*◌, ◌≡◌, refl, List, [], ◌∷◌, ◌++◌, some, arith, length}
use pcfs.Types.{page_size}
use pcfs.Sectors.{Packer, padded, skip, segments, pcfs_compress}
use pcfs.Sectors.Examples.{ones}
use pcfs.Unpack.{Inflate, unpack_sectors}
use pcfs.Unpack.Pages.{Decodes, flat}
use pcfs.Unpack.Again.{each, unpack_sectors-pcfs_compress}

abbrev page_of : ℕ → ℕ → List ℕ
page_of zero x = []
page_of (suc n) x = x ∷ page_of n x

-- A segment of 3000 bytes, the first of which is the first of its page.
abbrev segment_of : List ℕ → List ℕ
segment_of [] = []
segment_of (x ∷ xs) = x ∷ page_of 2999 0

abbrev long_deflate : List ℕ → ℕ × List ℕ
long_deflate window = (4096, segment_of window)

-- Its page is made of that byte; an empty input has none.
abbrev first_page : List ℕ → List ℕ
first_page [] = []
first_page (x ∷ xs) = page_of 4096 x

abbrev long_inflate : Inflate
long_inflate memory = (3000, first_page memory)

abbrev one_segment : List ℕ
one_segment = 1 ∷ page_of 2999 0

abbrev two_segments : List (List ℕ)
two_segments = one_segment ∷ one_segment ∷ []

one_segment-known : Decodes long_inflate first_page one_segment
one_segment-known = (λ rest. (3000, refl), refl)

abbrev two_pages : List ℕ
two_pages = ones 8192

two_pages-segments :
    segments long_deflate (length two_pages + 1) (two_pages ++ []) 0 (length two_pages)
    ≡ some two_segments
unfolding segments padded skip
two_pages-segments = refl

unpack_sectors-pcfs_compress_example :
    (q : Packer) × (pcfs_compress long_deflate two_pages [] 0 0 ≡ some q)
    × (unpack_sectors long_inflate q.mark
          (length two_segments)
          (page_size * length two_segments)
          (flat q.wr_buf)
          0
          0
        ≡ some (each long_inflate first_page 0 two_segments))
unpack_sectors-pcfs_compress_example =
    unpack_sectors-pcfs_compress long_inflate first_page long_deflate two_pages [] 0 two_segments
      two_pages-segments (omega arith, omega arith, (omega arith, omega arith, tt))
      (omega arith, tt) (one_segment-known, (one_segment-known, tt)) (omega arith) (omega arith)
