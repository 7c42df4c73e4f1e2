-- ===== src/Sectors/Examples.antt =====
-- Concrete writes.
use pcfs.Base.{
  ℕ, zero, suc, ◌+◌, ◌≤◌, ◌≡◌, refl, true, List, [], ◌∷◌, ◌++◌, none, some, arith, ◌==◌,
  if◌then◌else◌, length,
}
use pcfs.Sectors.{Packer, nth, set_nth, set_flag, get_type, segments, pcfs_compress}
use pcfs.Sectors.Marks.{AllBytes, set_flag-get_type}
use pcfs.Sectors.Packing.{Packed, groups}
use pcfs.Sectors.Room.{all_bytes, flatten}
use pcfs.Sectors.Calls.{Consumes, start, pcfs_compress-Packed, pcfs_compress-overflows}

two_bytes-AllBytes : AllBytes (0 ∷ 65 ∷ [])
unfolding nth
two_bytes-AllBytes zero b e = ground (arith, e)
two_bytes-AllBytes (suc zero) b e = ground (arith, e)
two_bytes-AllBytes (suc (suc i)) b e = ground (arith, e)

flag-set : set_flag (0 ∷ 65 ∷ []) 10 ≡ some (0 ∷ 97 ∷ [])
unfolding set_flag nth set_nth
flag-set = refl

set_flag-get_type_example :
    (get_type (0 ∷ 97 ∷ []) 10 ≡ (if 10 == 10 then some true else get_type (0 ∷ 65 ∷ []) 10))
    × AllBytes (0 ∷ 97 ∷ [])
set_flag-get_type_example =
    set_flag-get_type (0 ∷ 65 ∷ []) (0 ∷ 97 ∷ []) 10 10 two_bytes-AllBytes flag-set

-- A `deflate` that makes three bytes of a page.
abbrev pub small_deflate : List ℕ → ℕ × List ℕ
small_deflate window = (4096, 7 ∷ 8 ∷ 9 ∷ [])

small_deflate-Consumes : Consumes small_deflate
small_deflate-Consumes window = omega arith

-- Two bytes.
abbrev two_bytes : List ℕ
two_bytes = 1 ∷ 2 ∷ []

-- Two pages of ones.
abbrev pub ones : ℕ → List ℕ
ones zero = []
ones (suc n) = 1 ∷ ones n

abbrev two_pages : List ℕ
two_pages = ones 8192

abbrev two_segments : List (List ℕ)
two_segments = (7 ∷ 8 ∷ 9 ∷ []) ∷ (7 ∷ 8 ∷ 9 ∷ []) ∷ []

two_pages-segments :
    segments small_deflate (length two_pages + 1) (two_pages ++ []) 0 (length two_pages)
    ≡ some two_segments
unfolding segments
two_pages-segments = refl

pcfs_compress-Packed_example :
    (q : Packer) × (pcfs_compress small_deflate two_pages [] 0 0 ≡ some q)
    × Packed (groups [] two_segments) (start two_pages 0 0) q
    × (all_bytes (groups [] two_segments) ≡ flatten two_segments)
    × (length (groups [] two_segments) ≤ length two_segments)
pcfs_compress-Packed_example =
    pcfs_compress-Packed small_deflate two_pages [] 0 two_segments two_pages-segments
      (omega arith, (omega arith, tt)) (omega arith) (omega arith)

short-segments :
    segments small_deflate (length two_bytes + 1) (two_bytes ++ []) 0 (length two_bytes)
    ≡ some ((7 ∷ 8 ∷ 9 ∷ []) ∷ [])
unfolding segments
short-segments = refl

pcfs_compress-overflows_example : pcfs_compress small_deflate two_bytes [] 0 0 ≡ none
pcfs_compress-overflows_example =
    pcfs_compress-overflows small_deflate two_bytes [] 0 0 ((7 ∷ 8 ∷ 9 ∷ []) ∷ []) short-segments
      (omega arith, tt) (omega arith) (omega arith)
