-- ===== src/Header/Roundtrip.antt =====
-- A header that was written reads back.
use pcfs.Base.{ℕ, ◌^◌, ◌<◌, ◌≡◌, ap, Option, some, arith}
use pcfs.Types.{Compressor, module_null, module_gzip}
use pcfs.Header.{bytes8, number8, header_of, file_read_header_fd, got, header}

pub number8-bytes8 : (n : ℕ) → n < 2 ^ 64 → number8 (bytes8 n) ≡ n
number8-bytes8 n h = omega arith

pub read-header_of :
    (c : Compressor) (n : ℕ) (c0 : Option Compressor) (n0 : ℕ)
    → n < 2 ^ 64
    → file_read_header_fd c0 n0 (got (header_of c n)) ≡ header (some c) n
unfolding file_read_header_fd header_of
read-header_of module_null n c0 n0 h = ap (header (some module_null)) (number8-bytes8 n h)
read-header_of module_gzip n c0 n0 h = ap (header (some module_gzip)) (number8-bytes8 n h)
