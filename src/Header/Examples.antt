-- ===== src/Header/Examples.antt =====
-- Headers at concrete bytes.
use pcfs.Base.{codes, List, take, [], ◌∷◌, ℕ, ◌≡◌, ◌↔◌, none, some, arith}
use pcfs.Types.{module_gzip}
use pcfs.Header.{
  file_read_header_fd, file_write_header, file_write_ext_header, got, header, undefined,
}
use pcfs.Header.Extended.{
  file_read_ext_header_fd, ext_header, read_ext-write_ext, find_compressor_name,
  find_compressor_name_iff,
}
use pcfs.Header.Reading.{Twelve, list_of, read_iff_written, undefined_iff_five}

abbrev gz_header : Twelve
gz_header = record {
  i0 = 31;
  i1 = 93;
  i2 = 137;
  t = 2;
  b0 = 1;
  b1 = 2;
  b2 = 0;
  b3 = 0;
  b4 = 0;
  b5 = 0;
  b6 = 0;
  b7 = 0;
}

read_iff_written_example :
    (file_read_header_fd none 0 (got (list_of gz_header)) ≡ header (some module_gzip) 513)
    ↔ (file_write_header module_gzip (some 513) ≡ some (list_of gz_header))
read_iff_written_example = read_iff_written gz_header 0 module_gzip 513 (omega arith) (omega arith)

undefined_iff_five_example :
    (file_read_header_fd none 0 (got (list_of (record gz_header { t = 5 }))) ≡ undefined)
    ↔ (◌≡◌ {A = ℕ} 31 31 × ◌≡◌ {A = ℕ} 93 93 × ◌≡◌ {A = ℕ} 137 137 × ◌≡◌ {A = ℕ} 5 5)
undefined_iff_five_example = undefined_iff_five (record gz_header { t = 5 }) none 0

find_compressor_name_iff_example :
    (find_compressor_name (codes "gz") ≡ some module_gzip) ↔ (codes "gz" ≡ codes "gz")
find_compressor_name_iff_example = find_compressor_name_iff (codes "gz") module_gzip

read_ext-write_ext_example :
    (bs : List ℕ) × (file_write_ext_header module_gzip
        (some 10000)
        3
        4096
        (1 ∷ 0 ∷ 1 ∷ [])
        (0 ∷ 2048 ∷ 0 ∷ [])
      ≡ some bs)
    × (file_read_ext_header_fd none 0 0 0 (got (take 28 bs))
        ≡ ext_header (some module_gzip) 10000 3 4096)
read_ext-write_ext_example =
    read_ext-write_ext module_gzip 10000 3 4096 (1 ∷ 0 ∷ 1 ∷ []) (0 ∷ 2048 ∷ 0 ∷ []) none 0 0 0
      (omega arith) (omega arith) (omega arith)
