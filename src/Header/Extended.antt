-- ===== src/Header/Extended.antt =====
-- The extended header of file.c (find_compressorExt, file_compressorExt, file_read_ExtHeader_fd), and
-- find_compressor_name.
use pcfs.Base.{
  ℕ, ◌+◌, ◌-◌, ltb, refl, Bool-cases, inl, inr, ◌^◌, ◌%◌, ◌<◌, ◌≡◌, ◌↔◌, ap, ◌∙◌, Bool, true, List,
  [], ◌∷◌, Option, none, some, arith, ◌==◌, if◌then◌else◌, length, take, drop, str_eq, codes,
  if-true, if-false,
}
use pcfs.Types.{Compressor, module_null, module_gzip, name_of}
use pcfs.Names.Shared.{str_eq_iff}
use pcfs.Header.{
  HeaderT, bytes8, number8, compressors, Looked, outside, entry, find_compressor, file_compressor,
  parse_header, ext_header_length, ReadResult, failed, got, extended, header_of,
  file_write_ext_header,
}
use pcfs.Header.Roundtrip.{number8-bytes8}

-- extheader_t
pub record ExtHeaderT : Type 0 where
  pub start : HeaderT
  pub page_used : ℕ
  pub c_size : ℕ

-- The bytes that `read` put into an extheader_t. Its beginning is that of a header_t.
unfoldable pub parse_ext_header : List ℕ → ExtHeaderT
parse_ext_header bs = record {
  start = parse_header bs;
  page_used = number8 (drop 12 bs);
  c_size = number8 (drop 20 bs);
}

-- `file_compressorExt` and `find_compressorExt` look at the same fields as the other two.
unfoldable pub file_compressor_ext : ExtHeaderT → Looked
file_compressor_ext fh = file_compressor fh.start

-- What `file_read_ExtHeader_fd` does to its four arguments; the last two are ints by their bit pattern.
pub data ExtRead : Type 0 where
  io_error undefined : ExtRead
  ext_header : Option Compressor → ℕ → ℕ → ℕ → ExtRead

unfoldable pub take_ext_header : Looked → ℕ → ExtHeaderT → ExtRead
take_ext_header outside old fh = undefined
take_ext_header (entry none) old fh =
    ext_header none old (fh.page_used % 2 ^ 32) (fh.c_size % 2 ^ 32)
take_ext_header (entry (some c)) old fh =
    ext_header (some c) fh.start.size (fh.page_used % 2 ^ 32) (fh.c_size % 2 ^ 32)

-- A short read leaves all four.
unfoldable pub file_read_ext_header_fd : Option Compressor → ℕ → ℕ → ℕ → ReadResult → ExtRead
file_read_ext_header_fd c size page_used c_size failed = io_error
file_read_ext_header_fd c size page_used c_size (got bs) =
    if length bs == ext_header_length
    then take_ext_header (file_compressor_ext (parse_ext_header bs)) size (parse_ext_header bs)
    else ext_header c size page_used c_size

-- The loop of `find_compressor_name` over the entries of the table.
unfoldable pub find_name : List ℕ → List (Option Compressor) → Option Compressor
find_name name [] = none
find_name name (none ∷ cs) = find_name name cs
find_name name (some c ∷ cs) =
    let rest = find_name name cs in if str_eq name (name_of c) then some c else rest

unfoldable pub find_compressor_name : List ℕ → Option Compressor
find_compressor_name name =
    find_name name
      (compressors 0 ∷ compressors 1 ∷ compressors 2 ∷ compressors 3 ∷ compressors 4 ∷ [])

same_fields :
    (c : Option Compressor) (a b d n p z : ℕ)
    → a ≡ n
    → b ≡ p
    → d ≡ z
    → ext_header c a b d ≡ ext_header c n p z
same_fields c a b d n p z e f g = λ i. ext_header c (e i) (f i) (g i)

-- An int comes back as it is, whatever its sign.
as_int : (n : ℕ) → n < 2 ^ 32 → number8 (bytes8 (extended n)) % 2 ^ 32 ≡ n
as_int n h = elim (Bool-cases (ltb n (2 ^ 31))) [
  | inl low ↦
      ap (λ m. number8 (bytes8 m) % 2 ^ 32) (if-true _ _ low)
      ∙ omega (arith, h, number8-bytes8 n (omega (arith, h)))
  | inr high ↦
      ap (λ m. number8 (bytes8 m) % 2 ^ 32) (if-false _ _ high)
      ∙ omega (arith, h, number8-bytes8 (n + (2 ^ 64 - 2 ^ 32)) (omega (arith, h)))
]

-- For every size but -1, `file_write_ExtHeader` writes an extended header, the first 28 bytes of which
-- `file_read_ExtHeader_fd` reads as the module, the size, the number of pages and the compressed size,
-- each by its bits, whatever its arguments held before.
pub read_ext-write_ext :
    (c : Compressor) (n p z : ℕ) (flags offsets : List ℕ) (c0 : Option Compressor) (n0 p0 z0 : ℕ)
    → n < 2 ^ 64 - 1
    → p < 2 ^ 32
    → z < 2 ^ 32
    → (bs : List ℕ) × (file_write_ext_header c (some n) p z flags offsets ≡ some bs)
      × (file_read_ext_header_fd c0 n0 p0 z0 (got (take 28 bs)) ≡ ext_header (some c) n p z)
unfolding file_read_ext_header_fd file_write_ext_header header_of take_ext_header
    file_compressor_ext parse_ext_header parse_header file_compressor find_compressor compressors
read_ext-write_ext module_null n p z flags offsets c0 n0 p0 z0 hn hp hz = (
  _,
  refl,
  same_fields (some module_null) _ _ _ n p z (number8-bytes8 n (omega (arith, hn))) (as_int p hp)
      (as_int z hz),
)
read_ext-write_ext module_gzip n p z flags offsets c0 n0 p0 z0 hn hp hz = (
  _,
  refl,
  same_fields (some module_gzip) _ _ _ n p z (number8-bytes8 n (omega (arith, hn))) (as_int p hp)
      (as_int z hz),
)

picks_null :
    (p q : Bool)
    → (if p then some module_null else if q then some module_gzip else none) ≡ some module_null
    → p ≡ true
picks_null p q e = ground (arith, e)

picks_gzip :
    (p q : Bool)
    → (if p then some module_null else if q then some module_gzip else none) ≡ some module_gzip
    → q ≡ true
picks_gzip p q e = ground (arith, e)

-- `find_compressor_name` finds a module exactly by its name.
pub find_compressor_name_iff :
    (name : List ℕ) (c : Compressor) → (find_compressor_name name ≡ some c) ↔ (name ≡ name_of c)
unfolding find_compressor_name find_name compressors str_eq
find_compressor_name_iff name module_null = (
  λ e. (str_eq_iff name (codes "null")).0 (picks_null _ _ e),
  λ e. if-true _ _ ((str_eq_iff name (codes "null")).1 e),
)
find_compressor_name_iff name module_gzip = (
  λ e. (str_eq_iff name (codes "gz")).0 (picks_gzip _ _ e),
  λ e.
      if-false _ _ (ap (λ s. str_eq s (codes "null")) e)
      ∙ if-true _ _ ((str_eq_iff name (codes "gz")).1 e),
)
