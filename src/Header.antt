-- ===== src/Header.antt =====
-- The headers of compressed files: file.c (find_compressor, file_compressor, file_write_header,
-- file_read_header_fd, file_read_header_name and the `Ext` versions) and the packed structures
-- header_t and extheader_t of structs.h. Bytes are numbers below 256; the build is little-endian.
pub mod Roundtrip
mod Examples
pub mod Reading
pub mod Extended
use pcfs.Base.{
  ℕ, ◌+◌, ◌*◌, ◌/◌, ◌%◌, ◌^◌, ◌-◌, ◌≡◌, Bool, true, false, ◌&&◌, List, [], ◌∷◌, ◌++◌, Option, none,
  some, ltb, ◌==◌, if◌then◌else◌, length, map,
}
use pcfs.Types.{Compressor, module_null, module_gzip, type_of}

-- A field of 8 bytes, as `to_le64` and the packed structure lay it out.
abbrev pub bytes8 : ℕ → List ℕ
bytes8 n =
    n % 256
    ∷ n / 2 ^ 8 % 256
    ∷ n / 2 ^ 16 % 256
    ∷ n / 2 ^ 24 % 256
    ∷ n / 2 ^ 32 % 256
    ∷ n / 2 ^ 40 % 256
    ∷ n / 2 ^ 48 % 256
    ∷ n / 2 ^ 56 % 256
    ∷ []

-- The number in the first 8 bytes, as `from_le64` reads it.
abbrev pub number8 : List ℕ → ℕ
number8 (b0 ∷ b1 ∷ b2 ∷ b3 ∷ b4 ∷ b5 ∷ b6 ∷ b7 ∷ _) =
    b0
    + 2 ^ 8 * b1
    + 2 ^ 16 * b2
    + 2 ^ 24 * b3
    + 2 ^ 32 * b4
    + 2 ^ 40 * b5
    + 2 ^ 48 * b6
    + 2 ^ 56 * b7
number8 _ = 0

-- header_t
pub record HeaderT : Type 0 where
  pub id0 : ℕ
  pub id1 : ℕ
  pub id2 : ℕ
  pub type : ℕ
  pub size : ℕ

-- sizeof(header_t) and sizeof(extheader_t)
abbrev pub header_length : ℕ
header_length = 12

abbrev pub ext_header_length : ℕ
ext_header_length = 28

-- The `compressors[]` table of globals.c, by type. The build has null at 0 and gz at 2.
unfoldable pub compressors : ℕ → Option Compressor
compressors t = if t == 0 then some module_null else if t == 2 then some module_gzip else none

-- What a look into the table comes to: `outside` is a read past its five entries.
pub data Looked : Type 0 where
  outside : Looked
  entry : Option Compressor → Looked

-- `find_compressor`: the test is `type > 5`, and the table has entries 0 to 4.
unfoldable pub find_compressor : HeaderT → Looked
unfolding compressors
find_compressor fh =
    if ltb 5 fh.type
    then entry none
    else if fh.type == 5
    then outside
    else entry (compressors fh.type)

unfoldable pub file_compressor : HeaderT → Looked
unfolding find_compressor
file_compressor fh =
    if (fh.id0 == 31) && (fh.id1 == 93) && (fh.id2 == 137) then find_compressor fh else entry none

-- The header_t that `file_write_header` fills.
unfoldable pub header_of : Compressor → ℕ → List ℕ
header_of c size = 31 ∷ 93 ∷ 137 ∷ type_of c ∷ bytes8 size

-- `file_write_header`: the bytes that it hands to `write`. A size of -1, which is the `none` of the
-- argument, fails its assertion.
unfoldable pub file_write_header : Compressor → Option ℕ → Option (List ℕ)
file_write_header c none = none
file_write_header c (some size) = some (header_of c size)

-- The bytes that `read` put into a header_t.
unfoldable pub parse_header : List ℕ → HeaderT
parse_header (i0 ∷ i1 ∷ i2 ∷ t ∷ rest) = record {
  id0 = i0;
  id1 = i1;
  id2 = i2;
  type = t;
  size = number8 rest;
}
parse_header _ = record { id0 = 0; id1 = 0; id2 = 0; type = 0; size = 0 }

-- What a `read` of some bytes returns: -1, or the bytes, fewer at the end of the file.
pub data ReadResult : Type 0 where
  failed : ReadResult
  got : List ℕ → ReadResult

-- What `file_read_header_fd` does to its two arguments. An off_t is its bit pattern here.
pub data HeaderRead : Type 0 where
  io_error undefined : HeaderRead
  header : Option Compressor → ℕ → HeaderRead

unfoldable pub take_header : Looked → ℕ → ℕ → HeaderRead
take_header outside old new = undefined
take_header (entry none) old new = header none old
take_header (entry (some c)) old new = header (some c) new

-- `file_read_header_fd`, with what `*compressor` and `*size` hold before: a short read leaves both.
unfoldable pub file_read_header_fd : Option Compressor → ℕ → ReadResult → HeaderRead
unfolding take_header file_compressor parse_header
file_read_header_fd c size failed = io_error
file_read_header_fd c size (got bs) =
    if length bs == header_length
    then take_header (file_compressor (parse_header bs)) size (parse_header bs).size
    else header c size

-- The end of `file_read_header_name`: `closed` is whether `close` succeeds. The result is whether all
-- went well, and what the two arguments hold then: they are set before `close` fails.
unfoldable pub after_read : Bool → Option Compressor → ℕ → HeaderRead → Bool × HeaderRead
after_read closed c size io_error = (false, header c size)
after_read closed c size undefined = (false, undefined)
after_read closed c size (header c1 size1) = (closed, header c1 size1)

-- `file_read_header_name`: `opened` is whether `file_open` succeeds.
unfoldable pub file_read_header_name :
    Bool → Bool → Option Compressor → ℕ → ReadResult → Bool × HeaderRead
file_read_header_name opened closed c size r =
    if opened
    then after_read closed c size (file_read_header_fd c size r)
    else (false, header c size)

-- An array of 16-bit numbers, as `write` sees it.
unfoldable pub shorts : List ℕ → List ℕ
shorts [] = []
shorts (n ∷ ns) = n % 256 ∷ n / 256 % 256 ∷ shorts ns

-- An int, by its 32 bits, as a number of 64 bits: its sign is extended.
abbrev pub extended : ℕ → ℕ
extended n = if ltb n (2 ^ 31) then n else n + (2 ^ 64 - 2 ^ 32)

-- `file_write_ExtHeader`: the fixed part, one flag byte for each page, one offset for each page. A size
-- of -1 fails its assertion; `page_used` and `c_size` are the ints of the descriptor.
unfoldable pub file_write_ext_header :
    Compressor → Option ℕ → ℕ → ℕ → List ℕ → List ℕ → Option (List ℕ)
unfolding shorts header_of
file_write_ext_header c none page_used c_size flags offsets = none
file_write_ext_header c (some size) page_used c_size flags offsets = some (
    header_of c size
    ++ (bytes8 (extended page_used) ++ (bytes8 (extended c_size) ++ (flags ++ shorts offsets))))
