-- ===== src/Offline.antt =====
-- tools/offline.c: is_compressed, transform, and the walk of main over the files, by what `nftw` hands
-- over and the calls answer. Owner, mode and times, and messages, are not modelled.
pub mod Core
pub mod Again
mod Examples
use pcfs.Base.{
  ℕ, ◌+◌, ◌≡◌, Bool, true, false, not, ◌&&◌, ◌||◌, List, [], ◌∷◌, Option, none, some, ltb, ◌==◌,
  if◌then◌else◌, starts_with, ◌>>=◌,
}
use pcfs.Types.{Compressor, type_of, Config}
use pcfs.Names.{pcfs_prefix, is_compressible}

-- What a file holds: plain data, a header with a module, a size and the compressed contents of another
-- file, or the magic bytes with a type that is no module.
pub data Contents : Type 0 where
  raw : List ℕ → Contents
  packed : Compressor → ℕ → Contents → Contents
  strange : ℕ → Contents

-- The result of `is_compressed`: -2, -1 or less than -2, and the type.
pub data Kind : Type 0 where
  unknown uncompressed : Kind
  typed : ℕ → Kind

-- The fourth byte is a char, which is signed: 255 is -1, and what is from 128 to 254 is below.
abbrev pub kind_of_byte : ℕ → Kind
kind_of_byte b = if ltb b 128 then typed b else if b == 255 then uncompressed else unknown

abbrev pub kind_of : Contents → Kind
kind_of (raw bs) = uncompressed
kind_of (packed c n x) = kind_of_byte (type_of c)
kind_of (strange b) = kind_of_byte b

-- `probed` is whether the file can be opened and read.
unfoldable pub is_compressed : Bool → Contents → Kind
is_compressed probed x = if probed then kind_of x else unknown

-- The answers of the calls for one conversion, in their order. `size` is st_size, and `converted` tells
-- what the module's `compress` or `decompress` makes of the contents that it reads: the contents that
-- it wrote, or that it returns no size.
pub record Answers : Type 0 where
  pub probed : Bool
  pub opened : Bool
  pub size : Option ℕ
  pub temp : Bool
  pub sought : Bool
  pub header_read : Bool
  pub converted : Contents → Option Contents
  pub sought_back : Bool
  pub header_written : Bool
  pub renamed : Bool
  pub utime : Bool

-- A call of `transform`: what the file holds then, `errors`, the descriptors that stay open, and
-- whether the result is 0.
pub record Done : Type 0 where
  pub contents : Contents
  pub errors : ℕ
  pub left_open : ℕ
  pub result : Bool

abbrev pub unchanged : Contents → ℕ → ℕ → Bool → Done
unchanged x errors fds r = record { contents = x; errors = errors; left_open = fds; result = r }

-- From the test of the size on, with what the temporary file holds if there is one: both descriptors are closed, the temporary file takes the name, and the
-- times are set. A failure removes the temporary file.
unfoldable pub install : Answers → ℕ → Option Contents → Contents → Done
install a errors none x = unchanged x errors 0 false
install a errors (some new) x =
    if not a.renamed
    then unchanged x errors 0 false
    else record { contents = new; errors = errors; left_open = 0; result = a.utime }

-- The temporary file, and `fstat` before it, which is what fails if the file did not open.
abbrev pub with_temp : Answers → ℕ → Contents → (ℕ → Option Done) → Option Done
with_temp a errors x next =
    if not a.opened then some (unchanged x errors 0 false) else elim a.size [
      | none ↦ some (unchanged x errors 1 false)
      | some n ↦ if a.temp then next n else some (unchanged x errors 1 false)
    ]

unfoldable pub compress_file : Answers → Compressor → ℕ → Contents → Option Done
unfolding install
compress_file a c errors x = with_temp a errors x (λ n.
    if a.sought && a.sought_back && a.header_written
    then some (install a errors (a.converted x >>= λ y. some (packed c n y)) x)
    else some (unchanged x errors 0 false))

-- A header with a type that is no module leaves NULL, through which `decompress` is called.
unfoldable pub unpack : Answers → ℕ → Contents → Option Done
unfolding install
unpack a errors (packed c m x) = some (install a errors (a.converted x) (packed c m x))
unpack a errors _ = none

unfoldable pub decompress_file : Answers → ℕ → Contents → Option Done
decompress_file a errors x =
    with_temp a errors x
      (λ n. if a.header_read then unpack a errors x else some (unchanged x errors 0 false))

-- A file as `nftw` hands it over, with the answers for it, and those for the decompression that goes
-- before the compression if it is recompressed.
pub record Visited : Type 0 where
  pub base : List ℕ
  pub regular : Bool
  pub answers : Answers
  pub first : Answers

-- `transform` without a module to compress with.
unfoldable pub decompress_if : Answers → ℕ → Contents → Kind → Option Done
decompress_if a errors x unknown = some (unchanged x (errors + 1) 0 true)
decompress_if a errors x uncompressed = some (unchanged x errors 0 true)
decompress_if a errors x (typed t) = decompress_file a errors x

unfoldable pub is_internal : Visited → Bool
is_internal v = not v.regular || starts_with v.base pcfs_prefix

unfoldable pub transform_plain : Visited → Answers → ℕ → Contents → Option Done
transform_plain v a errors x =
    if is_internal v
    then some (unchanged x errors 0 true)
    else decompress_if a errors x (is_compressed a.probed x)

-- Whether the type is that of `recomp`.
abbrev pub is_type : Option Compressor → ℕ → Bool
is_type none t = false
is_type (some r) t = t == type_of r

-- The rest of a recompression: what the decompression returned is not looked at.
abbrev pub compress_after : Answers → Compressor → Done → Option Done
compress_after a c d = compress_file a c d.errors d.contents >>= λ e.
    some (record e { left_open = d.left_open + e.left_open })

unfoldable pub compress_if :
    Visited → Compressor → Option Compressor → ℕ → Contents → Kind → Option Done
compress_if v c recomp errors x unknown = some (unchanged x (errors + 1) 0 true)
compress_if v c recomp errors x uncompressed = compress_file v.answers c errors x
compress_if v c recomp errors x (typed t) =
    if is_type recomp t
    then transform_plain v v.first errors x >>= compress_after v.answers c
    else some (unchanged x errors 0 true)

-- `transform`.
unfoldable pub transform :
    Config → Option Compressor → Option Compressor → Visited → ℕ → Contents → Option Done
transform k none recomp v errors x = transform_plain v v.answers errors x
transform k (some c) recomp v errors x =
    if is_internal v || not (is_compressible k v.base)
    then some (unchanged x errors 0 true)
    else compress_if v c recomp errors x (is_compressed v.answers.probed x)
