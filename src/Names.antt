-- ===== src/Names.antt =====
-- The decisions that rest on a file's name: `is_excluded` and `is_compressible` of file.c,
-- `choose_compressor` of compress.c, `gethash` of utils.h. Names are paths relative to the storage
-- directory, without the leading slash (`PCFS_getpath` of PCFS.c).
pub mod Choice
pub mod Examples
pub mod Hash
pub mod Shared
use pcfs.Base.{
  ℕ, ◌+◌, ◌-◌, ◌*◌, ◌%◌, ◌^◌, ◌≡◌, Bool, true, false, ◌||◌, ◌&&◌, String, List, [], ◌∷◌, Option,
  none, some, leb, ◌==◌, if◌then◌else◌, codes, map, not, str_eq, starts_with, contains,
  contains_nocase, rindex,
}
use pcfs.Types.{Compressor, Config}

-- PCFS_PREFIX, TEMP and FUSE of globals.h
abbrev pub pcfs_prefix : List ℕ
pcfs_prefix = codes "._fC"

abbrev pub temp_prefix : List ℕ
temp_prefix = codes "._fCtmp"

abbrev pub fuse_prefix : List ℕ
fuse_prefix = codes ".fuse_hidden"

-- `incompressible[]` of globals.c
abbrev pub incompressible : List (List ℕ)
incompressible =
    codes ".mp3"
    ∷ codes ".ogg"
    ∷ codes ".wma"
    ∷ codes ".m4a"
    ∷ codes ".mp2"
    ∷ codes ".avi"
    ∷ codes ".mov"
    ∷ codes ".mpg"
    ∷ codes ".mpeg"
    ∷ codes ".mp4"
    ∷ codes ".m4v"
    ∷ codes ".mkv"
    ∷ codes ".asf"
    ∷ codes ".flv"
    ∷ codes ".3gp"
    ∷ codes ".vob"
    ∷ codes ".swf"
    ∷ codes ".ogm"
    ∷ codes ".gz"
    ∷ codes ".bz2"
    ∷ codes ".zip"
    ∷ codes ".tgz"
    ∷ codes ".lzo"
    ∷ codes ".lzma"
    ∷ codes ".rar"
    ∷ codes ".ace"
    ∷ codes ".7z"
    ∷ codes ".lha"
    ∷ codes ".lzh"
    ∷ codes ".chm"
    ∷ codes ".lrz"
    ∷ codes ".xz"
    ∷ codes ".odt"
    ∷ codes ".epub"
    ∷ codes ".xpi"
    ∷ codes ".lzx"
    ∷ codes ".jpg"
    ∷ codes ".png"
    ∷ codes ".djvu"
    ∷ codes ".cbr"
    ∷ codes ".cbz"
    ∷ codes ".rpm"
    ∷ codes ".deb"
    ∷ codes ".cab"
    ∷ codes ".cdz"
    ∷ codes ".cso"
    ∷ codes ".torrent"
    ∷ codes ".pack"
    ∷ codes ".wmv"
    ∷ []

-- `mmapped_dirs[]` of globals.c
abbrev pub mmapped_dirs : List (List ℕ)
mmapped_dirs = codes "bin/" ∷ codes "sbin/" ∷ codes "usr/bin/" ∷ codes "usr/sbin/" ∷ []

-- The loops over a table of texts: is the name one that starts with, or holds, one of them?
unfoldable pub starts_with_any : List ℕ → List (List ℕ) → Bool
starts_with_any name [] = false
starts_with_any name (t ∷ ts) = starts_with name t || starts_with_any name ts

unfoldable pub contains_any : List ℕ → List (List ℕ) → Bool
contains_any name [] = false
contains_any name (t ∷ ts) = contains_nocase name t || contains_any name ts

-- A table that is not set (NULL) is the empty one.
unfoldable pub is_excluded : Config → List ℕ → Bool
is_excluded c name = starts_with_any name c.user_exclude_paths

unfoldable pub is_compressible : Config → List ℕ → Bool
is_compressible c name =
    if contains_any name incompressible
    then false
    else if contains_any name c.user_incompressible
    then false
    else true

-- The test for shared objects: the name has a dot, and either its last part is `.so` or it holds
-- `.so.`.
unfoldable pub is_shared_object : List ℕ → Bool
is_shared_object name = elim (rindex name b'.') [
  | none ↦ false
  | some r ↦ if str_eq r (codes ".so") then true else contains name (codes ".so.")
]

unfoldable pub choose_compressor : Config → List ℕ → Option Compressor
choose_compressor c name =
    if not (is_compressible c name)
    then none
    else if contains name temp_prefix
    then none
    else if contains name fuse_prefix
    then none
    else if is_excluded c name
    then none
    else if c.root_fs && (starts_with_any name mmapped_dirs || is_shared_object name)
    then none
    else c.compressor_default

-- A `char` of the name as the number that it adds to an `unsigned int`: bytes from 128 on are
-- negative.
abbrev pub signed_char : ℕ → ℕ
signed_char b = if leb 128 b then b + 2 ^ 32 - 256 else b

-- `gethash`: the loop's body runs once before the first test, so an empty name still adds its NUL.
unfoldable pub gethash_from : ℕ → List ℕ → ℕ
gethash_from hash [] = hash
gethash_from hash (b ∷ bs) = gethash_from ((31 * hash + signed_char b) % 2 ^ 32) bs

unfoldable pub gethash : List ℕ → ℕ
unfolding gethash_from
gethash name = gethash_from 0 name
