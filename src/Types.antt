-- ===== src/Types.antt =====
-- structs.h, the part of globals.c that holds settings, and the two compression modules of
-- compress_null.c and compress_gz.c as values.
use pcfs.Base.{ℕ, ◌-◌, ◌^◌, Bool, false, ◌||◌, List, Option, none, some, codes}

-- The modules that the build has: config.h defines HAVE_ZLIB and none of the others.
pub data Compressor : Type 0 where
  module_null module_gzip : Compressor

pub Compressor-discrete : Discrete Compressor
Compressor-discrete = hlevel

-- `compressor_t.type`
abbrev pub type_of : Compressor → ℕ
type_of module_null = 0
type_of module_gzip = 2

-- `compressor_t.name`
abbrev pub name_of : Compressor → List ℕ
name_of module_null = codes "null"
name_of module_gzip = codes "gz"

-- `file_t.type`: 0, READ or WRITE.
pub data Direction : Type 0 where
  idle reading writing : Direction

-- `file_t.status`, bit by bit.
pub record Status : Type 0 where
  pub compressing : Bool
  pub decompressing : Bool
  pub cancel : Bool
  pub deduping : Bool

abbrev pub quiet : Status
quiet = record { compressing = false; decompressing = false; cancel = false; deduping = false }

-- status & (COMPRESSING | DECOMPRESSING | DEDUPING)
abbrev pub is_busy : Status → Bool
is_busy s = s.compressing || s.decompressing || s.deduping

abbrev pub page_size : ℕ
page_size = 4096

-- descriptor_t: `id` is its address, and a closed `fd` (-1) is `none`. `handle` says whether the
-- pointer to the compressor's own state is set.
pub record Descriptor : Type 0 where
  pub id : ℕ
  pub file : ℕ
  pub fd : Option ℕ
  pub handle : Bool
  pub offset : ℕ

-- file_t: a size of -1 ("not known") is `none`. `head` lists the descriptors of the file.
pub record File : Type 0 where
  pub name : List ℕ
  pub hash : ℕ
  pub deleted : Bool
  pub accesses : ℕ
  pub size : Option ℕ
  pub compressor : Option Compressor
  pub skipped : ℕ
  pub dontcompress : Bool
  pub direction : Direction
  pub status : Status
  pub deduped : Bool
  pub cache : Option (List (Option (List ℕ)))
  pub cache_size : ℕ
  pub head : List Descriptor

-- An off_t that meets an unsigned 64-bit operand: -1 turns into the largest value.
abbrev pub as_unsigned : Option ℕ → ℕ
as_unsigned none = 2 ^ 64 - 1
as_unsigned (some n) = n

-- struct statvfs
pub record Statvfs : Type 0 where
  pub f_bsize : ℕ
  pub f_bfree : ℕ
  pub f_bavail : ℕ

-- The settings of globals.c that `main` fills in. `dont_compress_beyond` is a size_t, and its
-- default, -1, is the largest value.
pub record Config : Type 0 where
  pub min_filesize_background : ℕ
  pub dont_compress_beyond : ℕ
  pub root_fs : Bool
  pub read_only : Bool
  pub cache_decompressed_data : Bool
  pub max_decomp_cache_size : ℕ
  pub compressor_default : Option Compressor
  pub user_incompressible : List (List ℕ)
  pub user_exclude_paths : List (List ℕ)
