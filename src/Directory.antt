-- ===== src/Directory.antt =====
-- `PCFS_readdir` of PCFS.c: which entries of a directory are handed to `filler`.
mod Shows
use pcfs.Base.{
  ℕ, zero, suc, ◌+◌, ◌*◌, ◌^◌, Bool, true, false, ◌||◌, Option, none, some, List, [], ◌∷◌,
  if◌then◌else◌, starts_with, contains,
}
use pcfs.Names.{pcfs_prefix, fuse_prefix}

-- What `readdir` gives of an entry: d_name, d_ino and d_type.
pub record DirEntry : Type 0 where
  pub name : List ℕ
  pub ino : ℕ
  pub type : ℕ

-- What `filler` gets: the name, st_ino and st_mode.
pub record Shown : Type 0 where
  pub name : List ℕ
  pub ino : ℕ
  pub mode : ℕ

abbrev pub shown : DirEntry → Shown
shown e = record { name = e.name; ino = e.ino; mode = e.type * 2 ^ 12 }

-- A temporary file of FUSE, or a file for internal use.
unfoldable pub is_ignored : List ℕ → Bool
is_ignored name = contains name fuse_prefix || starts_with name pcfs_prefix

-- The loop, with the calls of `filler` in their order; `full i` is the answer of its call number `i`.
unfoldable pub list_entries : (ℕ → Bool) → ℕ → List DirEntry → List Shown
list_entries full i [] = []
list_entries full i (e ∷ es) =
    let skipped = list_entries full i es in
    let more = list_entries full (i + 1) es in
    if is_ignored e.name then skipped else shown e ∷ (if full i then [] else more)

-- The handler: an error of `opendir` is returned as it is, negated.
pub data Listing : Type 0 where
  failed : ℕ → Listing
  listed : List Shown → Listing

unfoldable pub read_directory : ℕ → Option (List DirEntry) → (ℕ → Bool) → Listing
read_directory errno none full = failed errno
read_directory errno (some es) full = listed (list_entries full 0 es)
