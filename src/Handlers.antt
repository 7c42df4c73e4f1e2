-- ===== src/Handlers.antt =====
-- The handlers of PCFS.c that use the database, after `direct_open` gave them the locked file: what
-- they do to the file, with the answers of the system calls. What errno they return is not modelled.
pub mod Descriptors
pub mod Sizes
mod Examples
use pcfs.Base.{
  ℕ, ◌+◌, ◌-◌, ◌^◌, ◌≡◌, Bool, true, false, not, ◌&&◌, ◌||◌, List, [], ◌∷◌, Option, none, some, ltb,
  leb, ◌==◌, if◌then◌else◌, is_some, ◌>>=◌,
}
use pcfs.Types.{Compressor, Descriptor, File, Config}
use pcfs.Names.{choose_compressor}
use pcfs.Header.{
  HeaderRead, io_error, undefined, header, header_length, file_read_header_fd,
  file_read_header_name, ReadResult,
}
use pcfs.Rename.{direct_delete}
use pcfs.Decompress.{direct_close}
use pcfs.Compress.{as_size}

-- How a handler ends: 0, or a negative errno with the lock given back, or without that.
pub data Ending : Type 0 where
  ok failed failed_locked : Ending

-- The answers for `PCFS_getattr`: st_size of `lstat`, and those of `file_read_header_name`.
pub record Attributes : Type 0 where
  pub st_size : ℕ
  pub opened : Bool
  pub closed : Bool
  pub header_bytes : ReadResult

-- What `PCFS_getattr` makes of a header that it asked for: the file, the end, and st_size.
unfoldable pub learn_size : File → Bool × HeaderRead → Option (File × Ending × ℕ)
learn_size f (_, io_error) = none
learn_size f (_, undefined) = none
learn_size f (true, header c n) = some (record f { compressor = c; size = as_size n }, ok, n)
learn_size f (false, header c n) = some (record f { compressor = c }, failed, n)

-- `PCFS_getattr` on a regular file.
unfoldable pub getattr_file : Attributes → File → Option (File × Ending × ℕ)
getattr_file a f = elim f.size [
  | none ↦
      if leb header_length a.st_size
      then learn_size f
          (file_read_header_name a.opened a.closed f.compressor a.st_size a.header_bytes)
      else some (record f { size = some a.st_size }, ok, a.st_size)
  | some n ↦ some (f, ok, if is_some f.compressor then n else a.st_size)
]

-- `PCFS_unlink`, with the answer of `unlink`.
unfoldable pub unlink_file : Bool → File → File × Ending
unlink_file unlinked f = if unlinked then (direct_delete f, ok) else (f, failed)

-- struct stat, as far as `PCFS_open` looks at it.
pub record Stat : Type 0 where
  pub regular : Bool
  pub nlink : ℕ
  pub size : ℕ

-- The answers for `PCFS_open`; `descriptor` is the address of the new descriptor.
pub record OpenAnswers : Type 0 where
  pub descriptor : ℕ
  pub file : ℕ
  pub fd : Option ℕ
  pub fstat : Option Stat
  pub header_bytes : ReadResult

-- The end of `PCFS_open`: the descriptor is made, counted and listed first.
unfoldable pub add_descriptor : OpenAnswers → ℕ → Option Compressor → ℕ → File → File
add_descriptor a fd c n f = record f {
  compressor = c;
  size = as_size n;
  accesses = f.accesses + 1;
  head =
      record { id = a.descriptor; file = a.file; fd = some fd; handle = false; offset = 0 }
      ∷ f.head;
}

-- What `PCFS_open` makes of the header.
unfoldable pub open_header : OpenAnswers → ℕ → File → HeaderRead → Option (File × Ending)
open_header a fd f io_error = some (f, failed_locked)
open_header a fd f undefined = none
open_header a fd f (header c n) = some (add_descriptor a fd c n f, ok)

-- After `fstat`: a file with several links is not to be compressed, and the header tells the rest.
unfoldable pub open_stat : OpenAnswers → ℕ → Stat → File → Option (File × Ending)
open_stat a fd st f =
    let g = record f { dontcompress = f.dontcompress || (st.regular && ltb 1 st.nlink) } in
    if leb header_length st.size
    then open_header a fd g (file_read_header_fd f.compressor st.size a.header_bytes)
    else some (add_descriptor a fd none st.size g, ok)

-- `PCFS_open`.
unfoldable pub open_file : OpenAnswers → File → Option (File × Ending)
open_file a f = elim a.fd [
  | none ↦ some (f, failed)
  | some fd ↦ elim a.fstat [ none ↦ some (f, failed_locked) | some st ↦ open_stat a fd st f ]
]

-- list_del on the descriptor with the address `d`.
unfoldable pub drop_descriptor : ℕ → List Descriptor → List Descriptor
drop_descriptor d [] = []
drop_descriptor d (x ∷ xs) = if x.id == d then xs else x ∷ drop_descriptor d xs

-- The descriptor with the address `d`.
unfoldable pub get_descriptor : ℕ → List Descriptor → Option Descriptor
get_descriptor d [] = none
get_descriptor d (x ∷ xs) = let rest = get_descriptor d xs in if x.id == d then some x else rest

-- `PCFS_release` on a descriptor of the file.
unfoldable pub release_file : (ℕ → Bool) → ℕ → File → Option File
release_file closed d f = do
  x ← get_descriptor d f.head
  (g, _, _) ← if is_some f.compressor then direct_close closed f x else some (f, x, true)
  some (record g { head = drop_descriptor d g.head; accesses = g.accesses - 1 })

-- The part of `PCFS_write` that decides on the compressor. A file that has one already fails the
-- assertion there: `none`.
unfoldable pub choose_at_write : Config → ℕ → File → Option File
choose_at_write c offset f =
    if not f.dontcompress
      && (elim f.size [ none ↦ false | some n ↦ n == 0 ])
      && (f.accesses == 1)
      && (offset == 0)
    then if is_some f.compressor
      then none
      else some (record f { compressor = choose_compressor c f.name; dontcompress = true })
    else some (record f { dontcompress = true })
