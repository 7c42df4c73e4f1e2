-- ===== src/Compress.antt =====
-- `do_compress` of compress.c: what it does with the answers of the system calls and of the
-- compression module. It gives up the lock of the file while the module runs. `close` frees the
-- number of the descriptor also when it fails, as on Linux.
pub mod Outcome
pub mod Clean
pub mod Ends
pub mod Examples
use pcfs.Base.{
  ℕ, ◌-◌, ◌^◌, ◌≡◌, Bool, true, false, not, ◌&&◌, ◌||◌, List, [], ◌∷◌, Option, none, some, ltb, leb,
  ◌==◌, if◌then◌else◌, is_some,
}
use pcfs.Types.{Compressor, File, as_unsigned, Config}
use pcfs.Names.{choose_compressor}
use pcfs.Header.{
  HeaderRead, io_error, undefined, header, header_length, file_read_header_fd, ReadResult,
}
use pcfs.OpenFile.{TempFile, made, gave_up, out_of_fuel, file_create_temp}
use pcfs.Decompress.{listed, is_size}
use pcfs.Rename.{direct_delete}

-- The answers that one run gets. `meanwhile` is what other threads do to the file while the lock is
-- free; `compressed` is the result of the module's `compress`, with -1 as `none`.
pub record Answers : Type 0 where
  pub config : Config
  pub source : Option ℕ
  pub fstat : Option ℕ
  pub header_bytes : ReadResult
  pub memory : Bool
  pub mkstemp : ℕ → Option ℕ
  pub header_written : Bool
  pub meanwhile : File → File
  pub compressed : Option ℕ
  pub temp_closed : Bool
  pub source_closed : Bool
  pub renamed : Bool
  pub unlinked : Bool

-- What a run leaves: the file, the descriptors of the run that are still open, whether the temporary
-- file is left, the name whose contents were replaced, and whether waiting threads were woken.
pub record Run : Type 0 where
  pub file : File
  pub open_fds : List ℕ
  pub temp_left : Bool
  pub replaced : Option (List ℕ)
  pub woken : Bool

-- From `out` on, where the temporary file still exists.
unfoldable pub remove_temp : Answers → File → Run
remove_temp a f = record {
  file = f;
  open_fds = [];
  temp_left = not a.unlinked;
  replaced = none;
  woken = false;
}

-- From `out` on, with the file open and no temporary file. A failing `close` changes nothing then.
abbrev pub leave : File → Run
leave f = record { file = f; open_fds = []; temp_left = false; replaced = none; woken = false }

-- From `out` on, with both open.
unfoldable pub give_up : Answers → File → ℕ → ℕ → Run
unfolding remove_temp
give_up a f source temp =
    if not a.source_closed
    then record (leave f) { open_fds = temp ∷ []; temp_left = true }
    else if not a.temp_closed
    then record (leave f) { temp_left = true }
    else remove_temp a f

-- The part after a compression that worked.
unfoldable pub replace : Answers → File → ℕ → Compressor → ℕ → Run
unfolding remove_temp
replace a f source c size =
    if not a.temp_closed
    then record (leave f) { open_fds = source ∷ []; temp_left = true }
    else if not a.source_closed
    then record (leave f) { temp_left = true }
    else if not a.renamed
    then remove_temp a f
    else record (leave (record f { compressor = some c; size = some size })) {
      replaced = some f.name;
    }

-- After the lock is held again: `f` is the file as the other threads left it.
unfoldable pub compression_done : Answers → File → ℕ → ℕ → Compressor → ℕ → Run
compression_done a f source temp c size =
    let g = record f { status = record f.status { compressing = false } } in
    if is_size size a.compressed && not g.status.cancel
    then replace a g source c size
    else record (give_up a (record g { status = record g.status { cancel = false } }) source temp) {
      woken = g.status.cancel;
    }

-- With an open temporary file: the header, and then the module, without the lock.
unfoldable pub compress_into : Answers → File → ℕ → ℕ → Compressor → ℕ → Run
compress_into a f source temp c size =
    let g = record f { status = record f.status { compressing = true } } in
    if a.header_written
    then compression_done a (a.meanwhile g) source temp c size
    else give_up a f source temp

unfoldable pub with_temp : Answers → File → ℕ → Compressor → ℕ → TempFile → Option Run
with_temp a f source c size (made temp _) = some (compress_into a f source temp c size)
with_temp a f source c size (gave_up lost) =
    some (record (leave f) { open_fds = source ∷ listed lost; temp_left = is_some lost })
with_temp a f source c size out_of_fuel = none

-- The file is not compressed: choose a module, and make the temporary file.
unfoldable pub compress_plain : Answers → File → ℕ → ℕ → Option Run
compress_plain a f source size = elim (choose_compressor a.config f.name) [
  | none ↦ some (leave f)
  | some c ↦ with_temp a f source c size (file_create_temp a.memory a.mkstemp)
]

-- An off_t from its bit pattern.
abbrev pub as_size : ℕ → Option ℕ
as_size n = if n == 2 ^ 64 - 1 then none else some n

-- What a file that is long enough for a header turns out to be.
unfoldable pub with_header : Answers → File → ℕ → ℕ → HeaderRead → Option Run
with_header a f source size io_error = compress_plain a f source size
with_header a f source size undefined = none
with_header a f source size (header none n) =
    compress_plain a (record f { compressor = none; size = as_size n }) source size
with_header a f source size (header (some c) n) =
    some (leave (record f { compressor = some c; size = as_size n }))

-- The test of the size, and the look for a header.
unfoldable pub check_source : Answers → File → ℕ → ℕ → Option Run
check_source a f source size =
    let found = file_read_header_fd f.compressor (as_unsigned f.size) a.header_bytes in
    if ltb size a.config.min_filesize_background
    then some (leave f)
    else if leb header_length size
    then with_header a f source size found
    else compress_plain a f source size

-- `do_compress`; a read outside the table of modules has no outcome.
unfoldable pub do_compress : Answers → File → Option Run
do_compress a f = elim a.source [
  | none ↦ some (leave (direct_delete f))
  | some source ↦ elim a.fstat [
    | none ↦ some (leave (direct_delete f))
    | some size ↦ check_source a f source size
  ]
]
