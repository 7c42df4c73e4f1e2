-- ===== src/Decompress.antt =====
-- `direct_close` of direct_compress.c and `do_decompress` of compress.c: what they do with the
-- answers of the system calls and of the compression module, whose code is in other libraries. The
-- lock of the file is held all the time. The times that `utime` sets are not modelled.
pub mod Streams
pub mod Outcome
pub mod Kept
pub mod Ends
pub mod Examples
use pcfs.Base.{
  ℕ, ◌+◌, ◌-◌, ◌*◌, ◌%◌, ◌^◌, ◌≡◌, Bool, true, false, not, ◌&&◌, ◌||◌, List, [], ◌∷◌, ◌++◌, Option,
  none, some, ltb, leb, ◌==◌, if◌then◌else◌, is_some, ◌>>=◌,
}
use pcfs.Types.{
  Compressor, module_null, module_gzip, type_of, Direction, idle, Descriptor, File, Statvfs,
  as_unsigned,
}
use pcfs.Database.{flush_file_cache, fits}
use pcfs.Header.{HeaderRead, io_error, undefined, header, file_read_header_fd, ReadResult}
use pcfs.OpenFile.{TempFile, made, gave_up, out_of_fuel, file_create_temp}

-- `direct_close` on a descriptor: the stream is closed and forgotten, and with it the offset.
unfoldable pub close_stream : Descriptor → Descriptor
close_stream d = if d.handle then record d { offset = 0; handle = false } else d

-- `direct_close` on the file: its last user leaves it as it was before it was used.
unfoldable pub settle : File → File
settle f = if f.accesses == 1 then record f { direction = idle; dontcompress = false } else f

-- `direct_close`, with the answer of the module's `close`: the file, the descriptor and the result.
-- A stream on a file without a compressor fails the assertion: `none`.
unfoldable pub direct_close : (ℕ → Bool) → File → Descriptor → Option (File × Descriptor × Bool)
unfolding close_stream settle
direct_close closed f d =
    if d.handle && not (is_some f.compressor)
    then none
    else some (settle f, close_stream d, if d.handle then closed d.id else true)

-- `file_close` on `descriptor->fd`: a descriptor of -1 fails the assertion.
unfoldable pub file_close : Descriptor → Option Descriptor
file_close d = if is_some d.fd then some (record d { fd = none }) else none

-- The loop of `do_decompress` that closes the streams and the descriptors of the file.
unfoldable pub close_all : (ℕ → Bool) → File → List Descriptor → Option (File × List Descriptor)
close_all closed f [] = some (f, [])
close_all closed f (d ∷ ds) = do
  (g, d1, _) ← direct_close closed f d
  d2 ← file_close d1
  (h, ds1) ← close_all closed g ds
  some (h, d2 ∷ ds1)

-- The loop that opens them again on the new file; a failing `open` leaves -1.
unfoldable pub reopen_all : (ℕ → Option ℕ) → List Descriptor → List Descriptor
reopen_all answer [] = []
reopen_all answer (d ∷ ds) = record d { fd = answer d.id } ∷ reopen_all answer ds

-- The answers that one run gets, in the order of the calls. `decompressed` is the result of the
-- module's `decompress`, with -1 as `none`; `closed` and `reopened` are by descriptor.
pub record Answers : Type 0 where
  pub statvfs : Option Statvfs
  pub euid_root : Bool
  pub source : Option ℕ
  pub header_bytes : ReadResult
  pub closed : ℕ → Bool
  pub fstat : Bool
  pub memory : Bool
  pub mkstemp : ℕ → Option ℕ
  pub decompressed : Option ℕ
  pub reopened : ℕ → Option ℕ
  pub renamed : Bool
  pub utime : Bool

-- What a run leaves: the file, `decomp_cache_size`, the result, the descriptors of the run that are
-- still open, whether the name now holds the decompressed file, whether the temporary file is left
-- under its own name, and whether waiting threads were woken.
pub record Run : Type 0 where
  pub file : File
  pub total : ℕ
  pub result : Bool
  pub open_fds : List ℕ
  pub replaced : Bool
  pub temp_left : Bool
  pub woken : Bool

-- A run that ends with FALSE.
abbrev pub failing : File → ℕ → List ℕ → Run
failing f total fds = record {
  file = f;
  total = total;
  result = false;
  open_fds = fds;
  replaced = false;
  temp_left = false;
  woken = false;
}

abbrev pub listed : Option ℕ → List ℕ
listed none = []
listed (some fd) = fd ∷ []

-- The last part, after the data were decompressed: open the descriptors again, rename, set times.
unfoldable pub install : Answers → File → ℕ → ℕ → ℕ → ℕ → Run
install a f total source temp size =
    let g = record f { head = reopen_all a.reopened f.head } in
    if not a.renamed
    then record (failing g total (source ∷ temp ∷ [])) { temp_left = true }
    else if not a.utime
    then record (failing g total []) { replaced = true }
    else record {
      file = record g { compressor = none; size = some size };
      total = total;
      result = true;
      open_fds = [];
      replaced = true;
      temp_left = false;
      woken = false;
    }

-- Whether the module came back with the size that the header gave.
abbrev pub is_size : ℕ → Option ℕ → Bool
is_size n none = false
is_size n (some m) = m == n

-- The middle part, with an open temporary file: the module decompresses, waiting threads are woken,
-- and the result is checked against the size in the header. The temporary file of a failure is closed
-- and unlinked.
unfoldable pub decompress_into : Answers → File → ℕ → ℕ → ℕ → ℕ → Run
decompress_into a f total source temp header_size =
    let g = record f { status = record f.status { decompressing = false; cancel = false } } in
    let run =
      if is_size header_size a.decompressed
      then install a g total source temp header_size
      else failing g total (source ∷ []) in
    record run { woken = f.status.cancel }

-- After the temporary file was asked for.
unfoldable pub with_temp : Answers → File → ℕ → ℕ → ℕ → TempFile → Option Run
with_temp a f total source header_size (made temp _) =
    some (decompress_into a f total source temp header_size)
with_temp a f total source header_size (gave_up leaked) =
    some (record (failing f total (source ∷ listed leaked)) { temp_left = is_some leaked })
with_temp a f total source header_size out_of_fuel = none

-- `fstat` and the temporary file, after all descriptors were closed.
unfoldable pub make_temp : Answers → File → ℕ → ℕ → ℕ → Option Run
make_temp a f total source header_size =
    if a.fstat
    then with_temp a f total source header_size (file_create_temp a.memory a.mkstemp)
    else some (failing f total [])

-- From the closing of the streams on.
unfoldable pub replace_file : Answers → File → ℕ → ℕ → ℕ → Option Run
replace_file a f total source header_size = do
  (g, ds) ← close_all a.closed f f.head
  make_temp a (record g { head = ds }) total source header_size

-- Whether two pointers to compressors are the same: there is one structure for each module.
abbrev pub same_compressor : Compressor → Compressor → Bool
same_compressor c d = type_of c == type_of d

-- What becomes of a run whose header is read. An assertion that fails ends the process, and the read
-- outside the table of modules has no meaning: `none`.
unfoldable pub with_header : Answers → File → ℕ → ℕ → HeaderRead → Option Run
with_header a f total source io_error = some (failing f total (source ∷ []))
with_header a f total source undefined = none
with_header a f total source (header none size) =
    some (record (failing (record f { compressor = none; size = none }) total []) { result = true })
with_header a f total source (header (some c) size) = elim f.compressor [
  | none ↦ replace_file a (record f { compressor = some c }) total source size
  | some c0 ↦ if same_compressor c0 c then replace_file a f total source size else none
]

-- After the space was found to do.
unfoldable pub open_source : Answers → File → ℕ → Option Run
open_source a f total = elim a.source [
  | none ↦ some (failing f total [])
  | some source ↦ with_header a f total source (file_read_header_fd none 0 a.header_bytes)
]

-- The answer of `statvfs` and the test for ENOSPC.
abbrev pub has_room : Bool → Option ℕ → Option Statvfs → Bool
has_room root size none = false
has_room root size (some st) = fits root st size

unfoldable pub do_decompress : Answers → File → ℕ → Option Run
do_decompress a f total =
    let (g, rest) = flush_file_cache f total in
    if has_room a.euid_root f.size a.statvfs
    then open_source a g rest
    else some (failing f total [])
