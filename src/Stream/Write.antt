-- ===== src/Stream/Write.antt =====
-- `direct_compress` of direct_compress.c, on a file system that is not read-only. A result is a number of bytes, with -1 as `none`; a failing
-- assertion has no result at all.
use pcfs.Base.{
  ℕ, ◌+◌, Bool, true, false, not, ◌&&◌, ◌||◌, List, ◌++◌, Option, none, some, ltb, ◌==◌,
  if◌then◌else◌, ◌>>=◌, length, take, drop,
}
use pcfs.Types.{Direction, idle, writing, Descriptor, File}
use pcfs.Database.{flush_file_cache}
use pcfs.Decompress.{Answers, do_decompress}
use pcfs.Handlers.{get_descriptor}
use pcfs.Header.{file_write_header}
use pcfs.Stream.Call.{put_descriptor, await_decompress}
use pcfs.Stream.Read.{open_descriptor}

-- The answers that a call gets, in the order of the calls: those for `do_decompress`, `pwrite` by
-- descriptor, size and offset, `lseek` to the beginning, the `write` of the header, the module's `open`
-- and `write`, and once more `lseek`, `write` and `lseek` to the end.
pub record WriteAnswers : Type 0 where
  pub run : Answers
  pub pwrite : ℕ → ℕ → ℕ → Option ℕ
  pub sought : Bool
  pub header : Option ℕ
  pub opened : Bool
  pub wrote : List ℕ → Option ℕ
  pub sought_again : Bool
  pub header_again : Option ℕ
  pub sought_end : Bool

-- What is in the file: the bytes where the header is, and the bytes that the stream took.
pub record Disk : Type 0 where
  pub head : List ℕ
  pub packed : List ℕ

pub record Writing : Type 0 where
  pub file : File
  pub descriptor : Descriptor
  pub total : ℕ
  pub disk : Disk

pub record Written : Type 0 where
  pub file : File
  pub total : ℕ
  pub disk : Disk
  pub result : Option ℕ

-- The descriptor is part of the file's list.
abbrev pub settled : Writing → Option ℕ → Written
settled w r = record {
  file = record w.file { head = put_descriptor w.descriptor w.file.head };
  total = w.total;
  disk = w.disk;
  result = r;
}

abbrev pub is_writing : Direction → Bool
is_writing writing = true
is_writing _ = false

abbrev pub begin_writing : Direction → Direction
begin_writing idle = writing
begin_writing d = d

-- A comparison of an offset with `file->size`, which can be -1.
abbrev pub is_at : ℕ → Option ℕ → Bool
is_at n none = false
is_at n (some m) = n == m

-- The file is decompressed if the write is not at its end, or not where the descriptor is, if the file
-- was read, or if it has another user.
unfoldable pub cannot_append : Writing → ℕ → Bool
cannot_append w offset =
    not (is_at w.descriptor.offset w.file.size)
    || (not (w.descriptor.offset == offset)
        || (not (is_writing w.file.direction) || ltb 1 w.file.accesses))

-- `pwrite` on the decompressed file.
unfoldable pub write_plain : WriteAnswers → ℕ → ℕ → Option Descriptor → Option ℕ
write_plain a size offset d = do x ← d; fd ← x.fd; a.pwrite fd size offset

unfoldable pub write_back : WriteAnswers → ℕ → ℕ → Writing → Option Written
unfolding write_plain
write_back a size offset w =
    (do_decompress a.run w.file w.total >>= λ r. some (
      if r.result
      then record {
        file = record r.file { size = none };
        total = r.total;
        disk = w.disk;
        result = write_plain a size offset (get_descriptor w.descriptor.id r.file.head);
      }
      else record { file = r.file; total = r.total; disk = w.disk; result = none }))

-- What a write of some bytes of the header leaves there: the rest is as it was.
abbrev pub overwrite : ℕ → List ℕ → List ℕ → List ℕ
overwrite n new old = take n new ++ drop n old

-- `file_write_header`: only a -1 is an error. A file without a compressor fails its assertion, and so
-- does one without a size.
unfoldable pub write_header : Option ℕ → Writing → Option (Writing × Bool)
write_header answer w = do
  c ← w.file.compressor
  bs ← file_write_header c w.file.size
  some (elim answer [
    | none ↦ (w, false)
    | some k ↦ (record w { disk = record w.disk { head = overwrite k bs w.disk.head } }, true)
  ])

-- The stream is opened with the first write: the header comes before it.
abbrev pub with_stream : WriteAnswers → Writing × Bool → Option (Writing × Bool)
with_stream a (w, go) =
    if go
    then some (record w { descriptor = record w.descriptor { handle = a.opened } }, a.opened)
    else some (w, false)

unfoldable pub open_writer : WriteAnswers → Writing → Option (Writing × Bool)
open_writer a w =
    if w.descriptor.handle
    then some (w, true)
    else if is_at 0 w.file.size && (w.descriptor.offset == 0)
    then if a.sought then (write_header a.header w >>= with_stream a) else some (w, false)
    else none

-- What follows the second header.
abbrev pub at_end : WriteAnswers → ℕ → Writing × Bool → Option Written
at_end a len (w, go) = some (settled w (if go && a.sought_end then some len else none))

-- The file after the stream took `len` bytes. `disk.packed` has what it took.
abbrev pub appended : List ℕ → ℕ → Writing → Writing
appended bs len w = record w {
  file = record w.file { size = some (w.descriptor.offset + len) };
  descriptor = record w.descriptor { offset = w.descriptor.offset + len };
  disk = record w.disk { packed = w.disk.packed ++ take len bs };
}

abbrev pub took : WriteAnswers → List ℕ → Writing → Option ℕ → Option Written
took a bs w none = some (settled w none)
took a bs w (some len) =
    if a.sought_again
    then (write_header a.header_again (appended bs len w) >>= at_end a len)
    else some (settled (appended bs len w) none)

-- A file that has no compressor any more, after the wait, has no functions to call.
unfoldable pub append : WriteAnswers → List ℕ → Writing → Option Written
append a bs w = w.file.compressor >>= λ c. took a bs w (a.wrote bs)

abbrev pub then_append : WriteAnswers → List ℕ → Writing × Bool → Option Written
then_append a bs (w, go) = if go then append a bs w else some (settled w none)

-- The call from its test of `file->type` on.
unfoldable pub begin_write : WriteAnswers → List ℕ → ℕ → Writing → Option Written
begin_write a bs offset w =
    if cannot_append w offset
    then write_back a (length bs) offset w
    else open_writer a w >>= then_append a bs

-- What the call works on after the wait, for the descriptor `x`.
abbrev pub start_write : Descriptor → Disk → File × ℕ → Writing
start_write x disk (f, total) = record {
  file = record f { direction = begin_writing f.direction };
  descriptor = x;
  total = total;
  disk = disk;
}

-- `direct_compress`, with what other threads do while it waits. The cache is thrown away first.
unfoldable pub direct_compress :
    WriteAnswers → List (File × ℕ → File × ℕ) → ℕ → List ℕ → ℕ → File → ℕ → Disk → Option Written
direct_compress a others d bs offset f total disk = do
  z ← f.compressor
  x ← open_descriptor d f
  g ← await_decompress others (flush_file_cache f total)
  y ← get_descriptor d g.0.head
  begin_write a bs offset (start_write y disk g)
