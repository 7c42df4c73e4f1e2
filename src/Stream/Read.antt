-- ===== src/Stream/Read.antt =====
-- `direct_decompress` of direct_compress.c. A result is what the first bytes of the caller's buffer
-- are then, with -1 as `none`; a failing assertion and an access outside `file->cache` have no result
-- at all.
--pub mod Served
--pub mod Exact
use pcfs.Base.{
  ℕ, ◌+◌, ◌-◌, ◌/◌, ◌%◌, ◌^◌, Bool, true, false, not, ◌&&◌, List, [], ◌++◌, Option, none, some, ltb,
  leb, ◌==◌, if◌then◌else◌, is_some, ◌>>=◌, length, replicate, ◌⊎◌, inl, inr,
}
use pcfs.Types.{Descriptor, File, Config, page_size}
use pcfs.Decompress.{do_decompress}
use pcfs.Handlers.{get_descriptor}
use pcfs.Stream.{Around, Skim, Stop, arrived, failing, ended, astray, max_of, skip}
use pcfs.Stream.Call.{
  ReadAnswers, Doing, Given, finish, begin_reading, await_decompress, serve_cached, needs_fallback,
}

-- `pread` on the decompressed file.
unfoldable pub read_plain : ReadAnswers → Doing → Option Descriptor → Option (List ℕ)
read_plain a w d = do x ← d; fd ← x.fd; bs ← a.pread fd w.size w.offset; some (w.served ++ bs)

-- The fallback: the file is decompressed for good.
abbrev pub plain_given : Doing → File → ℕ → Option (List ℕ) → Given
plain_given w f total r = record {
  file = f;
  total = total;
  result = r;
  reach = elim r [ none ↦ w.reach | some bs ↦ max_of w.reach (length bs) ];
}

unfoldable pub fall_back : ReadAnswers → Doing → Option Given
unfolding read_plain
fall_back a w =
    (do_decompress a.run w.file w.total >>= λ r. some (
      if r.result
      then plain_given w (record r.file { size = none; skipped = 0 }) r.total
          (read_plain a w (get_descriptor w.descriptor.id r.file.head))
      else plain_given w r.file r.total none))

-- Back to the beginning, for an offset before the descriptor's. The other part tells whether to go on.
unfoldable pub rewind : ReadAnswers → Doing → Option (Doing × Bool)
rewind a w =
    let start : Doing = record w {
      descriptor = record w.descriptor { offset = 0; handle = false };
    } in
    if ltb w.offset w.descriptor.offset
    then if w.descriptor.handle
      then if a.closed then some (start, a.sought) else some (w, false)
      else none
    else some (w, true)

-- A stream, if there is none yet.
unfoldable pub open_stream : ReadAnswers → Doing → Option (Doing × Bool)
open_stream a w =
    if w.descriptor.handle
    then some (w, true)
    else if w.descriptor.offset == 0
    then some (record w { descriptor = record w.descriptor { handle = a.opened } }, a.opened)
    else none

-- `file->size / DC_PAGE_SIZE + 1`, which is 1 for -1.
abbrev pub pages_of : Option ℕ → ℕ
pages_of none = 1
pages_of (some n) = n / page_size + 1

-- The cache is made when it is needed first.
abbrev pub make_cache : File → File
make_cache f = elim f.cache [
  | none ↦ record f {
    cache = some (replicate (pages_of f.size) none);
    cache_size = pages_of f.size;
  }
  | some ps ↦ f
]

abbrev pub around : Config → ReadAnswers → Doing → Around
around c a w = record {
  caching = w.caching;
  max = c.max_decomp_cache_size;
  size = w.file.size;
  read = a.read;
  allocated = a.allocated;
  garbage = a.garbage;
}

abbrev pub skim_of : Doing → Skim
skim_of w = record {
  offset = w.descriptor.offset;
  cache = w.file.cache;
  total = w.total;
  skipped = w.file.skipped;
  reach = 0;
}

-- What the loop leaves. The buffer begins after the bytes that were served.
abbrev pub skimmed : Doing → Skim → Doing
skimmed w k = record w {
  file = record w.file { cache = k.cache; skipped = k.skipped };
  descriptor = record w.descriptor { offset = k.offset };
  total = k.total;
  reach = max_of w.reach (length w.served + k.reach);
}

-- How the skip ends: it goes on to read, or returns.
abbrev pub after_skip : Doing → Stop → Option (Doing ⊎ Given)
after_skip w arrived = some (inl w)
after_skip w failing = some (inr (finish w none))
after_skip w ended = some (inr (finish w (some [])))
after_skip w astray = none

-- The skip to an offset behind the descriptor's. Nothing is kept if the skip is larger than what is
-- free of the cache.
unfoldable pub skip_to : Config → ReadAnswers → Doing → Option (Doing ⊎ Given)
skip_to c a w =
    let toread : ℕ = w.offset - w.descriptor.offset in
    let caching : Bool = w.caching && leb (toread + w.total) c.max_decomp_cache_size in
    let v : Doing = record w {
      caching = caching;
      file = if caching then make_cache w.file else w.file;
    } in
    if ltb w.descriptor.offset w.offset
    then if caching && not (is_some w.file.cache) && not a.zeroed
      then some (inr (finish w none))
      else (skip (around c a v) toread toread (skim_of v) >>= λ r. after_skip (skimmed v r.0) r.1)
    else some (inl w)

-- How many bytes are asked for: not more than there are behind the descriptor's offset. The
-- difference wraps around if that is behind the end.
abbrev pub clip : Option ℕ → ℕ → ℕ → ℕ
clip none offset size = size
clip (some n) offset size = if ltb n (offset + size) then (n + 2 ^ 64 - offset) % 2 ^ 64 else size

-- The read that the call is for.
unfoldable pub last_read : ReadAnswers → Doing → Given
last_read a w =
    let size : ℕ = clip w.file.size w.descriptor.offset w.size in
    elim (a.read w.descriptor.offset size) [
      | none ↦ finish w none
      | some bs ↦
          let reached : Doing = record w { reach = max_of w.reach (length w.served + length bs) } in
          if ltb (length bs) size
          then finish reached none
          else finish
              (record reached {
                descriptor = record w.descriptor { offset = w.descriptor.offset + length bs };
              })
              (some (w.served ++ bs))
    ]

abbrev pub last_or_given : ReadAnswers → Doing ⊎ Given → Option Given
last_or_given a (inl w) = some (last_read a w)
last_or_given a (inr g) = some g

-- The part of the call that uses the stream. A file that has no compressor any more, after the wait,
-- has no functions to call.
unfoldable pub skip_and_read : Config → ReadAnswers → Doing × Bool → Option Given
skip_and_read c a (w, go) = if go then (skip_to c a w >>= last_or_given a) else some (finish w none)

unfoldable pub open_and_read : Config → ReadAnswers → Doing × Bool → Option Given
open_and_read c a (w, go) =
    if go then (open_stream a w >>= skip_and_read c a) else some (finish w none)

unfoldable pub read_stream : Config → ReadAnswers → Doing → Option Given
read_stream c a w = if is_some w.file.compressor then (rewind a w >>= open_and_read c a) else none

-- After the cache has served what it could.
unfoldable pub after_cache : Config → ReadAnswers → Doing × Bool → Option Given
after_cache c a (w, entered) =
    if entered && (w.size == 0)
    then some (finish w (some w.served))
    else if needs_fallback c w
    then fall_back a w
    else read_stream c a w

-- Reads that do not consist of whole pages do not use the cache.
abbrev pub is_even : ℕ → ℕ → Bool
is_even size offset = (offset % page_size == 0) && (size % page_size == 0)

-- The call at its test of `file->type`, for the descriptor `x`.
abbrev pub start : Config → Descriptor → ℕ → ℕ → File × ℕ → Doing
start c x size offset (f, total) = record {
  file = record f { direction = begin_reading f.direction };
  descriptor = x;
  total = total;
  caching = c.cache_decompressed_data && is_even size offset;
  size = size;
  offset = offset;
  served = [];
  reach = 0;
}

-- The call from there on.
unfoldable pub begin_read : Config → ReadAnswers → Descriptor → ℕ → ℕ → File × ℕ → Option Given
begin_read c a x size offset g = serve_cached (start c x size offset g) >>= after_cache c a

-- The descriptor with the address `d`, which must be open.
unfoldable pub open_descriptor : ℕ → File → Option Descriptor
open_descriptor d f = do x ← get_descriptor d f.head; fd ← x.fd; some x

-- `direct_decompress`, with what other threads do while it waits.
unfoldable pub direct_decompress :
    Config → ReadAnswers → List (File × ℕ → File × ℕ) → ℕ → ℕ → ℕ → File → ℕ → Option Given
direct_decompress c a others d size offset f total = do
  z ← f.compressor
  x ← open_descriptor d f
  g ← await_decompress others (f, total)
  y ← get_descriptor d g.0.head
  begin_read c a y size offset g
