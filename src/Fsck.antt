-- ===== src/Fsck.antt =====
-- tools/fsck.c: the check of one file (checkfile, fix, do_unlink, warn), of all files that `nftw`
-- visits, and the exit status. Messages and the sum of the sizes, which is for them, are not modelled.
pub mod Counts
pub mod Finds
mod Examples
use pcfs.Base.{
  ℕ, zero, suc, ◌+◌, ◌-◌, ◌^◌, ◌≡◌, Bool, true, false, not, ◌&&◌, ◌||◌, List, [], ◌∷◌, Option, none,
  some, ltb, ◌==◌, if◌then◌else◌, length, min, starts_with, ◌>>=◌,
}
use pcfs.Names.{temp_prefix, fuse_prefix, pcfs_prefix}
use pcfs.Header.{
  ReadResult, failed, got, HeaderRead, io_error, undefined, header, header_length,
  file_read_header_fd,
}
use pcfs.Stream.{Reader}

-- The error codes. FAIL_OPEN is a warning only.
pub data Fault : Type 0 where
  broken_header fail_open fail_read fail_open_decomp fail_read_decomp short_read_decomp
        fail_close_decomp stale_temp :
      Fault

-- `errors_found`, `errors_fixed`, `warnings`, and the paths that were removed.
pub record Tally : Type 0 where
  pub errors_found : ℕ
  pub errors_fixed : ℕ
  pub warnings : ℕ
  pub removed : List (List ℕ)

-- A file as `nftw` hands it over, and the answers of the calls on it. `start` is what the first `read`
-- returns, `whole` what that of the header does; `read` is the module's stream.
pub record Visited : Type 0 where
  pub path : List ℕ
  pub base : List ℕ
  pub regular : Bool
  pub opened : Bool
  pub start : ReadResult
  pub whole : ReadResult
  pub stream : Bool
  pub read : Reader
  pub closed : Bool
  pub unlinked : Bool

-- `do_unlink`: the result of `unlink` is not looked at.
unfoldable pub do_unlink : Bool → Visited → Tally → Tally
do_unlink enabled v t =
    if enabled
    then record t {
      errors_fixed = t.errors_fixed + 1;
      removed = if v.unlinked then v.path ∷ t.removed else t.removed;
    }
    else t

-- What `fix` does about an error.
unfoldable pub repair : Bool → Fault → Visited → Tally → Tally
repair enabled broken_header v t = do_unlink enabled v t
repair enabled fail_read_decomp v t = do_unlink enabled v t
repair enabled short_read_decomp v t = do_unlink enabled v t
repair enabled stale_temp v t = do_unlink enabled v t
repair enabled _ v t = t

unfoldable pub fix : Bool → Fault → Visited → Tally → Tally
fix enabled e v t = repair enabled e v (record t { errors_found = t.errors_found + 1 })

unfoldable pub warn : Tally → Tally
warn t = record t { warnings = t.warnings + 1 }

-- What the loop over the stream comes to.
pub data Drained : Type 0 where
  all_read broken too_short : Drained

-- BUFSIZE
abbrev pub buffer_size : ℕ
buffer_size = 131072

-- `while (size)`, at the position `p` of the stream, with fuel; `size` is enough.
unfoldable pub drain : Reader → ℕ → ℕ → ℕ → Option Drained
drain read fuel p zero = some all_read
drain read zero p (suc size) = none
drain read (suc fuel) p (suc size) = elim (read p (min (suc size) buffer_size)) [
  | none ↦ some broken
  | some bs ↦ elim bs [
    | [] ↦ some too_short
    | x ∷ xs ↦ drain read fuel (p + suc (length xs)) (suc size - suc (length xs))
  ]
]

-- After the stream was read: an error closes the descriptor and not the stream.
unfoldable pub after_drain : Bool → Visited → Tally → Drained → Tally
after_drain enabled v t all_read = if v.closed then t else fix enabled fail_close_decomp v t
after_drain enabled v t broken = fix enabled fail_read_decomp v t
after_drain enabled v t too_short = fix enabled short_read_decomp v t

-- With the header: a type that is no module leaves NULL, through which the module's `open` is called,
-- and a size that is negative as an off_t has no meaning here.
unfoldable pub check_stream : Bool → Visited → Tally → HeaderRead → Option Tally
check_stream enabled v t io_error = some (fix enabled broken_header v t)
check_stream enabled v t undefined = none
check_stream enabled v t (header none n) = none
check_stream enabled v t (header (some c) n) =
    if v.stream
    then if ltb n (2 ^ 63)
      then (drain v.read n 0 n >>= λ d. some (after_drain enabled v t d))
      else none
    else some (fix enabled fail_open_decomp v t)

-- A compressed file. `compr` and `size` are not initialised, and a header that is cut off leaves them
-- so.
unfoldable pub check_packed : Bool → Visited → Tally → ReadResult → Option Tally
check_packed enabled v t failed = some (fix enabled broken_header v t)
check_packed enabled v t (got bs) =
    if length bs == header_length
    then check_stream enabled v t (file_read_header_fd none 0 (got bs))
    else none

-- The first bytes are the magic ones; what `read` did not fill is 0.
abbrev pub is_magic : List ℕ → Bool
is_magic (x ∷ y ∷ z ∷ rest) = (x == 31) && (y == 93) && (z == 137)
is_magic _ = false

unfoldable pub check_start : Bool → Visited → Tally → ReadResult → Option Tally
check_start enabled v t failed = some (fix enabled fail_read v t)
check_start enabled v t (got bs) = if is_magic bs then check_packed enabled v t v.whole else some t

unfoldable pub checkfile : Bool → Visited → Tally → Option Tally
checkfile enabled v t =
    if not v.regular
    then some t
    else if not v.opened
    then some (warn t)
    else if starts_with v.base temp_prefix || starts_with v.base fuse_prefix
    then some (fix enabled stale_temp v t)
    else if starts_with v.base pcfs_prefix
    then some t
    else check_start enabled v t v.start

-- `nftw` calls `checkfile` on each file; it always returns 0.
unfoldable pub check_all : Bool → List Visited → Tally → Option Tally
check_all enabled [] t = some t
check_all enabled (v ∷ vs) t = checkfile enabled v t >>= λ u. check_all enabled vs u

abbrev pub no_faults : Tally
no_faults = record { errors_found = 0; errors_fixed = 0; warnings = 0; removed = [] }

-- The value that `main` returns after the walk.
unfoldable pub exit_status : Tally → ℕ
exit_status t =
    if t.errors_found == 0 then 0 else if ltb t.errors_fixed t.errors_found then 4 else 1
