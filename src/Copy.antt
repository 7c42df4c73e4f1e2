-- ===== src/Copy.antt =====
-- The copy loops of compress_null.c (nullCompress, nullDecompress) and compress_gz.c (gzCompress,
-- gzDecompress), over what `read`, `write` and the streams of zlib answer.
pub mod Null
pub mod Gz
mod Examples
use pcfs.Base.{
  ℕ, ◌+◌, ◌≡◌, Bool, true, false, List, [], ◌∷◌, ◌++◌, Option, none, some, ◌==◌, if◌then◌else◌,
  length, take,
}

-- What a descriptor has to read: one chunk for each call that returns some bytes, and then the end or
-- an error.
pub data Source : Type 0 where
  chunk : List ℕ → Source → Source
  eof read_error : Source

-- All bytes that can be read.
abbrev pub bytes_of : Source → List ℕ
bytes_of (chunk c s) = c ++ bytes_of s
bytes_of eof = []
bytes_of read_error = []

-- What a loop comes to: the size that it returns, with -1 as `none`, and the bytes that the
-- destination took.
pub record Copied : Type 0 where
  pub size : Option ℕ
  pub taken : List ℕ

-- What the destination takes of a chunk when `write` returns -1 or a number.
abbrev pub accepted : Option ℕ → List ℕ → List ℕ
accepted none c = []
accepted (some n) c = take n c

-- `wr == 0`, where `wr` is the unsigned result of `write`, which is not 0 for -1.
abbrev pub is_zero : Option ℕ → Bool
is_zero none = false
is_zero (some n) = n == 0

-- `compress_testcancel` after the chunk number `i`, and the results of `write` or `gzwrite` on it.
pub record Calls : Type 0 where
  pub cancelled : ℕ → Bool
  pub wrote : ℕ → Option ℕ

-- The loop of `nullCompress` from the chunk number `i` on.
unfoldable pub null_copy : Calls → ℕ → Source → ℕ → List ℕ → Copied
null_copy a i eof size taken = record { size = some size; taken = taken }
null_copy a i read_error size taken = record { size = none; taken = taken }
null_copy a i (chunk c s) size taken =
    let rest : Copied = null_copy a (i + 1) s (size + length c) (taken ++ accepted (a.wrote i) c) in
    let stop : Copied = record {
      size = some (size + length c);
      taken = taken ++ accepted (a.wrote i) c;
    } in
    let nothing : Copied = record { size = none; taken = taken } in
    if is_zero (a.wrote i) then nothing else if a.cancelled i then stop else rest

unfoldable pub null_compress : Calls → Source → Copied
null_compress a s = null_copy a 0 s 0 []

-- The loop that `nullDecompress` and `gzDecompress` share, over `read` and over `gzread`.
unfoldable pub fill : (ℕ → Option ℕ) → ℕ → Source → ℕ → List ℕ → Copied
fill wrote i eof size taken = record { size = some size; taken = taken }
fill wrote i read_error size taken = record { size = none; taken = taken }
fill wrote i (chunk c s) size taken = elim (wrote i) [
  | none ↦ record { size = none; taken = taken }
  | some n ↦ fill wrote (i + 1) s (size + n) (taken ++ take n c)
]

unfoldable pub null_decompress : (ℕ → Option ℕ) → Source → Copied
null_decompress wrote s = fill wrote 0 s 0 []

-- The loop of `gzCompress`: only a `gzwrite` of -1 is an error.
unfoldable pub gz_copy : Calls → ℕ → Source → ℕ → List ℕ → Copied
gz_copy a i eof size taken = record { size = some size; taken = taken }
gz_copy a i read_error size taken = record { size = none; taken = taken }
gz_copy a i (chunk c s) size taken = elim (a.wrote i) [
  | none ↦ record { size = none; taken = taken }
  | some n ↦
      let rest : Copied = gz_copy a (i + 1) s (size + length c) (taken ++ take n c) in
      let stop : Copied = record { size = some (size + length c); taken = taken ++ take n c } in
      if a.cancelled i then stop else rest
]

-- How a stream of zlib is opened: `dup` and `gzdopen`.
pub record Opening : Type 0 where
  pub duplicated : Bool
  pub opened : Bool

-- A call on a stream: the result of the loop, whether a stream was closed, and whether the duplicate
-- of the descriptor was closed instead. What `gzClose` returns is not looked at.
pub record Streamed : Type 0 where
  pub copied : Copied
  pub closed_stream : Bool
  pub closed_duplicate : Bool

abbrev pub not_opened : Bool → Streamed
not_opened d = record {
  copied = record { size = none; taken = [] };
  closed_stream = false;
  closed_duplicate = d;
}

abbrev pub closing : Copied → Streamed
closing c = record { copied = c; closed_stream = true; closed_duplicate = false }

-- What `gzCompress` and `gzDecompress` do around their loop, by the answers of `dup` and `gzdopen`.
abbrev pub streamed : Bool → Bool → Copied → Streamed
streamed false opened c = not_opened false
streamed true false c = not_opened true
streamed true true c = closing c

-- `gzCompress`: `taken` is what the stream took, which its closing still has to write.
unfoldable pub gz_compress : Opening → Calls → Source → Streamed
gz_compress o a s = streamed o.duplicated o.opened (gz_copy a 0 s 0 [])

-- `gzDecompress`: the source is what `gzread` gives.
unfoldable pub gz_decompress : Opening → (ℕ → Option ℕ) → Source → Streamed
gz_decompress o wrote s = streamed o.duplicated o.opened (fill wrote 0 s 0 [])
