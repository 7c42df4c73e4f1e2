-- ===== src/ReadWrite.antt =====
-- `PCFS_read` and `PCFS_write` of PCFS.c on the locked file: they hand a read to `direct_decompress`,
-- and a write, packed into sectors, to `pwrite`.
pub mod Exact
pub mod Marked
mod Examples
use pcfs.Base.{
  ℕ, zero, suc, ◌+◌, ◌-◌, ◌*◌, ◌≡◌, Bool, List, [], ◌∷◌, Option, none, some, if◌then◌else◌, is_some,
  ◌>>=◌, take, replicate, ◌++◌, ltb,
}
use pcfs.Types.{Descriptor, File, Config, page_size}
use pcfs.Handlers.{get_descriptor, choose_at_write}
use pcfs.Sectors.{Packer, pcfs_compress, written_size}
use pcfs.Stream.Call.{ReadAnswers, Given}
use pcfs.Stream.Read.{direct_decompress}

-- The end of `PCFS_read`: after a failure the size is not known.
abbrev pub after_read : File → ℕ → Option (List ℕ) → File × ℕ × Option (List ℕ)
after_read f total none = (record f { size = none }, total, none)
after_read f total (some bs) = (f, total, some bs)

-- `pread` on the descriptor; a closed one is an error.
abbrev pub pread_on : ReadAnswers → ℕ → ℕ → Option ℕ → Option (List ℕ)
pread_on a size offset none = none
pread_on a size offset (some fd) = a.pread fd size offset

abbrev pub given_read : Given → Option (File × ℕ × Option (List ℕ))
given_read g = some (after_read g.file g.total g.result)

-- `PCFS_read` through the descriptor with the address `d`: the file, `decomp_cache_size`, and the bytes,
-- or a negative errno.
unfoldable pub read_file :
    Config
    → ReadAnswers
    → List (File × ℕ → File × ℕ)
    → ℕ
    → ℕ
    → ℕ
    → File
    → ℕ
    → Option (File × ℕ × Option (List ℕ))
read_file k a others d size offset f total =
    if is_some f.compressor
    then direct_decompress k a others d size offset f total >>= given_read
    else get_descriptor d f.head >>= λ x. some (after_read f total (pread_on a size offset x.fd))

-- The answers of the calls of `pwrite`: for the page of marks, for the sectors, and for plain data.
pub record Pwrites : Type 0 where
  pub marks : Option ℕ
  pub sectors : Option ℕ
  pub plain : Option ℕ

-- What a write returns: a number, a negative errno, or -2 as the sum of two failures.
pub data WriteResult : Type 0 where
  sent : ℕ → WriteResult
  refused minus_two : WriteResult

abbrev pub sent_of : Option ℕ → WriteResult
sent_of none = refused
sent_of (some n) = sent n

-- `res = pwrite(..); res += pwrite(..)`, where each can be -1.
abbrev pub sum_of : Option ℕ → Option ℕ → WriteResult
sum_of none none = minus_two
sum_of none (some zero) = refused
sum_of none (some (suc n)) = sent n
sum_of (some zero) none = refused
sum_of (some (suc n)) none = sent n
sum_of (some m) (some n) = sent (m + n)

-- What a call leaves: the file, the globals of compress_W.c, the calls of `pwrite` as offsets and bytes,
-- and the result.
pub record Stored : Type 0 where
  pub file : File
  pub packer : Packer
  pub writes : List (ℕ × List ℕ)
  pub result : WriteResult

-- After a failure the size is not known.
abbrev pub after_write : File → WriteResult → File
after_write f refused = record f { size = none }
after_write f _ = f

-- The bytes of `wrBuf`: what is before the sectors of this call is as `calloc` left it.
abbrev pub flatten : List (List ℕ) → List ℕ
flatten [] = []
flatten (s ∷ ss) = s ++ flatten ss

-- The first bytes of `wrBuf` that `pwrite` is given; `none` stands for a read behind its end.
unfoldable pub packed_bytes : ℕ → Packer → Option (List ℕ)
packed_bytes blk p =
    if ltb p.capacity (written_size p)
    then none
    else some (take (written_size p) (replicate (page_size * blk) 0 ++ flatten p.wr_buf))

-- The end of `PCFS_write` for a file with a compressor, which writes the marks and the sectors.
abbrev pub store_packed : Pwrites → ℕ → Packer → File → List ℕ → Option Stored
store_packed a offset p f bytes =
    let r : WriteResult = sum_of a.marks a.sectors in
    some (record {
      file = after_write f r;
      packer = p;
      writes = (offset, p.mark) ∷ (offset + page_size, bytes) ∷ [];
      result = r;
    })

-- And for a plain one.
abbrev pub store_plain : Pwrites → List ℕ → ℕ → Packer → File → Stored
store_plain a buf offset p f = record {
  file = after_write f (sent_of a.plain);
  packer = p;
  writes = (offset, buf) ∷ [];
  result = sent_of a.plain;
}

unfoldable pub store : Pwrites → List ℕ → ℕ → ℕ → Packer → File → Option Stored
store a buf offset blk p f =
    if is_some f.compressor
    then packed_bytes blk p >>= store_packed a offset p f
    else some (store_plain a buf offset p f)

-- `PCFS_write`: every write is packed, also that of a plain file. `behind` is the memory behind the
-- buffer, and `blk` the global that no call sets back.
unfoldable pub write_file :
    Config → (List ℕ → ℕ × List ℕ) → List ℕ → ℕ → ℕ → Pwrites → List ℕ → ℕ → File → Option Stored
write_file k deflate behind total_w blk a buf offset f = do
  p ← pcfs_compress deflate buf behind total_w blk
  g ← choose_at_write k offset f
  store a buf offset blk p g
