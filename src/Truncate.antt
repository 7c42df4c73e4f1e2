-- ===== src/Truncate.antt =====
-- `PCFS_truncate` and `PCFS_link` of PCFS.c on the locked file: they need the plain file.
mod Plain
use pcfs.Base.{
  ℕ, ◌≡◌, Bool, true, false, ◌&&◌, List, [], ◌∷◌, Option, none, some, ◌==◌, if◌then◌else◌, is_some,
  ◌>>=◌,
}
use pcfs.Types.{Descriptor, File}
use pcfs.Decompress.{Answers, Run, direct_close, do_decompress}
use pcfs.Handlers.{Ending, ok, failed}

-- The loop of `PCFS_truncate` to size 0: the streams are closed, and the descriptors stay open.
unfoldable pub close_streams : (ℕ → Bool) → File → List Descriptor → Option (File × List Descriptor)
close_streams closed f [] = some (f, [])
close_streams closed f (d ∷ ds) = do
  (g, d1, _) ← direct_close closed f d
  (h, ds1) ← close_streams closed g ds
  some (h, d1 ∷ ds1)

-- The file without its compressor, and `decomp_cache_size`; `none` inside is an error, after which
-- the file is as the other part says.
pub record Made : Type 0 where
  pub file : File
  pub total : ℕ
  pub plain : Bool

abbrev pub made_of : Run → Made
made_of r = record { file = r.file; total = r.total; plain = r.result }

-- The first half of `PCFS_truncate`: `nothing` tells whether the new size is 0.
unfoldable pub make_plain : Answers → Bool → File → ℕ → Option Made
make_plain a nothing f total =
    if is_some f.compressor
    then if nothing
      then (close_streams a.closed f f.head >>= λ c. some (record {
        file = record c.0 { head = c.1; compressor = none };
        total = total;
        plain = true;
      }))
      else (do_decompress a f total >>= λ r. some (made_of r))
    else some (record { file = f; total = total; plain = true })

-- The second half: `opened` and `truncated` are the answers of `file_open` and `ftruncate`.
unfoldable pub set_size : Bool → Bool → ℕ → Made → File × ℕ × Ending
set_size opened truncated size m =
    if m.plain && opened && truncated
    then (record m.file { size = some size }, m.total, ok)
    else (m.file, m.total, failed)

-- `PCFS_truncate`.
unfoldable pub truncate_file : Answers → Bool → Bool → ℕ → File → ℕ → Option (File × ℕ × Ending)
truncate_file a opened truncated size f total =
    make_plain a (size == 0) f total >>= λ m. some (set_size opened truncated size m)

-- `PCFS_link`, with the answer of `link`, for which the lock is given back before.
unfoldable pub link_file : Answers → Bool → File → ℕ → Option (File × ℕ × Ending)
link_file a linked f total = make_plain a false f total >>= λ m. some (
    if m.plain
    then (record m.file { dontcompress = true }, m.total, if linked then ok else failed)
    else (m.file, m.total, failed))
