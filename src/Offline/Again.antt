-- ===== src/Offline/Again.antt =====
-- Recompression by `transform`: a decompression whose result is not looked at, and a compression.
use pcfs.Base.{ℕ, ◌≡◌, true, some}
use pcfs.Offline.{Contents, Answers}

-- All calls of a conversion succeed, on a file of `n` bytes, and the module loses nothing.
pub record Works (a : Answers) (n : ℕ) : Type 0 where
  pub probes : a.probed ≡ true
  pub opens : a.opened ≡ true
  pub has_size : a.size ≡ some n
  pub makes_temp : a.temp ≡ true
  pub seeks : a.sought ≡ true
  pub reads_header : a.header_read ≡ true
  pub converts : (x : Contents) → a.converted x ≡ some x
  pub seeks_back : a.sought_back ≡ true
  pub writes_header : a.header_written ≡ true
  pub renames : a.renamed ≡ true
  pub sets_times : a.utime ≡ true
