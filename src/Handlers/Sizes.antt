-- ===== src/Handlers/Sizes.antt =====
-- The sizes that `PCFS_getattr` reports, and the decision of `PCFS_write`.
use pcfs.Base.{ℕ, ◌≡◌, true, false, Option, none, some, arith, is_some, ◌⊎◌}
use pcfs.Types.{Compressor, File, Config}
use pcfs.Names.{choose_compressor}
use pcfs.Header.{header, HeaderRead}
use pcfs.Handlers.{Ending, Attributes, choose_at_write}

-- What a successful `PCFS_getattr` reports, from the file's record or from the disk.
abbrev pub Known : Attributes → File → ℕ → Type 0
Known a g n =
    (is_some g.size ≡ true)
    × (is_some g.compressor ≡ true → g.size ≡ some n)
    × (is_some g.compressor ≡ false → n ≡ a.st_size)

abbrev answer : File → Ending → ℕ → Option (File × Ending × ℕ)
answer f e n = some (f, e, n)

-- A look at a header that finds none leaves the size alone.
abbrev Leaves : ℕ → HeaderRead → Type 0
Leaves n0 h = (c : Option Compressor) (n : ℕ) → h ≡ header c n → is_some c ≡ false → n ≡ n0

-- `PCFS_write` decides once: after a first write, no write changes what the record says of the
-- compression. That first one gives an empty file, written from its start by its only user, the
-- module that the rules choose for the name, and changes nothing in any other case.
pub write_decides_once :
    (c : Config) (m n : ℕ) (f g : File)
    → choose_at_write c m f ≡ some g
    → (choose_at_write c n g ≡ some g)
      × ((g.compressor ≡ f.compressor)
          ⊎ ((g.compressor ≡ choose_compressor c f.name)
              × (f.compressor ≡ none)
              × (f.size ≡ some 0)
              × (f.accesses ≡ 1)
              × (m ≡ 0)
              × (f.dontcompress ≡ false)))
unfolding choose_at_write
write_decides_once c m n f g e = ground (arith, e)
