-- ===== src/Offline/Examples.antt =====
-- Runs of `transform`, and inputs at which its theorems apply.
use pcfs.Base.{◌≡◌, refl, true, false, [], ◌∷◌, some, codes}
use pcfs.Offline.{Contents, raw, strange, Answers, Visited, uncompressed, unknown, is_compressed}

abbrev smooth : Answers
smooth = record {
  probed = true;
  opened = true;
  size = some 40;
  temp = true;
  sought = true;
  header_read = true;
  converted = some;
  sought_back = true;
  header_written = true;
  renamed = true;
  utime = true;
}

abbrev some_data : Contents
some_data = raw (1 ∷ 2 ∷ [])

-- A file of the module null, for which the decompression gets no temporary file.
abbrev visited : Visited
visited = record {
  base = codes "a";
  regular = true;
  answers = smooth;
  first = record smooth { temp = false };
}

-- A type of 255 counts as not compressed, and one of 200 as a failure.
types :
    (is_compressed true (strange 255) ≡ uncompressed) × (is_compressed true (strange 200) ≡ unknown)
unfolding is_compressed
types = (refl, refl)
