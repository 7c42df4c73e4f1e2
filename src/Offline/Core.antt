-- ===== src/Offline/Core.antt =====
-- What `transform` does to the data of a file.
use pcfs.Base.{◌≡◌, Option, some}
use pcfs.Offline.{Contents, raw, packed, strange, Answers, Done}

-- The data below all compression.
abbrev pub core : Contents → Contents
core (raw bs) = raw bs
core (packed c n x) = core x
core (strange b) = strange b

-- What the module writes, where it returns a size, stands for the same data as what it read.
abbrev pub IsLossless : Answers → Type 0
IsLossless a = (x y : Contents) → a.converted x ≡ some y → core y ≡ core x

-- If a call comes back, the file has the same data.
abbrev Keeps : Contents → Option Done → Type 0
Keeps x o = (d : Done) → o ≡ some d → core d.contents ≡ core x
