-- ===== src/OpenFile.antt =====
-- `file_open`, `file_close` and `file_create_temp` of file.c: what they do with the answers of the
-- system calls.
pub mod Mode
pub mod Temp
mod Examples
use pcfs.Base.{
  ℕ, zero, suc, ◌+◌, ◌≡◌, Bool, true, false, Option, none, some, ltb, bit_or, if◌then◌else◌,
}

-- errno after a failing `open`, as far as the code looks at it.
pub data OpenError : Type 0 where
  eacces eperm other : OpenError

pub data OpenResult : Type 0 where
  opened : ℕ → OpenResult
  refused : OpenError → OpenResult

-- The answers of the calls that `file_open` makes, in their order: `open`, `stat` (the mode of the
-- file, or -1), `chmod`, `open`, `chmod`.
pub record OpenAnswers : Type 0 where
  pub first : OpenResult
  pub stat : Option ℕ
  pub widened : Bool
  pub second : Option ℕ
  pub restored : Bool

-- What is left of a call: the descriptor that it returns (-1 is `none`), the mode that the file has
-- then, and a descriptor that is open and that nobody holds.
pub record FileOpen : Type 0 where
  pub fd : Option ℕ
  pub mode : ℕ
  pub leaked : Option ℕ

-- S_IRUSR | S_IWUSR | S_IRGRP | S_IWGRP | S_IROTH | S_IWOTH
abbrev pub all_modes : ℕ
all_modes = 0o666

-- The forced way: widen the mode, open, and put the mode back. `chmod` writes only if it succeeds.
unfoldable pub force_open : OpenAnswers → ℕ → FileOpen
force_open a mode = elim a.stat [
  | none ↦ record { fd = none; mode = mode; leaked = none }
  | some st ↦
      if a.widened
      then elim a.second [
        | none ↦ record { fd = none; mode = bit_or st all_modes; leaked = none }
        | some fd ↦
            if a.restored
            then record { fd = some fd; mode = st; leaked = none }
            else record { fd = none; mode = bit_or st all_modes; leaked = some fd }
      ]
      else record { fd = none; mode = mode; leaked = none }
]

-- `file_open` on a file with the mode `mode`.
unfoldable pub file_open : OpenAnswers → ℕ → FileOpen
unfolding force_open
file_open a mode = elim a.first [
  | opened fd ↦ record { fd = some fd; mode = mode; leaked = none }
  | refused eacces ↦ force_open a mode
  | refused eperm ↦ force_open a mode
  | refused other ↦ record { fd = none; mode = mode; leaked = none }
]

-- What `file_create_temp` comes to: a descriptor and the number of the attempt that made it, or
-- nothing, with the descriptor that the last attempt made and nobody closes.
pub data TempFile : Type 0 where
  made : ℕ → ℕ → TempFile
  gave_up : Option ℕ → TempFile
  out_of_fuel : TempFile

-- The loop: `mkstemp i` is the answer of attempt `i`, and the count is looked at before the answer.
unfoldable pub create_loop : ℕ → (ℕ → Option ℕ) → ℕ → TempFile
create_loop zero mkstemp i = out_of_fuel
create_loop (suc k) mkstemp i =
    let again = create_loop k mkstemp (i + 1) in
    if ltb 50 i
    then gave_up (mkstemp i)
    else elim (mkstemp i) [ some fd ↦ made fd i | none ↦ again ]

-- 52 rounds are all that the count allows. `memory` is whether `malloc` succeeds.
unfoldable pub file_create_temp : Bool → (ℕ → Option ℕ) → TempFile
unfolding create_loop
file_create_temp memory mkstemp = if memory then create_loop 52 mkstemp 0 else gave_up none
