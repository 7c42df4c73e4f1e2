-- ===== src/OpenFile/Examples.antt =====
-- Concrete calls.
use pcfs.Base.{
  ℕ, ◌≡◌, ◌<◌, ◌≤◌, refl, true, false, Option, none, some, ltb, inr, arith, if◌then◌else◌, bit_or,
  ◌⊎◌,
}
use pcfs.OpenFile.{OpenAnswers, refused, eacces, file_open, gave_up, file_create_temp, all_modes}
use pcfs.OpenFile.Mode.{stays_wide, file_open-mode}
use pcfs.OpenFile.Temp.{file_create_temp-gave_up}

-- A file of mode 0o400 that the second `open` cannot open either.
abbrev stubborn : OpenAnswers
stubborn = record {
  first = refused eacces;
  stat = some 0o400;
  widened = true;
  second = none;
  restored = true;
}

file_open-mode_example :
    ((stays_wide stubborn ≡ false)
      × ((file_open stubborn 0o400).mode ≡ 0o400)
      × ((file_open stubborn 0o400).leaked ≡ none))
    ⊎ ((stays_wide stubborn ≡ true)
        × ((file_open stubborn 0o400).fd ≡ none)
        × ((file_open stubborn 0o400).mode ≡ bit_or 0o400 all_modes)
        × ((file_open stubborn 0o400).leaked ≡ none))
file_open-mode_example = file_open-mode stubborn 0o400 (inr refl)

-- `mkstemp` that fails twice and then gives descriptor 7.
abbrev third_time : ℕ → Option ℕ
third_time i = if ltb i 2 then none else some 7

third_time-before : (j : ℕ) → j < 2 → third_time j ≡ none
third_time-before j lt = ground arith

-- `mkstemp` that succeeds at the attempt whose result is not used.
abbrev last_time : ℕ → Option ℕ
last_time i = if ltb 50 i then some 9 else none

last_time-before : (j : ℕ) → j ≤ 50 → last_time j ≡ none
last_time-before j le = ground arith

file_create_temp-gave_up_example : file_create_temp true last_time ≡ gave_up (some 9)
file_create_temp-gave_up_example = file_create_temp-gave_up last_time last_time-before
