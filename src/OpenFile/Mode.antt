-- ===== src/OpenFile/Mode.antt =====
-- What `file_open` leaves of the file's mode.
use pcfs.Base.{ℕ, ◌≡◌, true, false, none, some, arith, Bool, not, ◌&&◌, ◌||◌, is_some, ◌⊎◌, bit_or}
use pcfs.OpenFile.{OpenAnswers, opened, other, refused, eacces, eperm, file_open, all_modes}

-- Whether the forced way widens the mode and does not come to its end.
abbrev pub is_refused : OpenAnswers → Bool
is_refused a = elim a.first [
  | opened fd ↦ false
  | refused eacces ↦ true
  | refused eperm ↦ true
  | refused other ↦ false
]

abbrev pub stays_wide : OpenAnswers → Bool
stays_wide a =
    is_refused a && is_some a.stat && a.widened && (not (is_some a.second) || not a.restored)

-- The mode is left wider exactly if the first `open` was refused for lack of rights, `stat` and the
-- first `chmod` worked, and then the second `open` or the second `chmod` failed: the call fails then,
-- and a descriptor of the second `open` is lost. Else the file has the mode that it had before (which
-- is what `stat` reports), and no descriptor is lost.
pub file_open-mode :
    (a : OpenAnswers) (mode : ℕ)
    → (a.stat ≡ none) ⊎ (a.stat ≡ some mode)
    → ((stays_wide a ≡ false)
        × ((file_open a mode).mode ≡ mode)
        × ((file_open a mode).leaked ≡ none))
      ⊎ ((stays_wide a ≡ true)
          × ((file_open a mode).fd ≡ none)
          × ((file_open a mode).mode ≡ bit_or mode all_modes)
          × ((file_open a mode).leaked ≡ a.second))
unfolding file_open
file_open-mode a mode st_mode = ground arith
