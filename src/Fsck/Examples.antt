-- ===== src/Fsck/Examples.antt =====
-- Runs of fsck, and inputs at which its theorems apply.
use pcfs.Base.{
  ℕ, ◌≡◌, ◌↔◌, ◌<◌, ◌≤◌, refl, true, false, [], ◌∷◌, List, none, some, codes, length, take, drop,
  arith, starts_with,
}
use pcfs.Types.{module_gzip}
use pcfs.Header.{failed, got, file_read_header_fd, header_of}
use pcfs.Fsck.{
  short_read_decomp, Tally, Visited, do_unlink, repair, fix, drain, after_drain, check_stream,
  check_packed, check_start, checkfile, check_all, no_faults, exit_status,
}
use pcfs.Fsck.Counts.{check_all-exit_status}
use pcfs.Fsck.Finds.{checkfile-finds}

-- A gzipped file that holds three bytes, with a header that says how many.
abbrev three_bytes : List ℕ
three_bytes = 1 ∷ 2 ∷ 3 ∷ []

abbrev packed_as : ℕ → Visited
packed_as n = record {
  path = codes "./a";
  base = codes "a";
  regular = true;
  opened = true;
  start = got (31 ∷ 93 ∷ 137 ∷ []);
  whole = got (header_of module_gzip n);
  stream = true;
  read = λ p k. some (take k (drop p three_bytes));
  closed = true;
  unlinked = false;
}

checkfile-finds_example :
    checkfile true (packed_as 5) no_faults
    ≡ some (fix true short_read_decomp (packed_as 5) no_faults)
unfolding starts_with
checkfile-finds_example =
    checkfile-finds true (packed_as 5) no_faults (31 ∷ 93 ∷ 137 ∷ []) three_bytes module_gzip 5
      (refl, refl, refl, refl) (refl, refl) (refl, refl) refl (omega arith) (λ p n. refl)

-- The file could not be removed, and counts as fixed.
abbrev not_removed : Tally
not_removed = record { errors_found = 1; errors_fixed = 1; warnings = 0; removed = [] }

short-run : check_all true (packed_as 3 ∷ packed_as 5 ∷ []) no_faults ≡ some not_removed
unfolding check_all checkfile starts_with check_start check_packed check_stream file_read_header_fd
    header_of drain after_drain fix repair do_unlink
short-run = refl

check_all-exit_status_example :
    ((exit_status not_removed ≡ 0) ↔ (not_removed.errors_found ≡ 0))
    × ((exit_status not_removed ≡ 1) ↔ ((0 < 1) × (not_removed.errors_fixed ≡ 1)))
    × (true ≡ false → (not_removed.removed ≡ []) × ((exit_status not_removed ≡ 4) ↔ (0 < 1)))
    × (length not_removed.removed ≤ 1)
    × (not_removed.errors_fixed ≤ 1)
check_all-exit_status_example =
    check_all-exit_status true (packed_as 3 ∷ packed_as 5 ∷ []) not_removed short-run

-- A file whose `read` fails is an error that stays.
unread :
    check_all true (record (packed_as 3) { start = failed } ∷ []) no_faults
    ≡ some (record no_faults { errors_found = 1 })
unfolding check_all checkfile starts_with check_start fix repair
unread = refl

-- A header that is cut off, and one with a type that is no module, lead to a use of what was never set.
cut_off :
    checkfile true (record (packed_as 3) { whole = got (31 ∷ 93 ∷ 137 ∷ 2 ∷ []) }) no_faults ≡ none
unfolding checkfile starts_with check_start check_packed
cut_off = refl

no_module :
    checkfile true
      (record (packed_as 3) {
        whole = got (31 ∷ 93 ∷ 137 ∷ 1 ∷ 0 ∷ 0 ∷ 0 ∷ 0 ∷ 0 ∷ 0 ∷ 0 ∷ 0 ∷ []);
      })
      no_faults
    ≡ none
unfolding checkfile starts_with check_start check_packed check_stream file_read_header_fd
no_module = refl
