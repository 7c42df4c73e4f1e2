-- ===== src/Fsck/Counts.antt =====
-- What the counts of fsck and its exit status say.
use pcfs.Base.{
  ℕ, suc, ◌+◌, ◌^◌, ◌≤◌, ◌<◌, ◌≡◌, ◌↔◌, refl, ◌∙◌, Bool, true, false, not, ◌||◌, List, [], ◌∷◌,
  Option, none, some, arith, ltb, ◌==◌, if◌then◌else◌, ◌>>=◌, bind-some, none_ne_some,
  true_ne_false, if-all, length, starts_with, subst,
}
use mathlib.Core.Option.{some-injective}
use pcfs.Names.{temp_prefix, fuse_prefix, pcfs_prefix}
use pcfs.Header.{
  ReadResult, failed, got, HeaderRead, io_error, undefined, header, header_length,
  file_read_header_fd,
}
use pcfs.Fsck.{
  Fault, broken_header, fail_open, fail_read, fail_open_decomp, fail_read_decomp, short_read_decomp,
  fail_close_decomp, stale_temp, Tally, Visited, do_unlink, repair, fix, warn, Drained, all_read,
  broken, too_short, drain, after_drain, check_stream, check_packed, check_start, is_magic,
  checkfile, check_all, no_faults, exit_status,
}

-- From `t` to `u` the counts only grew, with at most as many errors fixed as found and at most as many
-- files removed as errors fixed; without permission nothing was fixed or removed.
pub record Grows (enabled : Bool) (t u : Tally) : Type 0 where
  pub more : t.errors_found ≤ u.errors_found
  pub fixes : u.errors_fixed + t.errors_found ≤ u.errors_found + t.errors_fixed
  pub removes : length u.removed + t.errors_fixed ≤ u.errors_fixed + length t.removed
  pub forbidden : enabled ≡ false → (u.errors_fixed ≡ t.errors_fixed) × (u.removed ≡ t.removed)

Grows-refl : (enabled : Bool) (t : Tally) → Grows enabled t t
Grows-refl enabled t = record {
  more = omega arith;
  fixes = omega arith;
  removes = omega arith;
  forbidden = λ e. (refl, refl);
}

Grows-next :
    (enabled : Bool) (t u v : Tally) → Grows enabled t u → Grows enabled u v → Grows enabled t v
Grows-next enabled t u v g h = record {
  more = omega (arith, g.more, h.more);
  fixes = omega (arith, g.fixes, h.fixes);
  removes = omega (arith, g.removes, h.removes);
  forbidden = λ e. ((h.forbidden e).0 ∙ (g.forbidden e).0, (h.forbidden e).1 ∙ (g.forbidden e).1);
}

found-Grows :
    (enabled : Bool) (t : Tally) → Grows enabled t (record t { errors_found = t.errors_found + 1 })
found-Grows enabled t = record {
  more = omega arith;
  fixes = omega arith;
  removes = omega arith;
  forbidden = λ e. (refl, refl);
}

-- One path more, or none.
removed-length :
    (b : Bool) (p : List ℕ) (ps : List (List ℕ))
    → length (if b then p ∷ ps else ps) ≤ suc (length ps)
removed-length true p ps = omega arith
removed-length false p ps = omega arith

unlink-Grows :
    (enabled : Bool) (v : Visited) (t : Tally)
    → Grows enabled t (do_unlink enabled v (record t { errors_found = t.errors_found + 1 }))
unfolding do_unlink
unlink-Grows false v t = found-Grows false t
unlink-Grows true v t = record {
  more = omega arith;
  fixes = omega arith;
  removes = omega (arith, removed-length v.unlinked v.path t.removed);
  forbidden = λ e. elim (true_ne_false e) [ ];
}

fix-Grows :
    (enabled : Bool) (e : Fault) (v : Visited) (t : Tally) → Grows enabled t (fix enabled e v t)
unfolding fix repair
fix-Grows enabled broken_header v t = unlink-Grows enabled v t
fix-Grows enabled fail_open v t = found-Grows enabled t
fix-Grows enabled fail_read v t = found-Grows enabled t
fix-Grows enabled fail_open_decomp v t = found-Grows enabled t
fix-Grows enabled fail_read_decomp v t = unlink-Grows enabled v t
fix-Grows enabled short_read_decomp v t = unlink-Grows enabled v t
fix-Grows enabled fail_close_decomp v t = found-Grows enabled t
fix-Grows enabled stale_temp v t = unlink-Grows enabled v t

-- The same of a result that there may be.
abbrev MayGrow : Bool → Tally → Option Tally → Type 0
MayGrow enabled t o = (u : Tally) → o ≡ some u → Grows enabled t u

some-MayGrow : (enabled : Bool) (t u : Tally) → Grows enabled t u → MayGrow enabled t (some u)
some-MayGrow enabled t u g w e = subst (Grows enabled t) (some-injective _ _ e) g

none-MayGrow : (enabled : Bool) (t : Tally) → MayGrow enabled t none
none-MayGrow enabled t w e = elim (none_ne_some w e) [ ]

module _ (enabled : Bool) (v : Visited) (t : Tally) where
  after_drain-Grows : (d : Drained) → Grows enabled t (after_drain enabled v t d)
  unfolding after_drain
  after_drain-Grows all_read =
      if-all (Grows enabled t) v.closed _ _ (λ y. Grows-refl enabled t)
        (λ n. fix-Grows enabled fail_close_decomp v t)
  after_drain-Grows broken = fix-Grows enabled fail_read_decomp v t
  after_drain-Grows too_short = fix-Grows enabled short_read_decomp v t

  drained-MayGrow :
      (o : Option Drained) → MayGrow enabled t (o >>= λ d. some (after_drain enabled v t d))
  drained-MayGrow none = none-MayGrow enabled t
  drained-MayGrow (some d) = some-MayGrow enabled t _ (after_drain-Grows d)

  check_stream-MayGrow : (h : HeaderRead) → MayGrow enabled t (check_stream enabled v t h)
  unfolding check_stream
  check_stream-MayGrow io_error = some-MayGrow enabled t _ (fix-Grows enabled broken_header v t)
  check_stream-MayGrow undefined = none-MayGrow enabled t
  check_stream-MayGrow (header none n) = none-MayGrow enabled t
  check_stream-MayGrow (header (some c) n) =
      if-all (MayGrow enabled t) v.stream _ _
        (λ y.
          if-all (MayGrow enabled t) (ltb n (2 ^ 63)) _ _
            (λ z. drained-MayGrow (drain v.read n 0 n)) (λ z. none-MayGrow enabled t))
        (λ y. some-MayGrow enabled t _ (fix-Grows enabled fail_open_decomp v t))

  check_packed-MayGrow : (r : ReadResult) → MayGrow enabled t (check_packed enabled v t r)
  unfolding check_packed
  check_packed-MayGrow failed = some-MayGrow enabled t _ (fix-Grows enabled broken_header v t)
  check_packed-MayGrow (got bs) =
      if-all (MayGrow enabled t) (length bs == header_length) _ _
        (λ y. check_stream-MayGrow (file_read_header_fd none 0 (got bs)))
        (λ n. none-MayGrow enabled t)

  check_start-MayGrow : (r : ReadResult) → MayGrow enabled t (check_start enabled v t r)
  unfolding check_start
  check_start-MayGrow failed = some-MayGrow enabled t _ (fix-Grows enabled fail_read v t)
  check_start-MayGrow (got bs) =
      if-all (MayGrow enabled t) (is_magic bs) _ _ (λ y. check_packed-MayGrow v.whole)
        (λ n. some-MayGrow enabled t t (Grows-refl enabled t))

  warn-Grows : Grows enabled t (warn t)
  unfolding warn
  warn-Grows = record {
    more = omega arith;
    fixes = omega arith;
    removes = omega arith;
    forbidden = λ e. (refl, refl);
  }

  checkfile-MayGrow : MayGrow enabled t (checkfile enabled v t)
  unfolding checkfile
  checkfile-MayGrow =
      let same : MayGrow enabled t (some t) = some-MayGrow enabled t t (Grows-refl enabled t) in
      if-all (MayGrow enabled t) (not v.regular) _ _ (λ y. same)
        (λ n1.
          if-all (MayGrow enabled t) (not v.opened) _ _ (λ y. some-MayGrow enabled t _ warn-Grows)
            (λ n2.
              if-all (MayGrow enabled t)
                (starts_with v.base temp_prefix || starts_with v.base fuse_prefix) _ _
                (λ y. some-MayGrow enabled t _ (fix-Grows enabled stale_temp v t))
                (λ n3.
                  if-all (MayGrow enabled t) (starts_with v.base pcfs_prefix) _ _ (λ y. same)
                    (λ n4. check_start-MayGrow v.start))))

check_all-MayGrow :
    (enabled : Bool) (vs : List Visited) (t : Tally) → MayGrow enabled t (check_all enabled vs t)
unfolding check_all
check_all-MayGrow enabled [] t w e = some-MayGrow enabled t t (Grows-refl enabled t) w e
check_all-MayGrow enabled (v ∷ vs) t w e =
    let (u, f, g) = bind-some (checkfile enabled v t) (λ u. check_all enabled vs u) w e in
    Grows-next enabled t u w (checkfile-MayGrow enabled v t u f)
      (check_all-MayGrow enabled vs u w g)

-- The status for so many errors, so many of them fixed.
abbrev status : ℕ → ℕ → ℕ
status found fixed = if found == 0 then 0 else if ltb fixed found then 4 else 1

status-zero : (found fixed : ℕ) → (status found fixed ≡ 0) ↔ (found ≡ 0)
status-zero found fixed = ground arith

status-one :
    (found fixed : ℕ) → fixed ≤ found → (status found fixed ≡ 1) ↔ ((0 < found) × (fixed ≡ found))
status-one found fixed h = ground arith

status-four : (found fixed : ℕ) → fixed ≡ 0 → (status found fixed ≡ 4) ↔ (0 < found)
status-four found fixed h = ground arith

-- The exit status of fsck on any files is 0 exactly if no error was found, and 1 exactly if some were
-- found and each counts as fixed. Without permission to remove files none is removed, and the status is
-- 4 for all errors; with it no more files are removed than count as fixed, and no more count as fixed
-- than were found.
pub check_all-exit_status :
    (enabled : Bool) (vs : List Visited) (u : Tally)
    → check_all enabled vs no_faults ≡ some u
    → ((exit_status u ≡ 0) ↔ (u.errors_found ≡ 0))
      × ((exit_status u ≡ 1) ↔ ((0 < u.errors_found) × (u.errors_fixed ≡ u.errors_found)))
      × (enabled ≡ false → (u.removed ≡ []) × ((exit_status u ≡ 4) ↔ (0 < u.errors_found)))
      × (length u.removed ≤ u.errors_fixed)
      × (u.errors_fixed ≤ u.errors_found)
unfolding exit_status
check_all-exit_status enabled vs u e =
    let g = check_all-MayGrow enabled vs no_faults u e in
    let few : u.errors_fixed ≤ u.errors_found = omega (arith, g.fixes) in
    (
      status-zero u.errors_found u.errors_fixed,
      status-one u.errors_found u.errors_fixed few,
      λ h. ((g.forbidden h).1, status-four u.errors_found u.errors_fixed (g.forbidden h).0),
      omega (arith, g.removes),
      few,
    )
