-- ===== src/Fsck/Finds.antt =====
-- What fsck finds in a compressed file.
use pcfs.Base.{
  ℕ, zero, suc, ◌+◌, ◌-◌, ◌^◌, ◌≤◌, ◌<◌, ◌≡◌, refl, sym, ap, ◌∙◌, Bool, true, false, not, ◌||◌,
  List, [], ◌∷◌, Option, none, some, arith, ltb, ◌==◌, if◌then◌else◌, ◌>>=◌, if-true, if-false,
  elim-at_some, length, take, drop, zero_plus, length-take, length-drop, min, starts_with,
  suc_le_zero,
}
use pcfs.Types.{Compressor}
use pcfs.Names.{temp_prefix, fuse_prefix, pcfs_prefix}
use pcfs.Header.{got, header, header_length, header_of}
use pcfs.Header.Roundtrip.{read-header_of}
use pcfs.Stream.{Reader}
use pcfs.Stream.Turn.{Reads}
use pcfs.Fsck.{
  short_read_decomp, Tally, Visited, fix, Drained, all_read, too_short, buffer_size, drain,
  after_drain, check_stream, check_packed, check_start, is_magic, checkfile,
}

-- Whether the content has the bytes up to `n`.
abbrev verdict : List ℕ → ℕ → Drained
verdict c n = if ltb (length c) n then too_short else all_read

within : (c : List ℕ) (n : ℕ) → n ≤ length c → verdict c n ≡ all_read
within c n h = if-false _ _ (not_less (length c) n h)
  where
    not_less : (m n : ℕ) → n ≤ m → ltb m n ≡ false
    not_less m n h = ground (arith, h)

beyond : (c : List ℕ) (n : ℕ) → length c < n → verdict c n ≡ too_short
beyond c n h = if-true _ _ (less (length c) n h)
  where
    less : (m n : ℕ) → m < n → ltb m n ≡ true
    less m n h = ground (arith, h)

-- What the loop does with what was read, given what it does with the rest.
one_read :
    (c : List ℕ) (read : Reader) (fuel p size : ℕ) (bs : List ℕ)
    → p ≤ length c
    → length bs ≡ min (min (suc size) buffer_size) (length c - p)
    → ((k : ℕ)
        → 0 < k
        → k ≤ suc size
        → p + k ≤ length c
        → drain read fuel (p + k) (suc size - k) ≡ some (verdict c (p + k + (suc size - k))))
    → (elim bs [
      | [] ↦ some too_short
      | x ∷ xs ↦ drain read fuel (p + suc (length xs)) (suc size - suc (length xs))
    ])
      ≡ some (verdict c (p + suc size))
one_read c read fuel p size [] l e rest =
    ap some (sym (beyond c (p + suc size) (omega (arith, l, e))))
one_read c read fuel p size (x ∷ xs) l e rest =
    rest (suc (length xs)) (omega arith) (omega (arith, e)) (omega (arith, e, l))
    ∙ ap (λ n. some (verdict c n)) (omega (arith, e))

module _ (c : List ℕ) (read : Reader) (reads : Reads c read) where
  -- With as much fuel as bytes are to be read, the loop ends, and finds whether they are there.
  drain-verdict :
      (fuel p size : ℕ)
      → size ≤ fuel
      → p ≤ length c
      → drain read fuel p size ≡ some (verdict c (p + size))
  unfolding drain
  drain-verdict fuel p zero h l = ap some (sym (within c (p + 0) (omega (arith, l))))
  drain-verdict zero p (suc size) h l = elim (suc_le_zero size h) [ ]
  drain-verdict (suc fuel) p (suc size) h l =
      let n : ℕ = min (suc size) buffer_size in
      elim-at_some _ _ (take n (drop p c)) (reads p n)
      ∙ one_read c read fuel p size (take n (drop p c)) l
          (omega (arith, length-take n (drop p c), length-drop p c))
          (λ k a b d.
            drain-verdict fuel (p + k) (suc size - k) (omega (arith, h, a)) (omega (arith, d)))

after_drain-verdict :
    (enabled : Bool) (v : Visited) (t : Tally) (b : Bool)
    → v.closed ≡ true
    → after_drain enabled v t (if b then too_short else all_read)
      ≡ (if b then fix enabled short_read_decomp v t else t)
unfolding after_drain
after_drain-verdict enabled v t true h = refl
after_drain-verdict enabled v t false h = if-true _ _ h

-- What the check makes of the end of the loop.
abbrev conclude : Bool → Visited → Tally → Drained → Option Tally
conclude enabled v t d = some (after_drain enabled v t d)

less : (m n : ℕ) → m < n → ltb m n ≡ true
less m n h = ground (arith, h)

whole_header : (m : Compressor) (n : ℕ) → (length (header_of m n) == header_length) ≡ true
unfolding header_of
whole_header m n = refl

check_stream-finds :
    (enabled : Bool) (v : Visited) (t : Tally) (c : List ℕ) (m : Compressor) (n : ℕ)
    → v.stream ≡ true
    → v.closed ≡ true
    → n < 2 ^ 63
    → Reads c v.read
    → check_stream enabled v t (header (some m) n)
      ≡ some (if ltb (length c) n then fix enabled short_read_decomp v t else t)
unfolding check_stream
check_stream-finds enabled v t c m n stream closed small reads =
    if-true _ _ stream
    ∙ if-true _ _ (less n (2 ^ 63) small)
    ∙ ap (λ o. o >>= conclude enabled v t)
        (drain-verdict c v.read reads n 0 n (omega arith) (omega arith)
          ∙ ap (λ k. some (verdict c k)) (zero_plus n))
    ∙ ap some (after_drain-verdict enabled v t (ltb (length c) n) closed)

check_packed-finds :
    (enabled : Bool) (v : Visited) (t : Tally) (c : List ℕ) (m : Compressor) (n : ℕ)
    → v.stream ≡ true
    → v.closed ≡ true
    → v.whole ≡ got (header_of m n)
    → n < 2 ^ 63
    → Reads c v.read
    → check_packed enabled v t v.whole
      ≡ some (if ltb (length c) n then fix enabled short_read_decomp v t else t)
unfolding check_packed
check_packed-finds enabled v t c m n stream closed whole small reads =
    ap (check_packed enabled v t) whole
    ∙ if-true _ _ (whole_header m n)
    ∙ ap (λ h. check_stream enabled v t h) (read-header_of m n none 0 (omega (arith, small)))
    ∙ check_stream-finds enabled v t c m n stream closed small reads

-- On a regular file that opens and is none of the filesystem's own, that begins with the magic bytes and
-- has a whole header with a known module and a size below 2 ^ 63, and whose stream opens, reads the
-- content `c` and closes, fsck counts a short read exactly if the content has fewer bytes than the
-- header says, and otherwise changes nothing.
pub checkfile-finds :
    (enabled : Bool) (v : Visited) (t : Tally) (start c : List ℕ) (m : Compressor) (n : ℕ)
    → (v.regular ≡ true) × (v.opened ≡ true) × (v.stream ≡ true) × (v.closed ≡ true)
    → (starts_with v.base temp_prefix || starts_with v.base fuse_prefix ≡ false)
      × (starts_with v.base pcfs_prefix ≡ false)
    → (v.start ≡ got start) × (is_magic start ≡ true)
    → v.whole ≡ got (header_of m n)
    → n < 2 ^ 63
    → Reads c v.read
    → checkfile enabled v t
      ≡ some (if ltb (length c) n then fix enabled short_read_decomp v t else t)
unfolding checkfile check_start check_packed check_stream
checkfile-finds enabled v t start c m n (regular, opened, stream, closed) (not_temp, not_own)
      (s, magic) whole small reads =
    if-false _ _ (ap not regular)
    ∙ if-false _ _ (ap not opened)
    ∙ if-false _ _ not_temp
    ∙ if-false _ _ not_own
    ∙ ap (check_start enabled v t) s
    ∙ if-true _ _ magic
    ∙ check_packed-finds enabled v t c m n stream closed whole small reads
