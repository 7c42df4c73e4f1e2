-- ===== src/Compress/Outcome.antt =====
-- What a run of `do_compress` leaves, on every path.
use pcfs.Base.{
  ℕ, ◌≡◌, refl, ap, true, false, not, ◌&&◌, [], Option, none, some, arith, ltb, leb, ◌⊎◌, inl, inr,
  sym, ◌∙◌, subst, if-cases, elim-cases,
}
use mathlib.Core.Option.{some-injective}
use pcfs.Types.{Compressor, File, as_unsigned}
use pcfs.Names.{choose_compressor}
use pcfs.Header.{HeaderRead, io_error, undefined, header, header_length, file_read_header_fd}
use pcfs.OpenFile.{made, gave_up, out_of_fuel, file_create_temp, TempFile}
use pcfs.Rename.{direct_delete}
use pcfs.Decompress.{is_size}
use pcfs.Compress.{
  Answers, Run, as_size, leave, give_up, replace, compression_done, compress_into, with_temp,
  compress_plain, with_header, check_source, do_compress,
}

-- The file with a compressor and a size from its header.
abbrev pub labelled : File → Option Compressor → Option ℕ → File
labelled f c o = record f { compressor = c; size = o }

-- The file when the lock is free.
abbrev pub started : File → File
started f = record f { status = record f.status { compressing = true } }

-- The file when the lock is held again, and a request to cancel has been answered.
abbrev pub stopped : File → File
stopped f = record f { status = record f.status { compressing = false; cancel = false } }

-- A compressor and a size that the record can get: none and its own, or what the header says.
abbrev pub Known : Answers → File → Option Compressor → Option ℕ → Type 0
Known a f c o =
    ((c ≡ none) × (o ≡ f.size))
    ⊎ ((m : ℕ) × (file_read_header_fd none (as_unsigned f.size) a.header_bytes ≡ header c m)
        × (o ≡ as_size m))

-- The module compressed all of the file, nobody asked it to stop, and the file that the name then
-- holds is the compressed one.
abbrev pub Replaced : Answers → File → Run → Type 0
Replaced a f r =
    (c : Compressor) × (n : ℕ) × (o : Option ℕ) × (choose_compressor a.config f.name ≡ some c)
    × (a.fstat ≡ some n)
    × (a.compressed ≡ some n)
    × (ltb n a.config.min_filesize_background ≡ false)
    × ((a.meanwhile (started (labelled f none o))).status.cancel ≡ false)
    × Known a f none o
    × (r.file ≡ labelled (stopped (a.meanwhile (started (labelled f none o)))) (some c) (some n))
    × (r.replaced ≡ some r.file.name)
    × (r.open_fds ≡ [])
    × (r.temp_left ≡ false)
    × (r.woken ≡ false)

-- The module did not run.
abbrev pub NotRun : Answers → File → Run → Type 0
NotRun a f r =
    (r.replaced ≡ none)
    × (r.woken ≡ false)
    × (((r.file ≡ direct_delete f) × ((a.source ≡ none) ⊎ (a.fstat ≡ none)))
        ⊎ ((c : Option Compressor) × (o : Option ℕ) × (r.file ≡ labelled f c o)
            × Known a f c o
            × ((source : ℕ) × (a.source ≡ some source))
            × ((n : ℕ) × (a.fstat ≡ some n))))

-- The module ran in vain: who waits for the file is woken exactly if the run was cancelled.
abbrev pub InVain : Answers → File → Run → Type 0
InVain a f r =
    (o : Option ℕ) × (r.replaced ≡ none)
    × Known a f none o
    × (r.woken ≡ (a.meanwhile (started (labelled f none o))).status.cancel)
    × (r.file ≡ stopped (a.meanwhile (started (labelled f none o))))

abbrev pub Ended : Answers → File → Run → Type 0
Ended a f r = Replaced a f r ⊎ (NotRun a f r ⊎ InVain a f r)

give_up-file : (a : Answers) (f : File) (source temp : ℕ) → (give_up a f source temp).file ≡ f
unfolding give_up
give_up-file a f source temp = ground arith

give_up-replaced :
    (a : Answers) (f : File) (source temp : ℕ) → (give_up a f source temp).replaced ≡ none
unfolding give_up
give_up-replaced a f source temp = ground arith

give_up-woken : (a : Answers) (f : File) (source temp : ℕ) → (give_up a f source temp).woken ≡ false
unfolding give_up
give_up-woken a f source temp = ground arith

-- The end of a run whose module succeeded: `g` is the file without the mark of the compression.
replace-cases :
    (a : Answers) (g : File) (source : ℕ) (c : Compressor) (n : ℕ)
    → ((replace a g source c n).file ≡ g)
        × ((replace a g source c n).replaced ≡ none)
        × ((replace a g source c n).woken ≡ false)
      ⊎ ((replace a g source c n
          ≡ record (leave (labelled g (some c) (some n))) { replaced = some g.name }))
unfolding replace
replace-cases a g source c n = ground arith

is_size-some : (n : ℕ) (o : Option ℕ) → is_size n o ≡ true → o ≡ some n
is_size-some n none e = ground arith
is_size-some n (some m) e = ground arith

-- The file when the lock is held again, before a request to cancel is looked at.
abbrev unmarked : File → File
unmarked f = record f { status = record f.status { compressing = false } }

not_cancelled : (f : File) → f.status.cancel ≡ false → unmarked f ≡ stopped f
not_cancelled f e = ground (arith, e)

-- What is known once the file is open and the record has the size `o`.
abbrev Open : Answers → File → Option ℕ → ℕ → Type 0
Open a f o n = Known a f none o × ((source : ℕ) × (a.source ≡ some source)) × (a.fstat ≡ some n)

-- What the caller of the module knows.
abbrev Chosen : Answers → File → Option ℕ → Compressor → ℕ → Type 0
Chosen a f o c n =
    (choose_compressor a.config f.name ≡ some c)
    × Open a f o n
    × (ltb n a.config.min_filesize_background ≡ false)

replace-Ended :
    (a : Answers) (f : File) (o : Option ℕ) (source : ℕ) (c : Compressor) (n : ℕ)
    → Chosen a f o c n
    → a.compressed ≡ some n
    → (a.meanwhile (started (labelled f none o))).status.cancel ≡ false
    → Ended a f (replace a (unmarked (a.meanwhile (started (labelled f none o)))) source c n)
replace-Ended a f o source c n (chosen, (known, _, size), large) done calm =
    let g = a.meanwhile (started (labelled f none o)) in
    let same = not_cancelled g calm in
    elim (replace-cases a (unmarked g) source c n) [
      | inl (file, replaced, woken) ↦ inr (inr (o, replaced, known, woken ∙ sym calm, file ∙ same))
      | inr e ↦ subst (Ended a f) (sym e) (
          inl (
            c,
            n,
            o,
            chosen,
            size,
            done,
            large,
            calm,
            known,
            ap (λ h. labelled h (some c) (some n)) same,
            refl,
            refl,
            refl,
            refl,
          ))
    ]

compression_done-Ended :
    (a : Answers) (f : File) (o : Option ℕ) (source temp : ℕ) (c : Compressor) (n : ℕ)
    → Chosen a f o c n
    → Ended a f (compression_done a (a.meanwhile (started (labelled f none o))) source temp c n)
unfolding compression_done
compression_done-Ended a f o source temp c n chosen =
    let g = a.meanwhile (started (labelled f none o)) in
    if-cases (is_size n a.compressed && not g.status.cancel) _ _ _ refl
      (λ e h. subst (Ended a f) h (
        replace-Ended a f o source c n chosen (is_size-some n a.compressed (ground (arith, e)))
          (ground (arith, e))))
      (λ _ h. subst (Ended a f) h (
        inr (
          inr (
            o,
            give_up-replaced a (stopped g) source temp,
            chosen.1.0,
            refl,
            give_up-file a (stopped g) source temp,
          ))))

compress_into-Ended :
    (a : Answers) (f : File) (o : Option ℕ) (source temp : ℕ) (c : Compressor) (n : ℕ)
    → Chosen a f o c n
    → Ended a f (compress_into a (labelled f none o) source temp c n)
unfolding compress_into
compress_into-Ended a f o source temp c n chosen =
    let g = labelled f none o in
    if-cases a.header_written _ _ _ refl
      (λ _ h. subst (Ended a f) h (compression_done-Ended a f o source temp c n chosen))
      (λ _ h. subst (Ended a f) h (
        inr (
          inl (
            give_up-replaced a g source temp,
            give_up-woken a g source temp,
            inr (none, o, give_up-file a g source temp, chosen.1.0, chosen.1.1, (n, chosen.1.2)),
          ))))

same_run : (a : Answers) (f : File) (q r : Run) → some q ≡ some r → Ended a f q → Ended a f r
same_run a f q r e ended = subst (Ended a f) (some-injective q r e) ended

left-Ended :
    (a : Answers) (f : File) (c : Option Compressor) (o : Option ℕ) (n : ℕ)
    → Known a f c o
    → ((source : ℕ) × (a.source ≡ some source))
    → a.fstat ≡ some n
    → Ended a f (leave (labelled f c o))
left-Ended a f c o n known opened size =
    inr (inl (refl, refl, inr (c, o, refl, known, opened, (n, size))))

with_temp-Ended :
    (t : TempFile) (a : Answers) (f : File) (o : Option ℕ) (source : ℕ) (c : Compressor) (n : ℕ)
    (r : Run)
    → Chosen a f o c n
    → with_temp a (labelled f none o) source c n t ≡ some r
    → Ended a f r
unfolding with_temp
with_temp-Ended (made temp i) a f o source c n r chosen e =
    same_run a f _ r e (compress_into-Ended a f o source temp c n chosen)
with_temp-Ended (gave_up lost) a f o source c n r chosen e =
    same_run a f _ r e
      (inr (inl (refl, refl, inr (none, o, refl, chosen.1.0, chosen.1.1, (n, chosen.1.2)))))
with_temp-Ended out_of_fuel a f o source c n r chosen e = ground (arith, e)

compress_plain-Ended :
    (a : Answers) (f : File) (o : Option ℕ) (source n : ℕ) (r : Run)
    → Open a f o n
    → ltb n a.config.min_filesize_background ≡ false
    → compress_plain a (labelled f none o) source n ≡ some r
    → Ended a f r
unfolding compress_plain
compress_plain-Ended a f o source n r size large e =
    elim-cases (choose_compressor a.config f.name) _ (some r) _ e
      (λ _ h. same_run a f _ r h (left-Ended a f none o n size.0 size.1 size.2))
      (λ c chosen h.
        with_temp-Ended (file_create_temp a.memory a.mkstemp) a f o source c n r
          (chosen, size, large) h)

with_header-Ended :
    (h : HeaderRead) (a : Answers) (f : File) (o : Option ℕ) (source n : ℕ) (r : Run)
    → file_read_header_fd none (as_unsigned f.size) a.header_bytes ≡ h
    → Open a f o n
    → ltb n a.config.min_filesize_background ≡ false
    → with_header a (labelled f none o) source n h ≡ some r
    → Ended a f r
unfolding with_header
with_header-Ended io_error a f o source n r read size large e =
    compress_plain-Ended a f o source n r size large e
with_header-Ended undefined a f o source n r read size large e = ground (arith, e)
with_header-Ended (header none m) a f o source n r read (_, opened, size) large e =
    compress_plain-Ended a f (as_size m) source n r (inr (m, read, refl), opened, size) large e
with_header-Ended (header (some c) m) a f o source n r read (_, opened, size) large e =
    same_run a f _ r e (left-Ended a f (some c) (as_size m) n (inr (m, read, refl)) opened size)

check_source-Ended :
    (a : Answers) (f : File) (source n : ℕ) (r : Run)
    → Open a f f.size n
    → check_source a (labelled f none f.size) source n ≡ some r
    → Ended a f r
unfolding check_source
check_source-Ended a f source n r size e =
    let o = f.size in
    if-cases (ltb n a.config.min_filesize_background) _ _ (some r) e
      (λ _ h. same_run a f _ r h (left-Ended a f none o n size.0 size.1 size.2))
      (λ large h.
        if-cases (leb header_length n) _ _ (some r) h
          (λ _ h1.
            with_header-Ended (file_read_header_fd none (as_unsigned o) a.header_bytes) a f o source
              n r refl size large h1)
          (λ _ h1. compress_plain-Ended a f o source n r size large h1))

unlabelled : (f : File) → f.compressor ≡ none → f ≡ labelled f none f.size
unlabelled f e = ground (arith, e)

-- However `do_compress` ends on a file without compressor, it is one of three cases. The file was
-- compressed: the module is the one that the rules choose for the name, it consumed as many bytes as
-- the file had (at least the minimum), no cancel came while it ran, the contents of the name that the
-- file has at the end were replaced, the record says so, and nothing of the run stays behind. Or the
-- module did not run, and no name was replaced: the file could not be opened or `fstat` failed, and the
-- record is marked deleted; or both succeeded, and the record is as it was or has the compressor and
-- the size that the header says. Or the module ran in vain: no name was replaced, the marks of
-- the run and of the cancel are gone, and who waits was woken exactly if there was a cancel.
pub do_compress-Ended :
    (a : Answers) (f : File) (r : Run)
    → f.compressor ≡ none
    → do_compress a f ≡ some r
    → Ended a f r
unfolding do_compress
do_compress-Ended a f r plain e =
    elim-cases a.source _ (some r) _ e
      (λ gone h. same_run a f _ r h (inr (inl (refl, refl, inl (refl, inl gone)))))
      (λ source opened h.
        elim-cases a.fstat _ (some r) _ h
          (λ gone h1. same_run a f _ r h1 (inr (inl (refl, refl, inl (refl, inr gone)))))
          (λ n size h1.
            check_source-Ended a f source n r (inl (refl, refl), (source, opened), size)
              (subst (λ g. check_source a g source n ≡ some r) (unlabelled f plain) h1)))
