-- ===== src/Compress/Clean.antt =====
-- What `do_compress` leaves open.
use pcfs.Base.{
  ℕ, ◌≡◌, refl, true, false, not, ◌&&◌, [], ◌∷◌, Option, none, some, arith, ltb, leb, is_some, ◌⊎◌,
  inl, inr, subst, if-cases, elim-cases,
}
use mathlib.Core.Option.{some-injective}
use pcfs.Types.{Compressor, File, as_unsigned}
use pcfs.Names.{choose_compressor}
use pcfs.Header.{HeaderRead, io_error, undefined, header, header_length, file_read_header_fd}
use pcfs.OpenFile.{made, gave_up, out_of_fuel, file_create_temp, TempFile}
use pcfs.Decompress.{listed, is_size}
use pcfs.Compress.{
  Answers, Run, give_up, replace, compression_done, compress_into, with_temp, compress_plain,
  as_size, with_header, check_source, do_compress,
}

-- Nothing of the run stays behind.
abbrev pub Clean : Run → Type 0
Clean r = (r.open_fds ≡ []) × (r.temp_left ≡ false)

-- Closing and unlinking succeed.
abbrev pub Tidy : Answers → Type 0
Tidy a = (a.temp_closed ≡ true) × (a.source_closed ≡ true) × (a.unlinked ≡ true)

give_up-Clean :
    (a : Answers) (f : File) (source temp : ℕ) → Tidy a → Clean (give_up a f source temp)
unfolding give_up
give_up-Clean a f source temp t = ground arith

replace-Clean :
    (a : Answers) (f : File) (source : ℕ) (c : Compressor) (n : ℕ)
    → Tidy a
    → Clean (replace a f source c n)
unfolding replace
replace-Clean a f source c n t = ground arith

compression_done-Clean :
    (a : Answers) (f : File) (source temp : ℕ) (c : Compressor) (n : ℕ)
    → Tidy a
    → Clean (compression_done a f source temp c n)
unfolding compression_done
compression_done-Clean a f source temp c n t =
    let g = record f { status = record f.status { compressing = false } } in
    if-cases (is_size n a.compressed && not g.status.cancel) _ _ _ refl
      (λ _ h. subst Clean h (replace-Clean a g source c n t))
      (λ _ h.
        subst Clean h (
          give_up-Clean a (record g { status = record g.status { cancel = false } }) source temp t))

compress_into-Clean :
    (a : Answers) (f : File) (source temp : ℕ) (c : Compressor) (n : ℕ)
    → Tidy a
    → Clean (compress_into a f source temp c n)
unfolding compress_into
compress_into-Clean a f source temp c n t =
    if-cases a.header_written _ _ _ refl
      (λ _ h. subst Clean h (
        compression_done-Clean a
          (a.meanwhile (record f { status = record f.status { compressing = true } })) source temp c
          n t))
      (λ _ h. subst Clean h (give_up-Clean a f source temp t))

-- The temporary file could not be made.
abbrev pub NoTemp : Answers → Option ℕ → Type 0
NoTemp a lost = file_create_temp a.memory a.mkstemp ≡ gave_up lost

-- The one leak that a tidy run can have.
abbrev pub Leaks : Answers → Run → Type 0
Leaks a r =
    (source : ℕ) × (lost : Option ℕ) × (a.source ≡ some source)
    × NoTemp a lost
    × (r.open_fds ≡ source ∷ listed lost)
    × (r.temp_left ≡ is_some lost)

abbrev Kept : Answers → Run → Type 0
Kept a r = Clean r ⊎ Leaks a r

same_run : (a : Answers) (q r : Run) → some q ≡ some r → Kept a q → Kept a r
same_run a q r e kept = subst (Kept a) (some-injective q r e) kept

with_temp-Clean :
    (t : TempFile) (a : Answers) (f : File) (source : ℕ) (c : Compressor) (n : ℕ) (r : Run)
    → Tidy a
    → a.source ≡ some source
    → file_create_temp a.memory a.mkstemp ≡ t
    → with_temp a f source c n t ≡ some r
    → Kept a r
unfolding with_temp
with_temp-Clean (made temp i) a f source c n r tidy has_source made_it e =
    same_run a _ r e (inl (compress_into-Clean a f source temp c n tidy))
with_temp-Clean (gave_up lost) a f source c n r tidy has_source made_it e =
    same_run a _ r e (inr (source, lost, has_source, made_it, refl, refl))
with_temp-Clean out_of_fuel a f source c n r tidy has_source made_it e = ground (arith, e)

compress_plain-Clean :
    (a : Answers) (f : File) (source n : ℕ) (r : Run)
    → Tidy a
    → a.source ≡ some source
    → compress_plain a f source n ≡ some r
    → Kept a r
unfolding compress_plain
compress_plain-Clean a f source n r tidy has_source e =
    elim-cases (choose_compressor a.config f.name) _ (some r) _ e
      (λ _ h. same_run a _ r h (inl (refl, refl)))
      (λ c _ h.
        with_temp-Clean (file_create_temp a.memory a.mkstemp) a f source c n r tidy has_source refl
          h)

with_header-Clean :
    (h : HeaderRead) (a : Answers) (f : File) (source n : ℕ) (r : Run)
    → Tidy a
    → a.source ≡ some source
    → with_header a f source n h ≡ some r
    → Kept a r
unfolding with_header
with_header-Clean io_error a f source n r tidy has_source e =
    compress_plain-Clean a f source n r tidy has_source e
with_header-Clean undefined a f source n r tidy has_source e = ground (arith, e)
with_header-Clean (header none m) a f source n r tidy has_source e =
    compress_plain-Clean a (record f { compressor = none; size = as_size m }) source n r tidy
      has_source e
with_header-Clean (header (some c) m) a f source n r tidy has_source e =
    same_run a _ r e (inl (refl, refl))

-- If closing and unlinking succeed, `do_compress` leaves nothing open and no temporary file, but for
-- one case: when the temporary file could not be made, the file stays open (and so does a temporary
-- file of the last attempt).
pub do_compress-Clean :
    (a : Answers) (f : File) (r : Run) → Tidy a → do_compress a f ≡ some r → Clean r ⊎ Leaks a r
unfolding do_compress check_source
do_compress-Clean a f r tidy e =
    elim-cases a.source _ (some r) _ e (λ _ h. same_run a _ r h (inl (refl, refl)))
      (λ source has_source h.
        elim-cases a.fstat _ (some r) _ h (λ _ h1. same_run a _ r h1 (inl (refl, refl)))
          (λ n _ h1.
            if-cases (ltb n a.config.min_filesize_background) _ _ (some r) h1
              (λ _ h2. same_run a _ r h2 (inl (refl, refl)))
              (λ _ h2.
                if-cases (leb header_length n) _ _ (some r) h2
                  (λ _ h3.
                    with_header-Clean
                      (file_read_header_fd f.compressor (as_unsigned f.size) a.header_bytes) a f
                      source n r tidy has_source h3)
                  (λ _ h3. compress_plain-Clean a f source n r tidy has_source h3))))
