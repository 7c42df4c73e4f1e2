-- ===== src/Compress/Ends.antt =====
-- When a run of `do_compress` has no outcome.
use pcfs.Base.{ℕ, ◌≡◌, ◌≢◌, refl, true, false, none, some, arith, ltb, leb, if-cases, elim-cases}
use pcfs.Types.{Compressor, File, as_unsigned}
use pcfs.Names.{choose_compressor}
use pcfs.Header.{HeaderRead, io_error, undefined, header, header_length, file_read_header_fd}
use pcfs.OpenFile.{made, gave_up, out_of_fuel, file_create_temp, TempFile}
use pcfs.OpenFile.Temp.{file_create_temp-ends}
use pcfs.Compress.{
  Answers, with_temp, compress_plain, as_size, with_header, check_source, do_compress,
}

with_temp-runs :
    (a : Answers) (f : File) (source : ℕ) (c : Compressor) (n : ℕ) (t : TempFile)
    → t ≢ out_of_fuel
    → with_temp a f source c n t ≢ none
unfolding with_temp
with_temp-runs a f source c n (made temp i) ends e = ground (arith, e)
with_temp-runs a f source c n (gave_up lost) ends e = ground (arith, e)
with_temp-runs a f source c n out_of_fuel ends e = ends refl

compress_plain-runs : (a : Answers) (f : File) (source n : ℕ) → compress_plain a f source n ≢ none
unfolding compress_plain
compress_plain-runs a f source n e =
    elim-cases (choose_compressor a.config f.name) _ none _ e (λ _ h. ground (arith, h))
      (λ c _ h.
        with_temp-runs a f source c n (file_create_temp a.memory a.mkstemp)
          (file_create_temp-ends a.memory a.mkstemp) h)

with_header-dies :
    (a : Answers) (f : File) (source n : ℕ) (h : HeaderRead)
    → with_header a f source n h ≡ none
    → h ≡ undefined
unfolding with_header
with_header-dies a f source n io_error e = elim (compress_plain-runs a f source n e) [ ]
with_header-dies a f source n undefined e = refl
with_header-dies a f source n (header none m) e =
    elim (compress_plain-runs a (record f { compressor = none; size = as_size m }) source n e) [ ]
with_header-dies a f source n (header (some c) m) e = ground (arith, e)

-- What the look at the header comes to.
abbrev pub looked : Answers → File → HeaderRead
looked a f = file_read_header_fd f.compressor (as_unsigned f.size) a.header_bytes

-- `do_compress` always comes to an end. It is undefined only on a file of at least 12 bytes and the
-- minimal size that has the magic bytes with type 5.
pub do_compress-dies :
    (a : Answers) (f : File)
    → do_compress a f ≡ none
    → (n : ℕ) × (a.fstat ≡ some n)
      × (ltb n a.config.min_filesize_background ≡ false)
      × (leb header_length n ≡ true)
      × (looked a f ≡ undefined)
unfolding do_compress check_source
do_compress-dies a f e =
    elim-cases a.source _ none _ e (λ _ h. ground (arith, h))
      (λ source _ h.
        elim-cases a.fstat _ none _ h (λ _ h1. ground (arith, h1))
          (λ n size h1.
            if-cases (ltb n a.config.min_filesize_background) _ _ none h1
              (λ _ h2. ground (arith, h2))
              (λ large h2.
                if-cases (leb header_length n) _ _ none h2
                  (λ long h3. (n, size, large, long, with_header-dies a f source n (looked a f) h3))
                  (λ _ h3. elim (compress_plain-runs a f source n h3) [ ]))))
