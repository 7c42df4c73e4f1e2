-- ===== src/Decompress/Ends.antt =====
-- When a run of `do_decompress` has no outcome, and what it does with threads that wait.
use pcfs.Base.{
  elim-all, if-all, Bool-cases, ap, ℕ, ◌≡◌, ◌≢◌, ◌↔◌, refl, true, false, none, some, arith, map,
  is_some, ◌⊎◌, inl, inr, sym, ◌∙◌, if-cases, elim-cases, elim-some,
}
use pcfs.Types.{Compressor, File, module_null, module_gzip}
use pcfs.Header.{HeaderRead, io_error, undefined, header, file_read_header_fd}
use pcfs.OpenFile.{made, gave_up, out_of_fuel, file_create_temp, TempFile}
use pcfs.OpenFile.Temp.{file_create_temp-ends}
use pcfs.Database.{flush_file_cache}
use pcfs.Decompress.{
  Answers, with_temp, make_temp, replace_file, with_header, open_source, do_decompress, has_room,
  same_compressor,
}
use pcfs.Decompress.Streams.{shut, all_open, close_all-some, close_all-dies}
use pcfs.Decompress.Outcome.{flush-head}

with_temp-runs :
    (a : Answers) (f : File) (total source n : ℕ) (t : TempFile)
    → t ≢ out_of_fuel
    → with_temp a f total source n t ≢ none
unfolding with_temp
with_temp-runs a f total source n (made temp i) ends e = ground (arith, e)
with_temp-runs a f total source n (gave_up leaked) ends e = ground (arith, e)
with_temp-runs a f total source n out_of_fuel ends e = ends refl

replace_file-runs :
    (a : Answers) (f : File) (c : Compressor) (total source n : ℕ)
    → f.compressor ≡ some c
    → all_open f.head ≡ true
    → replace_file a f total source n ≢ none
unfolding replace_file make_temp
replace_file-runs a f c total source n has_c open_fds e =
    let (g, eq, _) = close_all-some a.closed f c f.head has_c open_fds in
    if-cases a.fstat _ _ none (rw eq at e)
      (λ _ h.
        with_temp-runs a (record g { head = map shut f.head }) total source n
          (file_create_temp a.memory a.mkstemp) (file_create_temp-ends a.memory a.mkstemp) h)
      (λ _ h. ground (arith, h))

replace_file-dies :
    (a : Answers) (f : File) (c : Compressor) (total source n : ℕ)
    → f.compressor ≡ some c
    → all_open f.head ≡ false
    → replace_file a f total source n ≡ none
unfolding replace_file
replace_file-dies a f c total source n has_c gone =
    rw (close_all-dies a.closed f c f.head has_c gone)

-- The header that the run finds.
abbrev pub found : Answers → HeaderRead
found a = file_read_header_fd none 0 a.header_bytes

-- What the process does not survive: a header with type 5, which lies outside the table of modules, one
-- with another module than the file's record names, or one with a module for a file one of whose
-- descriptors is not open, as a failing `do_decompress` leaves them.
abbrev pub Fatal : File → HeaderRead → Type 0
Fatal f h =
    (h ≡ undefined)
    ⊎ ((c0 : Compressor) × (c : Compressor) × (n : ℕ) × (h ≡ header (some c) n)
        × (f.compressor ≡ some c0)
        × (c0 ≢ c))
    ⊎ ((c : Compressor) × (n : ℕ) × (h ≡ header (some c) n) × (all_open f.head ≡ false))

with_header-dies :
    (a : Answers) (f : File) (total source : ℕ) (h : HeaderRead)
    → with_header a f total source h ≡ none
    → Fatal f h
unfolding with_header
with_header-dies a f total source io_error e = ground (arith, e)
with_header-dies a f total source undefined e = inl refl
with_header-dies a f total source (header none n) e = ground (arith, e)
with_header-dies a f total source (header (some c) n) e =
    elim-cases f.compressor _ none _ e
      (λ _ h. elim (Bool-cases (all_open f.head)) [
        | inl o ↦
            elim (replace_file-runs a (record f { compressor = some c }) c total source n refl o
              h) [ ]
        | inr gone ↦ inr (inr (c, n, refl, gone))
      ])
      (λ c0 has_c h.
        if-cases (same_compressor c0 c) _ _ none h
          (λ _ h1. elim (Bool-cases (all_open f.head)) [
            | inl o ↦ elim (replace_file-runs a f c0 total source n has_c o h1) [ ]
            | inr gone ↦ inr (inr (c, n, refl, gone))
          ])
          (λ other _. inr (inl (c0, c, n, refl, has_c, λ same. ground (arith, other, same)))))

other_compressor : (c d : Compressor) → c ≢ d → same_compressor c d ≡ false
other_compressor module_null module_null other = elim (other refl) [ ]
other_compressor module_null module_gzip other = refl
other_compressor module_gzip module_null other = refl
other_compressor module_gzip module_gzip other = elim (other refl) [ ]

with_header-Fatal :
    (a : Answers) (f : File) (total source : ℕ) (h : HeaderRead)
    → Fatal f h
    → with_header a f total source h ≡ none
unfolding with_header
with_header-Fatal a f total source h (inl e) = rw e
with_header-Fatal a f total source h (inr (inl (c0, c, n, e, has_c, other))) =
    rw (e, has_c, other_compressor c0 c other)
with_header-Fatal a f total source h (inr (inr (c, n, e, gone))) = rw e (
    elim-all (λ r. r ≡ none) f.compressor _ _
      (λ _. replace_file-dies a (record f { compressor = some c }) c total source n refl gone)
      (λ c0 has_c.
        if-all (λ r. r ≡ none) (same_compressor c0 c) _ _
          (λ _. replace_file-dies a f c0 total source n has_c gone) (λ _. refl)))

flush-compressor : (f : File) (total : ℕ) → (flush_file_cache f total).0.compressor ≡ f.compressor
unfolding flush_file_cache
flush-compressor f total = ground arith

flush-open : (f : File) (total : ℕ) → all_open (flush_file_cache f total).0.head ≡ all_open f.head
flush-open f total = ap all_open (flush-head f total)

flush-Fatal :
    (f : File) (total : ℕ) (h : HeaderRead) → Fatal (flush_file_cache f total).0 h ↔ Fatal f h
flush-Fatal f total h = (
  λ x. elim x [
    | inl e ↦ inl e
    | inr (inl (c0, c, n, e, has_c, other)) ↦
        inr (inl (c0, c, n, e, sym (flush-compressor f total) ∙ has_c, other))
    | inr (inr (c, n, e, gone)) ↦ inr (inr (c, n, e, sym (flush-open f total) ∙ gone))
  ],
  λ x. elim x [
    | inl e ↦ inl e
    | inr (inl (c0, c, n, e, has_c, other)) ↦
        inr (inl (c0, c, n, e, flush-compressor f total ∙ has_c, other))
    | inr (inr (c, n, e, gone)) ↦ inr (inr (c, n, e, flush-open f total ∙ gone))
  ],
)

open_source-dies :
    (a : Answers) (f : File) (total : ℕ)
    → open_source a f total ≡ none
    → (is_some a.source ≡ true) × Fatal f (found a)
unfolding open_source
open_source-dies a f total e =
    elim-cases a.source _ none _ e (λ _ h. ground (arith, h))
      (λ source has_source h. (rw has_source, with_header-dies a f total source (found a) h))

open_source-Fatal :
    (a : Answers) (f : File) (total : ℕ)
    → is_some a.source ≡ true
    → Fatal f (found a)
    → open_source a f total ≡ none
unfolding open_source
open_source-Fatal a f total has_source fatal =
    elim-some a.source _ none _ has_source
      (λ source. with_header-Fatal a f total source (found a) fatal)

-- `do_decompress` always comes to an end, and its process survives, but exactly for these cases: there
-- was room, the file could be opened, and its header asks for type 5, or for another module than the
-- one that the record of the file names, or for a module while a descriptor of the file is at -1.
pub do_decompress-dies_iff :
    (a : Answers) (f : File) (total : ℕ)
    → (do_decompress a f total ≡ none) ↔ (
        (has_room a.euid_root f.size a.statvfs ≡ true)
        × (is_some a.source ≡ true)
        × Fatal f (found a))
unfolding do_decompress
do_decompress-dies_iff a f total = (
  λ e.
      if-cases (has_room a.euid_root f.size a.statvfs) _ _ none e
        (λ room h.
          let (has_source, fatal) = open_source-dies a (flush_file_cache f total).0 _ h in
          (room, has_source, (flush-Fatal f total (found a)).0 fatal))
        (λ _ h. ground (arith, h)),
  λ (room, has_source, fatal). rw (
    room,
    open_source-Fatal a (flush_file_cache f total).0 (flush_file_cache f total).1 has_source
        ((flush-Fatal f total (found a)).1 fatal),
  ),
)
