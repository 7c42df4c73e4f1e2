-- ===== src/Decompress/Kept.antt =====
-- What `do_decompress` keeps of the file's record: its users' count and its name.
use pcfs.Base.{
  Bool-cases, inl, inr, none_ne_some, ℕ, ◌≡◌, refl, false, none, some, arith, map, ◌∙◌, subst,
  if-cases, elim-cases,
}
use mathlib.Core.Option.{some-injective}
use pcfs.Types.{Compressor, File}
use pcfs.Header.{HeaderRead, io_error, undefined, header, file_read_header_fd}
use pcfs.OpenFile.{made, gave_up, out_of_fuel, file_create_temp, TempFile}
use pcfs.Database.{flush_file_cache}
use pcfs.Decompress.{
  Answers, Run, install, decompress_into, with_temp, make_temp, replace_file, with_header,
  open_source, do_decompress, settle, is_size, has_room, same_compressor,
}
use pcfs.Decompress.Streams.{shut, Settled, all_open, close_all-some, close_all-dies}

-- Two records with the same count and the same name.
abbrev pub SameFile : File → File → Type 0
SameFile f g = (g.accesses ≡ f.accesses) × (g.name ≡ f.name) × (g.hash ≡ f.hash)

install-Same :
    (a : Answers) (f : File) (total source temp n : ℕ)
    → SameFile f (install a f total source temp n).file
unfolding install
install-Same a f total source temp n = ground arith

decompress_into-Same :
    (a : Answers) (f : File) (total source temp n : ℕ)
    → SameFile f (decompress_into a f total source temp n).file
unfolding decompress_into
decompress_into-Same a f total source temp n =
    let g = record f { status = record f.status { decompressing = false; cancel = false } } in
    if-cases (is_size n a.decompressed) _ _ _ refl
      (λ _ h. subst (λ (r : Run). SameFile f r.file) h (install-Same a g total source temp n))
      (λ _ h. subst (λ (r : Run). SameFile f r.file) h (refl, refl, refl))

same_run : (f : File) (q r : Run) → some q ≡ some r → SameFile f q.file → SameFile f r.file
same_run f q r e same = subst (λ (x : Run). SameFile f x.file) (some-injective q r e) same

with_temp-Same :
    (t : TempFile) (a : Answers) (f : File) (total source n : ℕ) (r : Run)
    → with_temp a f total source n t ≡ some r
    → SameFile f r.file
unfolding with_temp
with_temp-Same (made temp i) a f total source n r e =
    same_run f _ r e (decompress_into-Same a f total source temp n)
with_temp-Same (gave_up lost) a f total source n r e = same_run f _ r e (refl, refl, refl)
with_temp-Same out_of_fuel a f total source n r e = ground (arith, e)

make_temp-Same :
    (a : Answers) (f : File) (total source n : ℕ) (r : Run)
    → make_temp a f total source n ≡ some r
    → SameFile f r.file
unfolding make_temp
make_temp-Same a f total source n r e =
    if-cases a.fstat _ _ (some r) e
      (λ _ h. with_temp-Same (file_create_temp a.memory a.mkstemp) a f total source n r h)
      (λ _ h. same_run f _ r h (refl, refl, refl))

Settled-Same : (f g : File) → Settled f g → SameFile f g
unfolding settle
Settled-Same f g s = ground arith

pub trans_Same : (f g h : File) → SameFile f g → SameFile g h → SameFile f h
trans_Same f g h (a, b, c) (a1, b1, c1) = (a1 ∙ a, b1 ∙ b, c1 ∙ c)

replace_file-Same :
    (a : Answers) (f : File) (c : Compressor) (total source n : ℕ) (r : Run)
    → f.compressor ≡ some c
    → replace_file a f total source n ≡ some r
    → SameFile f r.file
unfolding replace_file
replace_file-Same a f c total source n r has_c run = elim (Bool-cases (all_open f.head)) [
  | inl o ↦
      let (g, eq, settled) = close_all-some a.closed f c f.head has_c o in
      let h = record g { head = map shut f.head } in
      trans_Same f g r.file (Settled-Same f g settled)
        (make_temp-Same a h total source n r (rw eq at run))
  | inr o ↦
      let eq = close_all-dies a.closed f c f.head has_c o in
      elim (none_ne_some r (rw eq at run)) [ ]
]

with_header-Same :
    (h : HeaderRead) (a : Answers) (f : File) (total source : ℕ) (r : Run)
    → with_header a f total source h ≡ some r
    → SameFile f r.file
unfolding with_header
with_header-Same io_error a f total source r e = same_run f _ r e (refl, refl, refl)
with_header-Same undefined a f total source r e = ground (arith, e)
with_header-Same (header none n) a f total source r e = same_run f _ r e (refl, refl, refl)
with_header-Same (header (some c) n) a f total source r e =
    elim-cases f.compressor _ (some r) _ e
      (λ _ h. replace_file-Same a (record f { compressor = some c }) c total source n r refl h)
      (λ c0 has_c h.
        if-cases (same_compressor c0 c) _ _ (some r) h
          (λ _ h1. replace_file-Same a f c0 total source n r has_c h1) (λ _ h1. ground (arith, h1)))

flush-Same : (f : File) (total : ℕ) → SameFile f (flush_file_cache f total).0
unfolding flush_file_cache
flush-Same f total = ground arith

-- However `do_decompress` ends, the count of the users and the name of the file are the same.
pub do_decompress-Same :
    (a : Answers) (f : File) (total : ℕ) (r : Run)
    → do_decompress a f total ≡ some r
    → SameFile f r.file
unfolding do_decompress open_source
do_decompress-Same a f total r e =
    if-cases (has_room a.euid_root f.size a.statvfs) _ _ (some r) e
      (λ _ h.
        let g = (flush_file_cache f total).0 in
        trans_Same f g r.file (flush-Same f total) (
          elim-cases a.source _ (some r) _ h (λ _ h1. same_run g _ r h1 (refl, refl, refl))
            (λ source _ h1.
              with_header-Same (file_read_header_fd none 0 a.header_bytes) a g _ source r h1)))
      (λ _ h. same_run f _ r h (refl, refl, refl))
