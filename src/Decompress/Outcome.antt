-- ===== src/Decompress/Outcome.antt =====
-- What a run of `do_decompress` leaves, on every path.
use pcfs.Base.{
  ℕ, ◌≡◌, refl, Bool, true, false, List, [], ◌∷◌, Option, none, some, arith, if◌then◌else◌, map,
  is_some, Bool-cases, none_ne_some, ◌⊎◌, inl, inr, ◌∙◌, subst, if-cases, elim-cases,
}
use mathlib.Core.Option.{some-injective}
use pcfs.Types.{Compressor, Descriptor, File}
use pcfs.Header.{HeaderRead, io_error, undefined, header, file_read_header_fd}
use pcfs.OpenFile.{made, gave_up, out_of_fuel, file_create_temp, TempFile}
use pcfs.Database.{flush_file_cache}
use pcfs.Decompress.{
  Answers, Run, failing, install, decompress_into, with_temp, make_temp, replace_file, with_header,
  open_source, do_decompress, settle, reopen_all, is_size, has_room, same_compressor,
}
use pcfs.Decompress.Streams.{
  shut, restarted, Settled, all_open, close_all-some, close_all-dies, reopen_all-shut,
}

-- The failures. Before any stream was closed, the file's descriptors are as they were.
abbrev pub Untouched : List Descriptor → Run → Type 0
Untouched ds r = (r.replaced ≡ false) × (r.temp_left ≡ false) × (r.file.head ≡ ds)

-- After that, all the file's descriptors are closed.
abbrev pub Closed : List Descriptor → Run → Type 0
Closed ds r = (r.replaced ≡ false) × (r.file.head ≡ map shut ds)

-- When the new file does not get the name, the descriptors stay open on the temporary file.
abbrev pub OnTemp : Answers → List Descriptor → Run → Type 0
OnTemp a ds r =
    (a.renamed ≡ false)
    × (r.replaced ≡ false)
    × (r.temp_left ≡ true)
    × (r.file.head ≡ map (restarted a.reopened) ds)

-- When the times cannot be set, the file is decompressed, and the record still names a compressor.
abbrev pub Stale : Answers → List Descriptor → Run → Type 0
Stale a ds r =
    (a.utime ≡ false)
    × (r.replaced ≡ true)
    × (r.temp_left ≡ false)
    × (r.open_fds ≡ [])
    × (is_some r.file.compressor ≡ true)
    × (r.file.head ≡ map (restarted a.reopened) ds)

-- The two ways to succeed: there was no compressed file, or it was replaced.
abbrev pub WasPlain : List Descriptor → Run → Type 0
WasPlain ds r =
    (r.replaced ≡ false)
    × (r.temp_left ≡ false)
    × (r.open_fds ≡ [])
    × (r.file.compressor ≡ none)
    × (r.file.size ≡ none)
    × (r.file.head ≡ ds)

abbrev pub Replaced : Answers → List Descriptor → Run → Type 0
Replaced a ds r =
    (r.replaced ≡ true)
    × (r.temp_left ≡ false)
    × (r.open_fds ≡ [])
    × (r.file.compressor ≡ none)
    × (r.file.size ≡ a.decompressed)
    × (r.file.head ≡ map (restarted a.reopened) ds)

abbrev pub Ended : Answers → List Descriptor → Run → Type 0
Ended a ds r =
    ((r.result ≡ true) × (WasPlain ds r ⊎ Replaced a ds r))
    ⊎ ((r.result ≡ false) × (Untouched ds r ⊎ (Closed ds r ⊎ (OnTemp a ds r ⊎ Stale a ds r))))

-- The run from `decompress` on, of a file whose descriptors were closed.
install-Ended :
    (a : Answers) (f : File) (ds : List Descriptor) (c : Compressor) (total source temp n : ℕ)
    → f.head ≡ map shut ds
    → f.compressor ≡ some c
    → a.decompressed ≡ some n
    → Ended a ds (install a f total source temp n)
unfolding install
install-Ended a f ds c total source temp n shut_ds has_c size =
    let heads : reopen_all a.reopened f.head ≡ map (restarted a.reopened) ds =
      rw (shut_ds, reopen_all-shut a.reopened ds) in
    ground (arith, heads, has_c, size)

is_size-some : (n : ℕ) (o : Option ℕ) → is_size n o ≡ true → o ≡ some n
is_size-some n none e = ground arith
is_size-some n (some m) e = ground arith

checked-Ended :
    (b : Bool) (a : Answers) (f : File) (ds : List Descriptor) (c : Compressor)
    (total source temp n : ℕ)
    → f.head ≡ map shut ds
    → f.compressor ≡ some c
    → (b ≡ true → a.decompressed ≡ some n)
    → Ended a ds (if b then install a f total source temp n else failing f total (source ∷ []))
checked-Ended true a f ds c total source temp n shut_ds has_c size =
    install-Ended a f ds c total source temp n shut_ds has_c (size refl)
checked-Ended false a f ds c total source temp n shut_ds has_c size =
    inr (refl, inr (inl (refl, shut_ds)))

decompress_into-Ended :
    (a : Answers) (f : File) (ds : List Descriptor) (c : Compressor) (total source temp n : ℕ)
    → f.head ≡ map shut ds
    → f.compressor ≡ some c
    → Ended a ds (decompress_into a f total source temp n)
unfolding decompress_into
decompress_into-Ended a f ds c total source temp n shut_ds has_c =
    let g = record f { status = record f.status { decompressing = false; cancel = false } } in
    checked-Ended (is_size n a.decompressed) a g ds c total source temp n shut_ds has_c
      (is_size-some n a.decompressed)

same_run :
    (a : Answers) (ds : List Descriptor) (q r : Run) → some q ≡ some r → Ended a ds q → Ended a ds r
same_run a ds q r e ended = subst (Ended a ds) (some-injective q r e) ended

with_temp-Ended :
    (t : TempFile) (a : Answers) (f : File) (ds : List Descriptor) (c : Compressor)
    (total source n : ℕ) (r : Run)
    → f.head ≡ map shut ds
    → f.compressor ≡ some c
    → with_temp a f total source n t ≡ some r
    → Ended a ds r
unfolding with_temp
with_temp-Ended (made temp i) a f ds c total source n r shut_ds has_c run =
    same_run a ds _ r run (decompress_into-Ended a f ds c total source temp n shut_ds has_c)
with_temp-Ended (gave_up leaked) a f ds c total source n r shut_ds has_c run =
    same_run a ds _ r run (inr (refl, inr (inl (refl, shut_ds))))
with_temp-Ended out_of_fuel a f ds c total source n r shut_ds has_c run = ground (arith, run)

make_temp-Ended :
    (a : Answers) (f : File) (ds : List Descriptor) (c : Compressor) (total source n : ℕ) (r : Run)
    → f.head ≡ map shut ds
    → f.compressor ≡ some c
    → make_temp a f total source n ≡ some r
    → Ended a ds r
unfolding make_temp
make_temp-Ended a f ds c total source n r shut_ds has_c run =
    if-cases a.fstat _ _ (some r) run
      (λ e h.
        with_temp-Ended (file_create_temp a.memory a.mkstemp) a f ds c total source n r shut_ds
          has_c h)
      (λ e h. same_run a ds _ r h (inr (refl, inr (inl (refl, shut_ds)))))

Settled-compressor : (f g : File) → Settled f g → g.compressor ≡ f.compressor
unfolding settle
Settled-compressor f g s = ground arith

replace_file-Ended :
    (a : Answers) (f : File) (c : Compressor) (total source n : ℕ) (r : Run)
    → f.compressor ≡ some c
    → replace_file a f total source n ≡ some r
    → Ended a f.head r
unfolding replace_file
replace_file-Ended a f c total source n r has_c run = elim (Bool-cases (all_open f.head)) [
  | inl o ↦
      let (g, eq, settled) = close_all-some a.closed f c f.head has_c o in
      let h = record g { head = map shut f.head } in
      make_temp-Ended a h f.head c total source n r refl (Settled-compressor f g settled ∙ has_c)
        (rw eq at run)
  | inr o ↦
      let eq = close_all-dies a.closed f c f.head has_c o in
      elim (none_ne_some r (rw eq at run)) [ ]
]

with_header-Ended :
    (a : Answers) (f : File) (total source : ℕ) (h : HeaderRead) (r : Run)
    → with_header a f total source h ≡ some r
    → Ended a f.head r
unfolding with_header
with_header-Ended a f total source io_error r run = ground (arith, run)
with_header-Ended a f total source undefined r run = ground (arith, run)
with_header-Ended a f total source (header none n) r run = ground (arith, run)
with_header-Ended a f total source (header (some c) n) r run =
    elim-cases f.compressor _ (some r) _ run
      (λ e h. replace_file-Ended a (record f { compressor = some c }) c total source n r refl h)
      (λ c0 e h.
        if-cases (same_compressor c0 c) _ _ (some r) h
          (λ _ h1. replace_file-Ended a f c0 total source n r e h1) (λ _ h1. ground (arith, h1)))

open_source-Ended :
    (a : Answers) (f : File) (total : ℕ) (r : Run)
    → open_source a f total ≡ some r
    → Ended a f.head r
unfolding open_source
open_source-Ended a f total r run =
    elim-cases a.source _ (some r) _ run
      (λ e h. same_run a f.head _ r h (inr (refl, inl (refl, refl, refl))))
      (λ source e h.
        with_header-Ended a f total source (file_read_header_fd none 0 a.header_bytes) r h)

pub flush-head : (f : File) (total : ℕ) → (flush_file_cache f total).0.head ≡ f.head
unfolding flush_file_cache
flush-head f total = ground arith

-- However a run of `do_decompress` ends, it is one of six cases. TRUE: the file held no compressed
-- data, the name was not replaced, the record has no compressor and no size, the descriptors are as they
-- were, and nothing of the run stays open; or the name now holds the
-- decompressed file, whose size is what the module returned, no compressor is set, all descriptors
-- are on the new file without a stream, and nothing of the run stays open. FALSE: the name was not
-- replaced, no temporary file is left, and the descriptors of the file are as they were; or the
-- descriptors are closed and stay so, with the old file in place; or the
-- rename failed and they are open on the temporary file, which is left behind; or only the times
-- could not be set, and then the file is decompressed and its record still names a compressor.
pub do_decompress-Ended :
    (a : Answers) (f : File) (total : ℕ) (r : Run)
    → do_decompress a f total ≡ some r
    → Ended a f.head r
unfolding do_decompress
do_decompress-Ended a f total r run =
    if-cases (has_room a.euid_root f.size a.statvfs) _ _ (some r) run
      (λ _ h.
        subst (λ ds. Ended a ds r) (flush-head f total)
          (open_source-Ended a (flush_file_cache f total).0 (flush_file_cache f total).1 r h))
      (λ _ h. same_run a f.head _ r h (inr (refl, inl (refl, refl, refl))))
