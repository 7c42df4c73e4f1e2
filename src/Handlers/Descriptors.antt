-- ===== src/Handlers/Descriptors.antt =====
-- Opening and releasing: descriptors, their count, and the lock.
use pcfs.Base.{
  ℕ, ◌+◌, ◌-◌, ◌≡◌, refl, ap, Bool, true, false, ◌&&◌, ◌||◌, ◌∷◌, Option, none, some, arith, ltb,
  leb, is_some, ◌⊎◌, inl, inr, sym, ◌∙◌, if-cases, elim-cases,
}
use mathlib.Core.Option.{some-injective}
use pcfs.Types.{Compressor, File, Descriptor}
use pcfs.Header.{io_error, undefined, header, header_length, file_read_header_fd, HeaderRead}
use pcfs.Decompress.{direct_close, settle}
use pcfs.Handlers.{
  Ending, ok, failed, failed_locked, Stat, OpenAnswers, add_descriptor, open_header, open_stat,
  open_file, drop_descriptor, get_descriptor, release_file,
}

abbrev ended : File → Ending → Option (File × Ending)
ended f e = some (f, e)

-- The descriptor that a successful `PCFS_open` makes.
abbrev pub made_by : OpenAnswers → ℕ → Descriptor
made_by a fd = record { id = a.descriptor; file = a.file; fd = some fd; handle = false; offset = 0 }

-- What `PCFS_open` does to the descriptors of the file, and when it keeps the lock.
abbrev pub OpenEnds : OpenAnswers → File → File → Ending → Type 0
OpenEnds a f g e =
    ((e ≡ ok)
      × ((fd : ℕ) × (a.fd ≡ some fd)
          × (g.head ≡ made_by a fd ∷ f.head)
          × (g.accesses ≡ f.accesses + 1))
      × ((st : Stat) × (a.fstat ≡ some st)
          × ((leb header_length st.size ≡ false)
              ⊎ ((c : Option Compressor) × (n : ℕ) × (file_read_header_fd f.compressor st.size
                      a.header_bytes
                    ≡ header c n)))))
    ⊎ (((e ≡ failed) × (g ≡ f) × (a.fd ≡ none))
        ⊎ ((e ≡ failed_locked)
            × (g.head ≡ f.head)
            × (g.accesses ≡ f.accesses)
            × (is_some a.fd ≡ true)
            × ((a.fstat ≡ none)
                ⊎ ((st : Stat) × (a.fstat ≡ some st)
                    × (leb header_length st.size ≡ true)
                    × (file_read_header_fd f.compressor st.size a.header_bytes ≡ io_error)))))

add_descriptor-Added :
    (a : OpenAnswers) (fd : ℕ) (c : Option Compressor) (n : ℕ) (f g : File) (e : Ending)
    → ended (add_descriptor a fd c n f) ok ≡ ended g e
    → (e ≡ ok) × (g.head ≡ made_by a fd ∷ f.head) × (g.accesses ≡ f.accesses + 1)
unfolding add_descriptor
add_descriptor-Added a fd c n f g e run =
    let both : ◌≡◌ {A = File × Ending} (add_descriptor a fd c n f, ok) (g, e) =
      some-injective _ _ run in
    (
      ap (λ (x : File × Ending). x.1) (sym both),
      ap (λ (x : File × Ending). x.0.head) (sym both),
      ap (λ (x : File × Ending). x.0.accesses) (sym both),
    )

open_header-Ends :
    (h : HeaderRead) (a : OpenAnswers) (fd : ℕ) (f g : File) (e : Ending)
    → open_header a fd f h ≡ ended g e
    → ((h ≡ io_error) × (e ≡ failed_locked) × (g ≡ f))
      ⊎ (((c : Option Compressor) × (n : ℕ) × (h ≡ header c n))
          × (e ≡ ok)
          × (g.head ≡ made_by a fd ∷ f.head)
          × (g.accesses ≡ f.accesses + 1))
unfolding open_header
open_header-Ends io_error a fd f g e run =
    let both : ◌≡◌ {A = File × Ending} (f, failed_locked) (g, e) = some-injective _ _ run in
    inl
      (refl, ap (λ (x : File × Ending). x.1) (sym both), ap (λ (x : File × Ending). x.0) (sym both))
open_header-Ends undefined a fd f g e run = ground (arith, run)
open_header-Ends (header c n) a fd f g e run =
    let (fine, heads, counts) = add_descriptor-Added a fd c n f g e run in
    inr ((c, n, refl), fine, heads, counts)

-- However `PCFS_open` ends, it is one of three cases. With 0: the file was opened, `fstat` succeeded,
-- the header was read if the file has room for one, and the new descriptor is the first of the file's
-- and is counted. With an error because the file did not open: nothing changed. With an error and with
-- the lock of the file kept, which no caller gives back: the file was opened and then `fstat`, or the
-- read of the header of a file with room for one, failed; the descriptors are as they were.
pub open_file-Ends :
    (a : OpenAnswers) (f g : File) (e : Ending) → open_file a f ≡ ended g e → OpenEnds a f g e
unfolding open_file open_stat
open_file-Ends a f g e run =
    elim-cases a.fd _ (ended g e) _ run
      (λ no_fd h.
        let both : ◌≡◌ {A = File × Ending} (f, failed) (g, e) = some-injective _ _ h in
        inr (
          inl (
            ap (λ (x : File × Ending). x.1) (sym both),
            ap (λ (x : File × Ending). x.0) (sym both),
            no_fd,
          )))
      (λ fd has_fd h.
        elim-cases a.fstat _ (ended g e) _ h
          (λ no_stat h1.
            let both : ◌≡◌ {A = File × Ending} (f, failed_locked) (g, e) = some-injective _ _ h1 in
            inr (
              inr (
                ap (λ (x : File × Ending). x.1) (sym both),
                ap (λ (x : File × Ending). x.0.head) (sym both),
                ap (λ (x : File × Ending). x.0.accesses) (sym both),
                ap is_some has_fd,
                inl no_stat,
              )))
          (λ st has_stat h1.
            let g0 = record f { dontcompress = f.dontcompress || (st.regular && ltb 1 st.nlink) } in
            if-cases (leb header_length st.size) _ _ (ended g e) h1
              (λ long h2.
                elim (open_header-Ends (file_read_header_fd f.compressor st.size a.header_bytes) a
                  fd g0 g e h2) [
                    | inl (bad, kept, same) ↦ inr (
                        inr (
                          kept,
                          ap (λ (x : File). x.head) same,
                          ap (λ (x : File). x.accesses) same,
                          ap is_some has_fd,
                          inr (st, has_stat, long, bad),
                        ))
                    | inr (read, fine, heads, counts) ↦
                        inl (fine, (fd, has_fd, heads, counts), (st, has_stat, inr read))
                  ])
              (λ short h2.
                let (fine, heads, counts) = add_descriptor-Added a fd none st.size g0 g e h2 in
                inl (fine, (fd, has_fd, heads, counts), (st, has_stat, inl short)))))

-- Two files with the same descriptors and the same count.
abbrev pub SameUsers : File → File → Type 0
SameUsers f g = (g.head ≡ f.head) × (g.accesses ≡ f.accesses)

settle-users : (f : File) → SameUsers f (settle f)
unfolding settle
settle-users f = ground arith

-- The last steps of `PCFS_release`.
abbrev release_from : ℕ → File → File
release_from d f = record f { head = drop_descriptor d f.head; accesses = f.accesses - 1 }

released :
    (closed : ℕ → Bool) (d : ℕ) (x : Descriptor) (f : File)
    → get_descriptor d f.head ≡ some x
    → x.handle ≡ false
    → (release_file closed d f ≡ some (release_from d f))
      ⊎ (release_file closed d f ≡ some (release_from d (settle f)))
unfolding release_file direct_close
released closed d x f found no_stream = ground (arith, found, no_stream)

-- A descriptor that `PCFS_open` made and that was not used is released again: the call succeeds,
-- whatever the module is, and the file has the descriptors and the count that it had before.
pub open-release :
    (a : OpenAnswers) (closed : ℕ → Bool) (f g : File)
    → open_file a f ≡ some (g, ok)
    → (h : File) × (release_file closed a.descriptor g ≡ some h) × SameUsers f h
unfolding drop_descriptor get_descriptor
open-release a closed f g run = elim (open_file-Ends a f g ok run) [
  | inl (_, (fd, _, heads, counts), _) ↦
      let found : get_descriptor a.descriptor g.head ≡ some (made_by a fd) =
        ground (arith, heads) in
      let dropped : drop_descriptor a.descriptor g.head ≡ f.head = ground (arith, heads) in
      let back : SameUsers f (release_from a.descriptor g) = (dropped, omega (arith, counts)) in
      elim (released closed a.descriptor (made_by a fd) g found refl) [
        | inl e ↦ (release_from a.descriptor g, e, back)
        | inr e ↦ (
          release_from a.descriptor (settle g),
          e,
          (
            ap (drop_descriptor a.descriptor) (settle-users g).0 ∙ dropped,
            omega (arith, counts, (settle-users g).1),
          ),
        )
      ]
  | inr (inl (bad, _, _)) ↦ ground (arith, bad)
  | inr (inr (bad, _, _, _, _)) ↦ ground (arith, bad)
]
