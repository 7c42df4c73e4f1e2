-- ===== src/Stream/Append.antt =====
-- Writing at the end of a compressed file through its stream.
use pcfs.Base.{
  ℕ, ◌≤◌, ◌≡◌, refl, sym, ap, ◌∙◌, true, false, ◌&&◌, List, [], ◌∷◌, ◌++◌, Option, some, arith,
  ◌==◌, is_some, ◌>>=◌, bind-at, length, append-nil, drop_past, if-true, if-false, Bool-cases, inl,
  inr, elim-at_some, none_ne_some,
}
use mathlib.Core.Path.{ap₂}
use pcfs.Types.{Compressor, Descriptor, File}
use pcfs.Handlers.{get_descriptor}
use pcfs.Header.{header_of, file_write_header}
use pcfs.Stream.Call.{put_descriptor}
use pcfs.Stream.Write.{
  WriteAnswers, Disk, Writing, is_writing, begin_writing, is_at, overwrite, write_header,
  with_stream, open_writer,
}

-- The calls of the module and of the system succeed, and take all that they are given.
pub record Taking (a : WriteAnswers) : Type 0 where
  pub seeks : a.sought ≡ true
  pub writes_header : a.header ≡ some 12
  pub opens : a.opened ≡ true
  pub takes : (bs : List ℕ) → a.wrote bs ≡ some (length bs)
  pub seeks_again : a.sought_again ≡ true
  pub writes_again : a.header_again ≡ some 12
  pub seeks_end : a.sought_end ≡ true

-- A file that is written from its beginning by one user, with the descriptor `x` at its end.
pub record Appendable (m : Compressor) (f : File) (x : Descriptor) (disk : Disk) : Type 0 where
  pub packed : f.compressor ≡ some m
  pub known : f.size ≡ some (length disk.packed)
  pub at_end : x.offset ≡ length disk.packed
  pub written : is_writing (begin_writing f.direction) ≡ true
  pub alone : f.accesses ≤ 1
  pub quiet : f.status.decompressing ≡ false
  pub listed : get_descriptor x.id f.head ≡ some x
  pub opened : is_some x.fd ≡ true
  pub begun : x.handle ≡ false → disk.packed ≡ []
  pub short : length disk.head ≤ 12

overwrite-header :
    (m : Compressor) (n : ℕ) (old : List ℕ)
    → length old ≤ 12
    → overwrite 12 (header_of m n) old ≡ header_of m n
unfolding header_of
overwrite-header m n old h =
    ap (λ r. header_of m n ++ r) (drop_past 12 old h) ∙ append-nil (header_of m n)

same : (n : ℕ) → (n == n) ≡ true
same n = ground arith

pub get-put :
    (x y : Descriptor) (ds : List Descriptor)
    → y.id ≡ x.id
    → get_descriptor x.id ds ≡ some x
    → get_descriptor y.id (put_descriptor y ds) ≡ some y
unfolding get_descriptor
get-put x y [] e h = elim (none_ne_some x h) [ ]
get-put x y (z ∷ zs) e h = elim (Bool-cases (z.id == y.id)) [
  | inl t ↦ ap (get_descriptor y.id) (if-true _ _ t) ∙ if-true _ _ (same y.id)
  | inr n ↦
      let far : (z.id == x.id) ≡ false = ap (λ i. z.id == i) (sym e) ∙ n in
      ap (get_descriptor y.id) (if-false _ _ n)
      ∙ if-false _ _ n
      ∙ get-put x y zs e (sym (if-false _ _ far) ∙ h)
]

pub write_header-full :
    (w : Writing) (answer : Option ℕ) (m : Compressor) (n : ℕ)
    → w.file.compressor ≡ some m
    → w.file.size ≡ some n
    → length w.disk.head ≤ 12
    → answer ≡ some 12
    → write_header answer w
      ≡ some (record w { disk = record w.disk { head = header_of m n } }, true)
unfolding write_header file_write_header
write_header-full w answer m n p q h r =
    bind-at _ m p
    ∙ bind-at _ (header_of m n) (ap (file_write_header m) q)
    ∙ ap some (elim-at_some _ _ 12 r)
    ∙ ap (λ t. some (record w { disk = record w.disk { head = t } }, true))
        (overwrite-header m n w.disk.head h)

-- What the opening of the stream, and the header before it, leave.
abbrev pub Opens : WriteAnswers → Writing → Type 0
Opens a w =
    (x : Descriptor) × (t : List ℕ) × (open_writer a w
      ≡ some (record w { descriptor = x; disk = record w.disk { head = t } }, true))
    × (x.id ≡ w.descriptor.id)
    × (x.fd ≡ w.descriptor.fd)
    × (x.offset ≡ w.descriptor.offset)
    × (x.handle ≡ true)
    × (length t ≤ 12)

both : (n : ℕ) (o : Option ℕ) → o ≡ some 0 → n ≡ 0 → (is_at 0 o && (n == 0)) ≡ true
both n o e f = ap₂ (λ p k. is_at 0 p && (k == 0)) e f

pub length-header : (m : Compressor) (n : ℕ) → length (header_of m n) ≡ 12
unfolding header_of
length-header m n = refl

pub open_writer-Opens :
    (a : WriteAnswers) (w : Writing) (m : Compressor)
    → Taking a
    → Appendable m w.file w.descriptor w.disk
    → Opens a w
unfolding open_writer
open_writer-Opens a w m t h = elim (Bool-cases w.descriptor.handle) [
  | inl y ↦ (w.descriptor, w.disk.head, if-true _ _ y, refl, refl, refl, y, h.short)
  | inr n ↦
      let none_yet : length w.disk.packed ≡ 0 = ap length (h.begun n) in
      (
        record w.descriptor { handle = true },
        header_of m (length w.disk.packed),
        if-false _ _ n
            ∙ if-true _ _ (
                both w.descriptor.offset w.file.size (h.known ∙ ap some none_yet)
                  (h.at_end ∙ none_yet))
            ∙ if-true _ _ t.seeks
            ∙ ap (λ o. o >>= with_stream a)
                (write_header-full w a.header m (length w.disk.packed) h.packed h.known h.short
                  t.writes_header)
            ∙ ap
                (λ b. some (
                  record w {
                    descriptor = record w.descriptor { handle = b };
                    disk = record w.disk { head = header_of m (length w.disk.packed) };
                  },
                  b,
                ))
                t.opens,
        refl,
        refl,
        refl,
        refl,
        omega (arith, length-header m (length w.disk.packed)),
      )
]
