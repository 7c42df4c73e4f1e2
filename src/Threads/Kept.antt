-- ===== src/Threads/Kept.antt =====
-- What every handler keeps of the file that it has locked.
use pcfs.Base.{
  ℕ, suc, ◌-◌, ◌≤◌, ◌≡◌, refl, ap, Bool, true, false, not, ◌&&◌, ◌||◌, List, [], ◌∷◌, Option, none,
  some, arith, ltb, leb, ◌==◌, if◌then◌else◌, is_some, inl, inr, sym, subst, if-cases, elim-cases,
  length, bind-some, Bool-cases,
}
use mathlib.Core.Option.{some-injective}
use pcfs.Types.{Compressor, File, Descriptor, Config}
use pcfs.Header.{
  HeaderRead, io_error, undefined, header, header_length, file_read_header_fd,
  file_read_header_name,
}
use pcfs.Rename.{direct_delete}
use pcfs.Decompress.{direct_close, settle}
use pcfs.Database.Invariant.{OwnedBy}
use pcfs.Background.Worker.{KeptBy}
use pcfs.Handlers.{
  Ending, Stat, OpenAnswers, add_descriptor, open_header, open_stat, open_file, drop_descriptor,
  get_descriptor, release_file, Attributes, learn_size, getattr_file, unlink_file, choose_at_write,
}
use pcfs.Sectors.{Packer, pcfs_compress}
use pcfs.ReadWrite.{
  Pwrites, Stored, WriteResult, refused, minus_two, sent, sum_of, sent_of, after_write,
  packed_bytes, store, write_file,
}
use pcfs.Threads.{Handled, by_open, by_release, by_getattr, by_unlink, by_hold, by_write}

-- References, the owner of the descriptors, and the name.
abbrev pub Keeps : ℕ → File → File → Type 0
Keeps id f g = KeptBy id f g × (g.name ≡ f.name) × (g.hash ≡ f.hash)

-- A file with the same users and the same name.
abbrev Alike : File → File → Type 0
Alike f g = (g.head ≡ f.head) × (g.accesses ≡ f.accesses) × (g.name ≡ f.name) × (g.hash ≡ f.hash)

Alike-Keeps : (id : ℕ) (f g : File) → Alike f g → Keeps id f g
Alike-Keeps id f g (heads, counts, name, hash) =
    ((omega (arith, counts, ap length heads), subst (OwnedBy id) (sym heads)), name, hash)

-- The results of the handlers.
abbrev pub answered : File → Ending → Option (File × Ending)
answered f e = some (f, e)

abbrev pub reported : File → Ending → ℕ → Option (File × Ending × ℕ)
reported f e n = some (f, e, n)

add_descriptor-Keeps :
    (id : ℕ) (a : OpenAnswers) (fd : ℕ) (c : Option Compressor) (n : ℕ) (f : File)
    → a.file ≡ id
    → Keeps id f (add_descriptor a fd c n f)
unfolding add_descriptor
add_descriptor-Keeps id a fd c n f owner = ((omega arith, λ own. (owner, own)), refl, refl)

answered-Keeps :
    (id : ℕ) (f x g : File) (d e : Ending)
    → answered x d ≡ answered g e
    → Keeps id f x
    → Keeps id f g
answered-Keeps id f x g d e run keeps =
    let both : ◌≡◌ {A = File × Ending} (x, d) (g, e) = some-injective _ _ run in
    subst (λ (y : File × Ending). Keeps id f y.0) both keeps

open_header-Keeps :
    (h : HeaderRead) (id : ℕ) (a : OpenAnswers) (fd : ℕ) (f g : File) (e : Ending)
    → a.file ≡ id
    → open_header a fd f h ≡ answered g e
    → Keeps id f g
unfolding open_header
open_header-Keeps io_error id a fd f g e owner run =
    answered-Keeps id f f g _ e run (Alike-Keeps id f f (refl, refl, refl, refl))
open_header-Keeps undefined id a fd f g e owner run = ground (arith, run)
open_header-Keeps (header c n) id a fd f g e owner run =
    answered-Keeps id f (add_descriptor a fd c n f) g _ e run
      (add_descriptor-Keeps id a fd c n f owner)

-- The mark of `open_stat` for a file with several links touches no user.
open_stat-Keeps :
    (id : ℕ) (a : OpenAnswers) (fd : ℕ) (st : Stat) (f g : File) (e : Ending)
    → a.file ≡ id
    → open_stat a fd st f ≡ answered g e
    → Keeps id f g
unfolding open_stat
open_stat-Keeps id a fd st f g e owner run =
    let f1 = record f { dontcompress = f.dontcompress || (st.regular && ltb 1 st.nlink) } in
    if-cases (leb header_length st.size) _ _ (answered g e) run
      (λ _ h.
        open_header-Keeps (file_read_header_fd f.compressor st.size a.header_bytes) id a fd f1 g e
          owner h)
      (λ _ h.
        answered-Keeps id f1 (add_descriptor a fd none st.size f1) g _ e h
          (add_descriptor-Keeps id a fd none st.size f1 owner))

open_file-Keeps :
    (id : ℕ) (a : OpenAnswers) (f g : File) (e : Ending)
    → a.file ≡ id
    → open_file a f ≡ answered g e
    → Keeps id f g
unfolding open_file
open_file-Keeps id a f g e owner run =
    let same = Alike-Keeps id f f (refl, refl, refl, refl) in
    elim-cases a.fd _ (answered g e) _ run (λ _ h. answered-Keeps id f f g _ e h same)
      (λ fd _ h.
        elim-cases a.fstat _ (answered g e) _ h (λ _ h1. answered-Keeps id f f g _ e h1 same)
          (λ st _ h1. open_stat-Keeps id a fd st f g e owner h1))

learn_size-Alike :
    (h : Bool × HeaderRead) (f g : File) (e : Ending) (n : ℕ)
    → learn_size f h ≡ reported g e n
    → Alike f g
unfolding learn_size
learn_size-Alike (_, io_error) f g e n run = ground (arith, run)
learn_size-Alike (_, undefined) f g e n run = ground (arith, run)
learn_size-Alike (false, header c m) f g e n run = ground (arith, run)
learn_size-Alike (true, header c m) f g e n run = ground (arith, run)

getattr_file-Alike :
    (a : Attributes) (f g : File) (e : Ending) (n : ℕ)
    → getattr_file a f ≡ reported g e n
    → Alike f g
unfolding getattr_file
getattr_file-Alike a f g e n run =
    elim-cases f.size _ (reported g e n) _ run
      (λ _ h.
        if-cases (leb header_length a.st_size) _ _ (reported g e n) h
          (λ _ h1.
            learn_size-Alike
              (file_read_header_name a.opened a.closed f.compressor a.st_size a.header_bytes) f g e
              n h1)
          (λ _ h1. ground (arith, h1)))
      (λ m _ h. ground (arith, h))

unlink_file-Alike : (unlinked : Bool) (f : File) → Alike f (unlink_file unlinked f).0
unfolding unlink_file direct_delete
unlink_file-Alike unlinked f = ground arith

choose_at_write-Alike :
    (c : Config) (m : ℕ) (f g : File) → choose_at_write c m f ≡ some g → Alike f g
unfolding choose_at_write
choose_at_write-Alike c m f g e = ground (arith, e)

after_write-Alike : (f g : File) (r : WriteResult) → Alike f g → Alike f (after_write g r)
after_write-Alike f g refused h = h
after_write-Alike f g minus_two h = h
after_write-Alike f g (sent n) h = h

store-Alike :
    (a : Pwrites) (buf : List ℕ) (offset blk : ℕ) (p : Packer) (f g : File) (w : Stored)
    → Alike f g
    → store a buf offset blk p g ≡ some w
    → Alike f w.file
unfolding store
store-Alike a buf offset blk p f g w h e =
    if-cases (is_some g.compressor) _ _ (some w) e
      (λ _ h1.
        let (bytes, _, h2) = bind-some (packed_bytes blk p) _ w h1 in
        subst (λ (x : Stored). Alike f x.file) (some-injective _ w h2)
          (after_write-Alike f g (sum_of a.marks a.sectors) h))
      (λ _ h1.
        subst (λ (x : Stored). Alike f x.file) (some-injective _ w h1)
          (after_write-Alike f g (sent_of a.plain) h))

write_file-Alike :
    (k : Config) (deflate : List ℕ → ℕ × List ℕ) (behind : List ℕ) (total_w blk : ℕ) (a : Pwrites)
    (buf : List ℕ) (offset : ℕ) (f : File) (w : Stored)
    → write_file k deflate behind total_w blk a buf offset f ≡ some w
    → Alike f w.file
unfolding write_file
write_file-Alike k deflate behind total_w blk a buf offset f w run =
    let (p, _, run1) = bind-some (pcfs_compress deflate buf behind total_w blk) _ w run in
    let (g, chosen, run2) = bind-some (choose_at_write k offset f) _ w run1 in
    store-Alike a buf offset blk p f g w (choose_at_write-Alike k offset f g chosen) run2

length-drop :
    (d : ℕ) (ds : List Descriptor) (x : Descriptor)
    → get_descriptor d ds ≡ some x
    → suc (length (drop_descriptor d ds)) ≡ length ds
unfolding get_descriptor drop_descriptor
length-drop d [] x e = ground (arith, e)
length-drop d (y ∷ ds) x e = ground (arith, e, length-drop d ds x)

OwnedBy-drop : (id d : ℕ) (ds : List Descriptor) → OwnedBy id ds → OwnedBy id (drop_descriptor d ds)
unfolding drop_descriptor
OwnedBy-drop id d [] own = tt
OwnedBy-drop id d (y ∷ ds) (mine, own) = elim (Bool-cases (y.id == d)) [
  | inl e ↦ rw e own
  | inr e ↦ rw e (mine, OwnedBy-drop id d ds own)
]

settle-Alike : (f : File) → Alike f (settle f)
unfolding settle
settle-Alike f = ground arith

-- The file that `direct_close` leaves, or that is left alone without a compressor.
closed-Alike :
    (closed : ℕ → Bool) (f : File) (x : Descriptor) (y : File × Descriptor × Bool)
    → (if is_some f.compressor then direct_close closed f x else some (f, x, true)) ≡ some y
    → Alike f y.0
unfolding direct_close
closed-Alike closed f x y e =
    if-cases (is_some f.compressor) _ _ (some y) e
      (λ _ h.
        if-cases (x.handle && not (is_some f.compressor)) _ _ (some y) h
          (λ _ h1. ground (arith, h1))
          (λ _ h1.
            subst (λ (z : File × Descriptor × Bool). Alike f z.0) (some-injective _ y h1)
              (settle-Alike f)))
      (λ _ h.
        subst (λ (z : File × Descriptor × Bool). Alike f z.0) (some-injective _ y h)
          (refl, refl, refl, refl))

release_file-Keeps :
    (id : ℕ) (closed : ℕ → Bool) (d : ℕ) (f g : File)
    → length f.head ≤ f.accesses
    → release_file closed d f ≡ some g
    → Keeps id f g
unfolding release_file
release_file-Keeps id closed d f g counted run =
    let (x, found, e1) = bind-some (get_descriptor d f.head) _ g run in
    let (y, closing, e2) =
      bind-some (if is_some f.compressor then direct_close closed f x else some (f, x, true)) _ g
        e1 in
    let (heads, counts, name, hash) = closed-Alike closed f x y closing in
    let z = record y.0 { head = drop_descriptor d y.0.head; accesses = y.0.accesses - 1 } in
    subst (Keeps id f) (some-injective z g e2) (
      (
        omega (
          arith,
          counted,
          counts,
          length-drop d f.head x found,
          ap (λ ds. length (drop_descriptor d ds)) heads,
        ),
        λ own. OwnedBy-drop id d y.0.head (subst (OwnedBy id) (sym heads) own),
      ),
      name,
      hash,
    )

-- Every handler keeps the name of the file, changes the count by no less than the descriptors, and
-- lists descriptors of this file only.
pub Handled-Keeps :
    (id : ℕ) (f g : File) → length f.head ≤ f.accesses → Handled id f g → Keeps id f g
Handled-Keeps id _ _ counted (by_open a f g e owner run) = open_file-Keeps id a f g e owner run
Handled-Keeps id _ _ counted (by_release closed d f g run) =
    release_file-Keeps id closed d f g counted run
Handled-Keeps id _ _ counted (by_getattr a f g e n run) =
    Alike-Keeps id f g (getattr_file-Alike a f g e n run)
Handled-Keeps id _ _ counted (by_unlink unlinked f) =
    Alike-Keeps id f (unlink_file unlinked f).0 (unlink_file-Alike unlinked f)
Handled-Keeps id _ _ counted (by_hold f) = ((omega arith, λ h. h), refl, refl)
Handled-Keeps id _ _ counted (by_write k deflate behind total_w blk a buf offset f w run) =
    Alike-Keeps id f w.file (write_file-Alike k deflate behind total_w blk a buf offset f w run)
