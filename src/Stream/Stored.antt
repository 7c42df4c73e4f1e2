-- ===== src/Stream/Stored.antt =====
-- Many writes through `direct_compress`, and the header that tells their size.
use pcfs.Base.{
  ℕ, ◌+◌, ◌<◌, ◌^◌, ◌≡◌, refl, sym, ap, ◌∙◌, List, [], ◌∷◌, ◌++◌, Option, some, arith, ◌>>=◌,
  bind-at, length, length-append, append_assoc, append-nil,
}
use mathlib.Core.Path.{ap₂}
use pcfs.Types.{Compressor, Descriptor, File}
use pcfs.Header.{header_of, file_read_header_fd, got, header}
use pcfs.Header.Roundtrip.{read-header_of}
use pcfs.Stream.Write.{WriteAnswers, Disk, direct_compress}
use pcfs.Stream.Append.{Taking, Appendable}
use pcfs.Stream.Appended.{direct_compress-Appends}

-- One write after the other, each at the end of the one before.
unfoldable pub write_all : WriteAnswers → ℕ → ℕ → List (List ℕ) → File → ℕ → Disk → Option Disk
write_all a d offset [] f total disk = some disk
write_all a d offset (bs ∷ rest) f total disk =
    direct_compress a [] d bs offset f total disk >>= λ v.
    v.result >>= λ len. write_all a d (offset + len) rest v.file v.total v.disk

abbrev pub concat : List (List ℕ) → List ℕ
concat [] = []
concat (bs ∷ rest) = bs ++ concat rest

sum_zero : (n k : ℕ) → k ≡ n → 0 + n ≡ k
sum_zero n k e = omega (arith, e)

-- What the writes leave on disk: all bytes, and a header with their number.
abbrev Stores : Compressor → List ℕ → Option Disk → Type 0
Stores m bs r =
    (disk : Disk) × (r ≡ some disk)
    × (disk.packed ≡ bs)
    × (disk.head ≡ header_of m (length disk.packed))

write_all-Stores :
    (a : WriteAnswers)
    → Taking a
    → (m : Compressor) (rest : List (List ℕ)) (f : File) (total : ℕ) (x : Descriptor) (disk : Disk)
    → Appendable m f x disk
    → disk.head ≡ header_of m (length disk.packed)
    → Stores m
        (disk.packed ++ concat rest)
        (write_all a x.id (length disk.packed) rest f total disk)
unfolding write_all
write_all-Stores a good m [] f total x disk h e = (disk, refl, sym (append-nil disk.packed), e)
write_all-Stores a good m (bs ∷ rest) f total x disk h e =
    let (v, q, r) = direct_compress-Appends a good m [] bs f total x disk h in
    let (y, i, h1) = r.again in
    let next : length v.disk.packed ≡ length disk.packed + length bs =
      ap length r.packed ∙ length-append disk.packed bs in
    let (d, g, s, t) = write_all-Stores a good m rest v.file v.total y v.disk h1 r.head in
    (
      d,
      bind-at _ v q
          ∙ bind-at _ (length bs) r.result
          ∙ ap₂ (λ z o. write_all a z o rest v.file v.total v.disk) (sym i) (sym next)
          ∙ g,
      s ∙ ap (λ u. u ++ concat rest) r.packed ∙ append_assoc disk.packed bs (concat rest),
      t,
    )

-- Writes through `direct_compress`, one after the other from the beginning of an empty file and at
-- least one, by its only user, whose calls of the module and of the system succeed and take all that
-- they are given: the stream takes all bytes in their order, and `file_read_header_fd` finds the module
-- and the number of all bytes in the header on disk, if an off_t holds it.
pub write_all-read_back :
    (a : WriteAnswers)
    → Taking a
    → (m : Compressor) (bs : List ℕ) (rest : List (List ℕ)) (f : File) (total : ℕ) (x : Descriptor)
      (disk : Disk)
    → Appendable m f x disk
    → disk.packed ≡ []
    → length (bs ++ concat rest) < 2 ^ 64
    → (c0 : Option Compressor) (n0 : ℕ)
    → (d : Disk) × (write_all a x.id 0 (bs ∷ rest) f total disk ≡ some d)
      × (d.packed ≡ bs ++ concat rest)
      × (file_read_header_fd c0 n0 (got d.head) ≡ header (some m) (length (bs ++ concat rest)))
unfolding write_all
write_all-read_back a good m bs rest f total x disk h z small c0 n0 =
    let (v, q, r) = direct_compress-Appends a good m [] bs f total x disk h in
    let (y, i, h1) = r.again in
    let held : v.disk.packed ≡ bs = r.packed ∙ ap (λ u. u ++ bs) z in
    let (d, g, s, t) = write_all-Stores a good m rest v.file v.total y v.disk h1 r.head in
    let whole : d.packed ≡ bs ++ concat rest = s ∙ ap (λ u. u ++ concat rest) held in
    (
      d,
      bind-at _ v (ap (λ o. direct_compress a [] x.id bs o f total disk) (sym (ap length z)) ∙ q)
          ∙ bind-at _ (length bs) r.result
          ∙ ap₂ (λ z1 o. write_all a z1 o rest v.file v.total v.disk) (sym i)
              (sum_zero (length bs) _ (ap length held))
          ∙ g,
      whole,
      ap (λ u. file_read_header_fd c0 n0 (got u)) (t ∙ ap (λ u. header_of m (length u)) whole)
          ∙ read-header_of m (length (bs ++ concat rest)) c0 n0 small,
    )
