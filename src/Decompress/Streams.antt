-- ===== src/Decompress/Streams.antt =====
-- The loops of `do_decompress` over the descriptors of the file.
use pcfs.Base.{
  ℕ, ◌≡◌, refl, ap, Bool, true, false, List, [], ◌∷◌, Option, none, some, arith, if◌then◌else◌, map,
  is_some, ◌&&◌, Bool-cases, ◌⊎◌, inl, inr, ◌∙◌,
}
use pcfs.Types.{Compressor, Descriptor, File}
use pcfs.Decompress.{close_stream, settle, direct_close, file_close, close_all, reopen_all}

-- A descriptor without stream and without descriptor number.
abbrev pub shut : Descriptor → Descriptor
shut d = record d { fd = none; handle = false; offset = if d.handle then 0 else d.offset }

-- A descriptor on the new file, that has no stream yet.
abbrev pub restarted : (ℕ → Option ℕ) → Descriptor → Descriptor
restarted answer d = record d {
  fd = answer d.id;
  handle = false;
  offset = if d.handle then 0 else d.offset;
}

-- The file that `direct_close` leaves differs from the one before at most in what `settle` resets.
abbrev pub Settled : File → File → Type 0
Settled f g = (g ≡ f) ⊎ (g ≡ settle f)

settle-settle : (f : File) → settle (settle f) ≡ settle f
unfolding settle
settle-settle f = ground arith

settle-compressor : (f : File) → (settle f).compressor ≡ f.compressor
unfolding settle
settle-compressor f = ground arith

direct_close-some :
    (closed : ℕ → Bool) (f : File) (c : Compressor) (d : Descriptor)
    → f.compressor ≡ some c
    → direct_close closed f d
      ≡ some (settle f, close_stream d, if d.handle then closed d.id else true)
unfolding direct_close
direct_close-some closed f c d e = ground (arith, e)

still-Settled : (f g : File) → Settled (settle f) g → Settled f g
still-Settled f g (inl e) = inr e
still-Settled f g (inr e) = inr (e ∙ settle-settle f)

-- Whether all descriptors are open.
unfoldable pub all_open : List Descriptor → Bool
all_open [] = true
all_open (d ∷ ds) = is_some d.fd && all_open ds

file_close-open :
    (d : Descriptor) → is_some d.fd ≡ true → file_close (close_stream d) ≡ some (shut d)
unfolding file_close close_stream
file_close-open d e = ground (arith, e)

file_close-dies : (d : Descriptor) → is_some d.fd ≡ false → file_close (close_stream d) ≡ none
unfolding file_close close_stream
file_close-dies d e = ground (arith, e)

pub close_all-some :
    (closed : ℕ → Bool) (f : File) (c : Compressor) (ds : List Descriptor)
    → f.compressor ≡ some c
    → all_open ds ≡ true
    → (g : File) × (close_all closed f ds ≡ some (g, map shut ds)) × Settled f g
unfolding close_all all_open
close_all-some closed f c [] e o = (f, refl, inl refl)
close_all-some closed f c (d ∷ ds) e o =
    let (p, q) = both_open (is_some d.fd) (all_open ds) o in
    let (g, eq, settled) = close_all-some closed (settle f) c ds (settle-compressor f ∙ e) q in
    (g, rw (direct_close-some closed f c d e, file_close-open d p, eq), still-Settled f g settled)
  where
    both_open : (a b : Bool) → (a && b) ≡ true → (a ≡ true) × (b ≡ true)
    both_open a b h = ground (arith, h)

pub close_all-dies :
    (closed : ℕ → Bool) (f : File) (c : Compressor) (ds : List Descriptor)
    → f.compressor ≡ some c
    → all_open ds ≡ false
    → close_all closed f ds ≡ none
unfolding close_all all_open
close_all-dies closed f c [] e o = ground (arith, o)
close_all-dies closed f c (d ∷ ds) e o = elim (Bool-cases (is_some d.fd)) [
  | inr gone ↦ rw (direct_close-some closed f c d e, file_close-dies d gone)
  | inl here ↦
      let rest =
        close_all-dies closed (settle f) c ds (settle-compressor f ∙ e) (ground (arith, here, o)) in
      rw (direct_close-some closed f c d e, file_close-open d here, rest)
]

pub reopen_all-shut :
    (answer : ℕ → Option ℕ) (ds : List Descriptor)
    → reopen_all answer (map shut ds) ≡ map (restarted answer) ds
unfolding reopen_all
reopen_all-shut answer [] = refl
reopen_all-shut answer (d ∷ ds) = ap (λ rest. restarted answer d ∷ rest) (reopen_all-shut answer ds)
