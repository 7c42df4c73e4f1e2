-- ===== src/Header/Reading.antt =====
-- Which byte strings are headers, and which make the code read outside its table.
use mathlib.Core.Option.{some-injective}
use pcfs.Base.{ℕ, ap, ◌-◌, ◌^◌, ◌<◌, ◌≡◌, List, [], ◌∷◌, Option, none, some, arith, ◌↔◌, subst, sym}
use pcfs.Types.{Compressor, type_of}
use pcfs.Header.{
  number8, header_of, file_write_header, file_read_header_fd, got, header, undefined, compressors,
  find_compressor,
}
use pcfs.Header.Roundtrip.{read-header_of}

-- Twelve bytes.
pub record Twelve : Type 0 where
  pub i0 : ℕ
  pub i1 : ℕ
  pub i2 : ℕ
  pub t : ℕ
  pub b0 : ℕ
  pub b1 : ℕ
  pub b2 : ℕ
  pub b3 : ℕ
  pub b4 : ℕ
  pub b5 : ℕ
  pub b6 : ℕ
  pub b7 : ℕ

abbrev pub list_of : Twelve → List ℕ
list_of w = w.i0 ∷ w.i1 ∷ w.i2 ∷ w.t ∷ w.b0 ∷ w.b1 ∷ w.b2 ∷ w.b3 ∷ w.b4 ∷ w.b5 ∷ w.b6 ∷ w.b7 ∷ []

-- Each of the size bytes is below 256.
pub record AreBytes (w : Twelve) : Type 0 where
  pub small0 : w.b0 < 256
  pub small1 : w.b1 < 256
  pub small2 : w.b2 < 256
  pub small3 : w.b3 < 256
  pub small4 : w.b4 < 256
  pub small5 : w.b5 < 256
  pub small6 : w.b6 < 256
  pub small7 : w.b7 < 256

-- What a successful read says of the bytes.
accepted :
    (w : Twelve) (n0 : ℕ) (c : Compressor) (n : ℕ)
    → file_read_header_fd none n0 (got (list_of w)) ≡ header (some c) n
    → (w.i0 ≡ 31)
      × (w.i1 ≡ 93)
      × (w.i2 ≡ 137)
      × (w.t ≡ type_of c)
      × (n ≡ number8 (w.b0 ∷ w.b1 ∷ w.b2 ∷ w.b3 ∷ w.b4 ∷ w.b5 ∷ w.b6 ∷ w.b7 ∷ []))
unfolding file_read_header_fd find_compressor compressors
accepted w n0 c n h = ground arith

accepted-written :
    (w : Twelve) (n0 : ℕ) (c : Compressor) (n : ℕ)
    → AreBytes w
    → file_read_header_fd none n0 (got (list_of w)) ≡ header (some c) n
    → (list_of w ≡ header_of c n) × (n < 2 ^ 64)
unfolding header_of
accepted-written w n0 c n v h =
    let (e0, e1, e2, et, en) = accepted w n0 c n h in
    (ground (arith, e0, e1, e2, et, en, v), omega arith)

-- Twelve bytes are read as a header, with a compressor and a size other than -1, exactly if they are
-- the ones that `file_write_header` writes for that compressor and that size.
pub read_iff_written :
    (w : Twelve) (n0 : ℕ) (c : Compressor) (n : ℕ)
    → AreBytes w
    → n < 2 ^ 64 - 1
    → (file_read_header_fd none n0 (got (list_of w)) ≡ header (some c) n)
      ↔ (file_write_header c (some n) ≡ some (list_of w))
unfolding file_write_header
read_iff_written w n0 c n v small = (
  λ h. ap some (sym (accepted-written w n0 c n v h).0),
  λ e.
      subst (λ bs. file_read_header_fd none n0 (got bs) ≡ header (some c) n)
        (some-injective (header_of c n) (list_of w) e)
        (read-header_of c n none n0 (omega (arith, small))),
)

-- The look-up of the compressor leaves its table exactly for the magic bytes with type 5, whatever
-- the size field says.
pub undefined_iff_five :
    (w : Twelve) (c0 : Option Compressor) (n0 : ℕ)
    → (file_read_header_fd c0 n0 (got (list_of w)) ≡ undefined)
      ↔ ((w.i0 ≡ 31) × (w.i1 ≡ 93) × (w.i2 ≡ 137) × (w.t ≡ 5))
unfolding file_read_header_fd find_compressor compressors
undefined_iff_five w c0 n0 = (λ h. ground arith, λ h. ground arith)
