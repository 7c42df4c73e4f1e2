-- ===== src/Truncate/Plain.antt =====
-- What a successful `PCFS_truncate` or `PCFS_link` leaves.
use pcfs.Base.{
  ℕ, ◌≡◌, ap, Bool, true, false, ◌&&◌, none, some, arith, ◌==◌, if◌then◌else◌, is_some, bind-some,
  if-cases, sym, ◌∙◌, inl, inr,
}
use mathlib.Core.Option.{some-injective}
use pcfs.Types.{File}
use pcfs.Decompress.{Answers, Run, do_decompress}
use pcfs.Decompress.Outcome.{Ended, do_decompress-Ended}
use pcfs.Handlers.{Ending, ok, failed}
use pcfs.Truncate.{Made, made_of, close_streams, make_plain, set_size, truncate_file, link_file}

-- A run of `do_decompress` that returns TRUE leaves no compressor.
run-plain :
    (a : Answers) (f : File) (r : Run)
    → Ended a f.head r
    → r.result ≡ true
    → r.file.compressor ≡ none
run-plain a f r (inl (_, inl (_, _, _, plain, _, _))) e = plain
run-plain a f r (inl (_, inr (_, _, _, plain, _, _))) e = plain
run-plain a f r (inr (bad, _)) e = ground (arith, bad, e)

make_plain-plain :
    (a : Answers) (nothing : Bool) (f : File) (total : ℕ) (m : Made)
    → make_plain a nothing f total ≡ some m
    → m.plain ≡ true
    → m.file.compressor ≡ none
unfolding make_plain
make_plain-plain a nothing f total m e well =
    if-cases (is_some f.compressor) _ _ (some m) e
      (λ _ h.
        if-cases nothing _ _ (some m) h
          (λ _ h1.
            let (c, _, h2) = bind-some (close_streams a.closed f f.head) _ m h1 in
            ap (λ (x : Made). x.file.compressor) (sym (some-injective _ m h2)))
          (λ _ h1.
            let (r, run, h2) = bind-some (do_decompress a f total) _ m h1 in
            let same = some-injective (made_of r) m h2 in
            ap (λ (x : Made). x.file.compressor) (sym same)
            ∙ run-plain a f r (do_decompress-Ended a f total r run)
                (ap (λ (x : Made). x.plain) same ∙ well)))
      (λ bare h.
        ap (λ (x : Made). x.file.compressor) (sym (some-injective _ m h)) ∙ ground (arith, bare))

abbrev result : File → ℕ → Ending → File × ℕ × Ending
result f n e = (f, n, e)

-- A truncation that returns 0 leaves a record without a compressor and with the size asked for, whatever
-- the other calls answered. What is on the disk is not part of this: a record can lack the compressor of
-- a compressed file.
truncate_file-plain :
    (a : Answers) (opened truncated : Bool) (size : ℕ) (f g : File) (total rest : ℕ)
    → truncate_file a opened truncated size f total ≡ some (g, rest, ok)
    → (g.compressor ≡ none) × (g.size ≡ some size) × (opened ≡ true) × (truncated ≡ true)
unfolding truncate_file set_size
truncate_file-plain a opened truncated size f g total rest e =
    let (m, made, h) = bind-some (make_plain a (size == 0) f total) _ (result g rest ok) e in
    let same = some-injective (set_size opened truncated size m) (result g rest ok) h in
    if-cases (m.plain && opened && truncated) _ _ (result g rest ok) same
      (λ all h1.
        let plain = make_plain-plain a (size == 0) f total m made (ground (arith, all)) in
        let file : record m.file { size = some size } ≡ g =
          ap (λ (x : File × ℕ × Ending). x.0) h1 in
        (
          ap (λ (x : File). x.compressor) (sym file) ∙ plain,
          ap (λ (x : File). x.size) (sym file),
          ground (arith, all),
          ground (arith, all),
        ))
      (λ _ h1.
        let bad : failed ≡ ok = ap (λ (x : File × ℕ × Ending). x.2) h1 in ground (arith, bad))

-- The record of a file that `PCFS_link` gave a second name has no compressor, and is marked not to be
-- compressed by its users.
link_file-plain :
    (a : Answers) (linked : Bool) (f g : File) (total rest : ℕ)
    → link_file a linked f total ≡ some (g, rest, ok)
    → (g.compressor ≡ none) × (g.dontcompress ≡ true) × (linked ≡ true)
unfolding link_file
link_file-plain a linked f g total rest e =
    let (m, made, h) = bind-some (make_plain a false f total) _ (result g rest ok) e in
    let same = some-injective _ (result g rest ok) h in
    if-cases m.plain _ _ (result g rest ok) same
      (λ well h1.
        let plain = make_plain-plain a false f total m made well in
        let file : record m.file { dontcompress = true } ≡ g =
          ap (λ (x : File × ℕ × Ending). x.0) h1 in
        let end : (if linked then ok else failed) ≡ ok = ap (λ (x : File × ℕ × Ending). x.2) h1 in
        (
          ap (λ (x : File). x.compressor) (sym file) ∙ plain,
          ap (λ (x : File). x.dontcompress) (sym file),
          ground (arith, end),
        ))
      (λ _ h1.
        let bad : failed ≡ ok = ap (λ (x : File × ℕ × Ending). x.2) h1 in ground (arith, bad))
