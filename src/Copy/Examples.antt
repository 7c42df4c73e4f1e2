-- ===== src/Copy/Examples.antt =====
-- Runs of the copy loops, and inputs at which their theorems apply.
use pcfs.Base.{
  ℕ, ◌≡◌, refl, true, false, ◌∷◌, [], Option, none, some, length, zero, suc, ◌≤◌, arith,
}
use mathlib.Core.Option.{some-injective}
use pcfs.Copy.{
  Source, chunk, eof, read_error, Calls, null_copy, null_compress, fill, null_decompress, gz_copy,
  Opening, gz_compress, gz_decompress,
}
use pcfs.Copy.Null.{null_decompress-null_compress}
use pcfs.Copy.Gz.{gz_compress-size, gz_decompress-counts}

abbrev two_chunks : Source
two_chunks = chunk (1 ∷ 2 ∷ []) (chunk (3 ∷ []) eof)

abbrev three_bytes : Source
three_bytes = chunk (1 ∷ 2 ∷ 3 ∷ []) eof

abbrev wrote_two_one : ℕ → Option ℕ
wrote_two_one zero = some 2
wrote_two_one (suc i) = some 1

abbrev complete : Calls
complete = record { cancelled = λ i. false; wrote = wrote_two_one }

abbrev failing : Calls
failing = record { cancelled = λ i. false; wrote = λ i. none }

-- Every `write` returns -1, and `nullCompress` returns the size of the source.
unwritten : null_compress failing two_chunks ≡ record { size = some 3; taken = [] }
unfolding null_compress null_copy
unwritten = refl

-- A cancelled copy returns the number of bytes so far.
stopped :
    (null_compress (record { cancelled = λ i. true; wrote = wrote_two_one }) two_chunks).size
    ≡ some 2
unfolding null_compress null_copy
stopped = refl

unreadable : (null_compress complete (chunk (1 ∷ 2 ∷ []) read_error)).size ≡ none
unfolding null_compress null_copy
unreadable = refl

-- A `write` of one byte of the three.
short : null_decompress (λ i. some 1) three_bytes ≡ record { size = some 1; taken = 1 ∷ [] }
unfolding null_decompress fill
short = refl

null_decompress-null_compress_example :
    (null_decompress (λ i. some 3) three_bytes ≡ null_compress complete two_chunks)
    × ((null_decompress (λ i. some 3) three_bytes).taken ≡ 1 ∷ 2 ∷ 3 ∷ [])
unfolding null_compress null_copy
null_decompress-null_compress_example =
    null_decompress-null_compress complete (λ i. some 3) two_chunks three_bytes (λ i. refl)
      (tt, (omega arith, (omega arith, tt)), (refl, (refl, tt))) (tt, (refl, tt)) refl

abbrev working : Opening
working = record { duplicated = true; opened = true }

-- zlib takes nothing, and says so with 0.
gz_compress-size_example :
    (gz_compress working
      (record { cancelled = λ i. false; wrote = λ i. some 0 })
      two_chunks).copied.size
    ≡ some 3
gz_compress-size_example =
    gz_compress-size working (record { cancelled = λ i. false; wrote = λ i. some 0 }) two_chunks
      (refl, refl) (λ i. refl) tt ((0, refl), ((0, refl), tt))

untaken :
    (gz_compress working
      (record { cancelled = λ i. false; wrote = λ i. some 0 })
      two_chunks).copied.taken
    ≡ []
unfolding gz_compress gz_copy
untaken = refl

few : (n : ℕ) → some 3 ≡ some n → n ≤ 3
few n e = omega (arith, some-injective _ _ e)

gz_decompress-counts_example :
    (true ≡ true)
    × (true ≡ true)
    × (3 ≡ length (gz_decompress working (λ i. some 3) three_bytes).copied.taken)
    × (◌≡◌ {A = ℕ} 3 3
        → (gz_decompress working (λ i. some 3) three_bytes).copied.taken ≡ 1 ∷ 2 ∷ 3 ∷ [])
unfolding gz_decompress fill
gz_decompress-counts_example =
    gz_decompress-counts working (λ i. some 3) three_bytes 3 (few, tt) refl
