-- ===== src/Copy/Null.antt =====
-- The loops of the module null.
use pcfs.Base.{
  take-all, zero_plus, ℕ, ◌+◌, ◌≤◌, ◌≡◌, refl, ap, false, List, [], ◌++◌, Option, none, some, arith,
  ◌==◌, length, take, length-append, append_assoc, append-nil, sym, ◌∙◌, subst, is_some,
  true_ne_false, Option-cases, elim-at_none, elim-at_some, length-take, if-false,
}
use mathlib.Core.Path.{ap₂}
use mathlib.Core.Option.{some-injective}
use mathlib.Core.Logic.{inl, inr}
use pcfs.Copy.{
  Source, chunk, eof, read_error, bytes_of, Copied, accepted, is_zero, Calls, null_copy,
  null_compress, fill, null_decompress,
}

-- The source ends without an error.
abbrev pub IsWhole : Source → Type 0
IsWhole (chunk c s) = IsWhole s
IsWhole eof = Unit {0}
IsWhole read_error = ⊥

-- No chunk is empty: `read` returned more than 0.
abbrev pub NoEmpty : Source → Type 0
NoEmpty (chunk c s) = (length c ≡ 0 → ⊥) × NoEmpty s
NoEmpty eof = Unit {0}
NoEmpty read_error = Unit {0}

take_whole : (c : List ℕ) (k : ℕ) → k ≡ length c → take k c ≡ c
take_whole c k e = ap (λ n. take n c) e ∙ take-all c

-- From the chunk number `i` on, `write` writes all it is given.
abbrev pub WritesAll : (ℕ → Option ℕ) → ℕ → Source → Type 0
WritesAll wrote i (chunk c s) = (wrote i ≡ some (length c)) × WritesAll wrote (i + 1) s
WritesAll wrote i eof = Unit {0}
WritesAll wrote i read_error = Unit {0}

-- No write writes more than it is given.
abbrev pub WritesFew : (ℕ → Option ℕ) → ℕ → Source → Type 0
WritesFew wrote i (chunk c s) =
    ((n : ℕ) → wrote i ≡ some n → n ≤ length c) × WritesFew wrote (i + 1) s
WritesFew wrote i eof = Unit {0}
WritesFew wrote i read_error = Unit {0}

-- Nobody cancels the compression.
abbrev pub Undisturbed : Calls → Type 0
Undisturbed a = (i : ℕ) → a.cancelled i ≡ false

ne-is_zero : (n : ℕ) → (n ≡ 0 → ⊥) → (n == 0) ≡ false
ne-is_zero n h = ground arith

abbrev copied_of : ℕ → List ℕ → Copied
copied_of n t = record { size = some n; taken = t }

pub plus_zero : (n : ℕ) → n ≡ n + 0
plus_zero n = omega arith

pub length_shift : (n : ℕ) (c u : List ℕ) → (n + length c) + length u ≡ n + length (c ++ u)
length_shift n c u = omega (arith, length-append c u)

null_copy-all :
    (a : Calls)
    → Undisturbed a
    → (i : ℕ) (s : Source) (n : ℕ) (t : List ℕ) → IsWhole s
    → NoEmpty s
    → WritesAll a.wrote i s
    → null_copy a i s n t
      ≡ record { size = some (n + length (bytes_of s)); taken = t ++ bytes_of s }
unfolding null_copy
null_copy-all a calm i (chunk c s) n t w e v =
    let full : is_zero (a.wrote i) ≡ false = ap is_zero v.0 ∙ ne-is_zero (length c) e.0 in
    let got : accepted (a.wrote i) c ≡ c = ap (λ o. accepted o c) v.0 ∙ take-all c in
    let rest =
      null_copy-all a calm (i + 1) s (n + length c) (t ++ accepted (a.wrote i) c) w e.1 v.1 in
    if-false _ _ full
    ∙ if-false _ _ (calm i)
    ∙ rest
    ∙ ap₂ copied_of (length_shift n c (bytes_of s))
        (ap (λ u. (t ++ u) ++ bytes_of s) got ∙ append_assoc t c (bytes_of s))
null_copy-all a calm i eof n t w e v = ap₂ copied_of (plus_zero n) (sym (append-nil t))
null_copy-all a calm i read_error n t w e v = elim w [ ]

-- If the source ends without an error and in chunks that are not empty, every `write` writes the
-- whole chunk and nobody cancels, `nullCompress` returns the number of bytes of the source and the
-- destination has exactly these bytes.
pub null_compress-copies :
    (a : Calls) (s : Source)
    → Undisturbed a
    → IsWhole s
    → NoEmpty s
    → WritesAll a.wrote 0 s
    → null_compress a s ≡ record { size = some (length (bytes_of s)); taken = bytes_of s }
unfolding null_compress
null_compress-copies a s calm w e v =
    null_copy-all a calm 0 s 0 [] w e v
    ∙ ap (λ n. copied_of n (bytes_of s)) (zero_plus (length (bytes_of s)))

-- What a result of the copying loop says of the bytes that were taken.
abbrev pub Sound : ℕ → List ℕ → Source → Copied → Type 0
Sound n t s r =
    (m : ℕ)
    → r.size ≡ some m
    → (m ≡ length r.taken)
      × (m ≤ n + length (bytes_of s))
      × (m ≡ n + length (bytes_of s) → r.taken ≡ t ++ bytes_of s)

pub none-Sound :
    (n : ℕ) (t u : List ℕ) (s : Source) → Sound n t s (record { size = none; taken = u })
none-Sound n t u s m r = elim (true_ne_false (sym (ap is_some r))) [ ]

take-few : (k : ℕ) (c : List ℕ) → k ≤ length c → length (take k c) ≡ k
take-few k c h = omega (arith, length-take k c)

chunk-Sound :
    (n k : ℕ) (t c : List ℕ) (s : Source) (r : Copied)
    → k ≤ length c
    → Sound (n + k) (t ++ take k c) s r
    → Sound n t (chunk c s) r
chunk-Sound n k t c s r h v m e =
    let old = v m e in
    (
      old.0,
      omega (arith, old.1, h, length-append c (bytes_of s)),
      λ q.
          old.2 (omega (arith, old.1, q, h, length-append c (bytes_of s)))
          ∙ ap (λ u. (t ++ u) ++ bytes_of s)
              (take_whole c k (omega (arith, old.1, q, h, length-append c (bytes_of s))))
          ∙ append_assoc t c (bytes_of s),
    )

pub fill-Sound :
    (wrote : ℕ → Option ℕ) (i : ℕ) (s : Source) (n : ℕ) (t : List ℕ)
    → WritesFew wrote i s
    → n ≡ length t
    → Sound n t s (fill wrote i s n t)
unfolding fill
fill-Sound wrote i (chunk c s) n t w e = elim (Option-cases (wrote i)) [
  | inl o ↦ subst (Sound n t (chunk c s)) (sym (elim-at_none _ _ o)) (none-Sound n t t (chunk c s))
  | inr (k, o) ↦ subst (Sound n t (chunk c s)) (sym (elim-at_some _ _ k o)) (
      chunk-Sound n k t c s _ (w.0 k o) (
        fill-Sound wrote (i + 1) s (n + k) (t ++ take k c) w.1
          (omega (arith, e, length-append t (take k c), take-few k c (w.0 k o)))))
]
fill-Sound wrote i eof n t w e = λ m r. (
  omega (arith, e, some-injective _ _ r),
  omega (arith, some-injective _ _ r),
  λ q. sym (append-nil t),
)
fill-Sound wrote i read_error n t w e = none-Sound n t t read_error

-- If `nullDecompress` returns a size then it is the number of the bytes that the destination took, and
-- no more than the source has, provided that no `write` returns more than it was given. If it is what
-- the source has, the destination has exactly the bytes of the source, however many writes fell short.
pub null_decompress-counts :
    (wrote : ℕ → Option ℕ) (s : Source) (m : ℕ)
    → WritesFew wrote 0 s
    → (null_decompress wrote s).size ≡ some m
    → (m ≡ length (null_decompress wrote s).taken)
      × (m ≤ length (bytes_of s))
      × (m ≡ length (bytes_of s) → (null_decompress wrote s).taken ≡ bytes_of s)
unfolding null_decompress
null_decompress-counts wrote s m w r =
    let all = fill-Sound wrote 0 s 0 [] w refl m r in
    (all.0, omega (arith, all.1), λ q. all.2 (omega (arith, q)))

fill-all :
    (wrote : ℕ → Option ℕ) (i : ℕ) (s : Source) (n : ℕ) (t : List ℕ)
    → IsWhole s
    → WritesAll wrote i s
    → fill wrote i s n t ≡ copied_of (n + length (bytes_of s)) (t ++ bytes_of s)
unfolding fill
fill-all wrote i (chunk c s) n t w v =
    elim-at_some _ _ (length c) v.0
    ∙ fill-all wrote (i + 1) s (n + length c) (t ++ take (length c) c) w v.1
    ∙ ap₂ copied_of (length_shift n c (bytes_of s))
        (ap (λ u. (t ++ u) ++ bytes_of s) (take-all c) ∙ append_assoc t c (bytes_of s))
fill-all wrote i eof n t w v = ap₂ copied_of (plus_zero n) (sym (append-nil t))
fill-all wrote i read_error n t w v = elim w [ ]

-- The bytes that `nullCompress` wrote, nobody cancelling and every write complete, come back from
-- `nullDecompress` with the same result, whatever the chunks `p` are in which they are read back, if
-- they are read to the end and the writes of the copy are complete too.
pub null_decompress-null_compress :
    (a : Calls) (wrote : ℕ → Option ℕ) (s p : Source)
    → Undisturbed a
    → IsWhole s × NoEmpty s × WritesAll a.wrote 0 s
    → IsWhole p × WritesAll wrote 0 p
    → bytes_of p ≡ (null_compress a s).taken
    → (null_decompress wrote p ≡ null_compress a s) × ((null_decompress wrote p).taken ≡ bytes_of s)
unfolding null_decompress
null_decompress-null_compress a wrote s p calm w v e =
    let there = null_compress-copies a s calm w.0 w.1 w.2 in
    let same : bytes_of p ≡ bytes_of s = e ∙ ap Copied.taken there in
    let back : null_decompress wrote p ≡ copied_of (length (bytes_of s)) (bytes_of s) =
      fill-all wrote 0 p 0 [] v.0 v.1
      ∙ ap₂ copied_of (zero_plus (length (bytes_of p)) ∙ ap length same) same in
    (back ∙ sym there, ap Copied.taken back)
