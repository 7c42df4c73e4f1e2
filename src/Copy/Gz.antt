-- ===== src/Copy/Gz.antt =====
-- The loops of the module gz: what its results say, and the streams that it closes.
use pcfs.Base.{
  ℕ, ◌+◌, ◌≡◌, refl, sym, ap, ◌∙◌, Bool, true, false, not, ◌&&◌, is_some, true_ne_false, List, [],
  ◌++◌, Option, some, length, take, elim-at_some, if-false, zero_plus,
}
use mathlib.Core.Path.{ap₂}
use pcfs.Copy.{
  Source, chunk, eof, read_error, bytes_of, Copied, Calls, gz_copy, Opening, Streamed, streamed,
  gz_compress, gz_decompress,
}
use pcfs.Copy.Null.{IsWhole, Undisturbed, WritesFew, Sound, fill-Sound, length_shift, plus_zero}

-- No `gzwrite` from the chunk number `i` on returns -1. It may take less than it is given, or nothing.
abbrev pub NoMinusOne : (ℕ → Option ℕ) → ℕ → Source → Type 0
NoMinusOne wrote i (chunk c s) = ((n : ℕ) × (wrote i ≡ some n)) × NoMinusOne wrote (i + 1) s
NoMinusOne wrote i eof = Unit {0}
NoMinusOne wrote i read_error = Unit {0}

gz_copy-size :
    (a : Calls)
    → Undisturbed a
    → (i : ℕ) (s : Source) (n : ℕ) (t : List ℕ) → IsWhole s
    → NoMinusOne a.wrote i s
    → (gz_copy a i s n t).size ≡ some (n + length (bytes_of s))
unfolding gz_copy
gz_copy-size a calm i (chunk c s) n t w v =
    ap Copied.size (elim-at_some _ _ v.0.0 v.0.1 ∙ if-false _ _ (calm i))
    ∙ gz_copy-size a calm (i + 1) s (n + length c) (t ++ take v.0.0 c) w v.1
    ∙ ap some (length_shift n c (bytes_of s))
gz_copy-size a calm i eof n t w v = ap some (plus_zero n)
gz_copy-size a calm i read_error n t w v = elim w [ ]

-- `gzCompress` looks at `gzwrite` for -1 only: if the stream opens, the source is read to its end,
-- nobody cancels and no `gzwrite` returns -1, the result is the number of bytes of the source, whatever
-- number of them the stream took.
pub gz_compress-size :
    (o : Opening) (a : Calls) (s : Source)
    → (o.duplicated ≡ true) × (o.opened ≡ true)
    → Undisturbed a
    → IsWhole s
    → NoMinusOne a.wrote 0 s
    → (gz_compress o a s).copied.size ≡ some (length (bytes_of s))
unfolding gz_compress
gz_compress-size o a s h calm w v =
    ap (λ x. x.copied.size) (ap₂ (λ d g. streamed d g (gz_copy a 0 s 0 [])) h.0 h.1)
    ∙ gz_copy-size a calm 0 s 0 [] w v
    ∙ ap some (zero_plus (length (bytes_of s)))

-- What the result of a call on a stream says of the bytes that were taken.
abbrev Counts : Bool → Bool → Source → Streamed → Type 0
Counts d g s r =
    (m : ℕ)
    → r.copied.size ≡ some m
    → (d ≡ true)
      × (g ≡ true)
      × (m ≡ length r.copied.taken)
      × (m ≡ length (bytes_of s) → r.copied.taken ≡ bytes_of s)

streamed-Counts :
    (d g : Bool) (s : Source) (c : Copied) → Sound 0 [] s c → Counts d g s (streamed d g c)
streamed-Counts false g s c h m r = elim (true_ne_false (sym (ap is_some r))) [ ]
streamed-Counts true false s c h m r = elim (true_ne_false (sym (ap is_some r))) [ ]
streamed-Counts true true s c h m r =
    (refl, refl, (h m r).0, λ q. (h m r).2 (q ∙ sym (zero_plus (length (bytes_of s)))))

-- `gzDecompress` returns a size only if the stream opened. It is then the number of the bytes that the
-- destination took, and if it is the number of bytes in the stream the destination has exactly these,
-- provided that no `write` returns more than it was given.
pub gz_decompress-counts :
    (o : Opening) (wrote : ℕ → Option ℕ) (s : Source) (m : ℕ)
    → WritesFew wrote 0 s
    → (gz_decompress o wrote s).copied.size ≡ some m
    → (o.duplicated ≡ true)
      × (o.opened ≡ true)
      × (m ≡ length (gz_decompress o wrote s).copied.taken)
      × (m ≡ length (bytes_of s) → (gz_decompress o wrote s).copied.taken ≡ bytes_of s)
unfolding gz_decompress
gz_decompress-counts o wrote s m w r =
    streamed-Counts o.duplicated o.opened s _ (fill-Sound wrote 0 s 0 [] w refl) m r

-- The duplicate of the descriptor is closed once if there is one: with the stream if one was opened,
-- and else by itself.
abbrev Closes : Bool → Bool → Streamed → Type 0
Closes d g r = (r.closed_stream ≡ (d && g)) × (r.closed_duplicate ≡ (d && not g))

streamed-Closes : (d g : Bool) (c : Copied) → Closes d g (streamed d g c)
streamed-Closes false g c = (refl, refl)
streamed-Closes true false c = (refl, refl)
streamed-Closes true true c = (refl, refl)

-- However a call of `gzCompress` or of `gzDecompress` ends, the duplicate of the descriptor that it
-- made is closed once: with the stream if one was opened, and else by itself.
pub gz-Closes :
    (o : Opening) (a : Calls) (wrote : ℕ → Option ℕ) (s : Source)
    → Closes o.duplicated o.opened (gz_compress o a s)
      × Closes o.duplicated o.opened (gz_decompress o wrote s)
unfolding gz_compress gz_decompress
gz-Closes o a wrote s =
    (streamed-Closes o.duplicated o.opened _, streamed-Closes o.duplicated o.opened _)
