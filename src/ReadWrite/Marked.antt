-- ===== src/ReadWrite/Marked.antt =====
-- What `PCFS_write` returns for a file that it packs.
use pcfs.Base.{
  ℕ, ◌+◌, ◌*◌, ◌≤◌, ◌≡◌, ◌↔◌, refl, ap, sym, ◌∙◌, true, false, List, [], ◌∷◌, ◌++◌, some, arith,
  is_some, bind-at, if-true, if-false, length, ltb, take, replicate,
}
use mathlib.Core.Path.{ap₂}
use pcfs.Types.{File, Config, page_size}
use pcfs.Handlers.{choose_at_write}
use pcfs.Sectors.{Packer, pcfs_compress, written_size}
use pcfs.ReadWrite.{
  Pwrites, sent, sum_of, Stored, after_write, flatten, packed_bytes, store, write_file,
}

-- The page of marks and the sectors are taken whole.
abbrev pub TakesAll : Pwrites → Packer → Type 0
TakesAll a p = (a.marks ≡ some page_size) × (a.sectors ≡ some (written_size p))

not_over : (m n : ℕ) → n ≤ m → ltb m n ≡ false
not_over m n h = ground (arith, h)

sent-injective : (m n : ℕ) → sent m ≡ sent n → m ≡ n
sent-injective m n e = ground (arith, e)

-- A write that is packed without a read behind `wrBuf`, to a file that has a module then, and whose two
-- calls of `pwrite` take all they are given: the page of marks goes to the offset that was asked for,
-- in the place where a header would be, and the sectors one page behind it; the size of the file stays
-- as it was; and the result, 4096 for each sector and for the marks, is the number of bytes that were
-- asked to be written only if there is one sector less than pages of them.
pub write_file-sends :
    (k : Config) (deflate : List ℕ → ℕ × List ℕ) (behind : List ℕ) (total_w blk : ℕ) (a : Pwrites)
    (buf : List ℕ) (offset : ℕ) (f g : File) (p : Packer)
    → pcfs_compress deflate buf behind total_w blk ≡ some p
    → written_size p ≤ p.capacity
    → choose_at_write k offset f ≡ some g
    → is_some g.compressor ≡ true
    → TakesAll a p
    → (w : Stored) × (write_file k deflate behind total_w blk a buf offset f ≡ some w)
      × (w.writes
          ≡ (offset, p.mark)
            ∷ (
              offset + page_size,
              take (written_size p) (replicate (page_size * blk) 0 ++ flatten p.wr_buf),
            )
            ∷ [])
      × (w.file.size ≡ g.size)
      × ((w.result ≡ sent (length buf)) ↔ (page_size * (p.blk + 1) ≡ length buf))
unfolding write_file store packed_bytes
write_file-sends k deflate behind total_w blk a buf offset f g p e room c packed (m, t) =
    let bytes : List ℕ =
      take (written_size p) (replicate (page_size * blk) 0 ++ flatten p.wr_buf) in
    let taken : sum_of a.marks a.sectors ≡ sent (page_size + written_size p) = ap₂ sum_of m t in
    (
      record {
        file = after_write g (sum_of a.marks a.sectors);
        packer = p;
        writes = (offset, p.mark) ∷ (offset + page_size, bytes) ∷ [];
        result = sum_of a.marks a.sectors;
      },
      bind-at _ p e
          ∙ bind-at _ g c
          ∙ if-true _ _ packed
          ∙ bind-at _ bytes (if-false _ _ (not_over p.capacity (written_size p) room)),
      refl,
      ap (λ r. (after_write g r).size) taken,
      (
        (λ q.
            omega
              (arith, sent-injective (page_size + written_size p) (length buf) (sym taken ∙ q))),
        (λ q. taken ∙ ap sent (omega (arith, q))),
      ),
    )
