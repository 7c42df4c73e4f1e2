-- ===== src/Stream/Appended.antt =====
-- Whole calls of `direct_compress` at the end of a file, one and many.
use pcfs.Base.{
  ℕ, ◌+◌, ◌≤◌, ◌≡◌, refl, sym, ap, ◌∙◌, Bool, true, false, not, ◌&&◌, ◌||◌, List, ◌++◌, Option,
  none, some, arith, ltb, ◌==◌, if◌then◌else◌, is_some, ◌>>=◌, bind-at, length, length-append, take,
  take-all, if-true, if-false, elim-all, true_ne_false,
}
use pcfs.Types.{Compressor, Direction, idle, reading, writing, Descriptor, File}
use pcfs.Database.{flush_file_cache}
use pcfs.Header.{header_of}
use pcfs.Stream.Read.{open_descriptor}
use pcfs.Stream.Delivered.{await_decompress-quiet, is_some-value}
use pcfs.Stream.Write.{
  WriteAnswers, Disk, Writing, Written, settled, is_writing, begin_writing, is_at, cannot_append,
  at_end, appended, took, append, then_append, begin_write, start_write, direct_compress,
}
use pcfs.Stream.Append.{
  Taking, Appendable, open_writer-Opens, write_header-full, length-header, get-put,
}

-- What a call at the end leaves that wrote `bs`: the stream has taken these too, the header says how
-- much that is in all, and the file can be appended to again.
pub record Appends (m : Compressor) (bs : List ℕ) (id : ℕ) (disk : Disk) (v : Written)
    : Type 0 where
  pub result : v.result ≡ some (length bs)
  pub packed : v.disk.packed ≡ disk.packed ++ bs
  pub head : v.disk.head ≡ header_of m (length v.disk.packed)
  pub again : (x : Descriptor) × (x.id ≡ id) × Appendable m v.file x v.disk

still_writing :
    (d : Direction)
    → is_writing (begin_writing d) ≡ true
    → is_writing (begin_writing (begin_writing d)) ≡ true
still_writing idle h = refl
still_writing reading h = h
still_writing writing h = refl

appendable :
    (p q r s : Bool)
    → p ≡ true
    → q ≡ true
    → r ≡ true
    → s ≡ false
    → (not p || (not q || (not r || s))) ≡ false
appendable p q r s e f g h = ground (arith, e, f, g, h)

equal : (n l : ℕ) → n ≡ l → (n == l) ≡ true
equal n l e = ground (arith, e)

at_size : (n : ℕ) (o : Option ℕ) (l : ℕ) → o ≡ some l → n ≡ l → is_at n o ≡ true
at_size n o l e f = ap (is_at n) e ∙ equal n l f

one_user : (n : ℕ) → n ≤ 1 → ltb 1 n ≡ false
one_user n h = ground (arith, h)

flushed-Appendable :
    (m : Compressor) (f : File) (total : ℕ) (x : Descriptor) (disk : Disk)
    → Appendable m f x disk
    → Appendable m (flush_file_cache f total).0 x disk
unfolding flush_file_cache
flushed-Appendable m f total x disk h =
    elim-all (λ (p : File × ℕ). Appendable m p.0 x disk) f.cache _ _ (λ q. h)
      (λ slots q. record {
        packed = h.packed;
        known = h.known;
        at_end = h.at_end;
        written = h.written;
        alone = h.alone;
        quiet = h.quiet;
        listed = h.listed;
        opened = h.opened;
        begun = h.begun;
        short = h.short;
      })

module _ (a : WriteAnswers) (good : Taking a) (m : Compressor) where
  append-Appends :
      (bs : List ℕ) (w : Writing) (y : Descriptor) (old : Disk)
      → Appendable m w.file y old
      → old.packed ≡ w.disk.packed
      → (w.descriptor.id ≡ y.id) × (w.descriptor.fd ≡ y.fd) × (w.descriptor.offset ≡ y.offset)
      → w.descriptor.handle ≡ true
      → length w.disk.head ≤ 12
      → (v : Written) × (append a bs w ≡ some v) × Appends m bs y.id w.disk v
  unfolding append
  append-Appends bs w y old h same (i, fd, o) on sh =
      let n : ℕ = w.descriptor.offset + length bs in
      let w1 : Writing = record (appended bs (length bs) w) {
        disk = record { head = header_of m n; packed = w.disk.packed ++ take (length bs) bs };
      } in
      let total : n ≡ length (w.disk.packed ++ take (length bs) bs) = omega (
        arith,
        o,
        h.at_end,
        ap length same,
        ap length (take-all bs),
        length-append w.disk.packed (take (length bs) bs),
      ) in
      (
        settled w1 (some (length bs)),
        bind-at _ m h.packed
            ∙ ap (took a bs w) (good.takes bs)
            ∙ if-true _ _ good.seeks_again
            ∙ ap (λ r. r >>= at_end a (length bs))
                (write_header-full (appended bs (length bs) w) a.header_again m n h.packed refl sh
                  good.writes_again)
            ∙ ap (λ b. some (settled w1 (if true && b then some (length bs) else none)))
                good.seeks_end,
        record {
          result = refl;
          packed = ap (λ r. w.disk.packed ++ r) (take-all bs);
          head = ap (header_of m) total;
          again = (
            w1.descriptor,
            i,
            record {
              packed = h.packed;
              known = ap some total;
              at_end = total;
              written = h.written;
              alone = h.alone;
              quiet = h.quiet;
              listed = get-put y w1.descriptor w.file.head i h.listed;
              opened = ap is_some fd ∙ h.opened;
              begun = λ q. elim (true_ne_false (sym on ∙ q)) [ ];
              short = omega (arith, length-header m n);
            },
          );
        },
      )

  begin_write-Appends :
      (bs : List ℕ) (w : Writing)
      → Appendable m w.file w.descriptor w.disk
      → is_writing w.file.direction ≡ true
      → (v : Written) × (begin_write a bs (length w.disk.packed) w ≡ some v)
        × Appends m bs w.descriptor.id w.disk v
  unfolding begin_write cannot_append
  begin_write-Appends bs w h wr =
      let (x, t, e, i, fd, o, on, sh) = open_writer-Opens a w m good h in
      let w1 : Writing = record w { descriptor = x; disk = record w.disk { head = t } } in
      let (v, q, r) = append-Appends bs w1 w.descriptor w.disk h refl (i, fd, o) on sh in
      (
        v,
        if-false _ _ (
              appendable (is_at w.descriptor.offset w.file.size) _ _ _
                (at_size w.descriptor.offset w.file.size (length w.disk.packed) h.known h.at_end)
                (equal w.descriptor.offset (length w.disk.packed) h.at_end) wr
                (one_user w.file.accesses h.alone))
            ∙ ap (λ r. r >>= then_append a bs) e
            ∙ q,
        record { result = r.result; packed = r.packed; head = r.head; again = r.again },
      )

  -- If the calls of the module and of the system succeed and take all that they are given, a write of
  -- `direct_compress` at the end of a file that one user writes from its beginning returns the number
  -- of bytes, the stream has taken these bytes after the earlier ones, the header on disk is that of
  -- the module with the number of all bytes, and the file can be written to at its end again.
  pub direct_compress-Appends :
      (others : List (File × ℕ → File × ℕ)) (bs : List ℕ) (f : File) (total : ℕ) (x : Descriptor)
      (disk : Disk)
      → Appendable m f x disk
      → (v : Written) × (direct_compress a others x.id bs (length disk.packed) f total disk
          ≡ some v)
        × Appends m bs x.id disk v
  unfolding direct_compress open_descriptor
  direct_compress-Appends others bs f total x disk h =
      let g : File × ℕ = flush_file_cache f total in
      let h1 : Appendable m g.0 x disk = flushed-Appendable m f total x disk h in
      let w : Writing = start_write x disk g in
      let h2 : Appendable m w.file x disk = record {
        packed = h1.packed;
        known = h1.known;
        at_end = h1.at_end;
        written = still_writing g.0.direction h1.written;
        alone = h1.alone;
        quiet = h1.quiet;
        listed = h1.listed;
        opened = h1.opened;
        begun = h1.begun;
        short = h1.short;
      } in
      let (v, e, r) = begin_write-Appends bs w h2 h1.written in
      let (y, c) = is_some-value x.fd h.opened in
      (
        v,
        bind-at _ m h.packed
            ∙ bind-at _ x (bind-at _ x h.listed ∙ bind-at _ y c)
            ∙ bind-at _ g (await_decompress-quiet others g.0 g.1 h1.quiet)
            ∙ bind-at _ x h1.listed
            ∙ e,
        r,
      )
