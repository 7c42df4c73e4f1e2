-- ===== src/Stream/Requests.antt =====
-- The parts of a call of `direct_decompress` that does not decompress the file, put together.
use pcfs.Base.{
  ℕ, suc, ◌*◌, ◌^◌, ◌≤◌, ◌<◌, ◌≡◌, inl, inr, refl, sym, ap, ◌∙◌, Bool, true, false, ◌&&◌, List,
  some, arith, length, if-true, if-false, ◌==◌, subst, ◌>>=◌,
}
use pcfs.Types.{Descriptor, File, Config}
use pcfs.Stream.Turn.{weight_of}
use pcfs.Stream.Call.{
  ReadAnswers, Doing, Given, put_descriptor, finish, serve_cached, needs_fallback,
}
use pcfs.Stream.Read.{
  last_read, last_or_given, skip_and_read, open_and_read, read_stream, after_cache, start,
  begin_read,
}
use pcfs.Stream.Well.{Placed, Answering, WellFile, Aims, Counted}
use pcfs.Stream.Steps.{rewind-Turns, open_stream-Turns}
use pcfs.Stream.Passing.{skip_to-Arrives}
use pcfs.Stream.Cached.{Cached, serve_cached-Cached}
use pcfs.Stream.Exact.{Delivers, last_read-Delivers, well_head}

-- The call does not decompress the file.
abbrev pub StaysPacked : Config → Doing → Type 0
StaysPacked k w = (v : Doing) (b : Bool) → serve_cached w ≡ some (v, b) → needs_fallback k v ≡ false

not_empty : (b : Bool) (n m : ℕ) → n ≡ suc m * 4096 → (b && (n == 0)) ≡ false
not_empty b n m e = ground (arith, e)

nothing_left : (b : Bool) (n : ℕ) → b ≡ true → n ≡ 0 → (b && (n == 0)) ≡ true
nothing_left b n e f = ground (arith, e, f)

module _ (c : List ℕ) (a : ReadAnswers) (good : Answering c a) (small : length c < 2 ^ 64)
    (size offset : ℕ) (k : Config) where
  -- What is delivered of a call is delivered of one that it goes on.
  like :
      (v w : Doing) (g : Given)
      → Counted w.total w.file.cache v.total v.file.cache
      → v.file.head ≡ w.file.head
      → Delivers c size offset v g
      → v.descriptor.id ≡ w.descriptor.id
      → Delivers c size offset w g
  like v w g n h d i =
      let (x, e, p, j) = d.descriptor in
      record {
        result = d.result;
        buffer = d.buffer;
        file = d.file;
        counted = omega (arith, n, d.counted);
        descriptor = (x, e ∙ ap (put_descriptor x) h, p, j ∙ i);
      }

  read_stream-Delivers :
      (w : Doing)
      → WellFile c w.file
      → Aims c size offset w
      → Placed c w.descriptor
      → (g : Given) × (read_stream k a w ≡ some g) × Delivers c size offset w g
  unfolding read_stream open_and_read skip_and_read
  read_stream-Delivers w wf aims at =
      let (x1, e1, p1, i1, l1) = rewind-Turns c a good w at in
      let w1 : Doing = record w { descriptor = x1 } in
      let (x2, e2, p2, i2, (on, o2)) = open_stream-Turns c a good w1 p1 in
      let w2 : Doing = record w { descriptor = x2 } in
      let aims2 : Aims c size offset w2 = record {
        first = aims.first;
        pages = aims.pages;
        inside = aims.inside;
        so_far = aims.so_far;
        there = aims.there;
        asked = aims.asked;
        reached = aims.reached;
      } in
      let (u, e3, h) =
        skip_to-Arrives c a good size offset k w2 wf aims2 p2 on (omega (arith, o2, l1)) in
      let d = last_read-Delivers c a good small size offset w2 u h in
      (
        last_read a u,
        if-true _ _ wf.packed
            ∙ ap (λ o. o >>= open_and_read k a) e1
            ∙ ap (λ o. o >>= skip_and_read k a) e2
            ∙ ap (λ o. o >>= last_or_given a) e3,
        like w2 w (last_read a u) refl refl d (i2 ∙ i1),
      )

  after_cache-Delivers :
      (w v : Doing) (b : Bool)
      → Cached c size offset w v b
      → Placed c w.descriptor
      → needs_fallback k v ≡ false
      → (g : Given) × (after_cache k a (v, b) ≡ some g) × Delivers c size offset w g
  unfolding after_cache
  after_cache-Delivers w v b h at packed = elim h.rest [
    | inl (e, (z, s, r)) ↦ (
      finish v (some v.served),
      if-true _ _ (nothing_left b v.size e z),
      record {
        result = ap some s;
        buffer = r;
        file = well_head c v.file _ h.file;
        counted = h.counted;
        descriptor = (
          v.descriptor,
          ap (put_descriptor v.descriptor) h.same_head,
          subst (Placed c) (sym h.same_descriptor) at,
          ap Descriptor.id h.same_descriptor,
        );
      },
    )
    | inr aims ↦
        let (g, e, d) =
          read_stream-Delivers v h.file aims (subst (Placed c) (sym h.same_descriptor) at) in
        (
          g,
          if-false _ _ (not_empty b v.size aims.pages.0 aims.pages.1) ∙ if-false _ _ packed ∙ e,
          like v w g h.counted h.same_head d (ap Descriptor.id h.same_descriptor),
        )
  ]

  -- The call from its test of `file->type` on.
  pub begin_read-Delivers :
      (x : Descriptor) (f : File) (total : ℕ)
      → WellFile c f
      → Placed c x
      → weight_of f.cache ≤ total
      → Aims c size offset (start k x size offset (f, total))
      → StaysPacked k (start k x size offset (f, total))
      → (g : Given) × (begin_read k a x size offset (f, total) ≡ some g)
        × Delivers c size offset (start k x size offset (f, total)) g
  unfolding begin_read
  begin_read-Delivers x f total wf at own aims packed =
      let w : Doing = start k x size offset (f, total) in
      let file : WellFile c w.file = record {
        known = wf.known;
        packed = wf.packed;
        ready = wf.ready;
        sized = wf.sized;
      } in
      let (v, b, e, h) = serve_cached-Cached c size offset w file aims refl refl own in
      let (g, q, d) = after_cache-Delivers w v b h at (packed v b e) in
      (g, ap (λ o. o >>= after_cache k a) e ∙ q, d)
