-- ===== src/Stream/Delivered.antt =====
-- A whole call of `direct_decompress`, on pages of a file that stays compressed.
use pcfs.Base.{
  ℕ, suc, ◌+◌, ◌*◌, ◌^◌, ◌≤◌, ◌<◌, ◌≡◌, ◌⊎◌, inl, inr, refl, sym, ap, ◌∙◌, Bool, true, false, not,
  ◌&&◌, ◌||◌, List, [], ◌∷◌, Option, none, some, arith, length, is_some, if-false, elim-at_some,
  ltb, ◌==◌, subst, bind-at, true_ne_false,
}
use mathlib.Core.Option.{some-injective}
use pcfs.Types.{Descriptor, File, Config, page_size}
use pcfs.Handlers.{get_descriptor}
use pcfs.Stream.Turn.{weight_of}
use pcfs.Stream.Call.{
  ReadAnswers, Doing, Given, is_reading, begin_reading, await_decompress, serve_cached,
  needs_fallback, skipped_enough, bytes_to_skip,
}
use pcfs.Stream.Read.{start, open_descriptor, direct_decompress}
use pcfs.Stream.Well.{Placed, Answering, WellFile, Aims}
use pcfs.Stream.Cached.{serve_cached-Cached}
use pcfs.Stream.Exact.{Delivers}
use pcfs.Stream.Requests.{StaysPacked, begin_read-Delivers}

pub await_decompress-quiet :
    (others : List (File × ℕ → File × ℕ)) (f : File) (total : ℕ)
    → f.status.decompressing ≡ false
    → await_decompress others (f, total) ≡ some (f, total)
unfolding await_decompress
await_decompress-quiet [] f total h = if-false _ _ h
await_decompress-quiet (o ∷ os) f total h = if-false _ _ h

-- A file for which `direct_decompress` does not fall back: it is read and not written, and the file
-- system is read-only or the file has at most 128 KB.
abbrev pub StaysSmall : List ℕ → Config → File → Type 0
StaysSmall c k f =
    (is_reading (begin_reading f.direction) ≡ true) × ((k.read_only ≡ true) ⊎ (length c ≤ 131072))

declines :
    (r u o e q : Bool)
    → r ≡ true
    → (o ≡ true) ⊎ (e ≡ false)
    → (not r || (u && not o && (e && q))) ≡ false
declines r u o e q h (inl g) = ground (arith, h, g)
declines r u o e q h (inr g) = ground (arith, h, g)

not_large : (m n : ℕ) → n ≤ 131072 → (ltb n m && ltb 131072 n) ≡ false
not_large m n h = ground (arith, h)

not_enough : (v : Doing) (n : ℕ) → v.file.size ≡ some n → n ≤ 131072 → skipped_enough v ≡ false
unfolding skipped_enough
not_enough v n e l =
    elim-at_some _ _ n e
    ∙ not_large (v.file.skipped + bytes_to_skip v.descriptor.offset v.offset) n l

no_fallback :
    (k : Config) (v : Doing) (n : ℕ)
    → v.file.size ≡ some n
    → is_reading v.file.direction ≡ true
    → (k.read_only ≡ true) ⊎ (n ≤ 131072)
    → needs_fallback k v ≡ false
unfolding needs_fallback
no_fallback k v n e r h =
    declines _ _ k.read_only (skipped_enough v) (not (v.offset == v.descriptor.offset)) r
      (elim h [ inl o ↦ inl o | inr l ↦ inr (not_enough v n e l) ])

stays_packed :
    (c : List ℕ) (size offset : ℕ) (k : Config) (w v : Doing) (b : Bool)
    → WellFile c w.file
    → Aims c size offset w
    → (w.served ≡ []) × (w.offset ≡ offset) × (weight_of w.file.cache ≤ w.total)
    → serve_cached w ≡ some (v, b)
    → (is_reading w.file.direction ≡ true) × ((k.read_only ≡ true) ⊎ (length c ≤ 131072))
    → needs_fallback k v ≡ false
stays_packed c size offset k w v b wf aims (fresh, at, own) e (r, s) =
    let (v1, b1, e1, h) = serve_cached-Cached c size offset w wf aims fresh at own in
    let same : v1 ≡ v = ap (λ p. p.0) (some-injective _ _ (sym e1 ∙ e)) in
    subst (λ u. needs_fallback k u ≡ false) same
      (no_fallback k v1 (length c) h.file.known (ap is_reading h.same_direction ∙ r) s)

pub is_some-value : {A : Type 0} (o : Option A) → is_some o ≡ true → (a : A) × (o ≡ some a)
is_some-value none e = elim (true_ne_false (sym e)) [ ]
is_some-value (some a) e = (a, refl)

-- `direct_decompress` for whole pages, the last of which begins in the content, on an open descriptor
-- of a file that is not being decompressed, has the right size, module and cache, and is only read: if
-- the file system is read-only or the content has at most 128 KB, and the calls of the module and of
-- the system succeed, the result is the bytes of the content from the offset on, as many as were asked
-- for or as there are. Nothing is written behind the buffer, and the file, its cache,
-- `decomp_cache_size` and the descriptor are then such that this holds of the next call.
pub direct_decompress-Delivers :
    (c : List ℕ) (a : ReadAnswers)
    → Answering c a
    → length c < 2 ^ 64
    → (k : Config) (others : List (File × ℕ → File × ℕ)) (d i n : ℕ) (f : File) (total : ℕ)
      (x : Descriptor)
    → WellFile c f
    → StaysSmall c k f
    → f.status.decompressing ≡ false
    → weight_of f.cache ≤ total
    → (get_descriptor d f.head ≡ some x) × (is_some x.fd ≡ true) × Placed c x
    → (i + n) * page_size < length c
    → (g : Given) × (direct_decompress k a others d (suc n * page_size) (i * page_size) f total
        ≡ some g)
      × Delivers c
          (suc n * page_size)
          (i * page_size)
          (start k x (suc n * page_size) (i * page_size) (f, total))
          g
unfolding direct_decompress open_descriptor
direct_decompress-Delivers c a good small k others d i n f total x wf stays quiet own
      (at, fd, placed) inside =
    let size : ℕ = suc n * page_size in
    let offset : ℕ = i * page_size in
    let w : Doing = start k x size offset (f, total) in
    let aims : Aims c size offset w = record {
      first = (i, refl);
      pages = (n, refl);
      inside = omega (arith, inside);
      so_far = refl;
      there = omega arith;
      asked = omega arith;
      reached = omega arith;
    } in
    let file : WellFile c w.file = record {
      known = wf.known;
      packed = wf.packed;
      ready = wf.ready;
      sized = wf.sized;
    } in
    let packed : StaysPacked k w =
      λ v b e. stays_packed c size offset k w v b file aims (refl, refl, own) e stays in
    let (z, c1) = is_some-value f.compressor wf.packed in
    let (y, c2) = is_some-value x.fd fd in
    let (g, e, del) =
      begin_read-Delivers c a good small size offset k x f total wf placed own aims packed in
    (
      g,
      bind-at _ z c1
          ∙ bind-at _ x (bind-at _ x at ∙ bind-at _ y c2)
          ∙ bind-at _ (f, total) (await_decompress-quiet others f total quiet)
          ∙ bind-at _ x at
          ∙ e,
      del,
    )
