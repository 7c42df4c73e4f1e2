-- ===== src/Threads/Read.antt =====
-- What `PCFS_read` keeps of the record of its file: the users and the name.
use pcfs.Base.{
  ℕ, suc, ◌+◌, ◌-◌, ◌/◌, ◌≡◌, refl, ap, ◌∙◌, subst, Bool, true, false, not, ◌&&◌, List, [], ◌∷◌,
  ◌++◌, Option, none, some, ◌>>=◌, ◌==◌, if◌then◌else◌, is_some, ltb, leb, length, ◌⊎◌, inl, inr,
  bind-some, if-all, elim-all, none_ne_some,
}
use mathlib.Core.Option.{some-injective}
use pcfs.Types.{Descriptor, File, Config}
use pcfs.Database.Invariant.{OwnedBy}
use pcfs.Decompress.{Run, do_decompress}
use pcfs.Decompress.Outcome.{do_decompress-Ended}
use pcfs.Decompress.Kept.{trans_Same, do_decompress-Same}
use pcfs.Handlers.{get_descriptor}
use pcfs.Stream.{Skim, Stop, arrived, failing, ended, astray, max_of, skip}
use pcfs.Stream.Call.{
  ReadAnswers, Doing, Given, put_descriptor, finish, await_decompress, serve, starts_cached,
  take_served, serve_pages, serve_if, serve_cached, needs_fallback,
}
use pcfs.Stream.Read.{
  fall_back, rewind, open_stream, make_cache, around, skim_of, skimmed, after_skip, skip_to, clip,
  last_read, last_or_given, skip_and_read, open_and_read, read_stream, after_cache, start,
  begin_read, open_descriptor, direct_decompress,
}
use pcfs.ReadWrite.{after_read, given_read, pread_on, read_file}
use pcfs.Threads.Kept.{Keeps}
use pcfs.Threads.Whole.{SameUsers, SameUsers-Keeps, run-SameList}

-- What holds of the value, if there is one.
abbrev All : {A : Type 0} → (A → Type 0) → Option A → Type 0
All {A} R o = (x : A) → o ≡ some x → R x

some-All : {A : Type 0} (R : A → Type 0) (x : A) → R x → All R (some x)
some-All R x h y e = subst R (some-injective x y e) h

none-All : {A : Type 0} (R : A → Type 0) → All R none
none-All R y e = elim (none_ne_some y e) [ ]

bind-All :
    {A B : Type 0} (R : A → Type 0) (S : B → Type 0) (o : Option A) (k : A → Option B)
    → All R o
    → ((x : A) → R x → All S (k x))
    → All S (o >>= k)
bind-All R S o k h next y e = let (x, p, q) = bind-some o k y e in next x (h x p) y q

abbrev Anything : {A : Type 0} → A → Type 0
Anything x = Unit {0}

any-All : {A : Type 0} (o : Option A) → All Anything o
any-All o x e = tt

length-put : (d : Descriptor) (ds : List Descriptor) → length (put_descriptor d ds) ≡ length ds
length-put d [] = refl
length-put d (x ∷ xs) =
    if-all (λ l. length l ≡ suc (length xs)) (x.id == d.id) _ _ (λ _. refl)
      (λ _. ap suc (length-put d xs))

put-owned :
    (id : ℕ) (d : Descriptor) (ds : List Descriptor)
    → d.file ≡ id
    → OwnedBy id ds
    → OwnedBy id (put_descriptor d ds)
put-owned id d [] mine own = tt
put-owned id d (x ∷ xs) mine (here, own) =
    if-all (OwnedBy id) (x.id == d.id) _ _ (λ _. (mine, own))
      (λ _. (here, put-owned id d xs mine own))

get-owned :
    (id d : ℕ) (ds : List Descriptor)
    → OwnedBy id ds
    → All (λ (x : Descriptor). x.file ≡ id) (get_descriptor d ds)
unfolding get_descriptor
get-owned id d [] own = none-All _
get-owned id d (x ∷ xs) (here, own) =
    if-all (All (λ (y : Descriptor). y.file ≡ id)) (x.id == d) _ _ (λ _. some-All _ x here)
      (λ _. get-owned id d xs own)

module _ (f : File) where
  -- The call has the users and the name of the file, and a descriptor of it.
  abbrev Alive : Doing → Type 0
  Alive w = SameUsers f w.file × ((id : ℕ) → OwnedBy id f.head → w.descriptor.file ≡ id)

  abbrev Same : Given → Type 0
  Same g = SameUsers f g.file

  abbrev Going : Doing × Bool → Type 0
  Going x = Alive x.0

  abbrev Either : Doing ⊎ Given → Type 0
  Either (inl w) = Alive w
  Either (inr g) = Same g

  finish-Same : (w : Doing) (r : Option (List ℕ)) → Alive w → Same (finish w r)
  finish-Same w r ((file, (lengths, owners)), mine) = (
    file,
    (
      length-put w.descriptor w.file.head ∙ lengths,
      λ id own. put-owned id w.descriptor w.file.head (mine id own) (owners id own),
    ),
  )

  serve_if-Alive : (w : Doing) (b : Bool) → Alive w → All Going (serve_if w b)
  unfolding take_served
  serve_if-Alive w true h =
      bind-All Anything Going w.file.cache (serve_pages w) (any-All w.file.cache) (λ ps _.
        bind-All Anything Going (serve ps (w.offset / 4096) (w.size / 4096)) _ (any-All _)
          (λ r _. some-All Going (take_served w r, true) h))
  serve_if-Alive w false h = some-All Going (w, false) h

  serve_cached-Alive : (w : Doing) → Alive w → All Going (serve_cached w)
  unfolding serve_cached
  serve_cached-Alive w h =
      if-all (All Going) w.caching _ _
        (λ _.
          bind-All Anything Going (starts_cached w.file (w.offset / 4096)) (serve_if w) (any-All _)
            (λ b _. serve_if-Alive w b h))
        (λ _. some-All Going (w, false) h)

  fall_back-Same : (a : ReadAnswers) (w : Doing) → Alive w → All Same (fall_back a w)
  unfolding fall_back
  fall_back-Same a w ((file, (lengths, owners)), mine) =
      bind-All (SameRun w) Same (do_decompress a.run w.file w.total) _
        (λ r e. (
          do_decompress-Same a.run w.file w.total r e,
          run-SameList a.run w.file.head r (do_decompress-Ended a.run w.file w.total r e),
        ))
        (λ r (file1, (lengths1, owners1)).
          let all : SameUsers f r.file = (
            trans_Same f w.file r.file file file1,
            (lengths1 ∙ lengths, λ id own. owners1 id (owners id own)),
          ) in
          some-All Same _ (if-all Same r.result _ _ (λ _. all) (λ _. all)))
    where
      SameRun : Doing → Run → Type 0
      SameRun w r = SameUsers w.file r.file

  rewind-Alive : (a : ReadAnswers) (w : Doing) → Alive w → All Going (rewind a w)
  unfolding rewind
  rewind-Alive a w h =
      if-all (All Going) (ltb w.offset w.descriptor.offset) _ _
        (λ _.
          if-all (All Going) w.descriptor.handle _ _
            (λ _.
              if-all (All Going) a.closed _ _ (λ _. some-All Going _ h) (λ _. some-All Going _ h))
            (λ _. none-All Going))
        (λ _. some-All Going _ h)

  open_stream-Alive : (a : ReadAnswers) (w : Doing) → Alive w → All Going (open_stream a w)
  unfolding open_stream
  open_stream-Alive a w h =
      if-all (All Going) w.descriptor.handle _ _ (λ _. some-All Going _ h)
        (λ _.
          if-all (All Going) (w.descriptor.offset == 0) _ _ (λ _. some-All Going _ h)
            (λ _. none-All Going))

  make_cache-Same : (g : File) → SameUsers f g → SameUsers f (make_cache g)
  make_cache-Same g h = elim-all (SameUsers f) g.cache _ _ (λ _. h) (λ _ _. h)

  after_skip-Either : (w : Doing) (s : Stop) → Alive w → All Either (after_skip w s)
  after_skip-Either w arrived h = some-All Either (inl w) h
  after_skip-Either w failing h = some-All Either (inr (finish w none)) (finish-Same w none h)
  after_skip-Either w ended h =
      some-All Either (inr (finish w (some []))) (finish-Same w (some []) h)
  after_skip-Either w astray h = none-All Either

  skip_to-Either : (c : Config) (a : ReadAnswers) (w : Doing) → Alive w → All Either (skip_to c a w)
  unfolding skip_to
  skip_to-Either c a w h =
      let toread : ℕ = w.offset - w.descriptor.offset in
      let caching : Bool = w.caching && leb (toread + w.total) c.max_decomp_cache_size in
      let v : Doing = record w {
        caching = caching;
        file = if caching then make_cache w.file else w.file;
      } in
      let alive : Alive v =
        (if-all (SameUsers f) caching _ _ (λ _. make_cache-Same w.file h.0) (λ _. h.0), h.1) in
      if-all (All Either) (ltb w.descriptor.offset w.offset) _ _
        (λ _.
          if-all (All Either) (caching && not (is_some w.file.cache) && not a.zeroed) _ _
            (λ _. some-All Either (inr (finish w none)) (finish-Same w none h))
            (λ _.
              bind-All Anything Either (skip (around c a v) toread toread (skim_of v)) _
                (any-All (skip (around c a v) toread toread (skim_of v)))
                (λ (r : Skim × Stop) _. after_skip-Either (skimmed v r.0) r.1 alive)))
        (λ _. some-All Either (inl w) h)

  last_read-Same : (a : ReadAnswers) (w : Doing) → Alive w → Same (last_read a w)
  unfolding last_read
  last_read-Same a w h =
      let size : ℕ = clip w.file.size w.descriptor.offset w.size in
      elim-all Same (a.read w.descriptor.offset size) _ _ (λ _. finish-Same w none h)
        (λ bs _.
          let reached : Doing = record w { reach = max_of w.reach (length w.served + length bs) } in
          let moved : Doing = record reached {
            descriptor = record w.descriptor { offset = w.descriptor.offset + length bs };
          } in
          if-all Same (ltb (length bs) size) _ _ (λ _. finish-Same reached none h)
            (λ _. finish-Same moved (some (w.served ++ bs)) h))

  last_or_given-Same :
      (a : ReadAnswers) (x : Doing ⊎ Given) → Either x → All Same (last_or_given a x)
  last_or_given-Same a (inl w) h = some-All Same (last_read a w) (last_read-Same a w h)
  last_or_given-Same a (inr g) h = some-All Same g h

  read_stream-Same :
      (c : Config) (a : ReadAnswers) (w : Doing) → Alive w → All Same (read_stream c a w)
  unfolding read_stream open_and_read skip_and_read
  read_stream-Same c a w h =
      if-all (All Same) (is_some w.file.compressor) _ _
        (λ _.
          bind-All Going Same (rewind a w) (open_and_read c a) (rewind-Alive a w h) (λ (v, go) h1.
            if-all (All Same) go _ _
              (λ _.
                bind-All Going Same (open_stream a v) (skip_and_read c a) (open_stream-Alive a v h1)
                  (λ (u, on) h2.
                    if-all (All Same) on _ _
                      (λ _.
                        bind-All Either Same (skip_to c a u) (last_or_given a)
                          (skip_to-Either c a u h2) (last_or_given-Same a))
                      (λ _. some-All Same _ (finish-Same u none h2))))
              (λ _. some-All Same _ (finish-Same v none h1))))
        (λ _. none-All Same)

  after_cache-Same :
      (c : Config) (a : ReadAnswers) (x : Doing × Bool) → Going x → All Same (after_cache c a x)
  unfolding after_cache
  after_cache-Same c a (w, entered) h =
      if-all (All Same) (entered && (w.size == 0)) _ _
        (λ _. some-All Same _ (finish-Same w (some w.served) h))
        (λ _.
          if-all (All Same) (needs_fallback c w) _ _ (λ _. fall_back-Same a w h)
            (λ _. read_stream-Same c a w h))

  await-Alike :
      (total : ℕ) → All (λ (g : File × ℕ). SameUsers f g.0) (await_decompress [] (f, total))
  unfolding await_decompress
  await-Alike total =
      if-all (All (λ (g : File × ℕ). SameUsers f g.0)) f.status.decompressing _ _ (λ _. none-All _)
        (λ _. some-All (λ (g : File × ℕ). SameUsers f g.0) (f, total) itself)
    where
      itself : SameUsers f f
      itself = ((refl, refl, refl), (refl, λ id own. own))

  begin_read-Same :
      (c : Config) (a : ReadAnswers) (x : Descriptor) (size offset : ℕ) (g : File × ℕ)
      → SameUsers f g.0
      → ((id : ℕ) → OwnedBy id f.head → x.file ≡ id)
      → All Same (begin_read c a x size offset g)
  unfolding begin_read
  begin_read-Same c a x size offset g h mine =
      bind-All Going Same (serve_cached (start c x size offset g)) (after_cache c a)
        (serve_cached-Alive (start c x size offset g) (h, mine)) (after_cache-Same c a)

  direct_decompress-Same :
      (c : Config) (a : ReadAnswers) (d size offset total : ℕ)
      → All Same (direct_decompress c a [] d size offset f total)
  unfolding direct_decompress
  direct_decompress-Same c a d size offset total =
      bind-All Anything Same f.compressor _ (any-All f.compressor) (λ z _.
        bind-All Anything Same (open_descriptor d f) _ (any-All (open_descriptor d f)) (λ x _.
          bind-All (λ (g : File × ℕ). SameUsers f g.0) Same (await_decompress [] (f, total)) _
            (await-Alike total)
            (λ g h.
              bind-All (λ (y : Descriptor). (id : ℕ) → OwnedBy id f.head → y.file ≡ id) Same
                (get_descriptor d g.0.head) _
                (λ y e id own. get-owned id d g.0.head (h.1.1 id own) y e)
                (λ y mine. begin_read-Same c a y size offset g h mine))))

  after_read-Same :
      (g : File) (total : ℕ) (r : Option (List ℕ))
      → SameUsers f g
      → SameUsers f (after_read g total r).0
  after_read-Same g total none h = h
  after_read-Same g total (some bs) h = h

  abbrev Left : File × ℕ × Option (List ℕ) → Type 0
  Left y = SameUsers f y.0

-- A call of `PCFS_read` that does not wait keeps the users and the name of the file.
pub read_file-Keeps :
    (id : ℕ) (c : Config) (a : ReadAnswers) (d size offset : ℕ) (f : File) (total : ℕ)
    (x : File × ℕ × Option (List ℕ))
    → read_file c a [] d size offset f total ≡ some x
    → Keeps id f x.0
unfolding read_file
read_file-Keeps id c a d size offset f total x e = SameUsers-Keeps id f x.0 (
    if-all (All (Left f)) (is_some f.compressor) _ _
      (λ _.
        bind-All (λ (g : Given). SameUsers f g.file) (Left f)
          (direct_decompress c a [] d size offset f total) given_read
          (direct_decompress-Same f c a d size offset total)
          (λ g h.
            some-All (Left f) (after_read g.file g.total g.result)
              (after_read-Same f g.file g.total g.result h)))
      (λ _.
        bind-All Anything (Left f) (get_descriptor d f.head) _ (any-All (get_descriptor d f.head))
          (λ y _. some-All (Left f) (after_read f total (pread_on a size offset y.fd)) (
            after_read-Same f f total (pread_on a size offset y.fd)
              ((refl, refl, refl), (refl, λ id own. own)))))
      x e)
