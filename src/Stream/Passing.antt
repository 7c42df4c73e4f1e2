-- ===== src/Stream/Passing.antt =====
-- The skip of `direct_decompress`, from a page to a page.
use pcfs.Base.{
  ℕ, ◌+◌, ◌-◌, ◌*◌, ◌≤◌, ◌<◌, ◌≡◌, ◌⊎◌, inl, inr, refl, sym, ap, ◌∙◌, Bool, true, false, not, ◌&&◌,
  List, Option, some, arith, length, is_some, if-true, if-false, ltb, leb, Bool-cases,
  true_ne_false, ◌>>=◌, if-all, if◌then◌else◌,
}
use pcfs.Types.{Descriptor, File, Config, page_size}
use pcfs.Stream.{Pages, Skim, Stop, skip}
use pcfs.Stream.Turn.{weight_of, max_of-le}
use pcfs.Stream.Skip.{skip-IsAt}
use pcfs.Stream.Call.{ReadAnswers, Doing, Given}
use pcfs.Stream.Read.{make_cache, around, skim_of, skimmed, after_skip, skip_to}
use pcfs.Stream.Steps.{ltb-false-le}
use pcfs.Stream.Well.{Placed, Answering, WellFile, Aims, Counted, make_cache-Made}

-- The call `w` has come to `u`, and the stream is where the read begins.
pub record Arrives (c : List ℕ) (size offset : ℕ) (w u : Doing) : Type 0 where
  pub file : WellFile c u.file
  pub aims : Aims c size offset u
  pub placed : Placed c u.descriptor
  pub on : u.descriptor.handle ≡ true
  pub here : u.descriptor.offset ≡ u.offset
  pub counted : Counted w.total w.file.cache u.total u.file.cache
  pub same_id : u.descriptor.id ≡ w.descriptor.id
  pub same_head : u.file.head ≡ w.file.head

-- The file that the loop works on.
abbrev Prepared : List ℕ → Bool → File → File → Type 0
Prepared c b f g =
    WellFile c g
    × (b ≡ true → (ps : Pages) × (g.cache ≡ some ps))
    × (weight_of g.cache ≡ weight_of f.cache)
    × (g.head ≡ f.head)

prepared :
    (c : List ℕ) (b : Bool) (f : File)
    → WellFile c f
    → Prepared c b f (if b then make_cache f else f)
prepared c b f h =
    let m = make_cache-Made c f h in
    if-all (Prepared c b f) b _ _ (λ y. (m.0, (λ q. m.1), m.2, m.3))
      (λ n. (h, (λ q. elim (true_ne_false (sym q ∙ n)) [ ]), refl, refl))

past : (n x o : ℕ) → x ≡ n → x ≤ o → o < n → ⊥
past n x o e l m = omega (arith, e, l, m)

-- Which page the descriptor is at.
page_of :
    (c : List ℕ) (x : Descriptor) (o : ℕ)
    → Placed c x
    → x.offset ≤ o
    → o < length c
    → (j : ℕ) × (x.offset ≡ j * page_size)
page_of c x o (inl (j, e), h) l m = (j, e)
page_of c x o (inr e, h) l m = elim (past (length c) x.offset o e l m) [ ]

-- What the skip does with the end of the loop.
abbrev go_on : Doing → Skim × Stop → Option (Doing ⊎ Given)
go_on v r = after_skip (skimmed v r.0) r.1

and-zeroed : (b d z : Bool) → z ≡ true → (b && not d && not z) ≡ false
and-zeroed b d z e = ground (arith, e)

short_skip : (o p j m : ℕ) → o ≡ j * page_size → p ≡ (j + m) * page_size → p - o ≡ m * page_size
short_skip o p j m e f = omega (arith, e, f)

module _ (c : List ℕ) (a : ReadAnswers) (good : Answering c a) (size offset : ℕ) where
  -- The loop of the skip, on a prepared file.
  loop-Arrives :
      (k : Config) (w : Doing) (b : Bool) (g : File) (j m : ℕ)
      → Prepared c b w.file g
      → Aims c size offset w
      → w.descriptor.handle ≡ true
      → w.descriptor.offset ≡ j * page_size
      → w.offset ≡ (j + m) * page_size
      → let v : Doing = record w { caching = b; file = g } in
        let toread : ℕ = w.offset - w.descriptor.offset in
        (u : Doing) × ((skip (around k a v) toread toread (skim_of v) >>= go_on v) ≡ some (inl u))
        × Arrives c size offset w u
  loop-Arrives k w b g j m p aims on at to =
      let v : Doing = record w { caching = b; file = g } in
      let toread : ℕ = w.offset - w.descriptor.offset in
      let pages : toread ≡ m * page_size = short_skip w.descriptor.offset w.offset j m at to in
      let (l, s, atl, bal) =
        skip-IsAt c (around k a v) m toread j (skim_of v)
          (p.0.known, good.reads, good.allocates, good.whole_pages) (at, p.0.ready, p.1)
          (omega (arith, to, aims.inside, aims.pages.1)) (omega (arith, pages)) in
      (
        skimmed v l,
        ap (λ t. skip (around k a v) toread t (skim_of v) >>= go_on v) pages
            ∙ ap (λ o. o >>= go_on v) s,
        record {
          file = record {
            known = p.0.known;
            packed = p.0.packed;
            ready = atl.1;
            sized = sym (bal.2 g.cache_size) ∙ p.0.sized;
          };
          aims = record {
            first = aims.first;
            pages = aims.pages;
            inside = aims.inside;
            so_far = aims.so_far;
            there = aims.there;
            asked = aims.asked;
            reached =
                max_of-le w.reach (length w.served + l.reach) size
                  (omega
                    (arith, bal.1 page_size (omega arith) (omega arith), aims.asked, aims.pages.1))
                  aims.reached;
          };
          placed = (inl (j + m, atl.0), λ q. elim (true_ne_false (sym on ∙ q)) [ ]);
          on = on;
          here = atl.0 ∙ sym to;
          counted = omega (arith, bal.0, p.2);
          same_id = refl;
          same_head = p.3;
        },
      )

  pub skip_to-Arrives :
      (k : Config) (w : Doing)
      → WellFile c w.file
      → Aims c size offset w
      → Placed c w.descriptor
      → w.descriptor.handle ≡ true
      → w.descriptor.offset ≤ w.offset
      → (u : Doing) × (skip_to k a w ≡ some (inl u)) × Arrives c size offset w u
  unfolding skip_to
  skip_to-Arrives k w wf aims at on le = elim (Bool-cases (ltb w.descriptor.offset w.offset)) [
    | inr n ↦ (
      w,
      if-false _ _ n,
      record {
        file = wf;
        aims = aims;
        placed = at;
        on = on;
        here = omega (arith, le, ltb-false-le w.descriptor.offset w.offset n);
        counted = refl;
        same_id = refl;
        same_head = refl;
      },
    )
    | inl y ↦
        let b : Bool =
          w.caching && leb (w.offset - w.descriptor.offset + w.total) k.max_decomp_cache_size in
        let (j, e) =
          page_of c w.descriptor w.offset at le (omega (arith, aims.inside, aims.pages.1)) in
        let (i, f) = aims.first in
        let (u, s, h) =
          loop-Arrives k w b (if b then make_cache w.file else w.file) j (i - j)
            (prepared c b w.file wf) aims on e (omega (arith, e, f, le)) in
        (
          u,
          if-true _ _ y
              ∙ if-false _ _ (and-zeroed b (is_some w.file.cache) a.zeroed good.zeroes)
              ∙ s,
          h,
        )
  ]
