-- ===== src/Stream/Cached.antt =====
-- What `direct_decompress` serves from the cache before it uses the stream.
use pcfs.Base.{
  ℕ, zero, suc, ◌+◌, ◌-◌, ◌*◌, ◌/◌, ◌≤◌, ◌<◌, ◌≡◌, ◌⊎◌, inl, inr, refl, sym, ap, ◌∙◌, Bool, true,
  false, ◌&&◌, List, [], some, arith, length, take, drop, get_elem?-in, is_some, if-true, if-false,
  ltb, Bool-cases, Option-cases, subst, ◌>>=◌, elim-at_some, elim-at_none, length-slice,
}
use pcfs.Types.{File, page_size}
use pcfs.Stream.{Pages}
use pcfs.Stream.Pages.{Holds}
use pcfs.Stream.Turn.{Ready, weight_of, length_or}
use pcfs.Stream.Served.{ServedWell, serve-ServedWell}
use pcfs.Stream.Call.{
  Doing, Serving, is_reading, serve, starts_cached, take_served, served_as, serve_pages, serve_if,
  serve_cached,
}
use pcfs.Stream.Well.{WellFile, Aims, Counted, Sized}

-- All that was asked for was served.
abbrev pub AllServed : List ℕ → ℕ → ℕ → Doing → Type 0
AllServed c size offset w = (w.size ≡ 0) × (w.served ≡ take size (drop offset c)) × (w.reach ≤ size)

-- After the cache: `b` tells whether the loop was entered.
pub record Cached (c : List ℕ) (size offset : ℕ) (w v : Doing) (b : Bool) : Type 0 where
  pub file : WellFile c v.file
  pub counted : Counted w.total w.file.cache v.total v.file.cache
  pub same_descriptor : v.descriptor ≡ w.descriptor
  pub same_head : v.file.head ≡ w.file.head
  pub same_direction : v.file.direction ≡ w.file.direction
  pub rest : ((b ≡ true) × AllServed c size offset v) ⊎ Aims c size offset v

in_places : (j n m : ℕ) (b : Bool) → (b && ltb j n) ≡ true → m ≡ n → j < m
in_places j n m b y e = ground (arith, y, e)

starts_cached-cases :
    (f : File) (j : ℕ)
    → Sized f
    → (starts_cached f j ≡ some false)
      ⊎ ((ps : Pages) × (f.cache ≡ some ps) × (starts_cached f j ≡ some true))
unfolding starts_cached
starts_cached-cases f j h = elim (Option-cases f.cache) [
  | inl q ↦ inl (elim-at_none _ _ q)
  | inr (ps, q) ↦ elim (Bool-cases (is_reading f.direction && ltb j f.cache_size)) [
    | inr n ↦ inl (elim-at_some _ _ ps q ∙ if-false _ _ n)
    | inl y ↦
        let (x, g) = get_elem?-in j ps (
          in_places j f.cache_size (length ps) (is_reading f.direction) y
            (sym (ap (length_or f.cache_size) q) ∙ h)) in
        elim (Option-cases x) [
          | inl z ↦ inl (
              elim-at_some _ _ ps q
              ∙ if-true _ _ y
              ∙ elim-at_some _ _ x g
              ∙ ap (λ o. some (is_some o)) z)
          | inr (p, z) ↦ inr (
            ps,
            q,
            elim-at_some _ _ ps q
                ∙ if-true _ _ y
                ∙ elim-at_some _ _ x g
                ∙ ap (λ o. some (is_some o)) z,
          )
        ]
  ]
]

zero-cases : (n : ℕ) → (n ≡ 0) ⊎ ((m : ℕ) × (n ≡ suc m))
zero-cases zero = inl refl
zero-cases (suc n) = inr (n, refl)

module _ (c : List ℕ) (size offset : ℕ) (w : Doing) (wf : WellFile c w.file)
    (aims : Aims c size offset w) (fresh : w.served ≡ []) (start : w.offset ≡ offset)
    (own : weight_of w.file.cache ≤ w.total) where
  not_served : Cached c size offset w w false
  not_served = record {
    file = wf;
    counted = refl;
    same_descriptor = refl;
    same_head = refl;
    same_direction = refl;
    rest = inr aims;
  }

  served_bytes :
      (ps : Pages) (i n : ℕ) (r : Serving)
      → w.offset ≡ i * page_size
      → w.size ≡ suc n * page_size
      → ServedWell c ps i (suc n) r
      → r.bytes ≡ take (w.size - r.left * page_size) (drop offset c)
  served_bytes ps i n r e f s =
      s.bytes
      ∙ ap (λ k. take k (drop (i * page_size) c)) (omega (arith, f, s.few))
      ∙ ap (λ o. take (w.size - r.left * page_size) (drop o c)) (sym e ∙ start)

  what_rests :
      (ps : Pages) (i n : ℕ) (r : Serving)
      → w.offset ≡ i * page_size
      → w.size ≡ suc n * page_size
      → ServedWell c ps i (suc n) r
      → ((true ≡ true) × AllServed c size offset (take_served w r))
        ⊎ Aims c size offset (take_served w r)
  unfolding take_served
  what_rests ps i n r e f s =
      let bytes = served_bytes ps i n r e f s in
      let whole : w.size ≡ size = omega (arith, aims.asked, ap length fresh) in
      elim (zero-cases r.left) [
        | inl z ↦ inl (
          refl,
          (
            omega (arith, z),
            bytes ∙ ap (λ k. take k (drop offset c)) (omega (arith, z, whole)),
            omega (arith, whole),
          ),
        )
        | inr (l, z) ↦
            let long : length r.bytes ≡ w.size - r.left * page_size =
              ap length bytes
              ∙ length-slice offset (w.size - r.left * page_size) c
                  (omega (arith, aims.inside, start, z, f, s.few)) in
            inr (record {
              first = (i + (suc n - r.left), omega (arith, e, f, s.few));
              pages = (l, ap (λ k. k * page_size) z);
              inside = omega (arith, aims.inside, f, s.few);
              so_far = bytes ∙ ap (λ k. take k (drop offset c)) (sym long);
              there = omega (arith, start, long);
              asked = omega (arith, long, whole, f, s.few);
              reached = omega (arith, whole);
            })
      ]

  was_served :
      (ps : Pages) (i n : ℕ) (r : Serving)
      → w.file.cache ≡ some ps
      → w.offset ≡ i * page_size
      → w.size ≡ suc n * page_size
      → ServedWell c ps i (suc n) r
      → length c / page_size < length ps
      → Cached c size offset w (take_served w r) true
  unfolding take_served
  was_served ps i n r q e f s room = record {
    file = record {
      known = wf.known;
      packed = wf.packed;
      ready = (s.holds, omega (arith, s.places, room));
      sized = s.places ∙ ap (length_or w.file.cache_size) (sym q) ∙ wf.sized;
    };
    counted = omega (arith, own, ap weight_of q, s.weighs, e, f, s.few);
    same_descriptor = refl;
    same_head = refl;
    same_direction = refl;
    rest = what_rests ps i n r e f s;
  }

  -- What the part of `serve_cached` behind the test of `cache_this_read` comes to.
  pub serve_cached-Cached :
      (v : Doing) × (b : Bool) × (serve_cached w ≡ some (v, b)) × Cached c size offset w v b
  unfolding serve_cached
  serve_cached-Cached = elim (Bool-cases w.caching) [
    | inr n ↦ (w, false, if-false _ _ n, not_served)
    | inl y ↦ elim (starts_cached-cases w.file (w.offset / page_size) wf.sized) [
      | inl q ↦ (w, false, if-true _ _ y ∙ ap (λ o. o >>= serve_if w) q, not_served)
      | inr (ps, q, st) ↦
          let (i, e) = aims.first in
          let (n, f) = aims.pages in
          let ready : Holds c 0 ps × (length c / page_size < length ps) =
            subst (Ready c) q wf.ready in
          let (r, g, s) =
            serve-ServedWell c ps i (suc n) ready.0 (omega (arith, aims.inside, e, f, ready.1)) in
          (
            take_served w r,
            true,
            if-true _ _ y
                ∙ ap (λ o. o >>= serve_if w) st
                ∙ ap (λ o. o >>= serve_pages w) q
                ∙ ap (λ j. serve ps j (w.size / page_size) >>= served_as w) (omega (arith, e))
                ∙ ap (λ j. serve ps i j >>= served_as w) (omega (arith, f))
                ∙ ap (λ o. o >>= served_as w) g,
            was_served ps i n r q e f s ready.1,
          )
    ]
  ]
