-- ===== src/Stream/Exact.antt =====
-- `direct_decompress` returns the bytes of the content that were asked for.
use pcfs.Base.{
  ℕ, suc, ◌+◌, ◌-◌, ◌*◌, ◌%◌, ◌^◌, ◌≤◌, ◌<◌, ◌≡◌, ◌⊎◌, inl, inr, sym, ap, ◌∙◌, true, false, List,
  ◌++◌, Option, some, arith, length, take, drop, take_past, true_ne_false, if-true, if-false, ltb,
  Bool-cases, subst, elim-at_some, length-slice, slice_add, length-drop,
}
use mathlib.Core.Path.{ap₂}
use pcfs.Types.{Descriptor, File, page_size}
use pcfs.Stream.{max_of}
use pcfs.Stream.Turn.{max_of-le}
use pcfs.Stream.Call.{ReadAnswers, Doing, Given, put_descriptor, finish}
use pcfs.Stream.Read.{clip, last_read}
use pcfs.Stream.Well.{Placed, Answering, WellFile, Counted}
use pcfs.Stream.Passing.{Arrives}

-- What a call leaves that returned the bytes of the content that it was asked for, without having
-- written behind the end of the caller's buffer: a file that is as it should be, `decomp_cache_size` in
-- step with its cache, and the descriptor where the next call can go on.
pub record Delivers (c : List ℕ) (size offset : ℕ) (w : Doing) (g : Given) : Type 0 where
  pub result : g.result ≡ some (take size (drop offset c))
  pub buffer : g.reach ≤ size
  pub file : WellFile c g.file
  pub counted : Counted w.total w.file.cache g.total g.file.cache
  pub descriptor :
      (x : Descriptor) × (g.file.head ≡ put_descriptor x w.file.head)
      × Placed c x
      × (x.id ≡ w.descriptor.id)

-- How much is asked for at last: all, or what is left of the content.
-- What is asked for lies in the content.
abbrev Clipped : Option ℕ → ℕ → ℕ → ℕ → Type 0
Clipped o n p size =
    (clip o p size ≡ size) × (p + size ≤ n) ⊎ (p + clip o p size ≡ n) × (clip o p size < size)

within : (o : Option ℕ) (n p size : ℕ) → Clipped o n p size → p + clip o p size ≤ n
within o n p size (inl (e, f)) = omega (arith, e, f)
within o n p size (inr (e, f)) = omega (arith, e)

not_less : (m n : ℕ) → m ≡ n → ltb m n ≡ false
not_less m n e = ground (arith, e)

ltb-true-lt : (m n : ℕ) → ltb m n ≡ true → m < n
ltb-true-lt m n e = ground (arith, e)

left_of :
    (n p size k : ℕ)
    → k ≡ (n + 2 ^ 64 - p) % 2 ^ 64
    → p < n
    → n < 2 ^ 64
    → ltb n (p + size) ≡ true
    → (p + k ≡ n) × (k < size)
left_of n p size k e l b t =
    (omega (arith, e, l, b), omega (arith, e, l, b, ltb-true-lt n (p + size) t))

clip-Clipped :
    (n p size : ℕ)
    → p < n
    → n < 2 ^ 64
    → (clip (some n) p size ≡ size) × (p + size ≤ n)
      ⊎ (p + clip (some n) p size ≡ n) × (clip (some n) p size < size)
clip-Clipped n p size l b = elim (Bool-cases (ltb n (p + size))) [
  | inr f ↦ inl (if-false _ _ f, ground (arith, f))
  | inl t ↦ let e = if-true ((n + 2 ^ 64 - p) % 2 ^ 64) size t in inr (left_of n p size _ e l b t)
]

take_same : (m n : ℕ) (xs : List ℕ) → length xs ≤ m → length xs ≤ n → take m xs ≡ take n xs
take_same m n xs h g = take_past m xs h ∙ sym (take_past n xs g)

at_most : (o : Option ℕ) (n p size : ℕ) → Clipped o n p size → clip o p size ≤ size
at_most o n p size (inl (e, f)) = omega (arith, e)
at_most o n p size (inr (e, f)) = omega (arith, f)

-- The slice that was served and the last one, which is all of the rest or ends the content.
reaches :
    (o : Option ℕ) (n p rest s size : ℕ)
    → s + rest ≡ size
    → Clipped o n p rest
    → (s + clip o p rest ≡ size) ⊎ ((p + clip o p rest ≡ n) × (s + clip o p rest ≤ size))
reaches o n p rest s size q (inl (e, f)) = inl (omega (arith, e, q))
reaches o n p rest s size q (inr (e, f)) = inr (e, omega (arith, f, q))

joined :
    (c served : List ℕ) (s n p offset size : ℕ)
    → served ≡ take s (drop offset c)
    → p ≡ offset + s
    → (s + n ≡ size) ⊎ ((p + n ≡ length c) × (s + n ≤ size))
    → served ++ take n (drop p c) ≡ take size (drop offset c)
joined c served s n p offset size e f h =
    ap₂ (λ x o. x ++ take n (drop o c)) e f ∙ sym (slice_add offset s n c) ∙ (elim h [
      | inl q ↦ ap (λ k. take k (drop offset c)) q
      | inr (q, l) ↦
          take_same (s + n) size (drop offset c) (omega (arith, q, f, length-drop offset c))
            (omega (arith, q, f, l, length-drop offset c))
    ])

ends_placed :
    (c : List ℕ) (o : Option ℕ) (p size len : ℕ) {u : ℕ}
    → ((i : ℕ) × (u ≡ i * page_size))
    → ((n : ℕ) × (size ≡ suc n * page_size))
    → p ≡ u
    → len ≡ clip o p size
    → Clipped o (length c) p size
    → ((i : ℕ) × (p + len ≡ i * page_size)) ⊎ (p + len ≡ length c)
ends_placed c o p size len (i, e) (n, f) g l (inl (q, r)) =
    inl (i + suc n, omega (arith, e, f, g, l, q))
ends_placed c o p size len (i, e) (n, f) g l (inr (q, r)) = inr (omega (arith, l, q))

pub well_head :
    (c : List ℕ) (f : File) (ds : List Descriptor)
    → WellFile c f
    → WellFile c (record f { head = ds })
well_head c f ds h = record { known = h.known; packed = h.packed; ready = h.ready; sized = h.sized }

module _ (c : List ℕ) (a : ReadAnswers) (good : Answering c a) (small : length c < 2 ^ 64)
    (size offset : ℕ) where
  pub last_read-Delivers :
      (w u : Doing) → Arrives c size offset w u → Delivers c size offset w (last_read a u)
  unfolding last_read
  last_read-Delivers w u h =
      let p : ℕ = u.descriptor.offset in
      let n : ℕ = clip u.file.size p u.size in
      let bs : List ℕ = take n (drop p c) in
      let cases =
        subst (λ o. Clipped o (length c) p u.size) (sym h.file.known)
          (clip-Clipped (length c) p u.size (omega (arith, h.here, h.aims.inside, h.aims.pages.1))
            small) in
      let fits : p + n ≤ length c = within u.file.size (length c) p u.size cases in
      let long : length bs ≡ n = length-slice p n c fits in
      let done : Given =
        finish
          (record u {
            reach = max_of u.reach (length u.served + length bs);
            descriptor = record u.descriptor { offset = p + length bs };
          })
          (some (u.served ++ bs)) in
      let eq : last_read a u ≡ done =
        elim-at_some _ _ bs (good.reads p n) ∙ if-false _ _ (not_less (length bs) n long) in
      subst (Delivers c size offset w) (sym eq) (record {
        result = ap some (
            joined c u.served (length u.served) n p offset size h.aims.so_far
              (omega (arith, h.here, h.aims.there))
              (reaches u.file.size (length c) p u.size (length u.served) size h.aims.asked cases));
        buffer =
            max_of-le u.reach (length u.served + length bs) size
              (omega (arith, long, h.aims.asked, at_most u.file.size (length c) p u.size cases))
              h.aims.reached;
        file = well_head c u.file _ h.file;
        counted = h.counted;
        descriptor = (
          record u.descriptor { offset = p + length bs },
          ap (put_descriptor (record u.descriptor { offset = p + length bs })) h.same_head,
          (
            ends_placed c u.file.size p u.size (length bs) h.aims.first h.aims.pages h.here long
                cases,
            λ q. elim (true_ne_false (sym h.on ∙ q)) [ ],
          ),
          h.same_id,
        );
      })
