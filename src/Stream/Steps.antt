-- ===== src/Stream/Steps.antt =====
-- The steps of `direct_decompress` that prepare the read: back to the beginning, the opening of a
-- stream, and the skip.
use pcfs.Base.{
  ℕ, ◌*◌, ◌≤◌, ◌≡◌, inl, inr, refl, ap, ◌∙◌, Bool, true, false, List, Option, some, arith, if-true,
  if-false, ltb, ◌==◌, Bool-cases, true_ne_false,
}
use pcfs.Types.{Descriptor, page_size}
use pcfs.Stream.Call.{ReadAnswers, Doing}
use pcfs.Stream.Read.{rewind, open_stream}
use pcfs.Stream.Well.{Placed, Answering}

-- A step gives the call `w` another state of its descriptor, and goes on.
abbrev pub Turns : List ℕ → Doing → Option (Doing × Bool) → (Descriptor → Type 0) → Type 0
Turns c w r P =
    (x : Descriptor) × (r ≡ some (record w { descriptor = x }, true))
    × Placed c x
    × (x.id ≡ w.descriptor.id)
    × P x

pub ltb-false-le : (m n : ℕ) → ltb m n ≡ false → n ≤ m
ltb-false-le m n e = ground (arith, e)

ltb-zero : (m n : ℕ) → ltb m n ≡ true → n ≡ 0 → ⊥
ltb-zero m n e z = ground (arith, e, z)

zero-is_zero : (n : ℕ) → n ≡ 0 → (n == 0) ≡ true
zero-is_zero n e = ground (arith, e)

start_page : 0 ≡ 0 * page_size
start_page = refl

module _ (c : List ℕ) (a : ReadAnswers) (good : Answering c a) where
  -- The descriptor is not behind the offset then.
  pub rewind-Turns :
      (w : Doing) → Placed c w.descriptor → Turns c w (rewind a w) (λ x. x.offset ≤ w.offset)
  unfolding rewind
  rewind-Turns w h = elim (Bool-cases (ltb w.offset w.descriptor.offset)) [
    | inr n ↦ (w.descriptor, if-false _ _ n, h, refl, ltb-false-le _ _ n)
    | inl y ↦ elim (Bool-cases w.descriptor.handle) [
      | inr n ↦ elim (ltb-zero _ _ y (h.1 n)) [ ]
      | inl z ↦
          let x : Descriptor = record w.descriptor { offset = 0; handle = false } in
          (
            x,
            if-true _ _ y
                ∙ if-true _ _ z
                ∙ if-true _ _ good.closes
                ∙ ap (λ b. some (record w { descriptor = x }, b)) good.seeks,
            (inl (0, start_page), λ q. refl),
            refl,
            omega arith,
          )
    ]
  ]

  pub open_stream-Turns :
      (w : Doing)
      → Placed c w.descriptor
      → Turns c w (open_stream a w) (λ x. (x.handle ≡ true) × (x.offset ≡ w.descriptor.offset))
  unfolding open_stream
  open_stream-Turns w h = elim (Bool-cases w.descriptor.handle) [
    | inl y ↦ (w.descriptor, if-true _ _ y, h, refl, (y, refl))
    | inr n ↦
        let x : Descriptor = record w.descriptor { handle = true } in
        (
          x,
          if-false _ _ n
              ∙ if-true _ _ (zero-is_zero _ (h.1 n))
              ∙ ap (λ b. some (record w { descriptor = record w.descriptor { handle = b } }, b))
                  good.opens,
          (h.0, λ q. elim (true_ne_false q) [ ]),
          refl,
          (refl, refl),
        )
  ]
