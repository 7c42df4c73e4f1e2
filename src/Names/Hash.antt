-- ===== src/Names/Hash.antt =====
-- `gethash` evaluates a polynomial in 31 modulo 2^32 by Horner's rule.
use native.Mathlib.Nat.{pow-suc}
use pcfs.Base.{ℕ, suc, ◌+◌, ◌*◌, ◌%◌, ◌^◌, ◌≡◌, ap, ◌∙◌, List, [], ◌∷◌, arith, length}
use pcfs.Names.{signed_char, gethash_from, gethash}

-- The bytes as coefficients, the first byte at the highest power.
abbrev pub polynomial : List ℕ → ℕ
polynomial [] = 0
polynomial (b ∷ bs) = signed_char b * 31 ^ length bs + polynomial bs

power_step : (h c n : ℕ) → h * 31 ^ suc n + c * 31 ^ n ≡ (31 * h + c) * 31 ^ n
power_step h c n = omega (arith, ap (λ (t : ℕ). h * t) (pow-suc 31 n))

gethash_from-polynomial :
    (h : ℕ) (bs : List ℕ)
    → gethash_from (h % 2 ^ 32) bs ≡ (h * 31 ^ length bs + polynomial bs) % 2 ^ 32
unfolding gethash_from
gethash_from-polynomial h [] = omega arith
gethash_from-polynomial h (b ∷ bs) =
    let c = signed_char b in
    let once : (31 * (h % 2 ^ 32) + c) % 2 ^ 32 ≡ (31 * h + c) % 2 ^ 32 = omega arith in
    ap (λ (t : ℕ). gethash_from t bs) once
    ∙ gethash_from-polynomial (31 * h + c) bs
    ∙ omega (arith, power_step h c (length bs))

-- The hash of a name is the value of its polynomial, reduced modulo 2^32.
pub gethash-polynomial : (name : List ℕ) → gethash name ≡ polynomial name % 2 ^ 32
unfolding gethash
gethash-polynomial name = gethash_from-polynomial 0 name ∙ omega arith
