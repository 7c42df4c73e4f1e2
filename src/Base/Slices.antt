-- ===== src/Base/Slices.antt =====
-- Slices of lists, `take n (drop o xs)`, and what is where in a list.
use Prim.Native.Nat.{ℕ, zero, suc, ◌+◌, ◌≤◌, ◌<◌}
use mathlib.Core.Path.{◌≡◌, refl, sym, ap, ◌∙◌}
use mathlib.Core.List.{List, [], ◌∷◌, ◌++◌}
use mathlib.Core.Option.{some}
use native.Mathlib.Omega.{arith}
use pcfs.Base.Lists.{length, take, drop, get_elem?, set, length-take, length-drop}

pub suc_le_zero : (n : ℕ) → suc n ≤ 0 → ⊥
suc_le_zero n h = omega (arith, h)

suc_plus : (m n : ℕ) → suc m + n ≡ suc (m + n)
suc_plus m n = omega arith

pub zero_plus : (n : ℕ) → 0 + n ≡ n
zero_plus n = omega arith

module _ {ℓ} {A : Type ℓ} where
  pub take-all : (xs : List A) → take (length xs) xs ≡ xs
  take-all [] = refl
  take-all (x ∷ xs) = ap (λ r. x ∷ r) (take-all xs)

  pub take_past : (n : ℕ) (xs : List A) → length xs ≤ n → take n xs ≡ xs
  take_past zero [] h = refl
  take_past zero (x ∷ xs) h = elim (suc_le_zero (length xs) h) [ ]
  take_past (suc n) [] h = refl
  take_past (suc n) (x ∷ xs) h = ap (λ r. x ∷ r) (take_past n xs (omega (arith, h)))

  pub drop_past : (n : ℕ) (xs : List A) → length xs ≤ n → drop n xs ≡ []
  drop_past zero [] h = refl
  drop_past zero (x ∷ xs) h = elim (suc_le_zero (length xs) h) [ ]
  drop_past (suc n) [] h = refl
  drop_past (suc n) (x ∷ xs) h = drop_past n xs (omega (arith, h))

  pub drop_nil : (n : ℕ) → drop {A = A} n [] ≡ []
  drop_nil zero = refl
  drop_nil (suc n) = refl

  pub drop_add : (m n : ℕ) (xs : List A) → drop (m + n) xs ≡ drop n (drop m xs)
  drop_add zero n xs = ap (λ k. drop k xs) (zero_plus n)
  drop_add (suc m) n [] = drop_nil (suc m + n) ∙ sym (drop_nil n)
  drop_add (suc m) n (x ∷ xs) = ap (λ k. drop k (x ∷ xs)) (suc_plus m n) ∙ drop_add m n xs

  pub take_nil : (n : ℕ) → take {A = A} n [] ≡ []
  take_nil zero = refl
  take_nil (suc n) = refl

  pub take_add : (m n : ℕ) (xs : List A) → take (m + n) xs ≡ take m xs ++ take n (drop m xs)
  take_add zero n xs = ap (λ k. take k xs) (zero_plus n)
  take_add (suc m) n [] = take_nil (suc m + n) ∙ sym (take_nil n)
  take_add (suc m) n (x ∷ xs) =
      ap (λ k. take k (x ∷ xs)) (suc_plus m n) ∙ ap (λ r. x ∷ r) (take_add m n xs)

  pub get_elem?-in : (i : ℕ) (xs : List A) → i < length xs → (x : A) × (get_elem? xs i ≡ some x)
  get_elem?-in i [] h = elim (suc_le_zero i h) [ ]
  get_elem?-in zero (x ∷ xs) h = (x, refl)
  get_elem?-in (suc i) (x ∷ xs) h = get_elem?-in i xs (omega (arith, h))

  pub length-set : (xs : List A) (i : ℕ) (v : A) → length (set xs i v) ≡ length xs
  length-set [] i v = refl
  length-set (x ∷ xs) zero v = refl
  length-set (x ∷ xs) (suc i) v = ap suc (length-set xs i v)

  -- Two neighbouring slices.
  pub slice_add :
      (o m n : ℕ) (xs : List A)
      → take (m + n) (drop o xs) ≡ take m (drop o xs) ++ take n (drop (o + m) xs)
  slice_add o m n xs =
      take_add m n (drop o xs) ∙ ap (λ r. take m (drop o xs) ++ take n r) (sym (drop_add o m xs))

  pub length-slice : (o n : ℕ) (xs : List A) → o + n ≤ length xs → length (take n (drop o xs)) ≡ n
  length-slice o n xs h = omega (arith, h, length-take n (drop o xs), length-drop o xs)
