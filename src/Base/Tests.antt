-- ===== src/Base/Tests.antt =====
-- Boolean tests on numbers, the conditional, and splits that keep the equation.
use Prim.Native.Nat.{ℕ, ◌≤◌, ◌<◌, compare, Ordering}
use mathlib.Core.Path.{ap, sym, ◌≡◌, refl}
use mathlib.Core.Logic.{◌↔◌, ◌⊎◌, inl, inr}
use mathlib.Core.Bool.{Bool, true, false}
use mathlib.Core.Option.{Option, none, some}
use native.Mathlib.Omega.{arith}

abbrev pub ltb : ℕ → ℕ → Bool
ltb a b = elim (compare a b) [ Ordering.lt ↦ true | _ ↦ false ]

abbrev pub leb : ℕ → ℕ → Bool
leb a b = elim (compare a b) [ Ordering.gt ↦ false | _ ↦ true ]

infix 50 ◌==◌
abbrev pub ◌==◌ : ℕ → ℕ → Bool
a == b = elim (compare a b) [ Ordering.eq ↦ true | _ ↦ false ]

infix 1 if◌then◌else◌
abbrev pub if◌then◌else◌ {ℓ} : {A : Type ℓ} → Bool → A → A → A
if true then x else y = x
if false then x else y = y

abbrev pub is_some {ℓ} : {A : Type ℓ} → Option A → Bool
is_some none = false
is_some (some _) = true

pub ltb→lt : (a b : ℕ) → ltb a b ≡ true → a < b
ltb→lt a b h = ground arith

pub leb→le : (a b : ℕ) → leb a b ≡ true → a ≤ b
leb→le a b h = ground arith

pub ==_iff : (a b : ℕ) → ((a == b) ≡ true) ↔ (a ≡ b)
==_iff a b = ground arith

pub Bool-cases : (b : Bool) → (b ≡ true) ⊎ (b ≡ false)
Bool-cases true = inl refl
Bool-cases false = inr refl

pub Option-cases {ℓ} : {A : Type ℓ} (o : Option A) → (o ≡ none) ⊎ ((a : A) × (o ≡ some a))
Option-cases none = inl refl
Option-cases (some a) = inr (a, refl)

pub true_ne_false : true ≡ false → ⊥
true_ne_false h = cc

-- A test and the statement that it decides, from the other side.
pub false_iff {ℓ} : {P : Type ℓ} (b : Bool) → (b ≡ true) ↔ P → (b ≡ false) ↔ (¬ P)
false_iff true e = (λ h. absurd (true_ne_false h), λ n. absurd (n (e.0 refl)))
false_iff false e = (λ h p. true_ne_false (sym (e.1 p)), λ n. refl)

-- What follows from a result of an `if`, branch by branch.
pub if-cases :
    {A P : Type 0} (b : Bool) (x y r : A)
    → (if b then x else y) ≡ r
    → (b ≡ true → x ≡ r → P)
    → (b ≡ false → y ≡ r → P)
    → P
if-cases true x y r e on_true on_false = on_true refl e
if-cases false x y r e on_true on_false = on_false refl e

-- The same for a choice on an option.
pub elim-cases :
    {A B P : Type 0} (o : Option B) (x r : A) (f : B → A)
    → (elim o [ none ↦ x | some b ↦ f b ]) ≡ r
    → (o ≡ none → x ≡ r → P)
    → ((b : B) → o ≡ some b → f b ≡ r → P)
    → P
elim-cases none x r f e on_none on_some = on_none refl e
elim-cases (some b) x r f e on_none on_some = on_some b refl e

pub elim-some :
    {A B : Type 0} (o : Option B) (x r : A) (f : B → A)
    → is_some o ≡ true
    → ((b : B) → f b ≡ r)
    → (elim o [ none ↦ x | some b ↦ f b ]) ≡ r
elim-some none x r f e all = ground (arith, e)
elim-some (some b) x r f e all = all b

pub if-true : {A : Type 0} {b : Bool} (x y : A) → b ≡ true → (if b then x else y) ≡ x
if-true x y e = ap (λ b. if b then x else y) e

pub if-false : {A : Type 0} {b : Bool} (x y : A) → b ≡ false → (if b then x else y) ≡ y
if-false x y e = ap (λ b. if b then x else y) e

pub elim-at_none :
    {A B : Type 0} {o : Option B} (x : A) (f : B → A)
    → o ≡ none
    → (elim o [ none ↦ x | some c ↦ f c ]) ≡ x
elim-at_none x f e = ap (λ o. elim o [ none ↦ x | some c ↦ f c ]) e

pub elim-at_some :
    {A B : Type 0} {o : Option B} (x : A) (f : B → A) (b : B)
    → o ≡ some b
    → (elim o [ none ↦ x | some c ↦ f c ]) ≡ f b
elim-at_some x f b e = ap (λ o. elim o [ none ↦ x | some c ↦ f c ]) e

-- What holds of both branches holds of the choice.
pub if-all {ℓ} :
    {A : Type 0} (P : A → Type ℓ) (b : Bool) (x y : A)
    → (b ≡ true → P x)
    → (b ≡ false → P y)
    → P (if b then x else y)
if-all P true x y f g = f refl
if-all P false x y f g = g refl

pub elim-all {ℓ} :
    {A B : Type 0} (P : A → Type ℓ) (o : Option B) (x : A) (f : B → A)
    → (o ≡ none → P x)
    → ((b : B) → o ≡ some b → P (f b))
    → P (elim o [ none ↦ x | some b ↦ f b ])
elim-all P none x f g h = g refl
elim-all P (some b) x f g h = h b refl

pub none_ne_some : {A : Type 0} (a : A) → none ≡ some a → ⊥
none_ne_some a e = true_ne_false (sym (ap is_some e))

pub some_ne_none : {A : Type 0} (a : A) → some a ≡ none → ⊥
some_ne_none a e = true_ne_false (ap is_some e)
