-- ===== src/Sectors/Marks.antt =====
-- The marks: `get_type` reads what `set_flag` wrote.
use pcfs.Base.{
  ℕ, zero, suc, ◌/◌, ◌%◌, ◌<◌, ◌≡◌, refl, ap, Bool, true, false, not, ◌&&◌, List, [], ◌∷◌, some,
  arith, ltb, ltb→lt, ◌==◌, ==_iff, if◌then◌else◌, bind-some, length, bit_or, bit_and, Bool-cases,
  inl, inr, sym, ◌∙◌,
}
use mathlib.Core.Option.{some-injective}
use pcfs.Sectors.{nth, set_nth, mask, set_flag, get_type}

-- A property of every number below a bound, by evaluation.
all_below : ℕ → (ℕ → Bool) → Bool
all_below zero p = true
all_below (suc n) p = p n && all_below n p

all_below-holds : (n : ℕ) (p : ℕ → Bool) (x : ℕ) → all_below n p ≡ true → x < n → p x ≡ true
unfolding all_below
all_below-holds zero p x h lt = absurd (omega arith)
all_below-holds (suc n) p x h lt = ground (arith, all_below-holds n p x)

abbrev test : ℕ → ℕ → Bool
test byte o = not (bit_and byte (mask o) == 0)

abbrev same : Bool → Bool → Bool
same true b = b
same false b = not b

abbrev law : ℕ → ℕ → ℕ → Bool
law o p byte = same (test (bit_or byte (mask o)) p) (if o == p then true else test byte p)

table : all_below 8 (λ o. all_below 8 (λ p. all_below 256 (law o p))) ≡ true
unfolding all_below
table = refl

same-eq : (a b : Bool) → same a b ≡ true → a ≡ b
same-eq true b e = sym e
same-eq false b e = ground (arith, e)

set_bit :
    (o p byte : ℕ)
    → o < 8
    → p < 8
    → byte < 256
    → test (bit_or byte (mask o)) p ≡ (if o == p then true else test byte p)
set_bit o p byte ho hp hb = same-eq _ _ (
    all_below-holds 256 (law o p) byte
      (all_below-holds 8 (λ p. all_below 256 (law o p)) p
        (all_below-holds 8 (λ o. all_below 8 (λ p. all_below 256 (law o p))) o table ho) hp)
      hb)

or_law : ℕ → ℕ → Bool
or_law o byte = ltb (bit_or byte (mask o)) 256

or_table : all_below 8 (λ o. all_below 256 (or_law o)) ≡ true
unfolding all_below or_law
or_table = refl

or-small : (o byte : ℕ) → o < 8 → byte < 256 → bit_or byte (mask o) < 256
unfolding or_law
or-small o byte ho hb =
    let h =
      all_below-holds 256 (or_law o) byte
        (all_below-holds 8 (λ o. all_below 256 (or_law o)) o or_table ho) hb in
    ltb→lt _ _ h

-- Every byte of the marks is one.
abbrev pub AllBytes : List ℕ → Type 0
AllBytes m = (i b : ℕ) → nth m i ≡ some b → b < 256

nth-set_nth :
    (xs ys : List ℕ) (i j b : ℕ)
    → set_nth xs i b ≡ some ys
    → nth ys j ≡ (if j == i then some b else nth xs j)
unfolding nth set_nth
nth-set_nth [] ys i j b e = ground (arith, e)
nth-set_nth (x ∷ xs) ys zero zero b e = ground (arith, e)
nth-set_nth (x ∷ xs) ys zero (suc j) b e = ground (arith, e)
nth-set_nth (x ∷ xs) ys (suc i) zero b e =
    let (zs, _, r) = bind-some (set_nth xs i b) _ ys e in
    ap (λ l. nth l 0) (sym (some-injective (x ∷ zs) ys r)) ∙ ground arith
nth-set_nth (x ∷ xs) ys (suc i) (suc j) b e =
    let (zs, q, r) = bind-some (set_nth xs i b) _ ys e in
    ap (λ l. nth l (suc j)) (sym (some-injective (x ∷ zs) ys r))
    ∙ nth-set_nth xs zs i j b q
    ∙ ground arith

set_nth-runs :
    (xs : List ℕ) (i b c : ℕ) → nth xs i ≡ some c → (ys : List ℕ) × (set_nth xs i b ≡ some ys)
unfolding nth set_nth
set_nth-runs [] i b c e = ground (arith, e)
set_nth-runs (x ∷ xs) zero b c e = (b ∷ xs, refl)
set_nth-runs (x ∷ xs) (suc i) b c e = let (ys, r) = set_nth-runs xs i b c e in (x ∷ ys, rw r)

nth-inside : (xs : List ℕ) (i : ℕ) → i < length xs → (b : ℕ) × (nth xs i ≡ some b)
unfolding nth
nth-inside [] i lt = absurd (omega arith)
nth-inside (x ∷ xs) zero lt = (x, refl)
nth-inside (x ∷ xs) (suc i) lt = nth-inside xs i (omega arith)

get_type-at : (m : List ℕ) (c x : ℕ) → nth m (c / 8) ≡ some x → get_type m c ≡ some (test x (c % 8))
unfolding get_type
get_type-at m c x e = rw e

get_type-cong : (m n : List ℕ) (c : ℕ) → nth n (c / 8) ≡ nth m (c / 8) → get_type n c ≡ get_type m c
unfolding get_type
get_type-cong m n c e = rw e

same_place : (b c : ℕ) → (c / 8 == b / 8) ≡ true → (b % 8 == c % 8) ≡ (c == b)
same_place b c q = elim (Bool-cases (c == b)) [
  | inl e ↦
      let eq : c ≡ b = (==_iff c b).0 e in (==_iff (b % 8) (c % 8)).1 (omega (arith, eq)) ∙ sym e
  | inr e ↦ elim (Bool-cases (b % 8 == c % 8)) [
    | inl f ↦
        let eq : c ≡ b =
          omega (arith, (==_iff (c / 8) (b / 8)).0 q, (==_iff (b % 8) (c % 8)).0 f) in
        ground (arith, e, (==_iff c b).1 eq)
    | inr f ↦ f ∙ sym e
  ]
]

other_place : (b c : ℕ) → (c / 8 == b / 8) ≡ false → (c == b) ≡ false
other_place b c q = elim (Bool-cases (c == b)) [
  | inl e ↦
      let eq : c / 8 ≡ b / 8 = ap (λ (n : ℕ). n / 8) ((==_iff c b).0 e) in
      ground (arith, q, (==_iff (c / 8) (b / 8)).1 eq)
  | inr e ↦ e
]

-- What `set_flag` does to a mark, and to all others: nothing. The marks stay bytes.
pub set_flag-get_type :
    (m n : List ℕ) (b c : ℕ)
    → AllBytes m
    → set_flag m b ≡ some n
    → (get_type n c ≡ (if c == b then some true else get_type m c)) × AllBytes n
unfolding set_flag
set_flag-get_type m n b c small e =
    let (byte, at, e1) = bind-some (nth m (b / 8)) _ n e in
    let set = bit_or byte (mask (b % 8)) in
    let after : (j : ℕ) → nth n j ≡ (if j == b / 8 then some set else nth m j) =
      λ j. nth-set_nth m n (b / 8) j set e1 in
    let bit : test set (c % 8) ≡ (if b % 8 == c % 8 then true else test byte (c % 8)) =
      set_bit (b % 8) (c % 8) byte (omega arith) (omega arith) (small (b / 8) byte at) in
    let or : set < 256 = or-small (b % 8) byte (omega arith) (small (b / 8) byte at) in
    let seen : get_type n c ≡ (if c == b then some true else get_type m c) =
      elim (Bool-cases (c / 8 == b / 8)) [
        | inl q ↦
            let there : nth m (c / 8) ≡ some byte =
              ap (nth m) ((==_iff (c / 8) (b / 8)).0 q) ∙ at in
            let now : nth n (c / 8) ≡ some set = after (c / 8) ∙ rw q in
            ground
              (arith, get_type-at n c set now, get_type-at m c byte there, bit, same_place b c q)
        | inr q ↦
            let now : nth n (c / 8) ≡ nth m (c / 8) = after (c / 8) ∙ rw q in
            get_type-cong m n c now ∙ rw (other_place b c q)
      ] in
    (seen, λ i x q. ground (arith, after i, small i x, or, q))

set_nth-length : (xs ys : List ℕ) (i b : ℕ) → set_nth xs i b ≡ some ys → length ys ≡ length xs
unfolding set_nth
set_nth-length [] ys i b e = ground (arith, e)
set_nth-length (x ∷ xs) ys zero b e = ap length (sym (some-injective (b ∷ xs) ys e))
set_nth-length (x ∷ xs) ys (suc i) b e =
    let (zs, q, r) = bind-some (set_nth xs i b) _ ys e in
    ap length (sym (some-injective (x ∷ zs) ys r)) ∙ ap suc (set_nth-length xs zs i b q)

-- Inside of the marks `set_flag` succeeds, and it never changes their length.
pub set_flag-runs :
    (m : List ℕ) (b : ℕ)
    → b / 8 < length m
    → (n : List ℕ) × (set_flag m b ≡ some n) × (length n ≡ length m)
unfolding set_flag
set_flag-runs m b inside =
    let (x, at) = nth-inside m (b / 8) inside in
    let (n, e) = set_nth-runs m (b / 8) (bit_or x (mask (b % 8))) x at in
    (n, rw (at, e), set_nth-length m n (b / 8) (bit_or x (mask (b % 8))) e)
