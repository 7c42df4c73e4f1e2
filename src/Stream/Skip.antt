-- ===== src/Stream/Skip.antt =====
-- The skipping loop of `direct_decompress`: it ends, and between page boundaries inside the content
-- it arrives, having kept each page that it passed or thrown it away.
use pcfs.Base.{
  ℕ, zero, suc, ◌+◌, ◌-◌, ◌*◌, ◌≤◌, ◌<◌, ◌≡◌, refl, ap, ◌∙◌, true, false, List, some, arith, ◌==◌,
  ltb, length, suc_le_zero, min, is_some, if-all, elim-all,
}
use pcfs.Types.{page_size}
use pcfs.Stream.{
  Around, Skim, Stop, arrived, Place, outside, own_page, caller, choose_place, Progress, stop, more,
  is_short, read_some, turn, skip,
}
use pcfs.Stream.Turn.{IsAt, Balanced, Healthy, turn-Turned}

skip-stop :
    (e : Around) (fuel toread : ℕ) (k l : Skim) (s : Stop)
    → turn e (min (suc toread) page_size) (choose_place e k) k ≡ stop l s
    → skip e (suc fuel) (suc toread) k ≡ some (l, s)
unfolding skip
skip-stop e fuel toread k l s t =
    ap (λ x. elim x [ stop k1 s1 ↦ some (k1, s1) | more n k1 ↦ skip e fuel (suc toread - n) k1 ]) t

skip-more :
    (e : Around) (fuel toread : ℕ) (k l : Skim) (len : ℕ)
    → 0 < toread
    → turn e (min toread page_size) (choose_place e k) k ≡ more len l
    → skip e (suc fuel) toread k ≡ skip e fuel (toread - len) l
unfolding skip
skip-more e fuel zero k l len p t = elim (suc_le_zero 0 p) [ ]
skip-more e fuel (suc toread) k l len p t =
    ap (λ x. elim x [ stop k1 s ↦ some (k1, s) | more n k1 ↦ skip e fuel (suc toread - n) k1 ]) t

no_pages : (n : ℕ) → 0 * page_size ≡ 0
no_pages n = refl

whole_page : (m : ℕ) → min (suc m * page_size) page_size ≡ page_size
whole_page m = omega arith

less_page : (m : ℕ) → suc m * page_size - page_size ≡ m * page_size
less_page m = omega arith

skip-zero : (e : Around) (fuel : ℕ) (k : Skim) → skip e fuel 0 k ≡ some (k, arrived)
unfolding skip
skip-zero e fuel k = refl

-- From the beginning of the page number `i`, the loop passes `m` pages that lie in the content and
-- arrives, with the cache still right and counted right.
pub skip-IsAt :
    (c : List ℕ) (e : Around) (m fuel i : ℕ) (k : Skim)
    → Healthy c e
    → IsAt c e i k
    → (i + m) * page_size ≤ length c
    → m ≤ fuel
    → (l : Skim) × (skip e fuel (m * page_size) k ≡ some (l, arrived))
      × IsAt c e (i + m) l
      × Balanced k l
skip-IsAt c e zero fuel i k h at f g =
    let same : i ≡ i + 0 = omega arith in
    (
      k,
      ap (λ t. skip e fuel t k) (no_pages 0) ∙ skip-zero e fuel k,
      (at.0 ∙ ap (λ j. j * page_size) same, at.1, at.2),
      (refl, λ b hb hr. hr, λ n. refl),
    )
skip-IsAt c e (suc m) zero i k h at f g = elim (suc_le_zero m g) [ ]
skip-IsAt c e (suc m) (suc fuel) i k h at f g =
    let (l, (t, al, bl)) = turn-Turned c e i k h at (omega (arith, f)) in
    let (r, s, ar, br) =
      skip-IsAt c e m fuel (suc i) l h al (omega (arith, f)) (omega (arith, g)) in
    let went =
      skip-more e fuel (suc m * page_size) k l page_size (omega arith)
        (ap (λ n. turn e n (choose_place e k) k) (whole_page m) ∙ t) in
    let same : suc i + m ≡ i + suc m = omega arith in
    (
      r,
      went ∙ ap (λ n. skip e fuel n l) (less_page m) ∙ s,
      (ar.0 ∙ ap (λ j. j * page_size) same, ar.1, ar.2),
      (omega (arith, bl.0, br.0), λ b hb hr. br.1 b hb (bl.1 b hb hr), λ n. bl.2 n ∙ br.2 n),
    )

-- A turn that goes on has read something.
abbrev GoesOn : Progress → Type 0
GoesOn (stop k s) = Unit {0}
GoesOn (more n k) = 0 < n

not_nothing : (n : ℕ) → (n == 0) ≡ false → 0 < n
not_nothing n e = ground (arith, e)

read_some-GoesOn : (e : Around) (n : ℕ) (p : Place) (k : Skim) → GoesOn (read_some e n p k)
unfolding read_some
read_some-GoesOn e n p k =
    elim-all GoesOn (e.read k.offset n) _ _ (λ q. tt)
      (λ bs q.
        if-all GoesOn (ltb n (length bs)) _ _ (λ s. tt)
          (λ x.
            if-all GoesOn (is_short e.size k.offset (length bs) n) _ _ (λ s. tt)
              (λ s. if-all GoesOn (length bs == 0) _ _ (λ z. tt) (λ z. not_nothing (length bs) z))))

turn-GoesOn : (e : Around) (n : ℕ) (p : Place) (k : Skim) → GoesOn (turn e n p k)
unfolding turn
turn-GoesOn e n outside k = tt
turn-GoesOn e n own_page k =
    if-all GoesOn (e.allocated k.offset) _ _
      (λ a. read_some-GoesOn e n own_page (record k { total = k.total + page_size })) (λ a. tt)
turn-GoesOn e n caller k = read_some-GoesOn e n caller k

one_turn :
    (e : Around) (fuel toread : ℕ) (k : Skim)
    → ((n : ℕ) (l : Skim) → 0 < n → is_some (skip e fuel (suc toread - n) l) ≡ true)
    → (x : Progress) → turn e (min (suc toread) page_size) (choose_place e k) k ≡ x
    → GoesOn x
    → is_some (skip e (suc fuel) (suc toread) k) ≡ true
one_turn e fuel toread k rest (stop l s) t g = ap is_some (skip-stop e fuel toread k l s t)
one_turn e fuel toread k rest (more n l) t g =
    ap is_some (skip-more e fuel (suc toread) k l n (omega arith) t) ∙ rest n l g

-- With as much fuel as bytes are to be skipped the loop ends, whatever the module, `malloc` and the
-- cache are like: each turn that does not end it reads at least one byte, and not more than it asked
-- for. An answer that is longer has been written behind its place, and counts as an end, `astray`.
pub skip-ends :
    (e : Around) (fuel toread : ℕ) (k : Skim)
    → toread ≤ fuel
    → is_some (skip e fuel toread k) ≡ true
skip-ends e fuel zero k h = ap is_some (skip-zero e fuel k)
skip-ends e zero (suc toread) k h = elim (suc_le_zero toread h) [ ]
skip-ends e (suc fuel) (suc toread) k h =
    one_turn e fuel toread k (λ n l g. skip-ends e fuel (suc toread - n) l (omega (arith, g, h)))
      (turn e (min (suc toread) page_size) (choose_place e k) k) refl
      (turn-GoesOn e (min (suc toread) page_size) (choose_place e k) k)
