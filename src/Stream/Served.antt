-- ===== src/Stream/Served.antt =====
-- The loop that serves pages of the cache.
use pcfs.Base.{
  ℕ, zero, suc, ◌+◌, ◌-◌, ◌*◌, ◌≤◌, ◌≡◌, refl, sym, ap, ◌∙◌, List, [], ◌++◌, Option, none, some,
  arith, length, take, drop, get_elem?, get_elem?-in, set, length-set, slice_add, elim-at_some,
  ◌>>=◌, zero_plus,
}
use mathlib.Core.Path.{ap₂}
use pcfs.Types.{page_size}
use pcfs.Stream.{Pages}
use pcfs.Stream.Pages.{page, Holds, Holds-get, Holds-clear, weight, weight-clear}
use pcfs.Stream.Call.{Serving, serve}

-- What is left after pages were served from the number `i` on, `n` pages being asked for.
pub record ServedWell (c : List ℕ) (ps : Pages) (i n : ℕ) (r : Serving) : Type 0 where
  pub few : r.left ≤ n
  pub bytes : r.bytes ≡ take ((n - r.left) * page_size) (drop (i * page_size) c)
  pub holds : Holds c 0 r.pages
  pub places : length r.pages ≡ length ps
  pub weighs : weight r.pages + (n - r.left) * page_size ≡ weight ps

no_bytes : (n : ℕ) → 0 ≡ (n - n) * page_size
no_bytes n = omega arith

more_bytes : (n l : ℕ) → l ≤ n → page_size + (n - l) * page_size ≡ (suc n - l) * page_size
more_bytes n l h = omega (arith, h)

next_start : (i : ℕ) → suc i * page_size ≡ i * page_size + page_size
next_start i = omega arith

served_none :
    (c : List ℕ) (ps : Pages) (i n : ℕ)
    → Holds c 0 ps
    → ServedWell c ps i n (record { bytes = []; pages = ps; left = n })
served_none c ps i n h = record {
  few = omega arith;
  bytes = ap (λ k. take k (drop (i * page_size) c)) (no_bytes n);
  holds = h;
  places = refl;
  weighs = omega arith;
}

served_page :
    (c : List ℕ) (ps : Pages) (i n : ℕ) (p : List ℕ) (r : Serving)
    → Holds c 0 ps
    → get_elem? ps i ≡ some (some p)
    → ServedWell c (set ps i none) (suc i) n r
    → ServedWell c ps i (suc n) (record r { bytes = p ++ r.bytes })
unfolding page
served_page c ps i n p r h g w = record {
  few = omega (arith, w.few);
  bytes =
      ap₂ (λ a b. a ++ b) (Holds-get c 0 i i ps p (sym (zero_plus i)) h g).0
        (w.bytes ∙ ap (λ o. take ((n - r.left) * page_size) (drop o c)) (next_start i))
      ∙ sym (slice_add (i * page_size) page_size ((n - r.left) * page_size) c)
      ∙ ap (λ k. take k (drop (i * page_size) c)) (more_bytes n r.left w.few);
  holds = w.holds;
  places = w.places ∙ length-set ps i none;
  weighs = omega (arith, w.weighs, w.few, weight-clear i ps p g);
}

abbrev put_before : List ℕ → Serving → Option Serving
put_before p q = some (record q { bytes = p ++ q.bytes })

served_next :
    (c : List ℕ) (ps : Pages) (i n : ℕ) (x : Option (List ℕ))
    → Holds c 0 ps
    → get_elem? ps i ≡ some x
    → (r : Serving) × (serve (set ps i none) (suc i) n ≡ some r)
      × ServedWell c (set ps i none) (suc i) n r
    → (r : Serving) × (serve ps i (suc n) ≡ some r) × ServedWell c ps i (suc n) r
unfolding serve
served_next c ps i n none h g rest = (
  record { bytes = []; pages = ps; left = suc n },
  elim-at_some _ _ none g,
  served_none c ps i (suc n) h,
)
served_next c ps i n (some p) h g (r, e, w) = (
  record r { bytes = p ++ r.bytes },
  elim-at_some _ _ (some p) g ∙ ap (λ o. o >>= put_before p) e,
  served_page c ps i n p r h g w,
)

-- The loop ends without an access outside the cache, which has a place for each page asked for.
pub serve-ServedWell :
    (c : List ℕ) (ps : Pages) (i n : ℕ)
    → Holds c 0 ps
    → i + n ≤ length ps
    → (r : Serving) × (serve ps i n ≡ some r) × ServedWell c ps i n r
unfolding serve
serve-ServedWell c ps i zero h f =
    (record { bytes = []; pages = ps; left = 0 }, refl, served_none c ps i 0 h)
serve-ServedWell c ps i (suc n) h f =
    let (x, g) = get_elem?-in i ps (omega (arith, f)) in
    served_next c ps i n x h g (
      serve-ServedWell c (set ps i none) (suc i) n (Holds-clear c 0 i ps h)
        (omega (arith, f, length-set ps i none)))
