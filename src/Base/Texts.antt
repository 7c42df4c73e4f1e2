-- ===== src/Base/Texts.antt =====
-- C strings as lists of bytes, without the terminating NUL, and the tests of <string.h> on them.
use Prim.Native.Nat.{ℕ, ◌+◌}
use mathlib.Core.Path.{◌≡◌, refl, ap}
use mathlib.Core.Logic.{◌↔◌, inl, inr}
use native.Mathlib.Omega.{arith}
use Prim.Native.Char.{code}
use Prim.Native.String.{String}
use mathlib.Core.Bool.{Bool, true, false, ◌&&◌, ◌||◌}
use mathlib.Core.List.{List, [], ◌∷◌, ◌++◌, map}
use mathlib.Core.Option.{Option, none, some}
use pcfs.Base.Tests.{leb, ◌==◌, if◌then◌else◌, Bool-cases}

-- The code points of a text: its bytes, if it is ASCII.
abbrev pub codes : String → List ℕ
codes String.[] = []
codes (String.◌∷◌ c s) = code c ∷ codes s

-- `strcmp(a, b) == 0`
unfoldable pub str_eq : List ℕ → List ℕ → Bool
str_eq [] [] = true
str_eq [] (y ∷ ys) = false
str_eq (x ∷ xs) [] = false
str_eq (x ∷ xs) (y ∷ ys) = (x == y) && str_eq xs ys

-- `strncmp(s, p, strlen(p)) == 0`
unfoldable pub starts_with : List ℕ → List ℕ → Bool
starts_with s [] = true
starts_with [] (y ∷ ys) = false
starts_with (x ∷ xs) (y ∷ ys) = (x == y) && starts_with xs ys

-- `strstr(s, p) != NULL`
unfoldable pub contains : List ℕ → List ℕ → Bool
unfolding starts_with
contains [] p = starts_with [] p
contains (x ∷ xs) p = starts_with (x ∷ xs) p || contains xs p

-- `tolower` in the C locale
unfoldable pub to_lower : ℕ → ℕ
to_lower c = if leb b'A' c && leb c b'Z' then c + 32 else c

-- `strcasestr(s, p) != NULL`
unfoldable pub contains_nocase : List ℕ → List ℕ → Bool
unfolding contains to_lower
contains_nocase s p = contains (map to_lower s) (map to_lower p)

-- `rindex(s, c)`: the part of `s` from the last `c` on.
unfoldable pub rindex : List ℕ → ℕ → Option (List ℕ)
rindex [] c = none
rindex (x ∷ xs) c = elim (rindex xs c) [
  | some r ↦ some r
  | none ↦ if x == c then some (x ∷ xs) else none
]

-- `Infix p s`: the text `s` holds `p` as a run of bytes.
pub record Infix (p s : List ℕ) : Type 0 where
  pub before : List ℕ
  pub after : List ℕ
  pub splits : s ≡ before ++ (p ++ after)

pub starts_with-append : (p s : List ℕ) → starts_with (p ++ s) p ≡ true
unfolding starts_with
starts_with-append [] [] = refl
starts_with-append [] (y ∷ s) = refl
starts_with-append (x ∷ p) s = ground (arith, starts_with-append p s)

pub starts_with→append :
    (s p : List ℕ) → starts_with s p ≡ true → (after : List ℕ) × (s ≡ p ++ after)
unfolding starts_with
starts_with→append s [] h = (s, refl)
starts_with→append [] (y ∷ p) h = cc
starts_with→append (x ∷ s) (y ∷ p) h =
    let r = starts_with→append s p (ground arith) in (r.0, ground (arith, r.1))

pub contains_of_starts : (s p : List ℕ) → starts_with s p ≡ true → contains s p ≡ true
unfolding contains
contains_of_starts [] p h = h
contains_of_starts (x ∷ s) p h = rw h

-- `strstr` finds every run, and nothing else.
pub contains-append : (before p after : List ℕ) → contains (before ++ (p ++ after)) p ≡ true
unfolding contains
contains-append [] p after = contains_of_starts (p ++ after) p (starts_with-append p after)
contains-append (x ∷ before) p after = ground (arith, contains-append before p after)

pub contains→Infix : (s p : List ℕ) → contains s p ≡ true → Infix p s
unfolding contains
contains→Infix [] p h =
    let r = starts_with→append [] p h in record { before = []; after = r.0; splits = r.1 }
contains→Infix (x ∷ s) p h = elim (Bool-cases (starts_with (x ∷ s) p)) [
  | inl e ↦
      let r = starts_with→append (x ∷ s) p e in record { before = []; after = r.0; splits = r.1 }
  | inr e ↦
      let r = contains→Infix s p (ground arith) in
      record { before = x ∷ r.before; after = r.after; splits = ap (λ t. x ∷ t) r.splits }
]

pub contains_iff : (s p : List ℕ) → (contains s p ≡ true) ↔ Infix p s
contains_iff s p = (contains→Infix s p, λ i. rw i.splits (contains-append i.before p i.after))
