-- ===== src/Database/Find.antt =====
-- The search of `direct_open` compares hashes first; that misses no file.
use pcfs.Base.{
  ℕ, ◌≡◌, ◌≢◌, sym, ap, subst, inl, inr, Bool, true, ◌&&◌, List, [], ◌∷◌, Option, none, some, arith,
  ◌==◌, if◌then◌else◌, is_some, has, Bool-cases, Option-cases, str_eq,
}
use pcfs.Types.{File}
use pcfs.Names.{gethash}
use pcfs.Names.Shared.{str_eq_iff}
use pcfs.Database.{State, find_file}

-- Stored hashes are right, and no two listed files have one name.
pub record Named (s : State) : Type 0 where
  pub hashed : (id : ℕ) (f : File) → s.heap id ≡ some f → f.hash ≡ gethash f.name
  pub unique :
      (i j : ℕ) (f g : File)
      → has i s.files ≡ true
      → has j s.files ≡ true
      → s.heap i ≡ some f
      → s.heap j ≡ some g
      → f.name ≡ g.name
      → i ≡ j

pub data Found (heap : ℕ → Option File) (name : List ℕ) (ids : List ℕ)
    : Option (Option ℕ) → Type 0 where
  absent :
      ((p : ℕ) (f : File) → has p ids ≡ true → heap p ≡ some f → f.name ≢ name)
      → Found heap name ids (some none)
  present :
      {id : ℕ} (f : File)
      → has id ids ≡ true
      → heap id ≡ some f
      → f.name ≡ name
      → Found heap name ids (some (some id))

matches : List ℕ → File → Bool
matches name f = (f.hash == gethash name) && str_eq f.name name

matches→eq : (name : List ℕ) (f : File) → matches name f ≡ true → f.name ≡ name
unfolding matches
matches→eq name f h = (str_eq_iff f.name name).0 (ground arith)

eq→matches :
    (name : List ℕ) (f : File) → f.hash ≡ gethash f.name → f.name ≡ name → matches name f ≡ true
unfolding matches
eq→matches name f h e = ground (arith, ap gethash e, (str_eq_iff f.name name).1 e)

find_step :
    (heap : ℕ → Option File) (name : List ℕ) (id : ℕ) (ids : List ℕ) (f : File)
    → heap id ≡ some f
    → find_file heap (gethash name) name (id ∷ ids)
      ≡ (if matches name f then some (some id) else find_file heap (gethash name) name ids)
unfolding find_file matches
find_step heap name id ids f e = rw (e, find_file)

Found-later :
    {heap : ℕ → Option File} {name : List ℕ} (id : ℕ) {ids : List ℕ} (f : File)
    {o : Option (Option ℕ)}
    → heap id ≡ some f
    → f.name ≢ name
    → Found heap name ids o
    → Found heap name (id ∷ ids) o
Found-later id f e ne (absent a) = absent (λ p g m q n. elim (Bool-cases (p == id)) [
  | inl h ↦ ne (ground arith)
  | inr h ↦ a p g (ground arith) q n
])
Found-later id f e ne (present g m q n) = present g (ground arith) q n

pub find_file-Found :
    (heap : ℕ → Option File) (name : List ℕ) (ids : List ℕ)
    → ((p : ℕ) → has p ids ≡ true → is_some (heap p) ≡ true)
    → ((p : ℕ) (f : File) → heap p ≡ some f → f.hash ≡ gethash f.name)
    → Found heap name ids (find_file heap (gethash name) name ids)
unfolding find_file
find_file-Found heap name [] live hashed = absent (λ p f m. cc)
find_file-Found heap name (id ∷ ids) live hashed =
    let rest = find_file-Found heap name ids (λ p m. live p (ground arith)) hashed in
    elim (Option-cases (heap id)) [
      | inl e ↦ absurd (ground (arith, live id))
      | inr (f, e) ↦
          subst (Found heap name (id ∷ ids)) (sym (find_step heap name id ids f e))
            (elim (Bool-cases (matches name f)) [
              | inl h ↦ rw h (present f (ground arith) e (matches→eq name f h))
              | inr h ↦ rw h (
                  Found-later id f e (λ n. ground (arith, eq→matches name f (hashed id f e) n))
                    rest)
            ])
    ]
