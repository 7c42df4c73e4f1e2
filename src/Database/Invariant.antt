-- ===== src/Database/Invariant.antt =====
-- What holds of the database whenever its lock is free.
use pcfs.Base.{
  ℕ, suc, ◌+◌, ◌≤◌, ◌≡◌, true, false, List, [], ◌∷◌, ◌++◌, Option, none, some, arith, ◌==◌,
  if◌then◌else◌, is_some, has, Distinct, length,
}
use pcfs.Types.{File, Descriptor}
use pcfs.Database.{Entry, State, unlink}

-- How many entries of the queue, and whether the background thread, refer to the file.
abbrev pub waits : ℕ → List Entry → ℕ
waits id [] = 0
waits id (e ∷ es) = (if id == e.file then 1 else 0) + waits id es

abbrev pub at_work : ℕ → Option ℕ → ℕ
at_work id none = 0
at_work id (some w) = if id == w then 1 else 0

-- The references that others hold to the file.
abbrev pub refs : State → ℕ → ℕ
refs s id = waits id s.queue + at_work id s.worker

abbrev pub OwnedBy : ℕ → List Descriptor → Type 0
OwnedBy id [] = Unit {0}
OwnedBy id (d ∷ ds) = (d.file ≡ id) × OwnedBy id ds

-- `extra` is 1 while `direct_open` has counted a file that it has not listed yet.
pub record Safe (extra : ℕ) (s : State) : Type 0 where
  pub listed : (id : ℕ) → has id s.files ≡ true → is_some (s.heap id) ≡ true
  pub distinct : Distinct s.files
  pub entries_counted : s.entries ≡ extra + length s.files
  pub queue_counted : s.comp_entries ≡ length s.queue
  pub unused : (id : ℕ) → s.fresh ≤ id → s.heap id ≡ none
  pub counted : (id : ℕ) (f : File) → s.heap id ≡ some f → length f.head + refs s id ≤ f.accesses
  pub freed : (id : ℕ) → s.heap id ≡ none → refs s id ≡ 0
  pub owned : (id : ℕ) (f : File) → s.heap id ≡ some f → OwnedBy id f.head

pub waits-append : (id : ℕ) (xs ys : List Entry) → waits id (xs ++ ys) ≡ waits id xs + waits id ys
waits-append id [] ys = omega arith
waits-append id (x ∷ xs) ys = omega (arith, waits-append id xs ys)

pub has-unlink :
    (p id : ℕ) (xs : List ℕ)
    → Distinct xs
    → has p (unlink id xs) ≡ (if p == id then false else has p xs)
unfolding unlink
has-unlink p id [] d = ground arith
has-unlink p id (x ∷ xs) d = ground (arith, has-unlink p id xs d.1)

pub Distinct-unlink : (id : ℕ) (xs : List ℕ) → Distinct xs → Distinct (unlink id xs)
unfolding unlink
Distinct-unlink id [] d = tt
Distinct-unlink id (x ∷ xs) d = ground (arith, has-unlink x id xs d.1, Distinct-unlink id xs d.1)

pub length-unlink :
    (id : ℕ) (xs : List ℕ) → has id xs ≡ true → suc (length (unlink id xs)) ≡ length xs
unfolding unlink
length-unlink id [] m = cc
length-unlink id (x ∷ xs) m = ground (arith, length-unlink id xs)
