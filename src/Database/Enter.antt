-- ===== src/Database/Enter.antt =====
-- The branch of `direct_open` for a file that is not in the database: how it is entered.
use pcfs.Base.{
  ℕ, ◌+◌, ◌≡◌, ◌≢◌, refl, sym, ◌∙◌, ◌⊎◌, inl, inr, Bool, true, false, List, [], ◌∷◌, ◌++◌, some,
  arith, ◌==◌, has, has-append, length-append, Distinct-snoc, Bool-cases,
}
use pcfs.Types.{File}
use pcfs.Names.{gethash}
use pcfs.Database.{State, ready, update, direct_new_file}
use pcfs.Database.Invariant.{Safe}
use pcfs.Database.Find.{Named}
use pcfs.Database.Holds.{Holds}

-- The last step of `open_new`: the new file is put on the heap and at the end of the list.
unfoldable pub enter : List ℕ → State → State
enter name s = record s {
  heap = update s.heap s.fresh (some (direct_new_file (gethash name) name));
  fresh = s.fresh + 1;
  files = s.files ++ s.fresh ∷ [];
}

-- The fresh address is on no list.
fresh_unlisted : (k : ℕ) (s : State) → Safe k s → has s.fresh s.files ≡ false
fresh_unlisted k s v = ground (arith, v.unused s.fresh, v.listed s.fresh)

module _ (name : List ℕ) (s : State) where
  pub enter-Safe : Safe 1 s → Safe 0 (enter name s)
  unfolding enter direct_new_file
  enter-Safe v = record {
    listed = λ p h. ground (arith, v.listed p, has-append p s.files (s.fresh ∷ []));
    distinct = Distinct-snoc s.fresh s.files v.distinct (fresh_unlisted 1 s v);
    entries_counted = ground (arith, v.entries_counted, length-append s.files (s.fresh ∷ []));
    queue_counted = v.queue_counted;
    unused = λ p le. ground (arith, v.unused p);
    counted = λ p g q. ground (arith, v.counted p g, v.freed s.fresh, v.unused s.fresh);
    freed = λ p q. ground (arith, v.freed p);
    owned = λ p g q. ground (arith, v.owned p g);
  }

  enter-hashed :
      Named s → (id : ℕ) (f : File) → (enter name s).heap id ≡ some f → f.hash ≡ gethash f.name
  unfolding enter direct_new_file
  enter-hashed n id f e = elim (Bool-cases (id == s.fresh)) [
    | inl h ↦ ground arith
    | inr h ↦ n.hashed id f (ground arith)
  ]

  -- A file of the new list is either the new one, with its name, or an old one.
  enter-cases :
      (id : ℕ) (f : File)
      → has id (enter name s).files ≡ true
      → (enter name s).heap id ≡ some f
      → ((id ≡ s.fresh) × (f.name ≡ name)) ⊎ ((has id s.files ≡ true) × (s.heap id ≡ some f))
  unfolding enter direct_new_file
  enter-cases id f m e = ground (arith, has-append id s.files (s.fresh ∷ []))

  abbrev pub Absent : Type 0
  Absent = (p : ℕ) (f : File) → has p s.files ≡ true → s.heap p ≡ some f → f.name ≢ name

  pub enter-Named : Safe 1 s → Named s → Absent → Named (enter name s)
  enter-Named v n new = record {
    hashed = enter-hashed n;
    unique = λ i j f g mi mj ei ej en. elim (enter-cases i f mi ei) [
      | inl (qi, ni) ↦ elim (enter-cases j g mj ej) [
        | inl (qj, nj) ↦ qi ∙ sym qj
        | inr (mj', ej') ↦ absurd (new j g mj' ej' (sym en ∙ ni))
      ]
      | inr (mi', ei') ↦ elim (enter-cases j g mj ej) [
        | inl (qj, nj) ↦ absurd (new i f mi' ei' (en ∙ nj))
        | inr (mj', ej') ↦ n.unique i j f g mi' mj' ei' ej' en
      ]
    ];
  }

  pub enter-Holds : (stabile : Bool) → Holds name stabile (ready s.fresh) (enter name s)
  unfolding enter direct_new_file
  enter-Holds stabile = record {
    file = direct_new_file (gethash name) name;
    at = ground arith;
    named = refl;
    listed = ground (arith, has-append s.fresh s.files (s.fresh ∷ []));
    revived = refl;
    settled = ground arith;
  }
