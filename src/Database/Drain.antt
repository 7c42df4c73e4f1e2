-- ===== src/Database/Drain.antt =====
-- Unmounting: `PCFS_destroy` of PCFS.c calls the forced purge once a second until the database is
-- empty.
use pcfs.Base.{
  ℕ, ◌≡◌, refl, inl, inr, true, false, List, [], ◌∷◌, Option, none, some, arith, has, Bool-cases,
}
use pcfs.Types.{File}
use pcfs.Database.{State, Env, direct_open_purge}
use pcfs.Database.Invariant.{Safe}
use pcfs.Database.PurgeLoop.{fate, stays, direct_open_purge-Purged}

nil_of_has : (xs : List ℕ) → ((p : ℕ) → has p xs ≡ false) → xs ≡ []
nil_of_has [] h = refl
nil_of_has (x ∷ xs) h = absurd (ground (arith, h x))

-- What a first forced purge leaves in the list, a second one takes off.
stays_once :
    (env : Env) (o : Option File) → stays env true o ≡ true → stays env true (fate env o) ≡ false
unfolding stays fate
stays_once env none h = cc
stays_once env (some f) h = ground arith

-- Two forced purges in a row empty the database, whatever the answers of the system: a file in use
-- is taken off by the first, and one that the first hands to the background thread by the second.
-- Neither reads a freed file, and both keep the invariant.
pub purge_force_twice :
    (env : Env) (s : State)
    → Safe 0 s
    → (t u : State) × (direct_open_purge env true s ≡ some t)
      × (direct_open_purge env true t ≡ some u)
      × (u.files ≡ [])
      × (u.entries ≡ 0)
      × Safe 0 u
purge_force_twice env s v =
    let (t, e, vt, r) = direct_open_purge-Purged env true 0 s v in
    let (u, q, vu, w) = direct_open_purge-Purged env true 0 t vt in
    let gone : u.files ≡ [] = nil_of_has u.files (λ p. elim (Bool-cases (has p t.files)) [
      | inr h ↦ ground (arith, w.files p)
      | inl h ↦ elim (Bool-cases (has p s.files)) [
        | inl m ↦ ground (arith, w.files p, r.files p, r.heap p, stays_once env (s.heap p))
        | inr m ↦ ground (arith, r.files p)
      ]
    ]) in
    (t, u, e, q, gone, ground (arith, vu.entries_counted), vu)
