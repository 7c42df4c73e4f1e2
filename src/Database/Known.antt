-- ===== src/Database/Known.antt =====
-- The branch of `direct_open` for a file that is in the database.
use pcfs.Base.{
  ℕ, ◌≡◌, refl, inl, inr, Bool, true, false, ◌&&◌, some, arith, has, Bool-cases, Option-cases,
}
use pcfs.Types.{File, is_busy}
use pcfs.Database.{State, open_known}
use pcfs.Database.Invariant.{Safe}
use pcfs.Database.Holds.{Holds}

module _ (stabile : Bool) (id : ℕ) (f : File) (s : State) (e : s.heap id ≡ some f)
    (m : has id s.files ≡ true) where
  pub open_known-Safe : Safe 0 s → Safe 0 (open_known stabile id f s).0
  unfolding open_known
  open_known-Safe v = record {
    listed = λ p h. ground (arith, v.listed p);
    distinct = ground (arith, v.distinct);
    entries_counted = ground (arith, v.entries_counted);
    queue_counted = ground (arith, v.queue_counted);
    unused = λ p le. ground (arith, v.unused p);
    counted = λ p g q. ground (arith, v.counted p g, v.counted id f);
    freed = λ p q. ground (arith, v.freed p);
    owned = λ p g q. ground (arith, v.owned p g, v.owned id f);
  }

  -- Every file keeps its name and hash, and the list of files stays.
  pub open_known-same :
      (p : ℕ) (g : File)
      → (open_known stabile id f s).0.heap p ≡ some g
      → (g' : File) × (s.heap p ≡ some g') × (g.name ≡ g'.name) × (g.hash ≡ g'.hash)
  unfolding open_known
  open_known-same p g q = elim (Option-cases (s.heap p)) [
    | inl none_there ↦ absurd (ground arith)
    | inr (g', there) ↦ (g', there, ground arith, ground arith)
  ]

  pub open_known-files : (open_known stabile id f s).0.files ≡ s.files
  unfolding open_known
  open_known-files = ground arith

  pub open_known-Holds :
      Holds f.name stabile (open_known stabile id f s).1 (open_known stabile id f s).0
  unfolding open_known
  open_known-Holds = elim (Bool-cases (stabile && is_busy f.status)) [
    | inl b ↦ rw b (record {
      file = record f { deleted = false; status = record f.status { cancel = true } };
      at = ground arith;
      named = refl;
      listed = m;
      revived = refl;
      settled = b;
    })
    | inr b ↦ rw b (record {
      file = record f { deleted = false };
      at = ground arith;
      named = refl;
      listed = m;
      revived = refl;
      settled = b;
    })
  ]
