-- ===== src/Rename/Counts.antt =====
-- How the two loops of `direct_rename` move references, each loop on its own.
use pcfs.Base.{ℕ, ◌+◌, ◌-◌, ◌≡◌, refl, false, List, [], ◌∷◌, arith, ◌==◌, if◌then◌else◌, length}
use pcfs.Types.{Descriptor, File}
use pcfs.Database.{Entry}
use pcfs.Database.Invariant.{waits, OwnedBy}
use pcfs.Rename.{move_descriptors, redirect}

module _ (to : ℕ) where
  pub move-from :
      (ds : List Descriptor) (f g : File)
      → f.head ≡ ds
      → (move_descriptors to ds f g).0 ≡ record f { head = []; accesses = f.accesses - length ds }
  unfolding move_descriptors
  move-from [] f g e = ground arith
  move-from (d ∷ ds) f g e = ground (
    arith,
    move-from ds (record f { head = ds; accesses = f.accesses - 1 })
        (record g { head = record d { file = to } ∷ g.head; accesses = g.accesses + 1 }),
  )

  pub move-to-count :
      (ds : List Descriptor) (f g : File)
      → ((move_descriptors to ds f g).1.accesses ≡ g.accesses + length ds)
        × (length (move_descriptors to ds f g).1.head ≡ length g.head + length ds)
  unfolding move_descriptors
  move-to-count [] f g = ground arith
  move-to-count (d ∷ ds) f g = ground (
    arith,
    move-to-count ds (record f { head = ds; accesses = f.accesses - 1 })
        (record g { head = record d { file = to } ∷ g.head; accesses = g.accesses + 1 }),
  )

  pub move-to-owned :
      (ds : List Descriptor) (f g : File)
      → OwnedBy to g.head
      → OwnedBy to (move_descriptors to ds f g).1.head
  unfolding move_descriptors
  move-to-owned [] f g o = o
  move-to-owned (d ∷ ds) f g o = move-to-owned ds _ _ (refl, o)

module _ (from to : ℕ) (ne : (from == to) ≡ false) where
  pub redirect-from :
      (es : List Entry) (f g : File)
      → (redirect from to es f g).1 ≡ record f { accesses = f.accesses - waits from es }
  unfolding redirect
  redirect-from [] f g = ground arith
  redirect-from (e ∷ es) f g = ground (
    arith,
    redirect-from es (if from == e.file then record f { accesses = f.accesses - 1 } else f)
        (if from == e.file then record g { accesses = g.accesses + 1 } else g),
  )

  pub redirect-to :
      (es : List Entry) (f g : File)
      → (redirect from to es f g).2 ≡ record g { accesses = g.accesses + waits from es }
  unfolding redirect
  redirect-to [] f g = ground arith
  redirect-to (e ∷ es) f g = ground (
    arith,
    redirect-to es (if from == e.file then record f { accesses = f.accesses - 1 } else f)
        (if from == e.file then record g { accesses = g.accesses + 1 } else g),
  )

  -- The new queue: the entries of `from` are entries of `to`, and no others changed.
  pub redirect-waits :
      (es : List Entry) (f g : File) (p : ℕ)
      → waits p (redirect from to es f g).0
        ≡ (if p == from then 0 else if p == to then waits to es + waits from es else waits p es)
  unfolding redirect
  redirect-waits [] f g p = ground arith
  redirect-waits (e ∷ es) f g p = ground (
    arith,
    ne,
    redirect-waits es (if from == e.file then record f { accesses = f.accesses - 1 } else f)
        (if from == e.file then record g { accesses = g.accesses + 1 } else g) p,
  )

  pub length-redirect :
      (es : List Entry) (f g : File) → length (redirect from to es f g).0 ≡ length es
  unfolding redirect
  length-redirect [] f g = refl
  length-redirect (e ∷ es) f g = ground (
    arith,
    length-redirect es (if from == e.file then record f { accesses = f.accesses - 1 } else f)
        (if from == e.file then record g { accesses = g.accesses + 1 } else g),
  )
