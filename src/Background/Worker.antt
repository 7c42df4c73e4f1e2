-- ===== src/Background/Worker.antt =====
-- The background thread keeps the invariant, and never meets a freed file.
use pcfs.Base.{
  ℕ, ◌+◌, ◌-◌, ◌≤◌, ◌≡◌, refl, false, List, [], ◌∷◌, none, some, arith, ◌==◌, ◌⊎◌, inl, inr, sym,
  subst, if-cases, elim-cases, length, Option-cases,
}
use mathlib.Core.Option.{some-injective}
use pcfs.Types.{File}
use pcfs.Database.{Entry, State, update}
use pcfs.Database.Invariant.{Safe, refs, at_work, OwnedBy}
use pcfs.Rename.{direct_delete}
use pcfs.Compress.{Answers, Run, do_compress}
use pcfs.Compress.Outcome.{Ended, do_compress-Ended, labelled, started}
use pcfs.Background.{take_first, take_entry, eligible, handle, finish_entry}

-- What other threads do to the file while the lock is free may add descriptors to it, if it counts
-- them, and takes no other reference away.
pub record Fair (id : ℕ) (m : File → File) : Type 0 where
  pub counts : (f : File) → length (m f).head + f.accesses ≤ length f.head + (m f).accesses
  pub owns : (f : File) → OwnedBy id f.head → OwnedBy id (m f).head

-- The file that a round leaves, before the reference is given back.
abbrev pub KeptBy : ℕ → File → File → Type 0
KeptBy id f g =
    (length g.head + f.accesses ≤ length f.head + g.accesses)
    × (OwnedBy id f.head → OwnedBy id g.head)

direct_delete-KeptBy : (id : ℕ) (f : File) → KeptBy id f (direct_delete f)
unfolding direct_delete
direct_delete-KeptBy id f = (omega arith, λ h. h)

run-KeptBy :
    (id : ℕ) (a : Answers) (f : File) (r : Run)
    → Fair id a.meanwhile
    → Ended a f r
    → KeptBy id f r.file
run-KeptBy id a f r fair (inl (c, n, o, _, _, _, _, _, _, file, _, _, _, _)) =
    subst (KeptBy id f) (sym file)
      (fair.counts (started (labelled f none o)), fair.owns (started (labelled f none o)))
run-KeptBy id a f r fair (inr (inl (_, _, inl (file, _)))) =
    subst (KeptBy id f) (sym file) (direct_delete-KeptBy id f)
run-KeptBy id a f r fair (inr (inl (_, _, inr (c, o, file, _, _, _)))) =
    subst (KeptBy id f) (sym file) (omega arith, λ h. h)
run-KeptBy id a f r fair (inr (inr (o, _, _, _, file))) =
    subst (KeptBy id f) (sym file)
      (fair.counts (started (labelled f none o)), fair.owns (started (labelled f none o)))

handle-KeptBy :
    (id : ℕ) (a : Answers) (f g : File) → Fair id a.meanwhile → handle a f ≡ some g → KeptBy id f g
unfolding handle eligible
handle-KeptBy id a f g fair e =
    if-cases (eligible a.config f) _ _ (some g) e
      (λ fit h.
        elim-cases (do_compress a f) _ (some g) _ h (λ _ h1. ground (arith, h1))
          (λ r run h1.
            subst (KeptBy id f) (some-injective r.file g h1)
              (run-KeptBy id a f r fair (do_compress-Ended a f r (ground (arith, fit)) run))))
      (λ _ h. subst (KeptBy id f) (some-injective f g h) (omega arith, λ h. h))

-- The thread had no file, and has that of the first entry, which has left the queue.
abbrev pub FirstTaken : State → State → Type 0
FirstTaken s t =
    (x : Entry) × (s.queue ≡ x ∷ t.queue) × (s.worker ≡ none) × (t.worker ≡ some x.file)

take_first-Safe :
    (k : ℕ) (s t : State) (es : List Entry)
    → Safe k s
    → s.worker ≡ none
    → s.queue ≡ es
    → take_first s es ≡ some t
    → Safe k t × (t.heap ≡ s.heap) × ((p : ℕ) → refs t p ≡ refs s p) × FirstTaken s t
unfolding take_first
take_first-Safe k s t [] v idle q e = ground (arith, e)
take_first-Safe k s t (x ∷ es) v idle q e =
    subst (λ u. Safe k u × (u.heap ≡ s.heap) × ((p : ℕ) → refs u p ≡ refs s p) × FirstTaken s u)
      (some-injective _ t e)
      (
        record {
          listed = v.listed;
          distinct = v.distinct;
          entries_counted = v.entries_counted;
          queue_counted = ground (arith, v.queue_counted, q);
          unused = v.unused;
          counted = λ p f h. ground (arith, v.counted p f, q, idle);
          freed = λ p h. ground (arith, v.freed p, q, idle);
          owned = v.owned;
        },
        refl,
        (λ p. ground (arith, q, idle)),
        (x, q, idle, refl),
      )

-- Taking an entry moves a reference from the queue to the thread: the first entry leaves the queue, and
-- its file becomes that of the thread, which had none. The files, and how many references each of them
-- has, are the same, and the invariant is kept.
pub take_entry-Safe :
    (k : ℕ) (s t : State)
    → Safe k s
    → take_entry s ≡ some t
    → Safe k t × (t.heap ≡ s.heap) × ((p : ℕ) → refs t p ≡ refs s p) × FirstTaken s t
unfolding take_entry
take_entry-Safe k s t v e =
    elim-cases s.worker _ (some t) _ e (λ idle h. take_first-Safe k s t s.queue v idle refl h)
      (λ id _ h. ground (arith, h))

put_back-Safe :
    (k id : ℕ) (f g : File) (s : State)
    → Safe k s
    → s.worker ≡ some id
    → s.heap id ≡ some f
    → KeptBy id f g
    → Safe k (record s {
      heap = update s.heap id (some (record g { accesses = g.accesses - 1 }));
      worker = none;
    })
put_back-Safe k id f g s v working there (counts, owns) = record {
  listed = λ p m. ground (arith, v.listed p);
  distinct = v.distinct;
  entries_counted = v.entries_counted;
  queue_counted = v.queue_counted;
  unused = λ p le. ground (arith, v.unused p);
  counted = λ p h q. ground (arith, v.counted p h, v.counted id f, counts, working);
  freed = λ p q. ground (arith, v.freed p, working);
  owned = λ p h q. ground (arith, v.owned p h, owns (v.owned id f there));
}

-- What a round does to the whole state.
pub record Finished (a : Answers) (k id : ℕ) (f : File) (s t : State) : Type 0 where
  pub file : File
  pub handled : handle a f ≡ some file
  pub safe : Safe k t
  pub at : t.heap id ≡ some (record file { accesses = file.accesses - 1 })
  pub others : (p : ℕ) → (p == id) ≡ false → t.heap p ≡ s.heap p
  pub idle : t.worker ≡ none
  pub files : t.files ≡ s.files
  pub queue : t.queue ≡ s.queue

finish_entry-runs :
    (a : Answers) (id : ℕ) (f g : File) (s : State)
    → s.worker ≡ some id
    → s.heap id ≡ some f
    → (f.accesses == 0) ≡ false
    → handle a f ≡ some g
    → finish_entry a s
      ≡ some (record s {
        heap = update s.heap id (some (record g { accesses = g.accesses - 1 }));
        worker = none;
      })
unfolding finish_entry
finish_entry-runs a id f g s working there used handled =
    ground (arith, working, there, used, handled)

finish_entry-dies :
    (a : Answers) (id : ℕ) (f : File) (s : State)
    → s.worker ≡ some id
    → s.heap id ≡ some f
    → handle a f ≡ none
    → finish_entry a s ≡ none
unfolding finish_entry
finish_entry-dies a id f s working there handled = ground (arith, working, there, handled)

-- The thread never meets a freed file, its assertion holds, and it gives back one reference: the file
-- that it took is there when its turn comes, and unless `do_compress` has no outcome, the round ends,
-- keeps the invariant and changes no other file.
pub finish_entry-Finished :
    (a : Answers) (k id : ℕ) (s : State)
    → Safe k s
    → s.worker ≡ some id
    → Fair id a.meanwhile
    → (f : File) × (s.heap id ≡ some f)
      × (((handle a f ≡ none) × (finish_entry a s ≡ none))
          ⊎ ((t : State) × (finish_entry a s ≡ some t) × Finished a k id f s t))
finish_entry-Finished a k id s v working fair = elim (Option-cases (s.heap id)) [
  | inl gone ↦
      let held : at_work id s.worker ≡ 1 = ground (arith, working) in
      let none_left = v.freed id gone in
      let impossible : ⊥ = omega (arith, held, none_left) in elim impossible [ ]
  | inr (f, there) ↦
      let used : (f.accesses == 0) ≡ false = ground (arith, v.counted id f, working) in
      (
        f,
        there,
        elim (Option-cases (handle a f)) [
          | inl e ↦ inl (e, finish_entry-dies a id f s working there e)
          | inr (g, e) ↦ inr (
            record s {
              heap = update s.heap id (some (record g { accesses = g.accesses - 1 }));
              worker = none;
            },
            finish_entry-runs a id f g s working there used e,
            record {
              file = g;
              handled = e;
              safe = put_back-Safe k id f g s v working there (handle-KeptBy id a f g fair e);
              at = ground arith;
              others = λ p ne. ground arith;
              idle = refl;
              files = refl;
              queue = refl;
            },
          )
        ],
      )
]
