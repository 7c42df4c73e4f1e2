-- ===== src/Threads/Reach.antt =====
-- Whatever the threads do one after another, the database stays well-formed.
use pcfs.Base.{
  ℕ, ◌+◌, ◌≤◌, length, none_ne_some, ◌-◌, ◌≡◌, refl, ap, true, List, [], ◌∷◌, Option, none, some,
  arith, ◌==◌, ==_iff, inl, inr, sym, ◌∙◌, subst, if-cases, elim-cases, has, Bool-cases,
}
use mathlib.Core.Option.{some-injective}
use pcfs.Types.{File}
use pcfs.Database.{Entry, State, Opened, ready, waiting}
use pcfs.Database.Wait.{asked_again, wake_up-Wakes}
use pcfs.Database.Find.{Named}
use pcfs.Database.Invariant.{Safe, refs}
use pcfs.Database.PurgeLoop.{direct_open_purge-Purged}
use pcfs.Database.Open.{Named-keep, Purged-same, direct_open-Opens}
use pcfs.Compress.{Answers, Run, do_compress}
use pcfs.Rename.{direct_delete}
use pcfs.Rename.Moved.{Renamed, direct_rename-Renamed}
use pcfs.Compress.Outcome.{Ended, do_compress-Ended, labelled, started}
use pcfs.Background.{take_first, take_entry, eligible, handle}
use pcfs.Background.Worker.{Finished, KeptBy, take_entry-Safe, finish_entry-Finished}
use pcfs.Threads.{
  put, Renames, Step, opens, wakes, lets_go, purges, handles, truncates, reads, links, renames,
  takes, finishes, Reaches, start, next,
}
use pcfs.Threads.Whole.{truncate_file-Keeps, link_file-Keeps}
use pcfs.Threads.Read.{read_file-Keeps}
use pcfs.Threads.Kept.{Handled-Keeps}

-- The invariant of the database between two steps.
abbrev pub Sound : State → Type 0
Sound s = Safe 0 s × Named s

put-Safe :
    (id : ℕ) (f g : File) (s : State)
    → Safe 0 s
    → s.heap id ≡ some f
    → KeptBy id f g
    → Safe 0 (put id g s)
put-Safe id f g s v there (counts, owns) = record {
  listed = λ p m. ground (arith, v.listed p);
  distinct = v.distinct;
  entries_counted = v.entries_counted;
  queue_counted = v.queue_counted;
  unused = λ p le. ground (arith, v.unused p);
  counted = λ p h q. ground (arith, v.counted p h, v.counted id f, counts);
  freed = λ p q. ground (arith, v.freed p);
  owned = λ p h q. ground (arith, v.owned p h, owns (v.owned id f there));
}

-- A reference that nothing known to the database stands for can be given up.
let_go-Safe :
    (id : ℕ) (f : File) (s : State)
    → Safe 0 s
    → s.heap id ≡ some f
    → length f.head + refs s id + 1 ≤ f.accesses
    → Safe 0 (put id (record f { accesses = f.accesses - 1 }) s)
let_go-Safe id f s v there held = record {
  listed = λ p m. ground (arith, v.listed p);
  distinct = v.distinct;
  entries_counted = v.entries_counted;
  queue_counted = v.queue_counted;
  unused = λ p le. ground (arith, v.unused p);
  counted = λ p h q. ground (arith, v.counted p h, held);
  freed = λ p q. ground (arith, v.freed p);
  owned = λ p h q. ground (arith, v.owned p h, v.owned id f there);
}

put-Named :
    (id : ℕ) (f g : File) (s : State)
    → Named s
    → s.heap id ≡ some f
    → g.name ≡ f.name
    → g.hash ≡ f.hash
    → Named (put id g s)
put-Named id f g s n there name hash =
    Named-keep s (put id g s) n
      (λ p h q. elim (Bool-cases (p == id)) [
        | inl e ↦
            let same : g ≡ h = ground (arith, e, q) in
            (
              f,
              ground (arith, e, there),
              ap (λ (x : File). x.name) (sym same) ∙ name,
              ap (λ (x : File). x.hash) (sym same) ∙ hash,
            )
        | inr e ↦ (h, ground (arith, e, q), refl, refl)
      ])
      (λ p m. m)

abbrev SameName : File → File → Type 0
SameName f g = (g.name ≡ f.name) × (g.hash ≡ f.hash)

direct_delete-SameName : (f : File) → SameName f (direct_delete f)
unfolding direct_delete
direct_delete-SameName f = (refl, refl)

run-SameName :
    (a : Answers) (f : File) (r : Run) → Renames a.meanwhile → Ended a f r → SameName f r.file
run-SameName a f r keep (inl (c, n, o, _, _, _, _, _, _, file, _, _, _, _)) =
    subst (SameName f) (sym file) (keep (started (labelled f none o)))
run-SameName a f r keep (inr (inl (_, _, inl (file, _)))) =
    subst (SameName f) (sym file) (direct_delete-SameName f)
run-SameName a f r keep (inr (inl (_, _, inr (c, o, file, _, _, _)))) =
    subst (SameName f) (sym file) (refl, refl)
run-SameName a f r keep (inr (inr (o, _, _, _, file))) =
    subst (SameName f) (sym file) (keep (started (labelled f none o)))

handle-SameName :
    (a : Answers) (f g : File) → Renames a.meanwhile → handle a f ≡ some g → SameName f g
unfolding handle eligible
handle-SameName a f g keep e =
    if-cases (eligible a.config f) _ _ (some g) e
      (λ fit h.
        elim-cases (do_compress a f) _ (some g) _ h (λ _ h1. ground (arith, h1))
          (λ r run h1.
            subst (SameName f) (some-injective r.file g h1)
              (run-SameName a f r keep (do_compress-Ended a f r (ground (arith, fit)) run))))
      (λ _ h. subst (SameName f) (some-injective f g h) (refl, refl))

Finished-Named :
    (a : Answers) (id : ℕ) (f : File) (s t : State)
    → Named s
    → s.heap id ≡ some f
    → Renames a.meanwhile
    → Finished a 0 id f s t
    → Named t
Finished-Named a id f s t n there keep r =
    let (name, hash) = handle-SameName a f r.file keep r.handled in
    Named-keep s t n
      (λ p h q. elim (Bool-cases (p == id)) [
        | inl e ↦
            let here : p ≡ id = (==_iff p id).0 e in
            let same : some (record r.file { accesses = r.file.accesses - 1 }) ≡ some h =
              sym r.at ∙ ap t.heap (sym here) ∙ q in
            let eq = some-injective _ h same in
            (
              f,
              ap s.heap here ∙ there,
              ap (λ (x : File). x.name) (sym eq) ∙ name,
              ap (λ (x : File). x.hash) (sym eq) ∙ hash,
            )
        | inr e ↦ (h, sym (r.others p e) ∙ q, refl, refl)
      ])
      (λ p m. subst (λ l. has p l ≡ true) r.files m)

first-files : (s t : State) (es : List Entry) → take_first s es ≡ some t → t.files ≡ s.files
unfolding take_first
first-files s t [] e = ground (arith, e)
first-files s t (x ∷ es) e = ap (λ (u : State). u.files) (sym (some-injective _ t e))

taken-files : (s t : State) → take_entry s ≡ some t → t.files ≡ s.files
unfolding take_entry
taken-files s t e =
    elim-cases s.worker _ (some t) _ e (λ _ h. first-files s t s.queue h)
      (λ id _ h. ground (arith, h))

-- A renamed file is marked as deleted under its old name, and no name changes.
Renamed-Named :
    (from to : ℕ) (f g : File) (s t : State)
    → Named s
    → s.heap from ≡ some f
    → s.heap to ≡ some g
    → Renamed from to f g s t
    → Named t
Renamed-Named from to f g s t n ef eg r =
    Named-keep s t n
      (λ p h q. elim (Bool-cases (p == from)) [
        | inl e ↦
            let here : p ≡ from = (==_iff p from).0 e in
            let eq = some-injective r.source h (sym r.source_at ∙ ap t.heap (sym here) ∙ q) in
            (
              f,
              ap s.heap here ∙ ef,
              ap (λ (x : File). x.name) (sym eq) ∙ r.source_name,
              ap (λ (x : File). x.hash) (sym eq) ∙ r.source_hash,
            )
        | inr e ↦ elim (Bool-cases (p == to)) [
          | inl e1 ↦
              let here : p ≡ to = (==_iff p to).0 e1 in
              let eq = some-injective r.target h (sym r.target_at ∙ ap t.heap (sym here) ∙ q) in
              (
                g,
                ap s.heap here ∙ eg,
                ap (λ (x : File). x.name) (sym eq) ∙ r.target_name,
                ap (λ (x : File). x.hash) (sym eq) ∙ r.target_hash,
              )
          | inr e1 ↦ (h, sym (r.others p e e1) ∙ q, refl, refl)
        ]
      ])
      (λ p m. subst (λ l. has p l ≡ true) r.files m)

-- The size of all caches is no part of the invariant.
recounted : (rest : ℕ) (s : State) → Sound s → Sound (record s { decomp_cache_size = rest })
recounted rest s (v, n) = (
  record {
    listed = v.listed;
    distinct = v.distinct;
    entries_counted = v.entries_counted;
    queue_counted = v.queue_counted;
    unused = v.unused;
    counted = v.counted;
    freed = v.freed;
    owned = v.owned;
  },
  record { hashed = n.hashed; unique = n.unique },
)

Step-Sound : (s t : State) → Sound s → Step s t → Sound t
Step-Sound _ _ (v, n) (opens env name stabile s t o e) =
    let r = direct_open-Opens env name stabile s v n in
    let both = some-injective (r.result, r.outcome) (t, o) (sym r.returns ∙ e) in
    subst (λ (x : State × Opened). Sound x.0) both (r.safe, r.names)
Step-Sound _ _ (v, n) (wakes id s t o e) = elim (wake_up-Wakes id s v n) [
  | inl (_, freed) ↦ elim (none_ne_some (t, o) (sym freed ∙ e)) [ ]
  | inr (f, _, inl (_, back)) ↦
      let both = some-injective (s, ready id) (t, o) (sym back ∙ e) in
      subst (λ (x : State × Opened). Sound x.0) both (v, n)
  | inr (f, _, inr (_, again, safe, names)) ↦
      let both = some-injective (asked_again id f s, waiting id) (t, o) (sym again ∙ e) in
      subst (λ (x : State × Opened). Sound x.0) both (safe, names)
]
Step-Sound _ _ (v, n) (lets_go id f s there held) = (
  let_go-Safe id f s v there held,
  put-Named id f (record f { accesses = f.accesses - 1 }) s n there refl refl,
)
Step-Sound _ _ (v, n) (purges env force s t e) =
    let (u, q, safe, r) = direct_open_purge-Purged env force 0 s v in
    subst Sound (some-injective u t (sym q ∙ e)) (
      safe,
      Named-keep s u n (Purged-same env force s.files s u r) (λ p h. ground (arith, r.files p, h)),
    )
Step-Sound _ _ (v, n) (handles id f g s there h) =
    let (kept, name, hash) = Handled-Keeps id f g (omega (arith, v.counted id f there)) h in
    (put-Safe id f g s v there kept, put-Named id f g s n there name hash)
Step-Sound _ _ (v, n) (truncates a opened truncated size id f g rest e s there run) =
    let (kept, name, hash) =
      truncate_file-Keeps id a opened truncated size f g s.decomp_cache_size rest e run in
    recounted rest (put id g s)
      (put-Safe id f g s v there kept, put-Named id f g s n there name hash)
Step-Sound _ _ (v, n) (reads c a d size offset id f g rest r s there run) =
    let (kept, name, hash) =
      read_file-Keeps id c a d size offset f s.decomp_cache_size (g, rest, r) run in
    recounted rest (put id g s)
      (put-Safe id f g s v there kept, put-Named id f g s n there name hash)
Step-Sound _ _ (v, n) (links a linked id f g rest e s there run) =
    let (kept, name, hash) = link_file-Keeps id a linked f g s.decomp_cache_size rest e run in
    recounted rest (put id g s)
      (put-Safe id f g s v there kept, put-Named id f g s n there name hash)
Step-Sound _ _ (v, n) (renames from to f g s t ne ef eg exact e) =
    let (u, q, safe, r) = direct_rename-Renamed 0 from to f g s v ne ef eg exact in
    subst Sound (some-injective u t (sym q ∙ e)) (safe, Renamed-Named from to f g s u n ef eg r)
Step-Sound _ _ (v, n) (takes s t e) =
    let (safe, heap, _, _) = take_entry-Safe 0 s t v e in
    (
      safe,
      Named-keep s t n (λ p g q. (g, ap (λ (h : ℕ → Option File). h p) (sym heap) ∙ q, refl, refl))
          (λ p h. subst (λ l. has p l ≡ true) (taken-files s t e) h),
    )
Step-Sound _ _ (v, n) (finishes a id s t working fair keep e) =
    let (f, there, ends) = finish_entry-Finished a 0 id s v working fair in
    elim ends [
      | inl (_, dies) ↦ let impossible : none ≡ some t = sym dies ∙ e in ground (arith, impossible)
      | inr (u, q, r) ↦
          subst Sound (some-injective u t (sym q ∙ e))
            (r.safe, Finished-Named a id f s u n there keep r)
    ]

-- From a well-formed database, every sequence of steps leads to well-formed ones: the list names each
-- file once, holds no freed one, and agrees with its count; the queue agrees with its count; every
-- file counts at least its descriptors and the places in the queue and the thread that refer to it;
-- nothing of these refers to a freed file; and no two listed files have the same name. The steps are
-- those that have an outcome of: `direct_open` up to its wait, and its wake-ups; purges; what open,
-- release, getattr, unlink, truncate, link, write, and a read that does not wait do to a locked file; the
-- references that PCFS_rename counts and gives up, and the rename of a file whose count is exact; and the
-- two halves of a round of the background thread, during which the others keep the name of its file and
-- take no reference away.
pub Reaches-Sound : (s t : State) → Sound s → Reaches s t → Sound t
Reaches-Sound s _ sound start = sound
Reaches-Sound s _ sound (next t u before step) =
    Step-Sound t u (Reaches-Sound s t sound before) step
