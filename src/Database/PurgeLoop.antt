-- ===== src/Database/PurgeLoop.antt =====
-- The whole purge: its effect on every file, and that it keeps the invariant.
use pcfs.Base.{
  ℕ, ◌≡◌, refl, ◌∙◌, inl, inr, Bool, true, false, List, [], ◌∷◌, Option, none, some, arith, ◌==◌,
  ◌+◌, ◌&&◌, if◌then◌else◌, has, Distinct, has-ne, Option-cases, not,
}
use pcfs.Types.{File}
use pcfs.Database.{
  State, Env, direct_open_delete, background_compress_dedup, wants_compression, purge_unused,
  purge_used, purge_file, purge_loop, direct_open_purge,
}
use pcfs.Database.Invariant.{Safe, waits, waits-append, has-unlink}
use pcfs.Database.Purge.{purged, purge_file-purged, purged-Safe, purged-has, purged-heap}

-- What becomes of a file, as the purge finds it: one in use is left alone, and one that nobody uses
-- is queued, with a reference, or freed.
unfoldable pub fate : Env → Option File → Option File
fate env none = none
fate env (some f) =
    if f.accesses == 0
    then if wants_compression env f then some (record f { accesses = 1 }) else none
    else some f

-- Whether the file keeps its place in the database.
unfoldable pub stays : Env → Bool → Option File → Bool
stays env force none = false
stays env force (some f) = if f.accesses == 0 then wants_compression env f else not force

-- The places in the queue that the purge gives to a file: one for each that it wants compressed, if
-- there is memory for the entry.
unfoldable pub queued : Env → Option File → ℕ → ℕ
queued env none p = 0
queued env (some f) p =
    if (f.accesses == 0) && wants_compression env f && env.malloc_ok p then 1 else 0

purged-queued :
    (env : Env) (force : Bool) (id p : ℕ) (f : File) (s : State)
    → waits p (purged env force id f s).queue
      ≡ waits p s.queue + (if p == id then queued env (some f) id else 0)
unfolding purged purge_unused purge_used direct_open_delete background_compress_dedup queued
purged-queued env force id p f s =
    ground (arith, waits-append p s.queue (record { file = id; is_dedup = false } ∷ []))

purged-fate :
    (env : Env) (force : Bool) (id : ℕ) (f : File) (s : State)
    → s.heap id ≡ some f
    → (purged env force id f s).heap id ≡ fate env (some f)
unfolding purged purge_unused purge_used direct_open_delete background_compress_dedup fate
purged-fate env force id f s e = ground arith

purged-stays :
    (env : Env) (force : Bool) (id : ℕ) (f : File) (s : State)
    → Distinct s.files
    → has id s.files ≡ true
    → has id (purged env force id f s).files ≡ stays env force (some f)
unfolding purged purge_unused purge_used direct_open_delete background_compress_dedup stays
purged-stays env force id f s d m = ground (arith, has-unlink id id s.files d)

-- The purge of `s` has gone over `ids`, and the state is `t`.
pub record Purged (env : Env) (force : Bool) (ids : List ℕ) (s t : State) : Type 0 where
  pub heap : (p : ℕ) → t.heap p ≡ (if has p ids then fate env (s.heap p) else s.heap p)
  pub files :
      (p : ℕ) → has p t.files ≡ (if has p ids then stays env force (s.heap p) else has p s.files)
  pub queue :
      (p : ℕ)
      → waits p t.queue ≡ waits p s.queue + (if has p ids then queued env (s.heap p) p else 0)
  pub fresh : t.fresh ≡ s.fresh
  pub worker : t.worker ≡ s.worker

purged-rest :
    (env : Env) (force : Bool) (id : ℕ) (f : File) (s : State)
    → ((purged env force id f s).fresh ≡ s.fresh) × ((purged env force id f s).worker ≡ s.worker)
unfolding purged purge_unused purge_used direct_open_delete background_compress_dedup
purged-rest env force id f s = ground arith

purge_step-Purged :
    (env : Env) (force : Bool) (id : ℕ) (ids : List ℕ) (f : File) (s t : State)
    → Distinct s.files
    → Distinct (id ∷ ids)
    → s.heap id ≡ some f
    → has id s.files ≡ true
    → Purged env force ids (purged env force id f s) t
    → Purged env force (id ∷ ids) s t
purge_step-Purged env force id ids f s t d di e m r = record {
  heap = λ p.
      ground
        (arith, r.heap p, purged-heap env force id p f s, purged-fate env force id f s e, di.0);
  files = λ p. ground (
    arith,
    r.files p,
    purged-heap env force id p f s,
    purged-has env force id p f s d,
    purged-stays env force id f s d m,
    di.0,
  );
  queue = λ p.
      ground (
        arith,
        r.queue p,
        purged-queued env force id p f s,
        purged-heap env force id p f s,
        e,
        di.0,
      );
  fresh = ground (arith, r.fresh, purged-rest env force id f s);
  worker = ground (arith, r.worker, purged-rest env force id f s);
}

purge_loop_step :
    (env : Env) (force : Bool) (id : ℕ) (ids : List ℕ) (s : State) {t : State}
    → purge_file env force id s ≡ some t
    → purge_loop env force (id ∷ ids) s ≡ purge_loop env force ids t
unfolding purge_loop
purge_loop_step env force id ids s e = rw (e, purge_loop)

purge_loop-Purged :
    (env : Env) (force : Bool) (ids : List ℕ) (k : ℕ) (s : State)
    → Safe k s
    → Distinct ids
    → ((p : ℕ) → has p ids ≡ true → has p s.files ≡ true)
    → (t : State) × (purge_loop env force ids s ≡ some t) × Safe k t × Purged env force ids s t
unfolding purge_loop
purge_loop-Purged env force [] k s v d sub = (
  s,
  refl,
  v,
  record {
    heap = λ p. refl;
    files = λ p. refl;
    queue = λ p. omega arith;
    fresh = refl;
    worker = refl;
  },
)
purge_loop-Purged env force (id ∷ ids) k s v d sub =
    let m : has id s.files ≡ true = sub id (ground arith) in
    elim (Option-cases (s.heap id)) [
      | inl e ↦ absurd (ground (arith, v.listed id m))
      | inr (f, e) ↦
          let s' = purged env force id f s in
          let (t, q, w, r) =
            purge_loop-Purged env force ids k s' (purged-Safe env force id f v e m) d.1 (λ p h.
              ground
                (arith, purged-has env force id p f s v.distinct, sub p, has-ne p id ids h d.0)) in
          (
            t,
            purge_loop_step env force id ids s (purge_file-purged env force id f s e) ∙ q,
            w,
            purge_step-Purged env force id ids f s t v.distinct d e m r,
          )
    ]

-- A purge, forced or not, never reads through a pointer to a freed file. It keeps the invariant,
-- and its effect on each file is the same whatever the order of the list: a listed file in use stays
-- as it is, one that nobody uses is freed, or gets a reference and, if there is memory for an entry, a place in
-- the queue; no other file gets a place there; and a file that is not listed
-- is not touched. A listed file keeps its place if it was queued, or is in use and the purge is
-- not forced.
pub direct_open_purge-Purged :
    (env : Env) (force : Bool) (k : ℕ) (s : State)
    → Safe k s
    → (t : State) × (direct_open_purge env force s ≡ some t)
      × Safe k t
      × Purged env force s.files s t
unfolding direct_open_purge
direct_open_purge-Purged env force k s v =
    purge_loop-Purged env force s.files k s v v.distinct (λ p h. h)
