-- ===== src/Database/Purge.antt =====
-- One round of the purge loop: what it does to the file that it stands at, and that it keeps the
-- invariant, on every branch and whether or not memory runs out.
use pcfs.Base.{
  ℕ, ◌≡◌, inl, inr, Bool, true, false, [], ◌∷◌, some, arith, ◌==◌, if◌then◌else◌, has, Distinct,
  length-append, Bool-cases,
}
use pcfs.Types.{File}
use pcfs.Database.{
  State, Env, direct_open_delete, background_compress_dedup, wants_compression, purge_unused,
  purge_used, purge_file,
}
use pcfs.Database.Invariant.{Safe, waits-append, has-unlink, Distinct-unlink, length-unlink}

module _ (env : Env) (id : ℕ) (f : File) {k : ℕ} {s : State} (v : Safe k s)
    (e : s.heap id ≡ some f) where
  background_compress_dedup-Safe :
      (dedup : Bool) → Safe k (background_compress_dedup env id f dedup s)
  unfolding background_compress_dedup
  background_compress_dedup-Safe dedup = record {
    listed = λ p m. ground (arith, v.listed p);
    distinct = ground (arith, v.distinct);
    entries_counted = ground (arith, v.entries_counted);
    queue_counted = ground (
      arith,
      v.queue_counted,
      length-append s.queue (record { file = id; is_dedup = dedup } ∷ []),
    );
    unused = λ p le. ground (arith, v.unused p);
    counted = λ p g q. ground (
      arith,
      v.counted p g,
      v.counted id f,
      waits-append p s.queue (record { file = id; is_dedup = dedup } ∷ []),
    );
    freed = λ p q.
        ground
          (arith, v.freed p, waits-append p s.queue (record { file = id; is_dedup = dedup } ∷ []));
    owned = λ p g q. ground (arith, v.owned p g, v.owned id f);
  }

  purge_unused-Safe : f.accesses ≡ 0 → has id s.files ≡ true → Safe k (purge_unused env id f s)
  unfolding purge_unused direct_open_delete
  purge_unused-Safe idle m = elim (Bool-cases (wants_compression env f)) [
    | inl w ↦ rw w (background_compress_dedup-Safe false)
    | inr w ↦ rw w (record {
      listed = λ p h. ground (arith, v.listed p, has-unlink p id s.files v.distinct);
      distinct = Distinct-unlink id s.files v.distinct;
      entries_counted = ground (arith, v.entries_counted, length-unlink id s.files m);
      queue_counted = v.queue_counted;
      unused = λ p le. ground (arith, v.unused p);
      counted = λ p g q. ground (arith, v.counted p g);
      freed = λ p q. ground (arith, v.freed p, v.counted id f);
      owned = λ p g q. ground (arith, v.owned p g);
    })
  ]

  purge_used-Safe : (force : Bool) → has id s.files ≡ true → Safe k (purge_used force id s)
  unfolding purge_used
  purge_used-Safe false m = v
  purge_used-Safe true m = record {
    listed = λ p h. ground (arith, v.listed p, has-unlink p id s.files v.distinct);
    distinct = Distinct-unlink id s.files v.distinct;
    entries_counted = ground (arith, v.entries_counted, length-unlink id s.files m);
    queue_counted = v.queue_counted;
    unused = v.unused;
    counted = v.counted;
    freed = v.freed;
    owned = v.owned;
  }

-- The state after the loop's body for a file in the database.
unfoldable pub purged : Env → Bool → ℕ → File → State → State
purged env force id f s = if f.accesses == 0 then purge_unused env id f s else purge_used force id s

pub purge_file-purged :
    (env : Env) (force : Bool) (id : ℕ) (f : File) (s : State)
    → s.heap id ≡ some f
    → purge_file env force id s ≡ some (purged env force id f s)
unfolding purge_file purged
purge_file-purged env force id f s e = rw (e, purge_file)

pub purged-Safe :
    (env : Env) (force : Bool) (id : ℕ) (f : File) {k : ℕ} {s : State}
    → Safe k s
    → s.heap id ≡ some f
    → has id s.files ≡ true
    → Safe k (purged env force id f s)
unfolding purged
purged-Safe env force id f v e m = elim (Bool-cases (f.accesses == 0)) [
  | inl z ↦ rw z (purge_unused-Safe env id f v e (ground arith) m)
  | inr z ↦ rw z (purge_used-Safe env id f v e force m)
]

-- The body changes no other file, and takes no other file off the list.
pub purged-has :
    (env : Env) (force : Bool) (id p : ℕ) (f : File) (s : State)
    → Distinct s.files
    → (p == id) ≡ false
    → has p (purged env force id f s).files ≡ has p s.files
unfolding purged purge_unused purge_used direct_open_delete background_compress_dedup
purged-has env force id p f s d ne = ground (arith, has-unlink p id s.files d)

pub purged-heap :
    (env : Env) (force : Bool) (id p : ℕ) (f : File) (s : State)
    → (p == id) ≡ false
    → (purged env force id f s).heap p ≡ s.heap p
unfolding purged purge_unused purge_used direct_open_delete background_compress_dedup
purged-heap env force id p f s ne = ground arith
