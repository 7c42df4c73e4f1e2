-- ===== src/Rename/Moved.antt =====
-- `direct_rename` as a whole: it keeps every reference, and its assertion holds.
use pcfs.Base.{
  ℕ, ◌+◌, ◌≤◌, ◌≡◌, refl, ◌∙◌, ap, inl, inr, true, false, List, [], ◌∷◌, arith, ◌==◌, if◌then◌else◌,
  none, some, leb, length, Bool-cases, sym, subst, Distinct,
}
use pcfs.Types.{Descriptor, File}
use pcfs.Database.{State, update, flush_file_cache}
use pcfs.Database.Invariant.{waits, at_work, refs, OwnedBy, Safe}
use pcfs.Rename.{direct_delete, move_descriptors, redirect, inherit, rename_files, direct_rename}
use pcfs.Rename.Counts.{
  move-from, move-to-count, move-to-owned, redirect-from, redirect-to, redirect-waits,
  length-redirect,
}

-- The descriptors of the old file, each pointing to the new one, in front of those that this has: the
-- first of them is the last that comes in front.
abbrev pub handed : ℕ → List Descriptor → List Descriptor → List Descriptor
handed to [] hs = hs
handed to (d ∷ ds) hs = handed to ds (record d { file = to } ∷ hs)

-- What `direct_rename` leaves of the two files `f` and `g`.
pub record Renamed (from to : ℕ) (f g : File) (s t : State) : Type 0 where
  pub source : File
  pub target : File
  pub source_at : t.heap from ≡ some source
  pub target_at : t.heap to ≡ some target
  pub source_empty : source.head ≡ []
  pub source_deleted : source.deleted ≡ true
  pub source_count : source.accesses ≡ at_work from s.worker
  pub target_count : target.accesses ≡ g.accesses + length f.head + waits from s.queue
  pub target_head : target.head ≡ handed to f.head g.head
  pub target_descriptors : length target.head ≡ length g.head + length f.head
  pub target_owned : OwnedBy to target.head
  pub target_size : target.size ≡ f.size
  pub target_compressor : target.compressor ≡ f.compressor
  pub target_name : target.name ≡ g.name
  pub target_hash : target.hash ≡ g.hash
  pub source_name : source.name ≡ f.name
  pub source_hash : source.hash ≡ f.hash
  pub target_cache : target.cache ≡ none
  pub others : (p : ℕ) → (p == from) ≡ false → (p == to) ≡ false → t.heap p ≡ s.heap p
  pub queue :
      (p : ℕ)
      → waits p t.queue ≡ (
          if p == from
          then 0
          else if p == to
          then waits to s.queue + waits from s.queue
          else waits p s.queue)
  pub queue_length : length t.queue ≡ length s.queue
  pub files : t.files ≡ s.files
  pub entries : t.entries ≡ s.entries
  pub comp_entries : t.comp_entries ≡ s.comp_entries
  pub fresh : t.fresh ≡ s.fresh
  pub worker : t.worker ≡ s.worker

-- Moving the descriptors changes nothing of the target but its list and its count.
move-to-rest :
    (to : ℕ) (ds : List Descriptor) (f g : File)
    → ((move_descriptors to ds f g).1.size ≡ g.size)
      × ((move_descriptors to ds f g).1.compressor ≡ g.compressor)
      × ((move_descriptors to ds f g).1.name ≡ g.name)
      × ((move_descriptors to ds f g).1.cache ≡ g.cache)
      × ((move_descriptors to ds f g).1.hash ≡ g.hash)
      × ((move_descriptors to ds f g).1.head ≡ handed to ds g.head)
unfolding move_descriptors
move-to-rest to [] f g = ground arith
move-to-rest to (d ∷ ds) f g = move-to-rest to ds _ _

flushed :
    (g : File) (total : ℕ)
    → ((flush_file_cache g total).0.cache ≡ none)
      × ((flush_file_cache g total).0.accesses ≡ g.accesses)
      × ((flush_file_cache g total).0.head ≡ g.head)
      × ((flush_file_cache g total).0.name ≡ g.name)
      × ((flush_file_cache g total).0.hash ≡ g.hash)
unfolding flush_file_cache
flushed g total = ground arith

module _ (from to : ℕ) (f g : File) (s : State) (ne : (from == to) ≡ false)
    (exact : f.accesses ≡ length f.head + refs s from) (owned : OwnedBy to g.head) where
  rename_files-Renamed :
      (t : State) × (rename_files from to f g s ≡ some t) × Renamed from to f g s t
  unfolding rename_files direct_delete inherit
  rename_files-Renamed =
      let g0 = (flush_file_cache g s.decomp_cache_size).0 in
      let total = (flush_file_cache g s.decomp_cache_size).1 in
      let g1 = inherit f g0 in
      let f2 = (move_descriptors to f.head f g1).0 in
      let g2 = (move_descriptors to f.head f g1).1 in
      let r = redirect from to s.queue f2 g2 in
      let mf = move-from to f.head f g1 refl in
      let mt = move-to-count to f.head f g1 in
      let mo = move-to-owned to f.head f g1 in
      let mr = move-to-rest to f.head f g1 in
      let fl = flushed g s.decomp_cache_size in
      let rf = redirect-from from to ne s.queue f2 g2 in
      let rt = redirect-to from to ne s.queue f2 g2 in
      let few : leb r.1.accesses 1 ≡ true = ground (arith, exact, mf, rf) in
      let t = record s {
        heap = update (update s.heap to (some r.2)) from (some (direct_delete r.1));
        queue = r.0;
        decomp_cache_size = total;
      } in
      (
        t,
        rw few refl,
        record {
          source = direct_delete r.1;
          target = r.2;
          source_at = ground arith;
          target_at = ground (arith, ne);
          source_empty = ground (arith, mf, rf);
          source_deleted = refl;
          source_count = ground (arith, exact, mf, rf);
          target_count = ground (arith, rt, mt, fl);
          target_head = ap (λ (h : File). h.head) rt ∙ mr.5 ∙ ap (handed to f.head) fl.2;
          target_descriptors = ground (arith, rt, mt, fl);
          target_owned =
              subst (OwnedBy to) (sym (ap (λ (h : File). h.head) rt))
                (mo (subst (OwnedBy to) (sym fl.2) owned));
          target_size = ground (arith, rt, mr);
          target_compressor = ground (arith, rt, mr);
          target_name = ground (arith, rt, mr, fl);
          target_hash = ground (arith, rt, mr, fl);
          source_name = ground (arith, mf, rf);
          source_hash = ground (arith, mf, rf);
          target_cache = ground (arith, rt, mr, fl);
          others = λ p h1 h2. ground arith;
          queue = redirect-waits from to ne s.queue f2 g2;
          queue_length = length-redirect from to ne s.queue f2 g2;
          files = refl;
          entries = refl;
          comp_entries = refl;
          fresh = refl;
          worker = refl;
        },
      )

rename_runs :
    (from to : ℕ) (f g : File) (s : State)
    → s.heap from ≡ some f
    → s.heap to ≡ some g
    → direct_rename from to s ≡ rename_files from to f g s
unfolding direct_rename
rename_runs from to f g s ef eg = rw (ef, direct_rename) (rw (eg, direct_rename))

Renamed-Safe :
    (k from to : ℕ) (f g : File) (s t : State)
    → (from == to) ≡ false
    → s.heap from ≡ some f
    → s.heap to ≡ some g
    → Safe k s
    → Renamed from to f g s t
    → Safe k t
Renamed-Safe k from to f g s t ne ef eg v r = record {
  listed = λ p m. ground (arith, v.listed p, r.files, r.source_at, r.target_at, r.others p);
  distinct = subst (λ l. Distinct l) (sym r.files) v.distinct;
  entries_counted = ground (arith, v.entries_counted, r.files, r.entries);
  queue_counted = ground (arith, v.queue_counted, r.queue_length, r.comp_entries);
  unused = λ p le. ground (arith, v.unused p, r.fresh, r.others p, r.source_at, r.target_at);
  counted = λ p h q. counted p h q;
  freed =
      λ p q. ground (arith, v.freed p, r.queue p, r.worker, r.others p, r.source_at, r.target_at);
  owned = λ p h q. owned p h q;
}
  where
    counted : (p : ℕ) (h : File) → t.heap p ≡ some h → length h.head + refs t p ≤ h.accesses
    counted p h q = ground (
      arith,
      v.counted p h,
      v.counted to g,
      r.queue p,
      r.worker,
      r.others p,
      r.source_at,
      r.target_at,
      r.source_empty,
      r.source_count,
      r.target_count,
      r.target_descriptors,
    )

    owned : (p : ℕ) (h : File) → t.heap p ≡ some h → OwnedBy p h.head
    owned p h q = elim (Bool-cases (p == from)) [
      | inl a ↦
          let e : h.head ≡ [] = ground (arith, r.source_at, r.source_empty) in
          subst (OwnedBy p) (sym e) tt
      | inr a ↦ elim (Bool-cases (p == to)) [
        | inl b ↦
            let e : h ≡ r.target = ground (arith, r.target_at) in
            let i : p ≡ to = ground arith in
            subst (λ n. OwnedBy n h.head) (sym i)
              (subst (λ (u : File). OwnedBy to u.head) (sym e) r.target_owned)
        | inr b ↦ v.owned p h (ground (arith, r.others p a b))
      ]
    ]

-- `direct_rename` moves every reference from the old structure to the new one and loses none. Where
-- the old file's count is exact, the assertion holds, no freed file is read, and the invariant is
-- kept: the old structure has no descriptor and no place in the queue left, is marked as deleted,
-- and counts only the background thread, if that has just taken it; the new one has all descriptors,
-- those of the old one in front, each pointing to it and otherwise as it was, all places in the queue, the size and the compressor, and an empty cache;
-- both keep their names and hashes, and no other file changes.
pub direct_rename-Renamed :
    (k from to : ℕ) (f g : File) (s : State)
    → Safe k s
    → (from == to) ≡ false
    → s.heap from ≡ some f
    → s.heap to ≡ some g
    → f.accesses ≡ length f.head + refs s from
    → (t : State) × (direct_rename from to s ≡ some t) × Safe k t × Renamed from to f g s t
direct_rename-Renamed k from to f g s v ne ef eg exact =
    let (t, e, r) = rename_files-Renamed from to f g s ne exact (v.owned to g eg) in
    (t, rename_runs from to f g s ef eg ∙ e, Renamed-Safe k from to f g s t ne ef eg v r, r)
