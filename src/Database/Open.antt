-- ===== src/Database/Open.antt =====
-- `direct_open` finds the file with a name or makes one, and keeps the database in order.
use pcfs.Base.{
  ℕ, ◌+◌, ◌≡◌, refl, sym, ap, ◌∙◌, subst, inl, inr, Bool, true, false, List, Option, none, some,
  arith, ltb, has, Bool-cases,
}
use pcfs.Types.{File}
use pcfs.Names.{gethash}
use pcfs.Database.{
  State, Env, Opened, ready, find_file, open_known, open_new, direct_open, direct_open_purge,
  max_database_len,
}
use pcfs.Database.Invariant.{Safe}
use pcfs.Database.Find.{Named, Found, absent, present, find_file-Found}
use pcfs.Database.PurgeLoop.{Purged, fate, direct_open_purge-Purged}
use pcfs.Database.Holds.{Holds}
use pcfs.Database.Known.{open_known-Safe, open_known-same, open_known-files, open_known-Holds}
use pcfs.Database.Enter.{enter, enter-Safe, enter-Named, enter-Holds, Absent}

-- Names survive any change that keeps each file's name and hash and lists no new file.
pub Named-keep :
    (s t : State)
    → Named s
    → ((p : ℕ) (g : File)
        → t.heap p ≡ some g
        → (g' : File) × (s.heap p ≡ some g') × (g.name ≡ g'.name) × (g.hash ≡ g'.hash))
    → ((p : ℕ) → has p t.files ≡ true → has p s.files ≡ true)
    → Named t
Named-keep s t n same sub = record {
  hashed = λ id f e. let (g, q, nm, h) = same id f e in h ∙ n.hashed id g q ∙ ap gethash (sym nm);
  unique = λ i j f g mi mj ei ej en.
      let (f', q, nf, hf) = same i f ei in
      let (g', r, ng, hg) = same j g ej in
      n.unique i j f' g' (sub i mi) (sub j mj) q r (sym nf ∙ en ∙ ng);
}

fate-same :
    (env : Env) (o : Option File) (g : File)
    → fate env o ≡ some g
    → (g' : File) × (o ≡ some g') × (g.name ≡ g'.name) × (g.hash ≡ g'.hash)
unfolding fate
fate-same env none g h = cc
fate-same env (some f) g h = (f, refl, ground arith, ground arith)

pub Purged-same :
    (env : Env) (force : Bool) (ids : List ℕ) (s t : State)
    → Purged env force ids s t
    → (p : ℕ) (g : File) → t.heap p ≡ some g
    → (g' : File) × (s.heap p ≡ some g') × (g.name ≡ g'.name) × (g.hash ≡ g'.hash)
Purged-same env force ids s t r p g q = elim (Bool-cases (has p ids)) [
  | inl h ↦ fate-same env (s.heap p) g (ground (arith, r.heap p))
  | inr h ↦ (g, ground (arith, r.heap p), refl, refl)
]

-- What every call of `direct_open` leaves behind.
pub record Opens (env : Env) (name : List ℕ) (stabile : Bool) (s : State) : Type 0 where
  pub result : State
  pub outcome : Opened
  pub returns : direct_open env name stabile s ≡ some (result, outcome)
  pub safe : Safe 0 result
  pub names : Named result
  pub holds : Holds name stabile outcome result

counted_once : (s : State) → Safe 0 s → Safe 1 (record s { entries = s.entries + 1 })
counted_once s v = record {
  listed = v.listed;
  distinct = v.distinct;
  entries_counted = ground (arith, v.entries_counted);
  queue_counted = v.queue_counted;
  unused = v.unused;
  counted = v.counted;
  freed = v.freed;
  owned = v.owned;
}

-- The room that the database makes before the new file: with or without a purge.
room_left :
    (env : Env) (name : List ℕ) (s : State)
    → ltb (max_database_len + s.comp_entries) s.entries ≡ false
    → open_new env name s ≡ some (enter name (record s { entries = s.entries + 1 }), ready s.fresh)
unfolding open_new enter
room_left env name s few = rw (few, open_new)

room_made :
    (env : Env) (name : List ℕ) (s : State) {t : State}
    → ltb (max_database_len + s.comp_entries) s.entries ≡ true
    → direct_open_purge env false (record s { entries = s.entries + 1 }) ≡ some t
    → open_new env name s ≡ some (enter name t, ready t.fresh)
unfolding open_new enter
room_made env name s many e = rw (many, open_new) (rw (e, open_new))

made_room :
    (env : Env) (name : List ℕ) (s : State)
    → Safe 0 s
    → Named s
    → Absent name s
    → (t : State) × (open_new env name s ≡ some (enter name t, ready t.fresh))
      × Safe 1 t
      × Named t
      × Absent name t
made_room env name s v n new =
    let s1 : State = record s { entries = s.entries + 1 } in
    elim (Bool-cases (ltb (max_database_len + s.comp_entries) s.entries)) [
      | inr few ↦ (
        s1,
        room_left env name s few,
        counted_once s v,
        record { hashed = n.hashed; unique = n.unique },
        new,
      )
      | inl many ↦
          let (t, e, w, r) = direct_open_purge-Purged env false 1 s1 (counted_once s v) in
          (
            t,
            room_made env name s {t = t} many e,
            w,
            Named-keep s t n (Purged-same env false s.files s1 t r)
                (λ p h. ground (arith, r.files p)),
            λ p f m q.
                let (g, q', nm, _) = Purged-same env false s.files s1 t r p f q in
                λ h. new p g (ground (arith, r.files p)) q' (sym nm ∙ h),
          )
    ]

open_unknown :
    (env : Env) (name : List ℕ) (stabile : Bool) (s : State)
    → find_file s.heap (gethash name) name s.files ≡ some none
    → direct_open env name stabile s ≡ open_new env name s
unfolding direct_open
open_unknown env name stabile s e = rw (e, direct_open)

open_found :
    (env : Env) (name : List ℕ) (stabile : Bool) (s : State) (id : ℕ) (f : File)
    → find_file s.heap (gethash name) name s.files ≡ some (some id)
    → s.heap id ≡ some f
    → direct_open env name stabile s ≡ some (open_known stabile id f s)
unfolding direct_open
open_found env name stabile s id f e q = rw (e, direct_open) (rw (q, direct_open))

by_search :
    (env : Env) (name : List ℕ) (stabile : Bool) (s : State) {o : Option (Option ℕ)}
    → Safe 0 s
    → Named s
    → find_file s.heap (gethash name) name s.files ≡ o
    → Found s.heap name s.files o
    → Opens env name stabile s
by_search env name stabile s v n e (absent a) =
    let (t, q, w, m, b) = made_room env name s v n a in
    record {
      result = enter name t;
      outcome = ready t.fresh;
      returns = open_unknown env name stabile s e ∙ q;
      safe = enter-Safe name t w;
      names = enter-Named name t w m b;
      holds = enter-Holds name t stabile;
    }
by_search env name stabile s v n e (present {id} f m q nm) = record {
  result = (open_known stabile id f s).0;
  outcome = (open_known stabile id f s).1;
  returns = open_found env name stabile s id f e q;
  safe = open_known-Safe stabile id f s q m v;
  names =
      Named-keep s (open_known stabile id f s).0 n (open_known-same stabile id f s q m)
        (λ p h. subst (λ l. has p l ≡ true) (open_known-files stabile id f s q m) h);
  holds =
      subst (λ u. Holds u stabile (open_known stabile id f s).1 (open_known stabile id f s).0) nm
        (open_known-Holds stabile id f s q m);
}

-- `direct_open` comes to the point where it returns or gives up the lock of the database to wait,
-- whatever the purge finds and whether or not memory runs out for queue entries: up to there it reads no
-- freed file. It keeps the invariant and the names distinct, and the file that it returns or waits for
-- is listed then, has the name asked for and is not marked as deleted. A caller that asks for a stable
-- file waits exactly if a compression or decompression runs on it. What the wait comes to is not part
-- of this.
pub direct_open-Opens :
    (env : Env) (name : List ℕ) (stabile : Bool) (s : State)
    → Safe 0 s
    → Named s
    → Opens env name stabile s
direct_open-Opens env name stabile s v n =
    by_search env name stabile s v n refl (find_file-Found s.heap name s.files v.listed n.hashed)

-- A file that is in the database under the name is the one that comes back: no second one is made.
pub direct_open-known :
    (env : Env) (name : List ℕ) (stabile : Bool) (s : State) (id : ℕ) (f : File)
    → Safe 0 s
    → Named s
    → has id s.files ≡ true
    → s.heap id ≡ some f
    → f.name ≡ name
    → direct_open env name stabile s ≡ some (open_known stabile id f s)
direct_open-known env name stabile s id f v n m e nm =
    known refl (find_file-Found s.heap name s.files v.listed n.hashed)
  where
    known :
        {o : Option (Option ℕ)}
        → find_file s.heap (gethash name) name s.files ≡ o
        → Found s.heap name s.files o
        → direct_open env name stabile s ≡ some (open_known stabile id f s)
    known q (absent a) = absurd (a id f m e nm)
    known q (present {id = j} g mj ej nj) =
        open_found env name stabile s id f
          (q ∙ ap (λ (i : ℕ). some (some i)) (n.unique j id g f mj m ej e (nj ∙ sym nm))) e
