-- ===== src/Database.antt =====
-- The database of open files: direct_compress.c (direct_open, _direct_open_purge,
-- direct_new_file, direct_open_delete, direct_close, direct_delete, direct_rename,
-- flush_file_cache) and the queue of background_compress.c.
-- Structures live on an explicit heap: an address holds a `File` until it is freed. A function that
-- reads through a pointer to a freed structure returns `none`.
pub mod Find
pub mod Space
pub mod Invariant
pub mod Open
pub mod Wait
pub mod Holds
pub mod Known
pub mod Enter
pub mod Drain
pub mod Examples
pub mod Purge
pub mod PurgeLoop
use pcfs.Base.{
  ℕ, suc, ◌+◌, ◌-◌, ◌*◌, ◌%◌, ◌^◌, ◌≡◌, Bool, true, false, not, ◌||◌, ◌&&◌, List, [], ◌∷◌, ◌++◌,
  Option, none, some, ltb, leb, ◌==◌, if◌then◌else◌, is_some, length, str_eq, map,
}
use pcfs.Types.{
  Compressor, Direction, idle, reading, writing, Status, quiet, is_busy, page_size, Descriptor,
  File, as_unsigned, Statvfs, Config,
}
use pcfs.Names.{gethash, choose_compressor}

-- compress_t: a file that waits for the background thread.
pub record Entry : Type 0 where
  pub file : ℕ
  pub is_dedup : Bool

-- The two `database_t` of globals.c, the heap, and the number of bytes in all caches
-- (`decomp_cache_size`, an int by its bit pattern). `fresh` is the address that the next
-- allocation returns. `worker` is the file that the background thread has taken off the queue and
-- not yet given back.
pub record State : Type 0 where
  pub heap : ℕ → Option File
  pub fresh : ℕ
  pub files : List ℕ
  pub entries : ℕ
  pub queue : List Entry
  pub comp_entries : ℕ
  pub decomp_cache_size : ℕ
  pub worker : Option ℕ

-- What a call asks of the system: `statvfs` on a name, whether the process runs as root, and
-- whether there is memory for the queue entry of a file.
pub record Env : Type 0 where
  pub config : Config
  pub statvfs : List ℕ → Option Statvfs
  pub euid_root : Bool
  pub malloc_ok : ℕ → Bool

-- MAX_DATABASE_LEN
abbrev pub max_database_len : ℕ
max_database_len = 30

abbrev pub update : (ℕ → Option File) → ℕ → Option File → ℕ → Option File
update heap id c a = if a == id then c else heap a

-- list_del on a list of addresses that holds `id` once.
unfoldable pub unlink : ℕ → List ℕ → List ℕ
unlink id [] = []
unlink id (x ∷ xs) = if id == x then xs else x ∷ unlink id xs

-- The slots of a cache that hold a page.
unfoldable pub filled : List (Option (List ℕ)) → ℕ
filled [] = 0
filled (none ∷ cs) = filled cs
filled (some p ∷ cs) = suc (filled cs)

-- `flush_file_cache`: the file with no cache, and what is left of `decomp_cache_size`.
unfoldable pub flush_file_cache : File → ℕ → File × ℕ
flush_file_cache f total = elim f.cache [
  | none ↦ (f, total)
  | some slots ↦ (
    record f { cache = none; cache_size = 0 },
    (total + (2 ^ 32 - page_size * filled slots % 2 ^ 32)) % 2 ^ 32,
  )
]

-- `direct_open_delete`, after the file has left the list: flush its cache and free it.
unfoldable pub direct_open_delete : ℕ → File → State → State
direct_open_delete id f s = record s {
  heap = update s.heap id none;
  decomp_cache_size = (flush_file_cache f s.decomp_cache_size).1;
}

-- `background_compress_dedup`: the count goes up before the entry is allocated.
unfoldable pub background_compress_dedup : Env → ℕ → File → Bool → State → State
background_compress_dedup env id f dedup s =
    let s1 = record s { heap = update s.heap id (some (record f { accesses = f.accesses + 1 })) } in
    if env.malloc_ok id
    then record s1 {
      queue = s1.queue ++ record { file = id; is_dedup = dedup } ∷ [];
      comp_entries = s1.comp_entries + 1;
    }
    else s1

-- The size test of the purge: unknown, or above the minimum.
unfoldable pub large_enough : Config → Option ℕ → Bool
large_enough c none = true
large_enough c (some n) = ltb c.min_filesize_background n

-- The space test of the purge: products of 64-bit unsigned numbers, compared with the size as one.
unfoldable pub fits : Bool → Statvfs → Option ℕ → Bool
fits root st size =
    leb (as_unsigned size) (st.f_bsize * st.f_bavail % 2 ^ 64)
    || (root && leb (as_unsigned size) (st.f_bsize * st.f_bfree % 2 ^ 64))

-- The condition under which the purge hands a file to the background thread.
unfoldable pub wants_compression : Env → File → Bool
wants_compression env f =
    not f.deleted
    && not (is_some f.compressor)
    && large_enough env.config f.size
    && (elim (env.statvfs f.name) [ none ↦ false | some st ↦ fits env.euid_root st f.size ])
    && not env.config.read_only
    && is_some (choose_compressor env.config f.name)

-- The body of the purge loop for a file that nobody uses: queue it, or drop and free it.
unfoldable pub purge_unused : Env → ℕ → File → State → State
purge_unused env id f s =
    if wants_compression env f
    then background_compress_dedup env id f false s
    else direct_open_delete id f (record s { files = unlink id s.files; entries = s.entries - 1 })

-- The loop's body for a file in use: only a forced purge takes it off the list, and frees nothing.
unfoldable pub purge_used : Bool → ℕ → State → State
purge_used force id s =
    if force then record s { files = unlink id s.files; entries = s.entries - 1 } else s

unfoldable pub purge_file : Env → Bool → ℕ → State → Option State
purge_file env force id s = elim (s.heap id) [
  | none ↦ none
  | some f ↦ some (if f.accesses == 0 then purge_unused env id f s else purge_used force id s)
]

-- The loop of `_direct_open_purge`, which reads each successor before it runs the body.
unfoldable pub purge_loop : Env → Bool → List ℕ → State → Option State
purge_loop env force [] s = some s
purge_loop env force (id ∷ ids) s = elim (purge_file env force id s) [
  | none ↦ none
  | some s' ↦ purge_loop env force ids s'
]

unfoldable pub direct_open_purge : Env → Bool → State → Option State
direct_open_purge env force s = purge_loop env force s.files s

-- `direct_new_file`; where the allocation fails the process exits.
unfoldable pub direct_new_file : ℕ → List ℕ → File
direct_new_file hash name = record {
  name = name;
  hash = hash;
  deleted = false;
  accesses = 0;
  size = none;
  compressor = none;
  skipped = 0;
  dontcompress = false;
  direction = idle;
  status = quiet;
  deduped = true;
  cache = none;
  cache_size = 0;
  head = [];
}

-- The search of `direct_open`: the first file with the hash and the name.
unfoldable pub find_file : (ℕ → Option File) → ℕ → List ℕ → List ℕ → Option (Option ℕ)
find_file heap hash name [] = some none
find_file heap hash name (id ∷ ids) = elim (heap id) [
  | none ↦ none
  | some f ↦
      let rest = find_file heap hash name ids in
      if (f.hash == hash) && str_eq f.name name then some (some id) else rest
]

-- What `direct_open` comes back with: a locked file, or one whose lock the caller waits for, after
-- it asked the running compression to stop.
pub data Opened : Type 0 where
  ready waiting : ℕ → Opened

-- The file is in the database. `stabile` callers cancel what runs on the file and wait.
unfoldable pub open_known : Bool → ℕ → File → State → State × Opened
open_known stabile id f s =
    let g = record f { deleted = false } in
    if stabile && is_busy f.status
    then (
      record s {
        heap = update s.heap id (some (record g { status = record g.status { cancel = true } }));
      },
      waiting id,
    )
    else (record s { heap = update s.heap id (some g) }, ready id)

-- The round of the waiting loop after a wake-up, with the lock of the file but without that of the
-- database: a file that was freed meanwhile is read (`none`), one on which something runs is waited for
-- again, and else the call returns.
unfoldable pub wake_up : ℕ → State → Option (State × Opened)
wake_up id s = elim (s.heap id) [
  | none ↦ none
  | some f ↦
      if is_busy f.status
      then some (
        record s {
          heap = update s.heap id (some (record f { status = record f.status { cancel = true } }));
        },
        waiting id,
      )
      else some (s, ready id)
]

-- The file is new. `entries` is counted before the purge, and compared as it was before that.
unfoldable pub open_new : Env → List ℕ → State → Option (State × Opened)
open_new env name s =
    let s1 = record s { entries = s.entries + 1 } in
    elim (if ltb (max_database_len + s.comp_entries) s.entries
      then direct_open_purge env false s1
      else some s1) [
        | none ↦ none
        | some s2 ↦ some (
          record s2 {
            heap = update s2.heap s2.fresh (some (direct_new_file (gethash name) name));
            fresh = s2.fresh + 1;
            files = s2.files ++ s2.fresh ∷ [];
          },
          ready s2.fresh,
        )
      ]

unfoldable pub direct_open : Env → List ℕ → Bool → State → Option (State × Opened)
direct_open env name stabile s = elim (find_file s.heap (gethash name) name s.files) [
  | none ↦ none
  | some none ↦ open_new env name s
  | some (some id) ↦ elim (s.heap id) [ none ↦ none | some f ↦ some (open_known stabile id f s) ]
]
