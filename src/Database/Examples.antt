-- ===== src/Database/Examples.antt =====
-- A database with one file that nobody uses, one that is open once, and an environment without
-- surprises.
use pcfs.Base.{◌≡◌, refl, true, false, [], ◌∷◌, none, some, codes, arith, ◌==◌, if◌then◌else◌}
use pcfs.Types.{idle, quiet, File}
use pcfs.Names.{gethash}
use pcfs.Names.Examples.{plain_config}
use pcfs.Database.{State, Env, direct_open_purge, wants_compression}
use pcfs.Database.Invariant.{Safe}
use pcfs.Database.Find.{Named}
use pcfs.Database.Open.{Opens, direct_open-Opens}
use pcfs.Database.PurgeLoop.{Purged, direct_open_purge-Purged}
use pcfs.Database.Drain.{purge_force_twice}
use pcfs.Database.Space.{unknown_size-stays}

abbrev pub calm : Env
calm = record {
  config = plain_config;
  statvfs = λ name. some (record { f_bsize = 4096; f_bfree = 1000; f_bavail = 1000 });
  euid_root = false;
  malloc_ok = λ id. true;
}

abbrev pub unused_file : File
unused_file = record {
  name = codes "a";
  hash = gethash (codes "a");
  deleted = false;
  accesses = 0;
  size = some 10000;
  compressor = none;
  skipped = 0;
  dontcompress = false;
  direction = idle;
  status = quiet;
  deduped = true;
  cache = none;
  cache_size = 0;
  head = [];
}

abbrev pub used_file : File
used_file = record unused_file {
  name = codes "b";
  hash = gethash (codes "b");
  accesses = 1;
  head = record { id = 50; file = 2; fd = some 7; handle = false; offset = 0 } ∷ [];
}

abbrev pub small : State
small = record {
  heap = λ p. if p == 1 then some unused_file else if p == 2 then some used_file else none;
  fresh = 3;
  files = 1 ∷ 2 ∷ [];
  entries = 2;
  queue = [];
  comp_entries = 0;
  decomp_cache_size = 0;
  worker = none;
}

pub small-Safe : Safe 0 small
small-Safe = record {
  listed = λ p m. ground arith;
  distinct = (refl, (refl, tt));
  entries_counted = omega arith;
  queue_counted = refl;
  unused = λ p le. ground arith;
  counted = λ p f e. ground arith;
  freed = λ p e. refl;
  owned = λ p f e. ground arith;
}

pub small-Named : Named small
small-Named = record {
  hashed = λ p f e. ground arith;
  unique = λ i j f g mi mj ei ej n. ground arith;
}

direct_open-Opens_example : Opens calm (codes "c") true small
direct_open-Opens_example = direct_open-Opens calm (codes "c") true small small-Safe small-Named

-- The file of a waiting caller, on which a compression still runs.
abbrev busy_file : File
busy_file = record used_file { status = record used_file.status { compressing = true } }

abbrev busy_state : State
busy_state = record small { heap = λ a. if a == 2 then some busy_file else small.heap a }

direct_open_purge-Purged_example :
    (t : State) × (direct_open_purge calm false small ≡ some t)
    × Safe 0 t
    × Purged calm false (1 ∷ 2 ∷ []) small t
direct_open_purge-Purged_example = direct_open_purge-Purged calm false 0 small small-Safe

purge_force_twice_example :
    (t u : State) × (direct_open_purge calm true small ≡ some t)
    × (direct_open_purge calm true t ≡ some u)
    × (u.files ≡ [])
    × (u.entries ≡ 0)
    × Safe 0 u
purge_force_twice_example = purge_force_twice calm small small-Safe

unknown_size-stays_example : wants_compression calm (record unused_file { size = none }) ≡ false
unknown_size-stays_example =
    unknown_size-stays calm (record unused_file { size = none })
      (record { f_bsize = 4096; f_bfree = 1000; f_bavail = 1000 }) refl refl refl
