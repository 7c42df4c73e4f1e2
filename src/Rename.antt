-- ===== src/Rename.antt =====
-- `direct_delete` and `direct_rename` of direct_compress.c: a renamed file hands its descriptors and
-- its places in the background queue to the structure of the new name.
pub mod Counts
mod Examples
pub mod Moved
use pcfs.Base.{
  ℕ, ◌+◌, ◌-◌, ◌≡◌, Bool, true, false, List, [], ◌∷◌, Option, none, some, leb, ◌==◌, if◌then◌else◌,
}
use pcfs.Types.{Descriptor, File}
use pcfs.Database.{Entry, State, update, flush_file_cache}

-- `direct_delete`
unfoldable pub direct_delete : File → File
direct_delete f = record f { deleted = true; size = none }

-- The loop over the descriptors of `file_from`, each of which is the first of the list when its
-- round comes: it leaves that list, comes first in the other, and points to the other file.
unfoldable pub move_descriptors : ℕ → List Descriptor → File → File → File × File
move_descriptors to [] f g = (f, g)
move_descriptors to (d ∷ ds) f g =
    move_descriptors to ds (record f { head = ds; accesses = f.accesses - 1 })
      (record g { head = record d { file = to } ∷ g.head; accesses = g.accesses + 1 })

-- The loop over the background queue.
unfoldable pub redirect : ℕ → ℕ → List Entry → File → File → List Entry × File × File
redirect from to [] f g = ([], f, g)
redirect from to (e ∷ es) f g =
    let hit = from == e.file in
    let (es', f', g') =
      redirect from to es (if hit then record f { accesses = f.accesses - 1 } else f)
        (if hit then record g { accesses = g.accesses + 1 } else g) in
    ((if hit then record e { file = to } else e) ∷ es', f', g')

-- What `file_to` takes over from `file_from`, after its own cache is flushed.
unfoldable pub inherit : File → File → File
inherit f g = record g {
  size = f.size;
  compressor = f.compressor;
  dontcompress = f.dontcompress;
  direction = f.direction;
  status = f.status;
}

-- Both files are locked by the caller, and are two structures. `none` stands for a read through a
-- pointer to a freed file and for a failing `assert(file_from->accesses <= 1)`.
unfoldable pub rename_files : ℕ → ℕ → File → File → State → Option State
rename_files from to f g s =
    let (g1, total) = flush_file_cache g s.decomp_cache_size in
    let (f2, g2) = move_descriptors to f.head f (inherit f g1) in
    let (queue, f3, g3) = redirect from to s.queue f2 g2 in
    if leb f3.accesses 1
    then some (record s {
      heap = update (update s.heap to (some g3)) from (some (direct_delete f3));
      queue = queue;
      decomp_cache_size = total;
    })
    else none

unfoldable pub direct_rename : ℕ → ℕ → State → Option State
direct_rename from to s = elim (s.heap from) [
  | none ↦ none
  | some f ↦ elim (s.heap to) [ none ↦ none | some g ↦ rename_files from to f g s ]
]
