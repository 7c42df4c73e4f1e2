-- ===== src/Threads.antt =====
-- The threads of the program on one database: PCFS.c and background_compress.c as steps of a state.
-- Each step is one stretch of a thread between taking and giving back its locks.
pub mod Kept
pub mod Whole
pub mod Read
pub mod Reach
mod Examples
use pcfs.Base.{
  ℕ, ◌+◌, ◌-◌, ◌≤◌, ◌≡◌, Bool, List, [], Option, none, some, ◌==◌, if◌then◌else◌, false, length,
}
use pcfs.Types.{File, Config}
use pcfs.Database.{State, Env, Opened, update, wake_up, direct_open, direct_open_purge}
use pcfs.Database.Invariant.{refs}
use pcfs.Rename.{direct_rename}
use pcfs.Handlers.{
  Ending, OpenAnswers, open_file, release_file, Attributes, getattr_file, unlink_file,
}
use pcfs.Stream.Call.{ReadAnswers}
use pcfs.ReadWrite.{Pwrites, Stored, write_file, read_file}
use pcfs.Decompress
use pcfs.Truncate.{truncate_file, link_file}
use pcfs.Compress.{Answers}
use pcfs.Background.{take_entry, finish_entry}
use pcfs.Background.Worker.{Fair}

-- What a handler can do to the file with the address `id` that it has locked.
pub data Handled (id : ℕ) : File → File → Type 0 where
  by_open :
      (a : OpenAnswers) (f g : File) (e : Ending)
      → a.file ≡ id
      → open_file a f ≡ some (g, e)
      → Handled id f g
  by_release :
      (closed : ℕ → Bool) (d : ℕ) (f g : File) → release_file closed d f ≡ some g → Handled id f g
  by_getattr :
      (a : Attributes) (f g : File) (e : Ending) (n : ℕ)
      → getattr_file a f ≡ some (g, e, n)
      → Handled id f g
  by_unlink : (unlinked : Bool) (f : File) → Handled id f (unlink_file unlinked f).0
  by_hold : (f : File) → Handled id f (record f { accesses = f.accesses + 1 })
  by_write :
      (k : Config) (deflate : List ℕ → ℕ × List ℕ) (behind : List ℕ) (total_w blk : ℕ) (a : Pwrites)
      (buf : List ℕ) (offset : ℕ) (f : File) (w : Stored)
      → write_file k deflate behind total_w blk a buf offset f ≡ some w
      → Handled id f w.file

abbrev pub put : ℕ → File → State → State
put id g s = record s { heap = update s.heap id (some g) }

-- What other threads do to the file of a running compression keeps its name.
abbrev pub Renames : (File → File) → Type 0
Renames m = (f : File) → ((m f).name ≡ f.name) × ((m f).hash ≡ f.hash)

-- One step: a handler looks for its file, or is woken while it waits for it and the file is still
-- there, a purge runs, a handler changes its file, gives up a reference that it counted, as PCFS_rename
-- does, a file is renamed whose count is exact, or the background thread starts or ends a round.
pub data Step : State → State → Type 0 where
  opens :
      (env : Env) (name : List ℕ) (stabile : Bool) (s t : State) (o : Opened)
      → direct_open env name stabile s ≡ some (t, o)
      → Step s t
  wakes : (id : ℕ) (s t : State) (o : Opened) → wake_up id s ≡ some (t, o) → Step s t
  lets_go :
      (id : ℕ) (f : File) (s : State)
      → s.heap id ≡ some f
      → length f.head + refs s id + 1 ≤ f.accesses
      → Step s (put id (record f { accesses = f.accesses - 1 }) s)
  purges :
      (env : Env) (force : Bool) (s t : State) → direct_open_purge env force s ≡ some t → Step s t
  handles :
      (id : ℕ) (f g : File) (s : State) → s.heap id ≡ some f → Handled id f g → Step s (put id g s)
  truncates :
      (a : Decompress.Answers) (opened truncated : Bool) (size id : ℕ) (f g : File) (rest : ℕ)
      (e : Ending) (s : State)
      → s.heap id ≡ some f
      → truncate_file a opened truncated size f s.decomp_cache_size ≡ some (g, rest, e)
      → Step s (record (put id g s) { decomp_cache_size = rest })
  reads :
      (c : Config) (a : ReadAnswers) (d size offset id : ℕ) (f g : File) (rest : ℕ)
      (r : Option (List ℕ)) (s : State)
      → s.heap id ≡ some f
      → read_file c a [] d size offset f s.decomp_cache_size ≡ some (g, rest, r)
      → Step s (record (put id g s) { decomp_cache_size = rest })
  links :
      (a : Decompress.Answers) (linked : Bool) (id : ℕ) (f g : File) (rest : ℕ) (e : Ending)
      (s : State)
      → s.heap id ≡ some f
      → link_file a linked f s.decomp_cache_size ≡ some (g, rest, e)
      → Step s (record (put id g s) { decomp_cache_size = rest })
  renames :
      (from to : ℕ) (f g : File) (s t : State)
      → (from == to) ≡ false
      → s.heap from ≡ some f
      → s.heap to ≡ some g
      → f.accesses ≡ length f.head + refs s from
      → direct_rename from to s ≡ some t
      → Step s t
  takes : (s t : State) → take_entry s ≡ some t → Step s t
  finishes :
      (a : Answers) (id : ℕ) (s t : State)
      → s.worker ≡ some id
      → Fair id a.meanwhile
      → Renames a.meanwhile
      → finish_entry a s ≡ some t
      → Step s t

-- The states that the program comes to from a state.
pub data Reaches (s : State) : State → Type 0 where
  start : Reaches s s
  next : (t u : State) → Reaches s t → Step t u → Reaches s u
