-- ===== src/Background/Examples.antt =====
-- A round of the thread on a database with one file.
use pcfs.Base.{ℕ, ◌≡◌, refl, false, [], ◌∷◌, none, some, arith, ◌==◌, if◌then◌else◌, ◌⊎◌}
use pcfs.Types.{File}
use pcfs.Database.{State}
use pcfs.Database.Invariant.{Safe, refs}
use pcfs.Database.Examples.{unused_file}
use pcfs.Compress.Examples.{smooth}
use pcfs.Background.{take_first, take_entry, handle, finish_entry}
use pcfs.Background.Worker.{Fair, Finished, FirstTaken, take_entry-Safe, finish_entry-Finished}

abbrev queued_file : File
queued_file = record unused_file { accesses = 1 }

-- One file, which waits in the queue.
abbrev waiting_state : State
waiting_state = record {
  heap = λ a. if a == 0 then some queued_file else none;
  fresh = 1;
  files = 0 ∷ [];
  entries = 1;
  queue = record { file = 0; is_dedup = false } ∷ [];
  comp_entries = 1;
  decomp_cache_size = 0;
  worker = none;
}

waiting-Safe : Safe 0 waiting_state
waiting-Safe = record {
  listed = λ p m. ground arith;
  distinct = (refl, tt);
  entries_counted = refl;
  queue_counted = refl;
  unused = λ p le. ground arith;
  counted = λ p f e. ground (arith, e);
  freed = λ p e. ground (arith, e);
  owned = λ p f e. ground (arith, e);
}

-- The same after the thread took the entry.
abbrev taken_state : State
taken_state = record waiting_state { queue = []; comp_entries = 0; worker = some 0 }

taken-run : take_entry waiting_state ≡ some taken_state
unfolding take_entry take_first
taken-run = refl

take_entry-Safe_example :
    Safe 0 taken_state
    × (taken_state.heap ≡ waiting_state.heap)
    × ((p : ℕ) → refs taken_state p ≡ refs waiting_state p)
    × FirstTaken waiting_state taken_state
take_entry-Safe_example = take_entry-Safe 0 waiting_state taken_state waiting-Safe taken-run

taken-Safe : Safe 0 taken_state
taken-Safe = record {
  listed = λ p m. ground arith;
  distinct = (refl, tt);
  entries_counted = refl;
  queue_counted = refl;
  unused = λ p le. ground arith;
  counted = λ p f e. ground (arith, e);
  freed = λ p e. ground (arith, e);
  owned = λ p f e. ground (arith, e);
}

smooth-Fair : Fair 0 (λ f. f)
smooth-Fair = record { counts = λ f. omega arith; owns = λ f h. h }

finish_entry-Finished_example :
    (f : File) × (taken_state.heap 0 ≡ some f)
    × (((handle smooth f ≡ none) × (finish_entry smooth taken_state ≡ none))
        ⊎ ((t : State) × (finish_entry smooth taken_state ≡ some t)
            × Finished smooth 0 0 f taken_state t))
finish_entry-Finished_example =
    finish_entry-Finished smooth 0 0 taken_state taken-Safe refl smooth-Fair
