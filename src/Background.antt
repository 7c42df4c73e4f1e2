-- ===== src/Background.antt =====
-- The thread of background_compress.c: `thread_compress` takes an entry off the queue, and later
-- handles its file and gives the reference back.
pub mod Worker
mod Examples
use pcfs.Base.{
  ℕ, ◌-◌, ◌^◌, ◌≡◌, Bool, true, false, not, ◌&&◌, ◌||◌, List, [], ◌∷◌, Option, none, some, ltb, leb,
  ◌==◌, if◌then◌else◌, is_some,
}
use pcfs.Types.{File, as_unsigned, Config}
use pcfs.Database.{Entry, State, update}
use pcfs.Compress.{Answers, do_compress}

-- Take the first entry: its file goes to the thread.
unfoldable pub take_first : State → List Entry → Option State
take_first s [] = none
take_first s (e ∷ es) =
    some (record s { queue = es; comp_entries = s.comp_entries - 1; worker = some e.file })

-- The first half of a round: `none` while the thread waits for an entry, or still has a file.
unfoldable pub take_entry : State → Option State
take_entry s = elim s.worker [ none ↦ take_first s s.queue | some id ↦ none ]

-- The test whether the file is to be compressed. A limit of -1, the largest size_t, is no limit.
unfoldable pub eligible : Config → File → Bool
eligible c f =
    (f.accesses == 1)
    && not f.deleted
    && not (is_some f.compressor)
    && ((c.dont_compress_beyond == 2 ^ 64 - 1) || ltb (as_unsigned f.size) c.dont_compress_beyond)

-- The file after the test and the compression.
unfoldable pub handle : Answers → File → Option File
handle a f =
    if eligible a.config f
    then elim (do_compress a f) [ none ↦ none | some r ↦ some r.file ]
    else some f

-- The second half of a round. `none` also stands for a read through a pointer to a freed file, and
-- for a failing `assert(file->accesses > 0)`.
unfoldable pub finish_entry : Answers → State → Option State
finish_entry a s = elim s.worker [
  | none ↦ none
  | some id ↦ elim (s.heap id) [
    | none ↦ none
    | some f ↦ if f.accesses == 0 then none else elim (handle a f) [
      | none ↦ none
      | some g ↦ some (record s {
        heap = update s.heap id (some (record g { accesses = g.accesses - 1 }));
        worker = none;
      })
    ]
  ]
]
