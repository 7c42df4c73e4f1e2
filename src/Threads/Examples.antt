-- ===== src/Threads/Examples.antt =====
-- Two steps from a database of two files: one handler opens a file, and one unlinks the other.
use pcfs.Base.{◌≡◌, refl, true, [], ◌∷◌, some, false}
use pcfs.Types.{File}
use pcfs.Database.{State}
use pcfs.Database.Examples.{unused_file, used_file, small, small-Safe, small-Named}
use pcfs.Header.{got}
use pcfs.Handlers.{OpenAnswers, open_file, open_stat, add_descriptor, ok, unlink_file}
use pcfs.Threads.{put, by_open, by_unlink, handles, Reaches, start, next}
use pcfs.Threads.Reach.{Sound, Reaches-Sound}

-- A file of 5 bytes, which is too short for a header.
abbrev short : OpenAnswers
short = record {
  descriptor = 60;
  file = 1;
  fd = some 8;
  fstat = some (record { regular = true; nlink = 1; size = 5 });
  header_bytes = got [];
}

abbrev opened : File
opened = record unused_file {
  size = some 5;
  accesses = 1;
  head = record { id = 60; file = 1; fd = some 8; handle = false; offset = 0 } ∷ [];
}

short-run : open_file short unused_file ≡ some (opened, ok)
unfolding open_file open_stat add_descriptor
short-run = refl

abbrev after : State
after = put 2 (unlink_file true used_file).0 (put 1 opened small)

two_steps : Reaches small after
two_steps =
    next (put 1 opened small) after
      (next small (put 1 opened small) start (
        handles 1 unused_file opened small refl
          (by_open short unused_file opened ok refl short-run)))
      (handles 2 used_file (unlink_file true used_file).0 (put 1 opened small) refl
        (by_unlink true used_file))

Reaches-Sound_example : Sound after
Reaches-Sound_example = Reaches-Sound small after (small-Safe, small-Named) two_steps
