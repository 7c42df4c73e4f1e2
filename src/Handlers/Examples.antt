-- ===== src/Handlers/Examples.antt =====
-- Concrete calls of the handlers.
use pcfs.Base.{◌≡◌, refl, true, false, [], ◌∷◌, none, some, codes}
use pcfs.Types.{module_gzip, File}
use pcfs.Names.{choose_compressor}
use pcfs.Names.Examples.{plain_config}
use pcfs.Database.Examples.{unused_file}
use pcfs.Header.{header_of, got, failed, file_read_header_fd}
use pcfs.Handlers.{
  ok, failed_locked, OpenAnswers, Attributes, open_file, open_stat, open_header, add_descriptor,
  release_file, choose_at_write,
}
use pcfs.Handlers.Descriptors.{OpenEnds, open_file-Ends, SameUsers, open-release}

-- A file of 5000 bytes whose header cannot be read.
abbrev unreadable : OpenAnswers
unreadable = record {
  descriptor = 9;
  file = 1;
  fd = some 4;
  fstat = some (record { regular = true; nlink = 1; size = 5000 });
  header_bytes = failed;
}

unreadable-run : open_file unreadable unused_file ≡ some (unused_file, failed_locked)
unfolding open_file open_stat open_header file_read_header_fd
unreadable-run = refl

open_file-Ends_example : OpenEnds unreadable unused_file unused_file failed_locked
open_file-Ends_example =
    open_file-Ends unreadable unused_file unused_file failed_locked unreadable-run

-- The same file with a header of the module gz.
abbrev zipped : OpenAnswers
zipped = record unreadable { header_bytes = got (header_of module_gzip 10000) }

abbrev opened_file : File
opened_file = record unused_file {
  compressor = some module_gzip;
  size = some 10000;
  accesses = 1;
  head = record { id = 9; file = 1; fd = some 4; handle = false; offset = 0 } ∷ [];
}

zipped-run : open_file zipped unused_file ≡ some (opened_file, ok)
unfolding open_file open_stat open_header add_descriptor file_read_header_fd header_of
zipped-run = refl

open-release_example :
    (h : File) × (release_file (λ d. true) 9 opened_file ≡ some h) × SameUsers unused_file h
open-release_example = open-release zipped (λ d. true) unused_file opened_file zipped-run

-- A file of unknown size with the same header.
abbrev first_look : Attributes
first_look = record {
  st_size = 5000;
  opened = true;
  closed = true;
  header_bytes = got (header_of module_gzip 10000);
}

abbrev unknown_file : File
unknown_file = record unused_file { size = none }

abbrev known_file : File
known_file = record unused_file { size = some 10000; compressor = some module_gzip }

-- An empty file with one user.
abbrev new_file : File
new_file = record unused_file { size = some 0; accesses = 1 }

abbrev decided_file : File
decided_file = record new_file {
  compressor = choose_compressor plain_config (codes "a");
  dontcompress = true;
}

decided-run : choose_at_write plain_config 0 new_file ≡ some decided_file
unfolding choose_at_write
decided-run = refl
