-- ===== src/Decompress/Examples.antt =====
-- Concrete runs.
use pcfs.Base.{◌≡◌, ◌↔◌, refl, true, false, [], ◌∷◌, none, some, codes, is_some}
use pcfs.Types.{module_gzip, module_null, Descriptor, File}
use pcfs.OpenFile.{file_create_temp}
use pcfs.Database.{direct_new_file, fits, flush_file_cache}
use pcfs.Header.{header_of, file_read_header_fd, got}
use pcfs.Decompress.{
  Answers, Run, do_decompress, has_room, open_source, with_header, replace_file, close_all,
  direct_close, file_close, make_temp, with_temp, decompress_into, install, reopen_all,
}
use pcfs.Decompress.Outcome.{Ended, do_decompress-Ended}
use pcfs.Decompress.Ends.{Fatal, found, do_decompress-dies_iff}

-- A gzipped file of known size with one descriptor that has a stream.
abbrev reader : Descriptor
reader = record { id = 8; file = 1; fd = some 4; handle = true; offset = 300 }

abbrev pub gz_file : File
gz_file = record (direct_new_file 7 (codes "/a")) {
  size = some 1000;
  compressor = some module_gzip;
  accesses = 1;
  head = reader ∷ [];
}

-- A run in which every call succeeds.
abbrev pub smooth : Answers
smooth = record {
  statvfs = some (record { f_bsize = 4096; f_bfree = 10; f_bavail = 10 });
  euid_root = false;
  source = some 5;
  header_bytes = got (header_of module_gzip 1000);
  closed = λ d. true;
  fstat = true;
  memory = true;
  mkstemp = λ i. some 6;
  decompressed = some 1000;
  reopened = λ d. some 9;
  renamed = true;
  utime = true;
}

-- The file as such a run leaves it.
abbrev pub after : Run
after = record {
  file = record gz_file {
    compressor = none;
    head = record reader { fd = some 9; handle = false; offset = 0 } ∷ [];
  };
  total = 0;
  result = true;
  open_fds = [];
  replaced = true;
  temp_left = false;
  woken = false;
}

pub smooth-run : do_decompress smooth gz_file 0 ≡ some after
unfolding do_decompress fits open_source with_header file_read_header_fd header_of flush_file_cache
    direct_new_file replace_file close_all direct_close make_temp with_temp file_create_temp
    decompress_into install reopen_all file_close
smooth-run = refl

do_decompress-Ended_example : Ended smooth (reader ∷ []) after
do_decompress-Ended_example = do_decompress-Ended smooth gz_file 0 after smooth-run

-- The same answers for a file whose record names the other module.
do_decompress-dies_iff_example :
    (do_decompress smooth (record gz_file { compressor = some module_null }) 0 ≡ none) ↔ (
      (has_room false (some 1000) smooth.statvfs ≡ true)
      × (is_some smooth.source ≡ true)
      × Fatal (record gz_file { compressor = some module_null }) (found smooth))
do_decompress-dies_iff_example =
    do_decompress-dies_iff smooth (record gz_file { compressor = some module_null }) 0
