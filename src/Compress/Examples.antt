-- ===== src/Compress/Examples.antt =====
-- Concrete runs.
use pcfs.Base.{◌≡◌, refl, true, false, [], ◌∷◌, none, some, codes, contains_nocase, ◌⊎◌}
use pcfs.Types.{module_gzip}
use pcfs.Names.{choose_compressor, is_compressible, contains_any, is_excluded, starts_with_any}
use pcfs.Names.Examples.{plain_config}
use pcfs.Database.Examples.{unused_file}
use pcfs.Header.{got, file_read_header_fd}
use pcfs.Compress.{
  Answers, Run, do_compress, check_source, with_header, compress_plain, with_temp, compress_into,
  compression_done, replace,
}
use pcfs.Compress.Outcome.{Ended, do_compress-Ended}
use pcfs.Compress.Clean.{Clean, Leaks, do_compress-Clean}
use pcfs.OpenFile.{file_create_temp}

-- A run on a file of 10000 bytes in which every call succeeds and nobody else touches the file.
abbrev pub smooth : Answers
smooth = record {
  config = plain_config;
  source = some 5;
  fstat = some 10000;
  header_bytes = got (1 ∷ 2 ∷ 3 ∷ 4 ∷ 5 ∷ 6 ∷ 7 ∷ 8 ∷ 9 ∷ 10 ∷ 11 ∷ 12 ∷ []);
  memory = true;
  mkstemp = λ i. some 6;
  header_written = true;
  meanwhile = λ f. f;
  compressed = some 10000;
  temp_closed = true;
  source_closed = true;
  renamed = true;
  unlinked = true;
}

abbrev after : Run
after = record {
  file = record unused_file { compressor = some module_gzip; size = some 10000 };
  open_fds = [];
  temp_left = false;
  replaced = some (codes "a");
  woken = false;
}

smooth-run : do_compress smooth unused_file ≡ some after
unfolding do_compress check_source with_header file_read_header_fd compress_plain choose_compressor
    is_compressible contains_any contains_nocase is_excluded starts_with_any with_temp
    file_create_temp compress_into compression_done replace
smooth-run = refl

do_compress-Ended_example : Ended smooth unused_file after
do_compress-Ended_example = do_compress-Ended smooth unused_file after refl smooth-run

-- The same when no temporary file can be made.
abbrev full_disk : Answers
full_disk = record smooth { memory = false }

abbrev leaked : Run
leaked = record {
  file = unused_file;
  open_fds = 5 ∷ [];
  temp_left = false;
  replaced = none;
  woken = false;
}

leaked-run : do_compress full_disk unused_file ≡ some leaked
unfolding do_compress check_source with_header file_read_header_fd compress_plain choose_compressor
    is_compressible contains_any contains_nocase is_excluded starts_with_any with_temp
    file_create_temp
leaked-run = refl

do_compress-Clean_example : Clean leaked ⊎ Leaks full_disk leaked
do_compress-Clean_example =
    do_compress-Clean full_disk unused_file leaked (refl, refl, refl) leaked-run

-- The same on a file whose header has type 5.
abbrev odd_header : Answers
odd_header = record smooth {
  header_bytes = got (31 ∷ 93 ∷ 137 ∷ 5 ∷ 0 ∷ 0 ∷ 0 ∷ 0 ∷ 0 ∷ 0 ∷ 0 ∷ 0 ∷ []);
}

odd-run : do_compress odd_header unused_file ≡ none
unfolding do_compress check_source with_header file_read_header_fd
odd-run = refl
