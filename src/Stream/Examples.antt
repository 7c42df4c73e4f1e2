-- ===== src/Stream/Examples.antt =====
-- Runs of `direct_decompress` and `direct_compress`, and inputs at which their theorems apply.
use pcfs.Base.{
  ℕ, ◌≡◌, refl, true, false, [], ◌∷◌, List, Option, none, some, codes, is_some, length, take, drop,
  replicate, length-replicate, arith,
}
use pcfs.Types.{module_gzip, Descriptor, File, Config, page_size}
use pcfs.Names.Examples.{plain_config}
use pcfs.Database.{direct_new_file}
use pcfs.Handlers.{get_descriptor}
use pcfs.Header.{file_read_header_fd, got, header}
use pcfs.Decompress.Examples.{smooth}
use pcfs.Stream.{Around, Skim, Stop, ended, astray, choose_place, read_some, turn, skip, is_short}
use pcfs.Stream.Skip.{skip-ends}
use pcfs.Stream.Call.{
  ReadAnswers, Given, await_decompress, serve_cached, needs_fallback, skipped_enough,
}
use pcfs.Stream.Read.{
  direct_decompress, open_descriptor, begin_read, after_cache, read_stream, rewind, open_and_read,
  open_stream, skip_and_read, skip_to, last_read,
}
use pcfs.Stream.Well.{Answering, WellFile}
use pcfs.Stream.Write.{WriteAnswers, Disk}
use pcfs.Stream.Append.{Taking, Appendable}
use pcfs.Stream.Stored.{write_all, write_all-read_back}

-- A file of 5000 bytes, and a descriptor that was just opened.
abbrev seven : ℕ
seven = 7

abbrev pub content : List ℕ
content = replicate 5000 seven

pub length-content : length content ≡ 5000
length-content = length-replicate 5000 seven

abbrev pub fresh : Descriptor
fresh = record { id = 8; file = 1; fd = some 4; handle = false; offset = 0 }

abbrev pub packed_file : File
packed_file = record (direct_new_file 7 (codes "/a")) {
  size = some (length content);
  compressor = some module_gzip;
  accesses = 1;
  head = fresh ∷ [];
}

abbrev pub caching_config : Config
caching_config = record plain_config {
  cache_decompressed_data = true;
  max_decomp_cache_size = 1048576;
}

abbrev pub answers_for : List ℕ → ReadAnswers
answers_for c = record {
  run = smooth;
  pread = λ fd n o. none;
  closed = true;
  sought = true;
  opened = true;
  zeroed = true;
  allocated = λ p. true;
  garbage = λ p. replicate page_size 0;
  read = λ p n. some (take n (drop p c));
}

pub answering : (c : List ℕ) → Answering c (answers_for c)
answering c = record {
  closes = refl;
  seeks = refl;
  opens = refl;
  zeroes = refl;
  allocates = λ p. refl;
  whole_pages = λ p. length-replicate {A = ℕ} page_size 0;
  reads = λ p n. refl;
}

pub well : WellFile content packed_file
unfolding direct_new_file
well = record { known = refl; packed = refl; ready = tt; sized = refl }

-- A reader of 10 bytes at the offset 150, whose descriptor is at the beginning: the skip writes 150
-- bytes into the buffer of 10.
abbrev short_content : List ℕ
short_content = replicate 200 seven

abbrev short_file : File
short_file = record packed_file { size = some 200 }

reach_of : Option Given → Option ℕ
reach_of none = none
reach_of (some g) = some g.reach

overrun :
    reach_of (direct_decompress caching_config (answers_for short_content) [] 8 10 150 short_file 0)
    ≡ some 150
unfolding direct_decompress open_descriptor get_descriptor direct_new_file await_decompress
    begin_read serve_cached after_cache needs_fallback skipped_enough read_stream rewind
    open_and_read open_stream skip_and_read skip_to skip choose_place turn read_some is_short
    last_read reach_of
overrun = refl

-- A stream whose bytes tell where they are from.
abbrev telling : Around
telling = record {
  caching = true;
  max = 1048576;
  size = some 5000;
  read = λ p n. some (replicate n p);
  allocated = λ p. true;
  garbage = λ p. replicate page_size 0;
}

first_of : Option (List (Option (List ℕ))) → Option ℕ
first_of (some (some (b ∷ bs) ∷ ps)) = some b
first_of _ = none

first_byte : Option (Skim × Stop) → Option ℕ
unfolding first_of
first_byte none = none
first_byte (some (k, s)) = first_of k.cache

-- After a read of 10 bytes, the skip to the second page keeps what follows them as the first page.
shifted :
    first_byte (
      skip telling 4086 4086 (record {
        offset = 10;
        cache = some (none ∷ none ∷ []);
        total = 0;
        skipped = 0;
        reach = 0;
      }))
    ≡ some 10
unfolding skip choose_place turn read_some is_short first_byte first_of
shifted = refl

at_the_end : Around
at_the_end = record telling { read = λ p n. some [] }

-- A skip behind the end of the content counts a page that the cache does not get.
abbrev last_page : Skim
last_page = record {
  offset = 8192;
  cache = some (none ∷ none ∷ none ∷ []);
  total = 0;
  skipped = 0;
  reach = 0;
}

uncounted :
    skip at_the_end 4096 4096 last_page ≡ some (record last_page { total = page_size }, ended)
unfolding skip choose_place turn read_some is_short at_the_end
uncounted = refl

-- A file whose size is not known has a cache of one page.
outside_cache :
    skip (record telling { size = none }) 1 1 (record last_page { cache = some (none ∷ []) })
    ≡ some (record last_page { cache = some (none ∷ []) }, astray)
unfolding skip choose_place turn
outside_cache = refl

skip-ends_example : is_some (skip at_the_end 4096 4096 last_page) ≡ true
skip-ends_example = skip-ends at_the_end 4096 4096 last_page (omega arith)

abbrev taking_answers : WriteAnswers
taking_answers = record {
  run = smooth;
  pwrite = λ fd n o. none;
  sought = true;
  header = some 12;
  opened = true;
  wrote = λ bs. some (length bs);
  sought_again = true;
  header_again = some 12;
  sought_end = true;
}

taking : Taking taking_answers
taking = record {
  seeks = refl;
  writes_header = refl;
  opens = refl;
  takes = λ bs. refl;
  seeks_again = refl;
  writes_again = refl;
  seeks_end = refl;
}

abbrev empty_file : File
empty_file = record packed_file { size = some 0 }

abbrev blank : Disk
blank = record { head = []; packed = [] }

appendable : Appendable module_gzip empty_file fresh blank
unfolding direct_new_file get_descriptor
appendable = record {
  packed = refl;
  known = refl;
  at_end = refl;
  written = refl;
  alone = omega arith;
  quiet = refl;
  listed = refl;
  opened = refl;
  begun = λ q. refl;
  short = omega arith;
}

write_all-read_back_example :
    (d : Disk) × (write_all taking_answers 8 0 ((1 ∷ 2 ∷ []) ∷ (3 ∷ []) ∷ []) empty_file 0 blank
      ≡ some d)
    × (d.packed ≡ 1 ∷ 2 ∷ 3 ∷ [])
    × (file_read_header_fd none 0 (got d.head) ≡ header (some module_gzip) 3)
write_all-read_back_example =
    write_all-read_back taking_answers taking module_gzip (1 ∷ 2 ∷ []) ((3 ∷ []) ∷ []) empty_file 0
      fresh blank appendable refl (omega arith) none 0
