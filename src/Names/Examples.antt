-- ===== src/Names/Examples.antt =====
-- The decisions on names at concrete names.
use pcfs.Base.{
  ◌-◌, ◌^◌, ◌≡◌, ◌↔◌, refl, true, false, [], ◌∷◌, none, some, codes, contains, contains_nocase,
  rindex, str_eq,
}
use pcfs.Types.{module_gzip, Config}
use pcfs.Names.{
  choose_compressor, is_compressible, is_excluded, starts_with_any, contains_any, is_shared_object,
  gethash,
}
use pcfs.Names.Choice.{Eligible, choose_compressor_iff}

abbrev pub plain_config : Config
plain_config = record {
  min_filesize_background = 4096;
  dont_compress_beyond = 2 ^ 64 - 1;
  root_fs = false;
  read_only = false;
  cache_decompressed_data = false;
  max_decomp_cache_size = 104857600;
  compressor_default = some module_gzip;
  user_incompressible = [];
  user_exclude_paths = codes "private/" ∷ [];
}

choose_compressor_iff_example :
    (choose_compressor plain_config (codes "notes.txt") ≡ some module_gzip)
    ↔ (Eligible plain_config (codes "notes.txt") × (some module_gzip ≡ some module_gzip))
choose_compressor_iff_example = choose_compressor_iff plain_config (codes "notes.txt") module_gzip

hash_of_ab : gethash (codes "ab") ≡ 3105
unfolding gethash
hash_of_ab = refl

text_chosen : choose_compressor plain_config (codes "notes.txt") ≡ some module_gzip
unfolding choose_compressor is_compressible is_excluded starts_with_any contains_any contains
    contains_nocase
text_chosen = refl

upper_case_jpg : choose_compressor plain_config (codes "A.JPG") ≡ none
unfolding choose_compressor is_compressible is_excluded starts_with_any contains_any contains
    contains_nocase
upper_case_jpg = refl

-- The extension counts anywhere in the path.
zipped_folder : choose_compressor plain_config (codes "old.zips/a.txt") ≡ none
unfolding choose_compressor is_compressible is_excluded starts_with_any contains_any contains
    contains_nocase
zipped_folder = refl

shared_object : is_shared_object (codes "lib/libz.so.1") ≡ true
unfolding is_shared_object rindex str_eq contains
shared_object = refl
