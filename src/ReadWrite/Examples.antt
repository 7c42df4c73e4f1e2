-- ===== src/ReadWrite/Examples.antt =====
-- Runs of `PCFS_read` and `PCFS_write`, and inputs at which their theorems apply.
use pcfs.Base.{
  ℕ, ◌*◌, ◌≡◌, refl, true, List, [], ◌∷◌, none, some, codes, arith, length, take, drop, inl, inr,
  starts_with, contains, contains_nocase,
}
use pcfs.Types.{module_gzip, File, page_size}
use pcfs.Names.{
  choose_compressor, is_compressible, is_excluded, starts_with_any, contains_any, is_shared_object,
}
use pcfs.Names.Examples.{plain_config}
use pcfs.Database.{direct_new_file}
use pcfs.Header.{file_read_header_fd, got, header}
use pcfs.Handlers.{get_descriptor, choose_at_write}
use pcfs.Sectors.{
  Packer, padded, pcfs_compress, segments, pack, check_and_flush, flush_page, mark_sector,
}
use pcfs.Sectors.Examples.{small_deflate, ones}
use pcfs.Stream.Call.{Given}
use pcfs.Stream.Read.{start}
use pcfs.Stream.Exact.{Delivers}
use pcfs.Stream.Examples.{
  content, length-content, fresh, packed_file, caching_config, answers_for, answering, well,
}
use pcfs.ReadWrite.{Pwrites, read_file}
use pcfs.ReadWrite.Exact.{read_file-Delivers}

-- The second page is asked for first: the first one is skipped and kept.
read_file-Delivers_example :
    (g : Given) × (read_file caching_config
        (answers_for content)
        []
        8
        (1 * page_size)
        (1 * page_size)
        packed_file
        0
      ≡ some (g.file, g.total, some (take (1 * page_size) (drop (1 * page_size) content))))
    × Delivers content
        (1 * page_size)
        (1 * page_size)
        (start caching_config fresh (1 * page_size) (1 * page_size) (packed_file, 0))
        g
unfolding direct_new_file get_descriptor
read_file-Delivers_example =
    read_file-Delivers content (answers_for content) (answering content)
      (omega (arith, length-content)) caching_config [] 8 1 0 packed_file 0 fresh well
      (refl, inr (omega (arith, length-content))) refl (omega arith)
      (refl, refl, (inl (0, refl), λ q. refl)) (omega (arith, length-content))

-- A page that is packed into one sector.
abbrev one_page : List ℕ
one_page = ones 4096

abbrev one_sector : Packer
one_sector = record {
  last = 7 ∷ 8 ∷ 9 ∷ [];
  total_w = 3;
  blk = 1;
  mark = padded page_size [];
  wr_buf = padded page_size (7 ∷ 8 ∷ 9 ∷ []) ∷ [];
  capacity = length one_page;
}

packed-run : pcfs_compress small_deflate one_page [] 0 0 ≡ some one_sector
unfolding pcfs_compress segments pack check_and_flush flush_page mark_sector
packed-run = refl

abbrev new_file : File
new_file = record (direct_new_file 7 (codes "a")) { size = some 0; accesses = 1; compressor = none }

abbrev decided_file : File
decided_file = record new_file { compressor = some module_gzip; dontcompress = true }

decided-run : choose_at_write plain_config 0 new_file ≡ some decided_file
unfolding choose_at_write direct_new_file choose_compressor is_compressible is_excluded
    starts_with_any contains_any contains contains_nocase is_shared_object starts_with
decided-run = refl

abbrev complete : Pwrites
complete = record { marks = some 4096; sectors = some 4096; plain = some 4096 }

-- What is then where the header would be is not one.
unmarked : file_read_header_fd none 8192 (got (take 12 one_sector.mark)) ≡ header none 8192
unfolding file_read_header_fd padded
unmarked = refl
