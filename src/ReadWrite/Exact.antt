-- ===== src/ReadWrite/Exact.antt =====
-- `PCFS_read` on a compressed file.
use pcfs.Base.{
  ℕ, suc, ◌+◌, ◌*◌, ◌<◌, ◌≤◌, ◌^◌, ◌≡◌, ap, ◌∙◌, true, false, List, some, length, take, drop,
  is_some, bind-at, if-true,
}
use pcfs.Types.{Descriptor, File, Config, page_size}
use pcfs.Handlers.{get_descriptor}
use pcfs.Stream.Turn.{weight_of}
use pcfs.Stream.Call.{ReadAnswers, Given}
use pcfs.Stream.Read.{start}
use pcfs.Stream.Well.{Placed, Answering, WellFile}
use pcfs.Stream.Exact.{Delivers}
use pcfs.Stream.Delivered.{StaysSmall, direct_decompress-Delivers}
use pcfs.ReadWrite.{after_read, read_file}

-- `PCFS_read` of whole pages, the last of which begins in the content, on an open descriptor of a
-- compressed file that is not being decompressed, has the right size, module and cache, and is only
-- read: if the file system is read-only or the content has at most 128 KB, and the calls of the module
-- and of the system succeed, it returns the bytes of the content from the offset on, as many as were
-- asked for or as there are. Nothing is written behind the buffer, and the file, its cache,
-- `decomp_cache_size` and the descriptor are then such that this holds of the next call.
pub read_file-Delivers :
    (c : List ℕ) (a : ReadAnswers)
    → Answering c a
    → length c < 2 ^ 64
    → (k : Config) (others : List (File × ℕ → File × ℕ)) (d i n : ℕ) (f : File) (total : ℕ)
      (x : Descriptor)
    → WellFile c f
    → StaysSmall c k f
    → f.status.decompressing ≡ false
    → weight_of f.cache ≤ total
    → (get_descriptor d f.head ≡ some x) × (is_some x.fd ≡ true) × Placed c x
    → (i + n) * page_size < length c
    → (g : Given) × (read_file k a others d (suc n * page_size) (i * page_size) f total
        ≡ some (g.file, g.total, some (take (suc n * page_size) (drop (i * page_size) c))))
      × Delivers c
          (suc n * page_size)
          (i * page_size)
          (start k x (suc n * page_size) (i * page_size) (f, total))
          g
unfolding read_file
read_file-Delivers c a good small k others d i n f total x wf stays quiet own at inside =
    let (g, e, h) =
      direct_decompress-Delivers c a good small k others d i n f total x wf stays quiet own at
        inside in
    (
      g,
      if-true _ _ wf.packed ∙ bind-at _ g e ∙ ap (λ r. some (after_read g.file g.total r)) h.result,
      h,
    )
