-- ===== src/Stream/Call.antt =====
-- The first part of `direct_decompress` of direct_compress.c: the wait, the pages that the cache serves,
-- and the decision for the fallback.
use pcfs.Base.{
  ℕ, zero, suc, ◌+◌, ◌-◌, ◌*◌, ◌/◌, Bool, true, false, not, ◌&&◌, ◌||◌, List, [], ◌∷◌, ◌++◌, Option,
  none, some, ltb, leb, ◌==◌, if◌then◌else◌, is_some, ◌>>=◌, get_elem?, set,
}
use pcfs.Types.{Direction, idle, reading, Descriptor, File, Config, page_size}
use pcfs.Decompress.{Answers}
use pcfs.Stream.{Pages, Reader}

-- The answers that a call gets: those for `do_decompress`, `pread` by descriptor, size and offset,
-- whether `compressor->close`, `lseek` and `compressor->open` succeed, whether `calloc` does, and those
-- of the skipping loop.
pub record ReadAnswers : Type 0 where
  pub run : Answers
  pub pread : ℕ → ℕ → ℕ → Option (List ℕ)
  pub closed : Bool
  pub sought : Bool
  pub opened : Bool
  pub zeroed : Bool
  pub allocated : ℕ → Bool
  pub garbage : ℕ → List ℕ
  pub read : Reader

-- A call on its way: the file, the descriptor, `decomp_cache_size`, `cache_this_read`, `size` and
-- `offset` as they are now, the bytes that the cache served, and how far the buffer was written to.
pub record Doing : Type 0 where
  pub file : File
  pub descriptor : Descriptor
  pub total : ℕ
  pub caching : Bool
  pub size : ℕ
  pub offset : ℕ
  pub served : List ℕ
  pub reach : ℕ

-- What a call leaves.
pub record Given : Type 0 where
  pub file : File
  pub total : ℕ
  pub result : Option (List ℕ)
  pub reach : ℕ

-- The descriptor is part of the file's list.
abbrev pub put_descriptor : Descriptor → List Descriptor → List Descriptor
put_descriptor d [] = []
put_descriptor d (x ∷ xs) = if x.id == d.id then d ∷ xs else x ∷ put_descriptor d xs

abbrev pub finish : Doing → Option (List ℕ) → Given
finish w r = record {
  file = record w.file { head = put_descriptor w.descriptor w.file.head };
  total = w.total;
  result = r;
  reach = w.reach;
}

abbrev pub is_reading : Direction → Bool
is_reading reading = true
is_reading _ = false

abbrev pub begin_reading : Direction → Direction
begin_reading idle = reading
begin_reading d = d

-- A wait for the end of a decompression: its cancellation is asked for, and each function is what other
-- threads do to the file and to `decomp_cache_size` until the next time that this one is woken. With
-- none left it is still waiting.
unfoldable pub await_decompress : List (File × ℕ → File × ℕ) → File × ℕ → Option (File × ℕ)
await_decompress [] (f, total) = if f.status.decompressing then none else some (f, total)
await_decompress (others ∷ rest) (f, total) =
    let woken =
      await_decompress rest
        (others (record f { status = record f.status { cancel = true } }, total)) in
    if f.status.decompressing then woken else some (f, total)

-- What the loop that serves pages of the cache leaves: the bytes, the pages, how many are left to serve.
pub record Serving : Type 0 where
  pub bytes : List ℕ
  pub pages : Pages
  pub left : ℕ

-- `while (size && file->cache[..])`, by the number of pages that `size` is.
unfoldable pub serve : Pages → ℕ → ℕ → Option Serving
serve ps i zero = some (record { bytes = []; pages = ps; left = 0 })
serve ps i (suc n) = elim (get_elem? ps i) [
  | none ↦ none
  | some none ↦ some (record { bytes = []; pages = ps; left = suc n })
  | some (some p) ↦
      (serve (set ps i none) (suc i) n >>= λ r. some (record r { bytes = p ++ r.bytes }))
]

-- Whether the loop is entered: the page at the offset is there.
unfoldable pub starts_cached : File → ℕ → Option Bool
starts_cached f i = elim f.cache [
  | none ↦ some false
  | some ps ↦
      if is_reading f.direction && ltb i f.cache_size
      then elim (get_elem? ps i) [ none ↦ none | some p ↦ some (is_some p) ]
      else some false
]

unfoldable pub take_served : Doing → Serving → Doing
take_served w r =
    let gone : ℕ = w.size - r.left * page_size in
    record w {
      file = record w.file { cache = some r.pages };
      total = w.total - gone;
      size = r.left * page_size;
      offset = w.offset + gone;
      served = r.bytes;
      reach = gone;
    }

abbrev pub served_as : Doing → Serving → Option (Doing × Bool)
served_as w r = some (take_served w r, true)

abbrev pub serve_pages : Doing → Pages → Option (Doing × Bool)
serve_pages w ps = serve ps (w.offset / page_size) (w.size / page_size) >>= served_as w

abbrev pub serve_if : Doing → Bool → Option (Doing × Bool)
serve_if w true = w.file.cache >>= serve_pages w
serve_if w false = some (w, false)

-- The pages that are in the cache. The other part tells whether the loop was entered.
unfoldable pub serve_cached : Doing → Option (Doing × Bool)
serve_cached w =
    if w.caching
    then (starts_cached w.file (w.offset / page_size) >>= serve_if w)
    else some (w, false)

abbrev pub bytes_to_skip : ℕ → ℕ → ℕ
bytes_to_skip now req = if leb now req then req - now else req

-- A file that is not small was skipped through for more than its size.
unfoldable pub skipped_enough : Doing → Bool
skipped_enough w = elim w.file.size [
  | none ↦ false
  | some n ↦ ltb n (w.file.skipped + bytes_to_skip w.descriptor.offset w.offset) && ltb 131072 n
]

-- The conditions under which the file is decompressed instead.
unfoldable pub needs_fallback : Config → Doing → Bool
needs_fallback c w =
    let to_skip : ℕ = bytes_to_skip w.descriptor.offset w.offset in
    let uncached : Bool =
      not w.caching
      || leb c.max_decomp_cache_size w.total
      || ltb c.max_decomp_cache_size (to_skip + w.total) in
    not (is_reading w.file.direction)
    || (uncached && not c.read_only && (skipped_enough w && not (w.offset == w.descriptor.offset)))
