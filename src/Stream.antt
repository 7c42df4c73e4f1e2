-- ===== src/Stream.antt =====
-- Reading and writing a compressed file through the stream of its module: `direct_decompress` and
-- `direct_compress` of direct_compress.c on the locked file, with what the module and the system
-- calls answer. The errno of a failure is not modelled.
pub mod Pages
pub mod Turn
pub mod Skip
pub mod Served
pub mod Call
pub mod Read
pub mod Well
pub mod Steps
pub mod Passing
pub mod Cached
pub mod Exact
pub mod Requests
pub mod Delivered
pub mod Write
pub mod Append
pub mod Appended
pub mod Stored
pub mod Examples
use pcfs.Base.{
  ℕ, zero, suc, ◌+◌, ◌-◌, ◌*◌, ◌/◌, ◌%◌, ◌^◌, ◌≡◌, Bool, true, false, not, ◌&&◌, ◌||◌, List, [],
  ◌∷◌, ◌++◌, Option, none, some, ltb, leb, ◌==◌, if◌then◌else◌, is_some, ◌>>=◌, length, take, drop,
  get_elem?, set, min,
}
use pcfs.Types.{Compressor, Direction, idle, reading, writing, Descriptor, File, Config, page_size}

-- The pages of `file->cache`, with NULL as `none`.
abbrev pub Pages : Type 0
Pages = List (Option (List ℕ))

-- What `compressor->read` answers on a stream that has returned so many bytes since it was opened,
-- asked for so many bytes: -1, or the bytes.
abbrev pub Reader : Type 0
Reader = ℕ → ℕ → Option (List ℕ)

-- What the skipping loop looks at and does not change: `cache_this_read`, `max_decomp_cache_size`,
-- `file->size`, the module's `read`, and, by the offset of the descriptor, whether `malloc` returns
-- memory and what is in it.
pub record Around : Type 0 where
  pub caching : Bool
  pub max : ℕ
  pub size : Option ℕ
  pub read : Reader
  pub allocated : ℕ → Bool
  pub garbage : ℕ → List ℕ

-- What it changes: the descriptor's offset, `file->cache`, `decomp_cache_size`, `file->skipped`, and
-- how many bytes of the caller's buffer have been written to.
pub record Skim : Type 0 where
  pub offset : ℕ
  pub cache : Option Pages
  pub total : ℕ
  pub skipped : ℕ
  pub reach : ℕ

-- How the loop ends: at the offset, with -1, with 0 behind the end of the data, or with an access
-- outside `file->cache` or behind the place to read to.
pub data Stop : Type 0 where
  arrived failing ended astray : Stop

-- Where the next bytes go: `skipbuf`.
pub data Place : Type 0 where
  outside own_page caller : Place

abbrev pub page_at : Option Pages → ℕ → Place → Place
page_at none i free = outside
page_at (some c) i free = elim (get_elem? c i) [
  | none ↦ outside
  | some none ↦ free
  | some (some p) ↦ caller
]

unfoldable pub choose_place : Around → Skim → Place
choose_place e k =
    if e.caching
    then page_at k.cache (k.offset / page_size) (if ltb k.total e.max then own_page else caller)
    else caller

-- One turn of the loop.
pub data Progress : Type 0 where
  stop : Skim → Stop → Progress
  more : ℕ → Skim → Progress

-- A read of `len` bytes is short, and the end of the file does not explain it.
unfoldable pub is_short : Option ℕ → ℕ → ℕ → ℕ → Bool
is_short size offset len readsize =
    ltb len readsize && (elim size [ none ↦ true | some n ↦ ltb (offset + len) n ])

-- The bytes become a page of the cache: the rest of the page is as `malloc` returned it.
abbrev pub keep_page : Around → List ℕ → Skim → Option Pages
keep_page e bs k = elim k.cache [
  | none ↦ none
  | some c ↦
      some (set c (k.offset / page_size) (some (bs ++ drop (length bs) (e.garbage k.offset))))
]

abbrev pub max_of : ℕ → ℕ → ℕ
max_of a b = if ltb a b then b else a

-- Bytes that were read into the caller's buffer.
abbrev pub touch : Place → List ℕ → Skim → Skim
touch caller bs k = record k { reach = max_of k.reach (length bs) }
touch _ bs k = k

-- The bytes were read to their place.
abbrev pub move_on : Around → Place → List ℕ → Skim → Skim
move_on e outside bs k = k
move_on e own_page bs k = record k { cache = keep_page e bs k; offset = k.offset + length bs }
move_on e caller bs k = record k { skipped = k.skipped + length bs; offset = k.offset + length bs }

-- `readsize` bytes are asked for and checked. A module that returns more than it was asked for has
-- written behind the place.
unfoldable pub read_some : Around → ℕ → Place → Skim → Progress
unfolding is_short
read_some e readsize p k = elim (e.read k.offset readsize) [
  | none ↦ stop k failing
  | some bs ↦
      if ltb readsize (length bs)
      then stop k astray
      else if is_short e.size k.offset (length bs) readsize
      then stop (touch p bs k) failing
      else if length bs == 0
      then stop k ended
      else more (length bs) (move_on e p bs (touch p bs k))
]

unfoldable pub turn : Around → ℕ → Place → Skim → Progress
unfolding read_some
turn e readsize outside k = stop k astray
turn e readsize caller k = read_some e readsize caller k
turn e readsize own_page k =
    let counted : Skim = record k { total = k.total + page_size } in
    if e.allocated k.offset then read_some e readsize own_page counted else stop counted failing

-- The loop, with fuel; `toread` is enough.
unfoldable pub skip : Around → ℕ → ℕ → Skim → Option (Skim × Stop)
unfolding choose_place turn
skip e fuel zero k = some (k, arrived)
skip e zero (suc toread) k = none
skip e (suc fuel) (suc toread) k = elim (turn e (min (suc toread) page_size) (choose_place e k) k) [
  | stop k1 s ↦ some (k1, s)
  | more len k1 ↦ skip e fuel (suc toread - len) k1
]
