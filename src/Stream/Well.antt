-- ===== src/Stream/Well.antt =====
-- What a call of `direct_decompress` keeps on its way, for a file with the decompressed content `c`:
-- the call is for `size` bytes from `offset` on.
use pcfs.Base.{
  ℕ, zero, suc, ◌+◌, ◌*◌, ◌/◌, ◌≤◌, ◌<◌, ◌≡◌, ◌⊎◌, refl, sym, ap, ◌∙◌, true, false, List, Option,
  none, some, arith, length, take, drop, replicate, length-replicate, is_some, elim-all,
}
use pcfs.Types.{Descriptor, File, page_size}
use pcfs.Stream.{Pages}
use pcfs.Stream.Pages.{Holds, weight}
use pcfs.Stream.Turn.{Reads, Ready, weight_of, length_or}
use pcfs.Stream.Call.{ReadAnswers, Doing}
use pcfs.Stream.Read.{make_cache, pages_of}

-- `cache_size` is the length of the cache.
abbrev pub Sized : File → Type 0
Sized f = length_or f.cache_size f.cache ≡ f.cache_size

-- The stream of a descriptor is at the beginning of a page or at the end of the content, and without
-- a stream the offset is 0.
abbrev pub Placed : List ℕ → Descriptor → Type 0
Placed c x =
    (((i : ℕ) × (x.offset ≡ i * page_size)) ⊎ (x.offset ≡ length c))
    × (x.handle ≡ false → x.offset ≡ 0)

-- The calls of the module and of the system succeed, and the module reads the content.
pub record Answering (c : List ℕ) (a : ReadAnswers) : Type 0 where
  pub closes : a.closed ≡ true
  pub seeks : a.sought ≡ true
  pub opens : a.opened ≡ true
  pub zeroes : a.zeroed ≡ true
  pub allocates : (p : ℕ) → a.allocated p ≡ true
  pub whole_pages : (p : ℕ) → length (a.garbage p) ≡ page_size
  pub reads : Reads c a.read

-- The file as it should be: its size is that of the content, it has a module, and its cache is right.
pub record WellFile (c : List ℕ) (f : File) : Type 0 where
  pub known : f.size ≡ some (length c)
  pub packed : is_some f.compressor ≡ true
  pub ready : Ready c f.cache
  pub sized : Sized f

-- The rest of the call: whole pages, the last of which begins in the content, and what was served so
-- far is the beginning of what was asked for.
pub record Aims (c : List ℕ) (size offset : ℕ) (w : Doing) : Type 0 where
  pub first : (i : ℕ) × (w.offset ≡ i * page_size)
  pub pages : (n : ℕ) × (w.size ≡ suc n * page_size)
  pub inside : w.offset + w.size < length c + page_size
  pub so_far : w.served ≡ take (length w.served) (drop offset c)
  pub there : offset + length w.served ≡ w.offset
  pub asked : length w.served + w.size ≡ size
  pub reached : w.reach ≤ size

-- `decomp_cache_size` changes as the pages of the file do.
abbrev pub Counted : ℕ → Option Pages → ℕ → Option Pages → Type 0
Counted total ps total1 ps1 = total1 + weight_of ps ≡ total + weight_of ps1

Holds-replicate : (c : List ℕ) (i n : ℕ) → Holds c i (replicate n none)
Holds-replicate c i zero = tt
Holds-replicate c i (suc n) = Holds-replicate c (suc i) n

weight-replicate : (n : ℕ) → weight (replicate n none) ≡ 0
weight-replicate zero = refl
weight-replicate (suc n) = weight-replicate n

-- The file after its cache was made, if it had none.
abbrev pub Made : List ℕ → File → File → Type 0
Made c f g =
    WellFile c g
    × ((ps : Pages) × (g.cache ≡ some ps))
    × (weight_of g.cache ≡ weight_of f.cache)
    × (g.head ≡ f.head)

pub make_cache-Made : (c : List ℕ) (f : File) → WellFile c f → Made c f (make_cache f)
make_cache-Made c f h =
    elim-all (Made c f) f.cache _ _
      (λ e.
        let made : Pages = replicate (pages_of f.size) none in
        let room : pages_of f.size ≡ length c / page_size + 1 = ap pages_of h.known in
        let long : length made ≡ pages_of f.size = length-replicate (pages_of f.size) none in
        (
          record {
            known = h.known;
            packed = h.packed;
            ready = (Holds-replicate c 0 (pages_of f.size), omega (arith, room, long));
            sized = long;
          },
          (made, refl),
          weight-replicate (pages_of f.size) ∙ sym (ap weight_of e),
          refl,
        ))
      (λ ps e. (h, (ps, e), refl, refl))
