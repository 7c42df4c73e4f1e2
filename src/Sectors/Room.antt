-- ===== src/Sectors/Room.antt =====
-- When there is room for what `pack` writes.
use pcfs.Base.{
  ℕ, suc, ◌+◌, ◌*◌, ◌/◌, ◌<◌, ◌≤◌, ◌≡◌, refl, ap, Bool, true, false, List, [], ◌∷◌, ◌++◌, some,
  arith, ltb, ◌==◌, if◌then◌else◌, length, Bool-cases, inl, inr, sym, ◌∙◌, append_assoc,
}
use pcfs.Types.{page_size}
use pcfs.Sectors.{Packer, padded, mark_sector, flush_page}
use pcfs.Sectors.Marks.{set_flag-runs}
use pcfs.Sectors.Packing.{Group, content, is_pair, groups, AllFit}

-- All the bytes of the groups, one after another.
abbrev pub all_bytes : List Group → List ℕ
all_bytes [] = []
all_bytes (g ∷ gs) = content g ++ all_bytes gs

abbrev pub flatten : List (List ℕ) → List ℕ
flatten [] = []
flatten (c ∷ cs) = c ++ flatten cs

pub nil_of {ℓ} : {A : Type ℓ} (l : List A) → (length l == 0) ≡ true → l ≡ []
nil_of [] e = refl
nil_of (x ∷ l) e = ground (arith, e)

-- The groups hold the bytes of the segments, all of them and in their order.
pub groups-bytes :
    (cs : List (List ℕ)) (last : List ℕ) → all_bytes (groups last cs) ≡ last ++ flatten cs
groups-bytes [] last = elim (Bool-cases (length last == 0)) [
  | inl empty ↦ rw empty (sym (ap (λ l. l ++ []) (nil_of last empty)))
  | inr full ↦ rw full refl
]
groups-bytes (c ∷ cs) last = elim (Bool-cases (ltb page_size (length c + length last))) [
  | inl apart ↦ rw apart (ap (λ l. last ++ l) (groups-bytes cs c))
  | inr close ↦ elim (Bool-cases (length last == 0)) [
    | inl empty ↦
        rw (close, empty)
          (groups-bytes cs c ∙ sym (ap (λ l. l ++ (c ++ flatten cs)) (nil_of last empty)))
    | inr full ↦
        rw (close, full)
          (ap (λ l. (last ++ c) ++ l) (groups-bytes cs []) ∙ append_assoc last c (flatten cs))
  ]
]

-- There are at most as many groups as segments.
pub groups-few :
    (cs : List (List ℕ)) (last : List ℕ)
    → AllFit cs
    → length (groups last cs) ≤ length cs + (if length last == 0 then 0 else 1)
groups-few [] last all = ground arith
groups-few (c ∷ cs) last (fits, all) =
    ground (arith, fits, groups-few cs c all, groups-few cs [] all)

-- There is room for `n` more sectors, in the buffer and in the marks.
abbrev pub Room : ℕ → Packer → Type 0
Room n p = (page_size * (p.blk + n) ≤ p.capacity) × (p.blk + n ≤ 8 * length p.mark)

pub not_less : (a b : ℕ) → b ≤ a → ltb a b ≡ false
not_less a b le = ground arith

mark_sector-runs :
    (type : Bool) (p : Packer)
    → p.blk / 8 < length p.mark
    → (m : List ℕ) × (mark_sector type p ≡ some m) × (length m ≡ length p.mark)
unfolding mark_sector
mark_sector-runs true p inside = set_flag-runs p.mark p.blk inside
mark_sector-runs false p inside = (p.mark, refl, refl)

pub flush-runs :
    (g : Group) (n : ℕ) (p : Packer)
    → length (content g) ≤ page_size
    → Room (suc n) p
    → (q : Packer) × (flush_page (content g) (is_pair g) p ≡ some q) × Room n q
unfolding flush_page
flush-runs g n p fits (space, marks) =
    let (m, e, same) = mark_sector-runs (is_pair g) p (omega (arith, marks)) in
    (
      record p {
        total_w = p.total_w + length (content g);
        blk = p.blk + 1;
        mark = m;
        wr_buf = p.wr_buf ++ padded page_size (content g) ∷ [];
      },
      rw (
        not_less page_size (length (content g)) fits,
        not_less p.capacity (page_size * (p.blk + 1)) (omega (arith, space)),
        e,
      ),
      (omega (arith, space), omega (arith, marks, same)),
    )
