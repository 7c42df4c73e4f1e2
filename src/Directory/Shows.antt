-- ===== src/Directory/Shows.antt =====
-- A listing shows the entries that are not ignored, in their order.
use pcfs.Base.{
  ℕ, ◌+◌, ◌≡◌, refl, ap, Bool, true, false, ◌||◌, List, [], ◌∷◌, ◌++◌, if◌then◌else◌, map,
  Bool-cases, inl, inr, contains, starts_with,
}
use pcfs.Names.{temp_prefix, fuse_prefix}
use pcfs.Directory.{DirEntry, Shown, shown, is_ignored, list_entries}

-- The entries that are not ignored.
abbrev visible : List DirEntry → List DirEntry
visible [] = []
visible (e ∷ es) = if is_ignored e.name then visible es else e ∷ visible es

-- What a listing shows is how the list of the visible entries begins, whatever `filler` answers.
list_entries-begins :
    (full : ℕ → Bool) (i : ℕ) (es : List DirEntry)
    → (rest : List Shown) × (map shown (visible es) ≡ list_entries full i es ++ rest)
unfolding list_entries
list_entries-begins full i [] = ([], refl)
list_entries-begins full i (e ∷ es) = elim (Bool-cases (is_ignored e.name)) [
  | inl hidden ↦ rw hidden (list_entries-begins full i es)
  | inr seen ↦ elim (Bool-cases (full i)) [
    | inl last ↦ rw (seen, last) (map shown (visible es), refl)
    | inr goes ↦
        let (rest, e1) = list_entries-begins full (i + 1) es in
        rw (seen, goes) (rest, ap (λ l. shown e ∷ l) e1)
  ]
]

-- As long as `filler` has room, it shows all of them.
list_entries-shows :
    (full : ℕ → Bool) (i : ℕ) (es : List DirEntry)
    → ((j : ℕ) → full j ≡ false)
    → list_entries full i es ≡ map shown (visible es)
unfolding list_entries
list_entries-shows full i [] room = refl
list_entries-shows full i (e ∷ es) room = elim (Bool-cases (is_ignored e.name)) [
  | inl hidden ↦ rw hidden (list_entries-shows full i es room)
  | inr seen ↦ rw (seen, room i) (ap (λ l. shown e ∷ l) (list_entries-shows full (i + 1) es room))
]

-- A name that `file_create_temp` makes is never shown.
is_ignored-temp : (rest : List ℕ) → is_ignored (temp_prefix ++ rest) ≡ true
unfolding is_ignored starts_with
is_ignored-temp rest = or_true (contains (temp_prefix ++ rest) fuse_prefix)
  where
    or_true : (b : Bool) → b || true ≡ true
    or_true true = refl
    or_true false = refl
