-- ===== src/Names/Choice.antt =====
-- When `choose_compressor` picks the default module: a description by runs of bytes.
use pcfs.Base.{
  ℕ, ◌≡◌, ◌∙◌, ◌↔◌, ◌⊎◌, inl, inr, true, false, ◌||◌, ◌&&◌, List, [], ◌∷◌, ◌++◌, arith, some, Infix,
  contains, contains_iff, contains_nocase, to_lower, map, starts_with, starts_with→append,
  starts_with-append, Bool-cases, false_iff,
}
use pcfs.Types.{Compressor, Config}
use pcfs.Names.{
  incompressible, mmapped_dirs, temp_prefix, fuse_prefix, starts_with_any, contains_any,
  is_excluded, is_compressible, is_shared_object, choose_compressor,
}
use pcfs.Names.Shared.{SharedObject, shared_iff}

-- The name holds `t`, whatever the case of the letters.
abbrev pub HoldsNocase : List ℕ → List ℕ → Type 0
HoldsNocase name t = Infix (map to_lower t) (map to_lower name)

abbrev pub HasPrefix : List ℕ → List ℕ → Type 0
HasPrefix name t = (after : List ℕ) × (name ≡ t ++ after)

-- Some text of the table does `P`.
pub data Some (P : List ℕ → Type 0) : List (List ℕ) → Type 0 where
  here : {t : List ℕ} {ts : List (List ℕ)} → P t → Some P (t ∷ ts)
  there : {t : List ℕ} {ts : List (List ℕ)} → Some P ts → Some P (t ∷ ts)

starts_with_iff : (s t : List ℕ) → (starts_with s t ≡ true) ↔ HasPrefix s t
starts_with_iff s t = (starts_with→append s t, λ (a, e). rw e (starts_with-append t a))

starts_with_any→Some :
    (s : List ℕ) (ts : List (List ℕ)) → starts_with_any s ts ≡ true → Some (HasPrefix s) ts
unfolding starts_with_any
starts_with_any→Some s [] h = cc
starts_with_any→Some s (t ∷ ts) h = elim (Bool-cases (starts_with s t)) [
  | inl e ↦ here ((starts_with_iff s t).0 e)
  | inr e ↦ there (starts_with_any→Some s ts (ground arith))
]

Some→starts_with_any :
    (s : List ℕ) {ts : List (List ℕ)} → Some (HasPrefix s) ts → starts_with_any s ts ≡ true
unfolding starts_with_any
Some→starts_with_any s (here {t} p) = rw ((starts_with_iff s t).1 p)
Some→starts_with_any s (there {t} q) = ground (arith, Some→starts_with_any s q)

starts_with_any_iff :
    (s : List ℕ) (ts : List (List ℕ)) → (starts_with_any s ts ≡ true) ↔ Some (HasPrefix s) ts
starts_with_any_iff s ts = (starts_with_any→Some s ts, Some→starts_with_any s)

holds_iff : (s t : List ℕ) → (contains_nocase s t ≡ true) ↔ HoldsNocase s t
unfolding contains_nocase
holds_iff s t = contains_iff (map to_lower s) (map to_lower t)

contains_any→Some :
    (s : List ℕ) (ts : List (List ℕ)) → contains_any s ts ≡ true → Some (HoldsNocase s) ts
unfolding contains_any
contains_any→Some s [] h = cc
contains_any→Some s (t ∷ ts) h = elim (Bool-cases (contains_nocase s t)) [
  | inl e ↦ here ((holds_iff s t).0 e)
  | inr e ↦ there (contains_any→Some s ts (ground arith))
]

Some→contains_any :
    (s : List ℕ) {ts : List (List ℕ)} → Some (HoldsNocase s) ts → contains_any s ts ≡ true
unfolding contains_any
Some→contains_any s (here {t} p) = rw ((holds_iff s t).1 p)
Some→contains_any s (there {t} q) = ground (arith, Some→contains_any s q)

contains_any_iff :
    (s : List ℕ) (ts : List (List ℕ)) → (contains_any s ts ≡ true) ↔ Some (HoldsNocase s) ts
contains_any_iff s ts = (contains_any→Some s ts, Some→contains_any s)

-- No rule keeps the file from being compressed.
pub record Eligible (c : Config) (name : List ℕ) : Type 0 where
  pub format : ¬ Some (HoldsNocase name) incompressible
  pub user_format : ¬ Some (HoldsNocase name) c.user_incompressible
  pub not_temp : ¬ Infix temp_prefix name
  pub not_fuse : ¬ Infix fuse_prefix name
  pub included : ¬ Some (HasPrefix name) c.user_exclude_paths
  pub not_mapped : c.root_fs ≡ true → ¬ (Some (HasPrefix name) mmapped_dirs ⊎ SharedObject name)

tests_of_choice :
    (c : Config) (name : List ℕ) {m : Compressor}
    → choose_compressor c name ≡ some m
    → (contains_any name incompressible ≡ false)
      × (contains_any name c.user_incompressible ≡ false)
      × (contains name temp_prefix ≡ false)
      × (contains name fuse_prefix ≡ false)
      × (starts_with_any name c.user_exclude_paths ≡ false)
      × ((c.root_fs && (starts_with_any name mmapped_dirs || is_shared_object name)) ≡ false)
      × (c.compressor_default ≡ some m)
unfolding choose_compressor is_compressible is_excluded
tests_of_choice c name h = ground arith

choice_of_tests :
    (c : Config) (name : List ℕ)
    → contains_any name incompressible ≡ false
    → contains_any name c.user_incompressible ≡ false
    → contains name temp_prefix ≡ false
    → contains name fuse_prefix ≡ false
    → starts_with_any name c.user_exclude_paths ≡ false
    → (c.root_fs && (starts_with_any name mmapped_dirs || is_shared_object name)) ≡ false
    → choose_compressor c name ≡ c.compressor_default
unfolding choose_compressor is_compressible is_excluded
choice_of_tests c name h1 h2 h3 h4 h5 h6 = ground arith

mapped_iff :
    (c : Config) (name : List ℕ)
    → ((c.root_fs && (starts_with_any name mmapped_dirs || is_shared_object name)) ≡ false)
      ↔ (c.root_fs ≡ true → ¬ (Some (HasPrefix name) mmapped_dirs ⊎ SharedObject name))
mapped_iff c name = (to, from)
  where
    dirs : (starts_with_any name mmapped_dirs ≡ true) ↔ Some (HasPrefix name) mmapped_dirs
    dirs = starts_with_any_iff name mmapped_dirs

    to :
        (c.root_fs && (starts_with_any name mmapped_dirs || is_shared_object name)) ≡ false
        → c.root_fs ≡ true
        → ¬ (Some (HasPrefix name) mmapped_dirs ⊎ SharedObject name)
    to h r (inl d) = ground (arith, dirs.1 d)
    to h r (inr d) = ground (arith, (shared_iff name).1 d)

    from :
        (c.root_fs ≡ true → ¬ (Some (HasPrefix name) mmapped_dirs ⊎ SharedObject name))
        → (c.root_fs && (starts_with_any name mmapped_dirs || is_shared_object name)) ≡ false
    from n = elim (Bool-cases c.root_fs) [
      | inr off ↦ rw off
      | inl on ↦
          let d = (false_iff _ dirs).1 (λ p. n on (inl p)) in
          let o = (false_iff _ (shared_iff name)).1 (λ p. n on (inr p)) in ground arith
    ]

-- A file is compressed exactly when no rule excludes its name, and then by the default module: the
-- name holds no listed extension (in any case of letters, and anywhere in the path), no user's
-- extension, and neither of the two marks of temporary files; it starts with no excluded path; and
-- on a root file system it lies in no directory of binaries and is no shared object.
pub choose_compressor_iff :
    (c : Config) (name : List ℕ) (m : Compressor)
    → (choose_compressor c name ≡ some m) ↔ (Eligible c name × (c.compressor_default ≡ some m))
choose_compressor_iff c name m = (to, from)
  where
    to : choose_compressor c name ≡ some m → Eligible c name × (c.compressor_default ≡ some m)
    to h =
        let t = tests_of_choice c name {m = m} h in
        (
          record {
            format = (false_iff _ (contains_any_iff name incompressible)).0 t.0;
            user_format = (false_iff _ (contains_any_iff name c.user_incompressible)).0 t.1;
            not_temp = (false_iff _ (contains_iff name temp_prefix)).0 t.2;
            not_fuse = (false_iff _ (contains_iff name fuse_prefix)).0 t.3;
            included = (false_iff _ (starts_with_any_iff name c.user_exclude_paths)).0 t.4;
            not_mapped = (mapped_iff c name).0 t.5;
          },
          t.6,
        )

    from : Eligible c name × (c.compressor_default ≡ some m) → choose_compressor c name ≡ some m
    from (e, d) =
        choice_of_tests c name ((false_iff _ (contains_any_iff name incompressible)).1 e.format)
          ((false_iff _ (contains_any_iff name c.user_incompressible)).1 e.user_format)
          ((false_iff _ (contains_iff name temp_prefix)).1 e.not_temp)
          ((false_iff _ (contains_iff name fuse_prefix)).1 e.not_fuse)
          ((false_iff _ (starts_with_any_iff name c.user_exclude_paths)).1 e.included)
          ((mapped_iff c name).1 e.not_mapped)
        ∙ d
