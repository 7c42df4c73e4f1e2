-- ===== src/Names/Shared.antt =====
-- The test for shared objects: the name ends in `.so` or holds `.so.`.
use pcfs.Base.{
  ℕ, ◌≡◌, refl, ap, ◌∙◌, ◌↔◌, ◌⊎◌, inl, inr, true, ◌||◌, List, [], ◌∷◌, ◌++◌, arith, some, Infix,
  contains, contains_iff, str_eq, rindex, codes, Bool-cases, Option-cases,
}
use pcfs.Names.{is_shared_object}

str_eq-eq : (s t : List ℕ) → str_eq s t ≡ true → s ≡ t
unfolding str_eq
str_eq-eq [] [] h = refl
str_eq-eq [] (y ∷ t) h = cc
str_eq-eq (x ∷ s) [] h = cc
str_eq-eq (x ∷ s) (y ∷ t) h = ground (arith, str_eq-eq s t)

pub str_eq_refl : (s : List ℕ) → str_eq s s ≡ true
unfolding str_eq
str_eq_refl [] = refl
str_eq_refl (x ∷ s) = ground (arith, str_eq_refl s)

pub str_eq_iff : (s t : List ℕ) → (str_eq s t ≡ true) ↔ (s ≡ t)
str_eq_iff s t = (str_eq-eq s t, λ e. rw e (str_eq_refl t))

rindex-splits :
    (s : List ℕ) (c : ℕ) {r : List ℕ} → rindex s c ≡ some r → (stem : List ℕ) × (s ≡ stem ++ r)
unfolding rindex
rindex-splits [] c h = cc
rindex-splits (x ∷ s) c {r} h = elim (Option-cases (rindex s c)) [
  | inl e ↦ ([], ground arith)
  | inr (q, e) ↦ let t = rindex-splits s c {r = r} (ground arith) in (x ∷ t.0, ap (λ l. x ∷ l) t.1)
]

-- The part from the last dot on is not changed by what stands before it.
rindex-append :
    (s t : List ℕ) (c : ℕ) {r : List ℕ} → rindex t c ≡ some r → rindex (s ++ t) c ≡ some r
unfolding rindex
rindex-append [] t c h = h
rindex-append (x ∷ s) t c h = rw (rindex-append s t c h)

abbrev pub SharedObject : List ℕ → Type 0
SharedObject name = ((stem : List ℕ) × (name ≡ stem ++ codes ".so")) ⊎ Infix (codes ".so.") name

so_suffix : rindex (codes ".so") b'.' ≡ some (codes ".so")
unfolding rindex
so_suffix = refl

rindex_here : (c : ℕ) (t : List ℕ) → (r : List ℕ) × (rindex (c ∷ t) c ≡ some r)
unfolding rindex
rindex_here c t = elim (Option-cases (rindex t c)) [
  | inl e ↦ (c ∷ t, ground arith)
  | inr (q, e) ↦ (q, ground arith)
]

shared_of_some :
    (name r : List ℕ)
    → rindex name b'.' ≡ some r
    → (is_shared_object name ≡ true)
      ↔ ((str_eq r (codes ".so") || contains name (codes ".so.")) ≡ true)
unfolding is_shared_object
shared_of_some name r e = (λ h. ground arith, λ h. ground arith)

shared→SharedObject : (name : List ℕ) → is_shared_object name ≡ true → SharedObject name
shared→SharedObject name h = elim (Option-cases (rindex name b'.')) [
  | inl e ↦ absurd (unfold is_shared_object in ground arith)
  | inr (r, e) ↦ elim (Bool-cases (str_eq r (codes ".so"))) [
    | inl q ↦
        let t = rindex-splits name b'.' {r = r} e in
        inl (t.0, t.1 ∙ ap (λ (u : List ℕ). t.0 ++ u) (str_eq-eq r (codes ".so") q))
    | inr q ↦
        inr ((contains_iff name (codes ".so.")).0 (ground (arith, (shared_of_some name r e).0 h)))
  ]
]

SharedObject→shared : (name : List ℕ) → SharedObject name → is_shared_object name ≡ true
SharedObject→shared name (inl (stem, e)) =
    (shared_of_some name (codes ".so") (rw e (rindex-append stem (codes ".so") b'.' so_suffix))).1
      (rw (str_eq_refl (codes ".so")))
SharedObject→shared name (inr i) =
    let t = rindex_here b'.' (codes "so." ++ i.after) in
    let e : rindex name b'.' ≡ some t.0 =
      rw i.splits (rindex-append i.before (codes ".so." ++ i.after) b'.' t.1) in
    (shared_of_some name t.0 e).1 (ground (arith, (contains_iff name (codes ".so.")).1 i))

pub shared_iff : (name : List ℕ) → (is_shared_object name ≡ true) ↔ SharedObject name
shared_iff name = (shared→SharedObject name, SharedObject→shared name)
