-- ===== src/Database/Wait.antt =====
-- What `direct_open` does after it was woken.
use pcfs.Base.{
  ℕ, ◌≡◌, refl, ap, ◌∙◌, sym, true, false, none, some, arith, ◌==◌, ◌⊎◌, inl, inr, Bool-cases,
  Option-cases, elim-at_none, elim-at_some, if-true, if-false,
}
use pcfs.Types.{File, is_busy}
use pcfs.Database.{State, ready, waiting, update, wake_up}
use pcfs.Database.Invariant.{Safe}
use pcfs.Database.Find.{Named}
use pcfs.Database.Open.{Named-keep}

-- The file as a round that waits again leaves it.
abbrev pub asked_again : ℕ → File → State → State
asked_again id f s = record s {
  heap = update s.heap id (some (record f { status = record f.status { cancel = true } }));
}

abbrev pub Wakes : ℕ → State → Type 0
Wakes id s =
    ((s.heap id ≡ none) × (wake_up id s ≡ none))
    ⊎ ((f : File) × (s.heap id ≡ some f)
        × (((is_busy f.status ≡ false) × (wake_up id s ≡ some (s, ready id)))
            ⊎ ((is_busy f.status ≡ true)
                × (wake_up id s ≡ some (asked_again id f s, waiting id))
                × Safe 0 (asked_again id f s)
                × Named (asked_again id f s))))

asked_again-Safe :
    (id : ℕ) (f : File) (s : State) → Safe 0 s → s.heap id ≡ some f → Safe 0 (asked_again id f s)
asked_again-Safe id f s v there = record {
  listed = λ p m. ground (arith, v.listed p);
  distinct = v.distinct;
  entries_counted = v.entries_counted;
  queue_counted = v.queue_counted;
  unused = λ p le. ground (arith, v.unused p);
  counted = λ p h q. ground (arith, v.counted p h, v.counted id f);
  freed = λ p q. ground (arith, v.freed p);
  owned = λ p h q. ground (arith, v.owned p h, v.owned id f);
}

asked_again-Named :
    (id : ℕ) (f : File) (s : State) → Named s → s.heap id ≡ some f → Named (asked_again id f s)
asked_again-Named id f s n there =
    Named-keep s (asked_again id f s) n
      (λ p h q. elim (Bool-cases (p == id)) [
        | inl e ↦
            let same : record f { status = record f.status { cancel = true } } ≡ h =
              ground (arith, e, q) in
            (
              f,
              ground (arith, e, there),
              ap (λ (x : File). x.name) (sym same),
              ap (λ (x : File). x.hash) (sym same),
            )
        | inr e ↦ (h, ground (arith, e, q), refl, refl)
      ])
      (λ p m. m)

pub wake_up-Wakes : (id : ℕ) (s : State) → Safe 0 s → Named s → Wakes id s
unfolding wake_up
wake_up-Wakes id s v n = elim (Option-cases (s.heap id)) [
  | inl gone ↦ inl (gone, elim-at_none _ _ gone)
  | inr (f, there) ↦ elim (Bool-cases (is_busy f.status)) [
    | inl busy ↦ inr (
      f,
      there,
      inr (
        busy,
        elim-at_some _ _ f there ∙ if-true _ _ busy,
        asked_again-Safe id f s v there,
        asked_again-Named id f s n there,
      ),
    )
    | inr calm ↦ inr (f, there, inl (calm, elim-at_some _ _ f there ∙ if-false _ _ calm))
  ]
]
