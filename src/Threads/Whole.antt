-- ===== src/Threads/Whole.antt =====
-- What the handlers that need the plain file keep of its record.
use pcfs.Base.{
  ℕ, suc, ◌≡◌, refl, ap, Bool, false, not, ◌&&◌, List, [], ◌∷◌, some, arith, ◌==◌, map, is_some,
  bind-some, inl, inr, sym, ◌∙◌, subst, if-cases, length,
}
use mathlib.Core.Option.{some-injective}
use pcfs.Types.{Descriptor, File}
use pcfs.Database.Invariant.{OwnedBy}
use pcfs.Decompress.{Answers, Run, close_stream, settle, direct_close, do_decompress}
use pcfs.Decompress.Streams.{shut, restarted}
use pcfs.Decompress.Outcome.{Ended, do_decompress-Ended}
use pcfs.Decompress.Kept.{SameFile, trans_Same, do_decompress-Same}
use pcfs.Handlers.{Ending}
use pcfs.Truncate.{Made, made_of, close_streams, make_plain, set_size, truncate_file, link_file}
use pcfs.Threads.Kept.{Keeps}

-- As many descriptors, of the same file.
abbrev pub SameList : List Descriptor → List Descriptor → Type 0
SameList ds es = (length es ≡ length ds) × ((id : ℕ) → OwnedBy id ds → OwnedBy id es)

map-SameList :
    (k : Descriptor → Descriptor) (ds : List Descriptor)
    → ((d : Descriptor) → (k d).file ≡ d.file)
    → SameList ds (map k ds)
map-SameList k [] same = (refl, λ id own. tt)
map-SameList k (d ∷ ds) same =
    let (lengths, owners) = map-SameList k ds same in
    (ap suc lengths, λ id (mine, own). (same d ∙ mine, owners id own))

pub run-SameList :
    (a : Answers) (ds : List Descriptor) (r : Run) → Ended a ds r → SameList ds r.file.head
run-SameList a ds r (inl (_, inl (_, _, _, _, _, heads))) =
    subst (SameList ds) (sym heads) (refl, λ id own. own)
run-SameList a ds r (inl (_, inr (_, _, _, _, _, heads))) =
    subst (SameList ds) (sym heads) (map-SameList (restarted a.reopened) ds (λ d. refl))
run-SameList a ds r (inr (_, inl (_, _, heads))) =
    subst (SameList ds) (sym heads) (refl, λ id own. own)
run-SameList a ds r (inr (_, inr (inl (_, heads)))) =
    subst (SameList ds) (sym heads) (map-SameList shut ds (λ d. refl))
run-SameList a ds r (inr (_, inr (inr (inl (_, _, _, heads))))) =
    subst (SameList ds) (sym heads) (map-SameList (restarted a.reopened) ds (λ d. refl))
run-SameList a ds r (inr (_, inr (inr (inr (_, _, _, _, _, heads))))) =
    subst (SameList ds) (sym heads) (map-SameList (restarted a.reopened) ds (λ d. refl))

settle-Same : (f : File) → SameFile f (settle f)
unfolding settle
settle-Same f = ground arith

close_stream-file : (d : Descriptor) → (close_stream d).file ≡ d.file
unfolding close_stream
close_stream-file d = ground arith

direct_close-parts :
    (closed : ℕ → Bool) (f : File) (d : Descriptor) (y : File × Descriptor × Bool)
    → direct_close closed f d ≡ some y
    → (y.0 ≡ settle f) × (y.1 ≡ close_stream d)
unfolding direct_close
direct_close-parts closed f d y e =
    if-cases (d.handle && not (is_some f.compressor)) _ _ (some y) e (λ _ h. ground (arith, h))
      (λ _ h.
        let same = some-injective _ y h in
        (
          ap (λ (x : File × Descriptor × Bool). x.0) (sym same),
          ap (λ (x : File × Descriptor × Bool). x.1) (sym same),
        ))

close_streams-Same :
    (closed : ℕ → Bool) (ds : List Descriptor) (f : File) (c : File × List Descriptor)
    → close_streams closed f ds ≡ some c
    → SameFile f c.0 × SameList ds c.1
unfolding close_streams
close_streams-Same closed [] f c e =
    subst (λ (x : File × List Descriptor). SameFile f x.0 × SameList [] x.1) (some-injective _ c e)
      ((refl, refl, refl), (refl, λ id own. own))
close_streams-Same closed (d ∷ ds) f c e =
    let (y, step, e1) = bind-some (direct_close closed f d) _ c e in
    let (z, rest, e2) = bind-some (close_streams closed y.0 ds) _ c e1 in
    let (file, stream) = direct_close-parts closed f d y step in
    let (same, (lengths, owners)) = close_streams-Same closed ds y.0 z rest in
    let one : SameFile f y.0 = subst (SameFile f) (sym file) (settle-Same f) in
    let mine : y.1.file ≡ d.file = ap (λ (x : Descriptor). x.file) stream ∙ close_stream-file d in
    subst (λ (x : File × List Descriptor). SameFile f x.0 × SameList (d ∷ ds) x.1)
      (some-injective _ c e2)
      (
        trans_Same f y.0 z.0 one same,
        (ap suc lengths, λ id (own, rest1). (mine ∙ own, owners id rest1)),
      )

-- The same users, the same owner and the same name.
abbrev pub SameUsers : File → File → Type 0
SameUsers f g = SameFile f g × SameList f.head g.head

pub SameUsers-Keeps : (id : ℕ) (f g : File) → SameUsers f g → Keeps id f g
SameUsers-Keeps id f g ((counts, name, hash), (lengths, owners)) =
    ((omega (arith, counts, lengths), owners id), name, hash)

make_plain-Same :
    (a : Answers) (nothing : Bool) (f : File) (total : ℕ) (m : Made)
    → make_plain a nothing f total ≡ some m
    → SameUsers f m.file
unfolding make_plain
make_plain-Same a nothing f total m e =
    if-cases (is_some f.compressor) _ _ (some m) e
      (λ _ h.
        if-cases nothing _ _ (some m) h
          (λ _ h1.
            let (c, closing, h2) = bind-some (close_streams a.closed f f.head) _ m h1 in
            subst (λ (x : Made). SameUsers f x.file) (some-injective _ m h2)
              (close_streams-Same a.closed f.head f c closing))
          (λ _ h1.
            let (r, run, h2) = bind-some (do_decompress a f total) _ m h1 in
            subst (λ (x : Made). SameUsers f x.file) (some-injective (made_of r) m h2)
              (
                do_decompress-Same a f total r run,
                run-SameList a f.head r (do_decompress-Ended a f total r run),
              )))
      (λ _ h.
        subst (λ (x : Made). SameUsers f x.file) (some-injective _ m h)
          ((refl, refl, refl), (refl, λ id own. own)))

abbrev result : File → ℕ → Ending → File × ℕ × Ending
result f n e = (f, n, e)

-- Whatever its calls answer, `PCFS_truncate` keeps the users and the name of the file.
pub truncate_file-Keeps :
    (id : ℕ) (a : Answers) (opened truncated : Bool) (size : ℕ) (f g : File) (total rest : ℕ)
    (e : Ending)
    → truncate_file a opened truncated size f total ≡ some (g, rest, e)
    → Keeps id f g
unfolding truncate_file set_size
truncate_file-Keeps id a opened truncated size f g total rest e run =
    let (m, made, h) = bind-some (make_plain a (size == 0) f total) _ (result g rest e) run in
    let users = make_plain-Same a (size == 0) f total m made in
    SameUsers-Keeps id f g (
      if-cases (m.plain && opened && truncated) _ _ (result g rest e)
        (some-injective _ (result g rest e) h)
        (λ _ h1. subst (λ (x : File × ℕ × Ending). SameUsers f x.0) h1 users)
        (λ _ h1. subst (λ (x : File × ℕ × Ending). SameUsers f x.0) h1 users))

-- The same for `PCFS_link`.
pub link_file-Keeps :
    (id : ℕ) (a : Answers) (linked : Bool) (f g : File) (total rest : ℕ) (e : Ending)
    → link_file a linked f total ≡ some (g, rest, e)
    → Keeps id f g
unfolding link_file
link_file-Keeps id a linked f g total rest e run =
    let (m, made, h) = bind-some (make_plain a false f total) _ (result g rest e) run in
    let users = make_plain-Same a false f total m made in
    SameUsers-Keeps id f g (
      if-cases m.plain _ _ (result g rest e) (some-injective _ (result g rest e) h)
        (λ _ h1. subst (λ (x : File × ℕ × Ending). SameUsers f x.0) h1 users)
        (λ _ h1. subst (λ (x : File × ℕ × Ending). SameUsers f x.0) h1 users))
