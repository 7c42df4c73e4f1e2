-- ===== src/OpenFile/Temp.antt =====
-- `file_create_temp` makes at most 52 attempts, and uses the first of 51 that succeeds.
use pcfs.Base.{ap, ℕ, zero, suc, ◌+◌, ◌≤◌, ◌<◌, ◌≡◌, ◌≢◌, Bool, true, Option, none, some, arith}
use pcfs.OpenFile.{made, gave_up, out_of_fuel, create_loop, file_create_temp}

create_loop-made :
    (d k i fd : ℕ) (mkstemp : ℕ → Option ℕ)
    → ((j : ℕ) → j < i + d → mkstemp j ≡ none)
    → mkstemp (i + d) ≡ some fd
    → i + d ≤ 50
    → d < k
    → create_loop k mkstemp i ≡ made fd (i + d)
unfolding create_loop
create_loop-made d zero i fd mk before now few fuel = elim fuel [ ]
create_loop-made zero (suc k) i fd mk before now few fuel =
    let e : i + 0 ≡ i = omega arith in let q : mk i ≡ some fd = rw e at now in ground (arith, e)
create_loop-made (suc d) (suc k) i fd mk before now few fuel =
    let e : i + suc d ≡ i + 1 + d = omega arith in
    ground (
      arith,
      e,
      before i,
      create_loop-made d k (i + 1) fd mk (λ j lt. before j (omega arith)) (rw e at now),
    )

create_loop-gave_up :
    (d k i : ℕ) (mkstemp : ℕ → Option ℕ)
    → ((j : ℕ) → j ≤ 50 → mkstemp j ≡ none)
    → i + d ≡ 51
    → d < k
    → create_loop k mkstemp i ≡ gave_up (mkstemp 51)
unfolding create_loop
create_loop-gave_up d zero i mk none_made at fuel = elim fuel [ ]
create_loop-gave_up zero (suc k) i mk none_made at fuel =
    let e : i ≡ 51 = omega arith in
    ground (arith, ap mk e, ap (λ (o : Option ℕ). gave_up o) (ap mk e))
create_loop-gave_up (suc d) (suc k) i mk none_made at fuel =
    ground (arith, none_made i, create_loop-gave_up d k (i + 1) mk none_made)

-- The first of the attempts 0 to 50 that succeeds gives the descriptor.
pub file_create_temp-made :
    (n fd : ℕ) (mkstemp : ℕ → Option ℕ)
    → n ≤ 50
    → ((j : ℕ) → j < n → mkstemp j ≡ none)
    → mkstemp n ≡ some fd
    → file_create_temp true mkstemp ≡ made fd n
unfolding file_create_temp
file_create_temp-made n fd mk few before now =
    let e : 0 + n ≡ n = omega arith in
    rw e at (
      create_loop-made n 52 0 fd mk (λ j lt. before j (omega arith)) (rw (← e) at now) (omega arith)
        (omega arith))

-- After 51 failures the call makes one more attempt and gives up, whatever that one answers: a
-- descriptor that it makes stays open.
pub file_create_temp-gave_up :
    (mkstemp : ℕ → Option ℕ)
    → ((j : ℕ) → j ≤ 50 → mkstemp j ≡ none)
    → file_create_temp true mkstemp ≡ gave_up (mkstemp 51)
unfolding file_create_temp
file_create_temp-gave_up mk none_made =
    create_loop-gave_up 51 52 0 mk none_made (omega arith) (omega arith)

create_loop-ends :
    (k i : ℕ) (mkstemp : ℕ → Option ℕ) → i ≤ 51 → 51 < k + i → create_loop k mkstemp i ≢ out_of_fuel
unfolding create_loop
create_loop-ends zero i mkstemp few enough = omega arith
create_loop-ends (suc k) i mkstemp few enough =
    let rest = create_loop-ends k (i + 1) mkstemp in ground (arith, rest)

-- The fuel is enough: the call never runs out of it.
pub file_create_temp-ends :
    (memory : Bool) (mkstemp : ℕ → Option ℕ) → file_create_temp memory mkstemp ≢ out_of_fuel
unfolding file_create_temp
file_create_temp-ends memory mkstemp = ground (arith, create_loop-ends 52 0 mkstemp)
