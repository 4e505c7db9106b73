-- ===== src/McsLock/Tests.antt =====
-- Runs of the lock with two and three cpus.
use workhorse_rt.Common.{ℕ, ◌≡◌, arith, refl, true, false, List, [], ◌∷◌, map, Distinct, has}
use workhorse_rt.McsLock.{Call, run, init, has_lock, access}
use workhorse_rt.McsLock.Safety.{
  mutual_exclusion, run_fifo, run_progress, goes_round_at, in_lock, order,
}

abbrev acquires : List ℕ → List (Call × ℕ)
acquires = map (λ i. (Call.acquire, i))

-- Cpu 7 has the lock, cpu 2 waits behind it and is linked, cpu 5 is behind that and is not.
abbrev contended : List (Call × ℕ)
contended = acquires (7 ∷ 7 ∷ 2 ∷ 5 ∷ 2 ∷ 2 ∷ 5 ∷ [])

-- Cpu 7 gave the lock to cpu 2, which has seen it.
abbrev handed : List (Call × ℕ)
handed = acquires (7 ∷ 7 ∷ 2 ∷ 5 ∷ 2 ∷ 2 ∷ 5 ∷ 7 ∷ 7 ∷ 2 ∷ [])

handed-holder : has_lock ((run handed init).pc 2) ≡ true
unfolding run
handed-holder = refl

-- Cpu 7 is in the loop of the release: cpu 2 came in between and has not stored its link.
abbrev overtaken : List (Call × ℕ)
overtaken = acquires (7 ∷ 7 ∷ 2 ∷ 7 ∷ 2 ∷ 7 ∷ [])

mutual_exclusion_example : has_lock ((run handed init).pc 7) ≡ false
mutual_exclusion_example = mutual_exclusion handed 2 7 (omega arith) handed-holder

run_fifo_example :
    Distinct (order handed init [])
    × ((i : ℕ) → has i (order handed init []) ≡ in_lock ((run handed init).pc i))
    × ((i : ℕ)
        → has_lock ((run handed init).pc i) ≡ true
        → (rest : List ℕ) × (order handed init [] ≡ i ∷ rest))
run_fifo_example = run_fifo handed

-- Cpu 5 came after cpu 2.
handed-order : order handed init [] ≡ 2 ∷ 5 ∷ []
unfolding order access
handed-order = refl

overtaken-round : goes_round_at (run overtaken init) 7 ≡ true
unfolding run
overtaken-round = refl

run_progress_example :
    (i : ℕ) × (in_lock ((run overtaken init).pc i) ≡ true)
    × (goes_round_at (run overtaken init) i ≡ false)
run_progress_example = run_progress overtaken 7 overtaken-round

contended-waits : goes_round_at (run contended init) 2 ≡ true
unfolding run
contended-waits = refl

-- A try on a lock that is held changes nothing.
tried :
    has_lock (
      (run
          ((Call.trylock, 7) ∷ (Call.trylock, 7) ∷ (Call.trylock, 2) ∷ (Call.trylock, 2) ∷ [])
          init).pc
        2)
    ≡ false
unfolding run
tried = refl
