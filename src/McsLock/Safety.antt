-- ===== src/McsLock/Safety.antt =====
-- The cpus that run the code of the lock, in any order.
use workhorse_rt.Common.{
  Distinct, sym, subst, ◌∙◌, ℕ, ◌≡◌, ◌≢◌, refl, ap, Bool, true, false, Option, none, List, [], ◌∷◌,
  arith, ◌==◌, has, Bool-cases, inl, inr,
}
use workhorse_rt.McsLock.{NodeState, Pc, Lock, Call, access, run, init, has_lock}
use workhorse_rt.McsLock.Queue.{Waits, Behind, Heads, Outside, IsQueue}
use workhorse_rt.McsLock.Link.{Behinds, Behind-Behinds}
use workhorse_rt.McsLock.Moves.{change, apply, access-IsQueue}

-- The queue of the cpus after the accesses, by what each does on the tail and on the node behind it.
abbrev pub served : Call → ℕ → Lock → List ℕ → List ℕ
served c i s q = apply (change c i (s.pc i) s.tail) i q

unfoldable pub order : List (Call × ℕ) → Lock → List ℕ → List ℕ
order [] s q = q
order ((c, i) ∷ turns) s q = order turns (access c i s) (served c i s q)

init-IsQueue : IsQueue init []
init-IsQueue = record {
  distinct = tt;
  tail = refl;
  queued = tt;
  outside = λ i out. Outside.away refl;
}

run-IsQueue :
    (turns : List (Call × ℕ)) (s : Lock) (q : List ℕ)
    → IsQueue s q
    → IsQueue (run turns s) (order turns s q)
unfolding run order
run-IsQueue [] s q is = is
run-IsQueue ((c, i) ∷ turns) s q is =
    let first = access-IsQueue c i s q is in
    run-IsQueue turns (access c i s) (served c i s q)
      (subst (λ (v : List ℕ). IsQueue (access c i s) v) first.order first.queue)

Outside-has_lock : (s : Lock) (i : ℕ) → Outside s i → has_lock (s.pc i) ≡ false
Outside-has_lock s i (Outside.away a) = rw a refl
Outside-has_lock s i (Outside.cleared a b c) = rw a refl

Behinds-has_lock : (s : Lock) (q : List ℕ) (i : ℕ) → Behinds s q i → has_lock (s.pc i) ≡ false
Behinds-has_lock s q i (Behinds.links p a b c d) = rw a refl
Behinds-has_lock s q i (Behinds.spins a b) = rw a refl

-- Who has the lock is the head of the queue.
holder-head :
    (s : Lock) (q : List ℕ) (i : ℕ)
    → IsQueue s q
    → has_lock (s.pc i) ≡ true
    → (rest : List ℕ) × (q ≡ i ∷ rest)
holder-head s [] i is e =
    let free = Outside-has_lock s i (is.outside i refl) in absurd (ground (arith, e, free))
holder-head s (h ∷ rest) i is e = elim (Bool-cases (i == h)) [
  | inl same ↦ (rest, ap (λ (v : ℕ). v ∷ rest) (ground (arith, same)))
  | inr other ↦ elim (Bool-cases (has i rest)) [
    | inl in_rest ↦
        let free =
          Behinds-has_lock s (h ∷ rest) i (Behind-Behinds s h rest i is.queued.1 in_rest) in
        absurd (ground (arith, e, free))
    | inr beyond ↦
        let free = Outside-has_lock s i (is.outside i (ground (arith, other, beyond))) in
        absurd (ground (arith, e, free))
  ]
]

-- In every order of the accesses of any number of cpus, no two cpus have the lock.
pub mutual_exclusion :
    (turns : List (Call × ℕ)) (i j : ℕ)
    → i ≢ j
    → has_lock ((run turns init).pc i) ≡ true
    → has_lock ((run turns init).pc j) ≡ false
mutual_exclusion turns i j apart a =
    let s = run turns init in
    let q = order turns init [] in
    let is = run-IsQueue turns init [] init-IsQueue in
    let (rest, first) = holder-head s q i is a in
    elim (Bool-cases (has_lock (s.pc j))) [
      | inl b ↦
          let (others, second) = holder-head s q j is b in
          absurd (apart (ground (arith, first, second)))
      | inr b ↦ b
    ]

abbrev pub in_lock : Pc → Bool
in_lock Pc.idle = false
in_lock Pc.cleared = false
in_lock _ = true

Outside-in_lock : (s : Lock) (i : ℕ) → Outside s i → in_lock (s.pc i) ≡ false
Outside-in_lock s i (Outside.away a) = rw a refl
Outside-in_lock s i (Outside.cleared a b c) = rw a refl

Behinds-in_lock : (s : Lock) (q : List ℕ) (i : ℕ) → Behinds s q i → in_lock (s.pc i) ≡ true
Behinds-in_lock s q i (Behinds.links p a b c d) = rw a refl
Behinds-in_lock s q i (Behinds.spins a b) = rw a refl

Heads-in_lock : (s : Lock) (h : ℕ) (rest : List ℕ) → Heads s h rest → in_lock (s.pc h) ≡ true
Heads-in_lock s h rest (Heads.freed a b) = rw a refl
Heads-in_lock s h rest (Heads.holds a) = rw a refl
Heads-in_lock s h rest (Heads.swaps a) = rw a refl
Heads-in_lock s h rest (Heads.awaits a b) = rw a refl
Heads-in_lock s h rest (Heads.hands n a b) = rw a refl

-- The cpus of the queue are those in the lock.
queue-in_lock : (s : Lock) (q : List ℕ) (i : ℕ) → IsQueue s q → has i q ≡ in_lock (s.pc i)
queue-in_lock s [] i is = sym (Outside-in_lock s i (is.outside i refl))
queue-in_lock s (h ∷ rest) i is = elim (Bool-cases (i == h)) [
  | inl same ↦
      let eq : h ≡ i = ground (arith, same) in
      rw same (sym (ap (λ (v : ℕ). in_lock (s.pc v)) (sym eq) ∙ Heads-in_lock s h rest is.queued.0))
  | inr other ↦ elim (Bool-cases (has i rest)) [
    | inl in_rest ↦
        rw (other, in_rest)
          (sym (Behinds-in_lock s (h ∷ rest) i (Behind-Behinds s h rest i is.queued.1 in_rest)))
    | inr beyond ↦
        rw (other, beyond)
          (sym (Outside-in_lock s i (is.outside i (ground (arith, other, beyond)))))
  ]
]

-- The cpus get the lock in the order of their exchanges on the tail, in every order of the accesses:
-- take the queue that starts empty, in which a cpu comes to the end with its exchange on the tail, or
-- with a compare-exchange that finds no tail, and the head leaves with a compare-exchange that finds the
-- cpu's own node or with the store to the node behind it. Then no cpu is in it twice, the cpus in it are
-- those from their exchange to their release, and a cpu that has the lock is at the head of it.
pub run_fifo :
    (turns : List (Call × ℕ))
    → Distinct (order turns init [])
      × ((i : ℕ) → has i (order turns init []) ≡ in_lock ((run turns init).pc i))
      × ((i : ℕ)
          → has_lock ((run turns init).pc i) ≡ true
          → (rest : List ℕ) × (order turns init [] ≡ i ∷ rest))
run_fifo turns =
    let is = run-IsQueue turns init [] init-IsQueue in
    (
      is.distinct,
      λ i. queue-in_lock (run turns init) (order turns init []) i is,
      λ i e. holder-head (run turns init) (order turns init []) i is e,
    )

-- A cpu that goes round in one of the two loops.
abbrev pub goes_round : Pc → NodeState → Option ℕ → Bool
goes_round Pc.spinning NodeState.locked link = true
goes_round Pc.awaiting state none = true
goes_round _ _ _ = false

abbrev pub goes_round_at : Lock → ℕ → Bool
goes_round_at s i = goes_round (s.pc i) (s.nodes i).state (s.nodes i).next

Outside-moves : (s : Lock) (i : ℕ) → Outside s i → goes_round_at s i ≡ false
Outside-moves s i (Outside.away a) = rw a refl
Outside-moves s i (Outside.cleared a b c) = rw a refl

abbrev Progress : Lock → Type 0
Progress s = (i : ℕ) × (in_lock (s.pc i) ≡ true) × (goes_round_at s i ≡ false)

-- The head of the queue moves, or the cpu behind it stores the link the head waits for.
second_moves : (s : Lock) (h x : ℕ) → s.pc h ≡ Pc.awaiting → Waits s h x → Progress s
second_moves s h x e (Waits.unlinked a b c) = (x, rw a refl, rw a refl)
second_moves s h x e (Waits.linked a b c) = (h, rw e refl, rw (e, b) refl)

Heads-Progress : (s : Lock) (h : ℕ) (rest : List ℕ) → Heads s h rest → Behind s h rest → Progress s
Heads-Progress s h rest (Heads.freed a b) c = (h, rw a refl, rw (a, b) refl)
Heads-Progress s h rest (Heads.holds a) c = (h, rw a refl, rw a refl)
Heads-Progress s h rest (Heads.swaps a) c = (h, rw a refl, rw a refl)
Heads-Progress s h [] (Heads.awaits a b) c = absurd (b refl)
Heads-Progress s h (x ∷ xs) (Heads.awaits a b) c = second_moves s h x a c.0
Heads-Progress s h rest (Heads.hands n a b) c = (h, rw a refl, rw a refl)

-- No deadlock in the lock: after every order of the accesses, while a cpu goes round in a loop there
-- is a cpu in the lock whose next access does not go round.
pub run_progress :
    (turns : List (Call × ℕ)) (j : ℕ)
    → goes_round_at (run turns init) j ≡ true
    → (i : ℕ) × (in_lock ((run turns init).pc i) ≡ true)
      × (goes_round_at (run turns init) i ≡ false)
run_progress turns j e =
    progress (run turns init) (order turns init []) (run-IsQueue turns init [] init-IsQueue) e
  where
    progress : (s : Lock) (q : List ℕ) → IsQueue s q → goes_round_at s j ≡ true → Progress s
    progress s [] is e =
        let stays = Outside-moves s j (is.outside j refl) in absurd (ground (arith, e, stays))
    progress s (h ∷ rest) is e = Heads-Progress s h rest is.queued.0 is.queued.1
