-- ===== src/McsLock/Enter.antt =====
-- A cpu that is not in the queue: it clears its node, and goes to the end of the queue.
use workhorse_rt.Common.{
  ℕ, ◌≡◌, ◌≢◌, refl, sym, subst, ◌∙◌, ap, false, none, some, List, [], ◌∷◌, ◌++◌, arith, ◌==◌, has,
  Distinct, Bool-cases, inl, inr,
}
use workhorse_rt.McsLock.{NodeState, Pc, Lock}
use workhorse_rt.McsLock.Queue.{last_of, Heads, Queued, Outside, IsQueue, Behind-congr, Behind-join}
use workhorse_rt.McsLock.Frame.{Outside-congr, Heads-congr, Others, Others-Agree}

Distinct-append : (i : ℕ) (q : List ℕ) → has i q ≡ false → Distinct q → Distinct (q ++ i ∷ [])
Distinct-append i [] out d = (refl, tt)
Distinct-append i (x ∷ xs) out d =
    (has-append x xs d.0 (ground (arith, out)), Distinct-append i xs (ground (arith, out)) d.1)
  where
    has-append :
        (x : ℕ) (xs : List ℕ) → has x xs ≡ false → (x == i) ≡ false → has x (xs ++ i ∷ []) ≡ false
    has-append x [] a b = ground (arith, b)
    has-append x (y ∷ ys) a b =
        let more = has-append x ys (ground (arith, a)) b in ground (arith, a, more)

last_of-append : (i p : ℕ) (xs : List ℕ) → last_of p (xs ++ i ∷ []) ≡ i
last_of-append i p [] = refl
last_of-append i p (x ∷ xs) = last_of-append i x xs

append_nonempty : (i : ℕ) (xs : List ℕ) → xs ++ i ∷ [] ≢ []
append_nonempty i [] h = ground (arith, h)
append_nonempty i (x ∷ xs) h = ground (arith, h)

Heads-append : {t : Lock} (i h : ℕ) (xs : List ℕ) → Heads t h xs → Heads t h (xs ++ i ∷ [])
Heads-append i h xs (Heads.freed d e) = Heads.freed d e
Heads-append i h xs (Heads.holds d) = Heads.holds d
Heads-append i h xs (Heads.swaps d) = Heads.swaps d
Heads-append i h xs (Heads.awaits d e) = Heads.awaits d (append_nonempty i xs)
Heads-append i h xs (Heads.hands n d e) = Heads.hands n d e

module _ (i : ℕ) (s t : Lock) (o : Others i s t) where
  -- What is said of the cpus other than `i` is true still.
  Queued-kept : (q : List ℕ) → has i q ≡ false → Queued s q → Queued t q
  Queued-kept [] out b = b
  Queued-kept (h ∷ rest) out b =
      let other : (i == h) ≡ false = ground (arith, out) in
      let beyond : has i rest ≡ false = ground (arith, out) in
      (
        Heads-congr h rest (o.pc h other) (o.state h other) (o.next h other) b.0,
        Behind-congr s t h rest (o.next h other) (Others-Agree i s t rest beyond o) b.1,
      )

  Outside-kept : (q : List ℕ) → IsQueue s q → Outside t i → (j : ℕ) → has j q ≡ false → Outside t j
  Outside-kept q is now j away = elim (Bool-cases (i == j)) [
    | inl e ↦ let same : i ≡ j = ground (arith, e) in subst (Outside t) same now
    | inr e ↦ Outside-congr j (o.pc j e) (o.state j e) (o.next j e) (is.outside j away)
  ]

  -- A cpu outside changes its node and its place, and stays outside.
  pub Outside-IsQueue :
      (q : List ℕ) → has i q ≡ false → t.tail ≡ s.tail → Outside t i → IsQueue s q → IsQueue t q
  Outside-IsQueue q out e now is = record {
    distinct = is.distinct;
    tail = e ∙ is.tail;
    queued = Queued-kept q out is.queued;
    outside = Outside-kept q is now;
  }

  Outside-joined : (q : List ℕ) → IsQueue s q → (j : ℕ) → has j (q ++ i ∷ []) ≡ false → Outside t j
  Outside-joined q is j away =
      let apart = has-append j i q away in
      Outside-congr j (o.pc j apart.0) (o.state j apart.0) (o.next j apart.0) (is.outside j apart.1)
    where
      has-append :
          (j i : ℕ) (q : List ℕ)
          → has j (q ++ i ∷ []) ≡ false
          → ((i == j) ≡ false) × (has j q ≡ false)
      has-append j i [] h = (ground (arith, h), refl)
      has-append j i (x ∷ xs) h =
          let more = has-append j i xs (ground (arith, h)) in (more.0, ground (arith, h, more.1))

  -- It goes to the end of the queue.
  pub join-IsQueue :
      (h : ℕ) (rest : List ℕ)
      → has i (h ∷ rest) ≡ false
      → t.tail ≡ some i
      → t.pc i ≡ Pc.linking (last_of h rest)
      → (t.nodes i).state ≡ NodeState.locked
      → (t.nodes i).next ≡ none
      → IsQueue s (h ∷ rest)
      → IsQueue t (h ∷ rest ++ i ∷ [])
  join-IsQueue h rest out e at state next is =
      let other : (i == h) ≡ false = ground (arith, out) in
      let beyond : has i rest ≡ false = ground (arith, out) in
      record {
        distinct = Distinct-append i (h ∷ rest) out is.distinct;
        tail = e ∙ sym (ap some (last_of-append i h rest));
        queued = (
          Heads-append i h rest
              (Heads-congr h rest (o.pc h other) (o.state h other) (o.next h other) is.queued.0),
          Behind-join s t h i rest (o.next h other) (Others-Agree i s t rest beyond o) is.queued.1
              at state next,
        );
        outside = Outside-joined (h ∷ rest) is;
      }
