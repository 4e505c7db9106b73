-- ===== src/McsLock/Moves.antt =====
-- The accesses of the cpus, as steps of a first-in first-out queue.
use workhorse_rt.Common.{
  ℕ, ◌≡◌, ◌≢◌, refl, sym, subst, ◌∙◌, ap, Bool, true, false, Option, none, some, List, [], ◌∷◌,
  ◌++◌, arith, ◌==◌, has, Bool-cases, inl, inr,
}
use workhorse_rt.McsLock.{
  NodeState, Pc, Lock, Call, go, set_tail, store_state, clear, is_tail, exchange, try_exchange,
  enter_by, test_state, load_next, await_next, try_leave, move, access,
}
use workhorse_rt.McsLock.Queue.{last_of, last, Heads, Outside, IsQueue}
use workhorse_rt.McsLock.Frame.{Outside-congr, go_other, go_same, Others-go, go-IsQueue}
use workhorse_rt.McsLock.Enter.{Outside-IsQueue, join-IsQueue}
use workhorse_rt.McsLock.Link.{Behinds, Behind-Behinds, link-IsQueue}
use workhorse_rt.McsLock.Leave.{leave-IsQueue, last-head, hand-IsQueue, Behind-next}

-- What one access of a cpu means for a first-in first-out queue: nothing, the cpu comes to the end, or
-- the head leaves.
pub data Change : Type 0 where
  stays_put joins goes : Change

abbrev pub apply : Change → ℕ → List ℕ → List ℕ
apply Change.stays_put i q = q
apply Change.joins i q = q ++ i ∷ []
apply Change.goes i [] = []
apply Change.goes i (h ∷ rest) = rest

abbrev pub joins_if_free : Option ℕ → Change
joins_if_free none = Change.joins
joins_if_free (some prev) = Change.stays_put

abbrev pub goes_if : Bool → Change
goes_if true = Change.goes
goes_if false = Change.stays_put

abbrev pub comes_by : Call → Option ℕ → Change
comes_by Call.acquire tail = Change.joins
comes_by Call.trylock tail = joins_if_free tail

-- A cpu comes with its exchange on the tail, or with a compare-exchange that finds no tail; it goes with
-- the compare-exchange that finds its own node, or with the store to the node behind it.
abbrev pub change : Call → ℕ → Pc → Option ℕ → Change
change c i Pc.cleared tail = comes_by c tail
change c i Pc.swapping tail = goes_if (is_tail i tail)
change c i (Pc.handing n) tail = Change.goes
change c i _ tail = Change.stays_put

pub record Served (b : Change) (i : ℕ) (q : List ℕ) (t : Lock) : Type 0 where
  pub after : List ℕ
  pub order : after ≡ apply b i q
  pub queue : IsQueue t after

stays : (i : ℕ) (q : List ℕ) {t : Lock} → IsQueue t q → Served Change.stays_put i q t
stays i q is = record { after = q; order = refl; queue = is }

is_tail-eq : (i p : ℕ) (t : Option ℕ) → t ≡ some p → is_tail i t ≡ (p == i)
is_tail-eq i p t e = rw e refl

module _ (c : Call) (i : ℕ) (s : Lock) where
  -- The head reads its link.
  loads :
      (rest : List ℕ)
      → IsQueue s (i ∷ rest)
      → (n : Option ℕ) → (s.nodes i).next ≡ n
      → Served Change.stays_put i (i ∷ rest) (load_next i n s)
  unfolding load_next
  loads rest is none e =
      stays i (i ∷ rest)
        (go-IsQueue i Pc.swapping s rest is (Heads.swaps (go_same i Pc.swapping s)))
  loads rest is (some n) e =
      stays i (i ∷ rest)
        (go-IsQueue i (Pc.handing n) s rest is (Heads.hands n (go_same i (Pc.handing n) s) e))

  loads_again :
      (rest : List ℕ)
      → IsQueue s (i ∷ rest)
      → (n : Option ℕ) → (s.nodes i).next ≡ n
      → Served Change.stays_put i (i ∷ rest) (await_next i n s)
  unfolding await_next load_next
  loads_again rest is none e = stays i (i ∷ rest) is
  loads_again rest is (some n) e = loads rest is (some n) e

  -- It leaves if it is alone.
  leaves :
      (rest : List ℕ)
      → IsQueue s (i ∷ rest)
      → (b : Bool) → (last_of i rest == i) ≡ b
      → Served (goes_if b) i (i ∷ rest) (try_leave i b s)
  unfolding try_leave
  leaves rest is true e =
      let alone : rest ≡ [] = last-head i rest is.distinct.0 (ground (arith, e)) in
      record {
        after = [];
        order = sym alone;
        queue = leave-IsQueue i s (subst (λ (r : List ℕ). IsQueue s (i ∷ r)) alone is);
      }
  leaves rest is false e =
      stays i (i ∷ rest)
        (go-IsQueue i Pc.awaiting s rest is (Heads.awaits (go_same i Pc.awaiting s) (not_alone e)))
    where
      not_alone : (last_of i rest == i) ≡ false → rest ≢ []
      not_alone e none_left =
          let same : last_of i rest ≡ i = ap (λ (r : List ℕ). last_of i r) none_left in
          ground (arith, e, same)

  hands_over :
      (n : ℕ) (rest : List ℕ)
      → (s.nodes i).next ≡ some n
      → IsQueue s (i ∷ rest)
      → Served Change.goes i (i ∷ rest) (go i Pc.idle (store_state n NodeState.unlocked s))
  hands_over n rest e is =
      let (xs, linked) = Behind-next s i n rest is.queued.1 e in
      record {
        after = n ∷ xs;
        order = sym linked;
        queue = hand-IsQueue i n s xs e (subst (λ (r : List ℕ). IsQueue s (i ∷ r)) linked is);
      }

  -- The next access of the cpu at the head.
  head_moves :
      (p : Pc) (rest : List ℕ)
      → s.pc i ≡ p
      → IsQueue s (i ∷ rest)
      → Heads s i rest
      → Served (change c i p s.tail) i (i ∷ rest) (move c i p s)
  unfolding move test_state
  head_moves p rest at is (Heads.freed a b) =
      rw (sym at ∙ a, b)
        (stays i (i ∷ rest)
          (go-IsQueue i Pc.holding s rest is (Heads.holds (go_same i Pc.holding s))))
  head_moves p rest at is (Heads.holds a) = rw (sym at ∙ a) (loads rest is (s.nodes i).next refl)
  head_moves p rest at is (Heads.swaps a) =
      rw (sym at ∙ a, is_tail-eq i (last_of i rest) s.tail is.tail)
        (leaves rest is (last_of i rest == i) refl)
  head_moves p rest at is (Heads.awaits a b) =
      rw (sym at ∙ a) (loads_again rest is (s.nodes i).next refl)
  head_moves p rest at is (Heads.hands n a b) = rw (sym at ∙ a) (hands_over n rest b is)

  -- The next access of a cpu behind the head.
  behind_moves :
      (p : Pc) (h : ℕ) (rest : List ℕ)
      → s.pc i ≡ p
      → has i rest ≡ true
      → IsQueue s (h ∷ rest)
      → Behinds s (h ∷ rest) i
      → Served (change c i p s.tail) i (h ∷ rest) (move c i p s)
  unfolding move test_state
  behind_moves p h rest at e is (Behinds.links r a b d f) =
      rw (sym at ∙ a) (stays i (h ∷ rest) (link-IsQueue s i r a h rest e is))
  behind_moves p h rest at e is (Behinds.spins a b) = rw (sym at ∙ a, b) (stays i (h ∷ rest) is)

  -- A cpu with a cleared node comes to the queue.
  comes_first :
      has i [] ≡ false
      → (s.nodes i).next ≡ none
      → IsQueue s []
      → Served Change.joins i [] (go i Pc.holding (set_tail (some i) s))
  comes_first out a is = record {
    after = i ∷ [];
    order = refl;
    queue = record {
      distinct = (refl, tt);
      tail = refl;
      queued = (Heads.holds (go_same i Pc.holding s), a);
      outside = λ j away.
          Outside-congr j (go_other i j Pc.holding s (ground (arith, away))) refl refl
            (is.outside j refl);
    };
  }

  comes_last :
      (h : ℕ) (rest : List ℕ)
      → has i (h ∷ rest) ≡ false
      → (s.nodes i).next ≡ none
      → (s.nodes i).state ≡ NodeState.locked
      → IsQueue s (h ∷ rest)
      → Served Change.joins i (h ∷ rest) (go i (Pc.linking (last_of h rest)) (set_tail (some i) s))
  comes_last h rest out a b is =
      let p : Pc = Pc.linking (last_of h rest) in
      record {
        after = h ∷ rest ++ i ∷ [];
        order = refl;
        queue =
            join-IsQueue i s (go i p (set_tail (some i) s))
              (record { pc = λ j e. go_other i j p s e; state = λ j e. refl; next = λ j e. refl }) h
              rest out refl (go_same i p s) b a is;
      }

  gives_up :
      (h : ℕ) (rest : List ℕ)
      → has i (h ∷ rest) ≡ false
      → IsQueue s (h ∷ rest)
      → Served Change.stays_put i (h ∷ rest) (go i Pc.idle s)
  gives_up h rest out is = stays i (h ∷ rest) (
      Outside-IsQueue i s (go i Pc.idle s) (Others-go i Pc.idle s) (h ∷ rest) out refl
        (Outside.away (go_same i Pc.idle s)) is)

  tries :
      (h : ℕ) (rest : List ℕ)
      → has i (h ∷ rest) ≡ false
      → IsQueue s (h ∷ rest)
      → (t : Option ℕ) → t ≡ last (h ∷ rest)
      → Served (joins_if_free t) i (h ∷ rest) (try_exchange i t s)
  unfolding try_exchange
  tries h rest out is none e = absurd (ground (arith, e))
  tries h rest out is (some prev) e = gives_up h rest out is

  calls :
      (c : Call) (q : List ℕ)
      → has i q ≡ false
      → (s.nodes i).next ≡ none
      → (s.nodes i).state ≡ NodeState.locked
      → IsQueue s q
      → Served (change c i Pc.cleared s.tail) i q (enter_by c i s)
  unfolding enter_by exchange try_exchange
  calls Call.acquire [] out a b is = simp (is.tail) (comes_first out a is)
  calls Call.acquire (h ∷ rest) out a b is = simp (is.tail) (comes_last h rest out a b is)
  calls Call.trylock [] out a b is = simp (is.tail) (comes_first out a is)
  calls Call.trylock (h ∷ rest) out a b is = tries h rest out is s.tail is.tail

  beyond_moves :
      (p : Pc) (q : List ℕ)
      → s.pc i ≡ p
      → has i q ≡ false
      → IsQueue s q
      → Outside s i
      → Served (change c i p s.tail) i q (move c i p s)
  unfolding move
  beyond_moves p q at out is (Outside.away a) = rw (sym at ∙ a) (
      stays i q (
        Outside-IsQueue i s (go i Pc.cleared (clear i s))
          (record {
            pc = λ j e. ground (arith, e);
            state = λ j e. ground (arith, e);
            next = λ j e. ground (arith, e);
          })
          q out refl (Outside.cleared (ground arith) (ground arith) (ground arith)) is))
  beyond_moves p q at out is (Outside.cleared a b d) = rw (sym at ∙ a) (calls c q out b d is)

  pub access-IsQueue :
      (q : List ℕ) → IsQueue s q → Served (change c i (s.pc i) s.tail) i q (access c i s)
  unfolding access
  access-IsQueue [] is = beyond_moves (s.pc i) [] refl refl is (is.outside i refl)
  access-IsQueue (h ∷ rest) is = elim (Bool-cases (i == h)) [
    | inl e ↦ let eq : h ≡ i = ground (arith, e) in head_turn h eq is
    | inr e ↦ elim (Bool-cases (has i rest)) [
      | inl in_rest ↦
          behind_moves (s.pc i) h rest refl in_rest is
            (Behind-Behinds s h rest i is.queued.1 in_rest)
      | inr beyond ↦
          let out : has i (h ∷ rest) ≡ false = ground (arith, e, beyond) in
          beyond_moves (s.pc i) (h ∷ rest) refl out is (is.outside i out)
    ]
  ]
    where
      head_turn :
          (h : ℕ)
          → h ≡ i
          → IsQueue s (h ∷ rest)
          → Served (change c i (s.pc i) s.tail) i (h ∷ rest) (move c i (s.pc i) s)
      head_turn h eq =
          subst
            (λ (v : ℕ).
              IsQueue s (v ∷ rest)
              → Served (change c i (s.pc i) s.tail) i (v ∷ rest) (move c i (s.pc i) s))
            (sym eq) (λ own. head_moves (s.pc i) rest refl own own.queued.0)
