-- ===== src/Dsa/Stackq.antt =====
-- include/lib/dsa/stackq.h: stacks of nodes that point to the one under them.
use workhorse_rt.Common.{
  ℕ, ◌≡◌, refl, Bool, true, false, Option, none, some, List, [], ◌∷◌, arith, update, has, Distinct,
  subst,
}
use workhorse_rt.Dsa.Ends.{first_or}
use workhorse_rt.Dsa.Chain.{Chain, Chain-update}

-- A stack, with the `under` of each node in memory.
pub record Stackq : Type 0 where
  pub top : Option ℕ
  pub under : ℕ → Option ℕ

abbrev pub set_under : ℕ → Option ℕ → Stackq → Stackq
set_under node p q = record q { under = update q.under node p }

abbrev pub set_top : Option ℕ → Stackq → Stackq
set_top p q = record q { top = p }

unfoldable pub push : ℕ → Stackq → Stackq
push node q = set_top (some node) (set_under node q.top q)

unfoldable pub pop_at : Option ℕ → Stackq → Option ℕ × Stackq
pop_at none q = (none, q)
pop_at (some top) q = (some top, set_under top none (set_top (q.under top) q))

unfoldable pub pop : Stackq → Option ℕ × Stackq
unfolding pop_at
pop q = pop_at q.top q

abbrev pub is_empty : Stackq → Bool
is_empty q = elim q.top [ none ↦ true | some node ↦ false ]

pub record IsStackq (q : Stackq) (xs : List ℕ) : Type 0 where
  pub distinct : Distinct xs
  pub top : q.top ≡ first_or xs none
  pub chain : Chain q.under xs none

pub push-IsStackq :
    (q : Stackq) (x : ℕ) (xs : List ℕ)
    → IsStackq q xs
    → has x xs ≡ false
    → IsStackq (push x q) (x ∷ xs)
unfolding push
push-IsStackq q x xs is out = record {
  distinct = (out, is.distinct);
  top = refl;
  chain = (ground (arith, is.top), Chain-update q.under x q.top xs none out is.chain);
}

pub pop-IsStackq :
    (q : Stackq) (x : ℕ) (xs : List ℕ)
    → IsStackq q (x ∷ xs)
    → ((pop q).0 ≡ some x) × IsStackq (pop q).1 xs
unfolding pop pop_at
pop-IsStackq q x xs is = at q.top is.top
  where
    here : (w : ℕ) → x ≡ w → IsStackq (set_under w none (set_top (q.under w) q)) xs
    here w e =
        subst (λ (u : ℕ). IsStackq (set_under u none (set_top (q.under u) q)) xs) e
          (record {
            distinct = is.distinct.1;
            top = is.chain.0;
            chain = Chain-update q.under x none xs none is.distinct.0 is.chain.1;
          })

    at : (v : Option ℕ) → v ≡ some x → ((pop_at v q).0 ≡ some x) × IsStackq (pop_at v q).1 xs
    at none e = absurd (ground (arith, e))
    at (some w) e = (e, here w (ground (arith, e)))

pub pop-empty : (q : Stackq) → IsStackq q [] → pop q ≡ (none, q)
unfolding pop pop_at
pop-empty q is = at q.top is.top
  where
    at : (v : Option ℕ) → v ≡ none → pop_at v q ≡ (none, q)
    at none e = refl
    at (some x) e = absurd (ground (arith, e))
