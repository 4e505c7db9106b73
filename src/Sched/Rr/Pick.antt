-- ===== src/Sched/Rr/Pick.antt =====
-- What the round robin policy runs next.
use workhorse_rt.Common.{
  ℕ, ◌≤◌, ◌<◌, ◌≡◌, refl, true, false, Option, none, some, List, [], ◌∷◌, arith, ltb, sym, ◌∙◌,
  update, Bool-cases, inl, inr,
}
use workhorse_rt.Bitmap.{test_bit, fls}
use workhorse_rt.Bitmap.Scan.{IsHighest, fls-IsHighest}
use workhorse_rt.Kernel.{SchedulerRr, Kernel, Config}
use workhorse_rt.Kernel.Monad.{ok}
use workhorse_rt.Sched.Rr.{pop, this_rr, dequeue, set_rr, set_remaining, pop_queue}
use workhorse_rt.Sched.Rr.Queues.{has_thread, IsQueues, dequeue-IsQueues}

-- The front thread of the highest queue that has one.
pub record Front (n : ℕ) (s : SchedulerRr) : Type 0 where
  pub prio : ℕ
  pub task : ℕ
  pub rest : List ℕ
  pub in_range : prio < n
  pub front : s.qs prio ≡ task ∷ rest
  pub highest : (p : ℕ) → prio < p → p < n → s.qs p ≡ []

no_thread : (xs : List ℕ) → has_thread xs ≡ false → xs ≡ []
no_thread [] h = refl
no_thread (x ∷ xs) h = cc

first_of_queue :
    (xs : List ℕ)
    → has_thread xs ≡ true
    → record { head : ℕ; tail : List ℕ; split : xs ≡ head ∷ tail }
first_of_queue [] h = cc
first_of_queue (x ∷ xs) h = record { head = x; tail = xs; split = refl }

empty_of_bit :
    {n : ℕ} {s : SchedulerRr} (q : IsQueues n s) (p : ℕ)
    → test_bit s.active_qs p ≡ false
    → s.qs p ≡ []
empty_of_bit {s} q p h = no_thread (s.qs p) (sym (q.active p) ∙ h)

-- Every queue is empty, or one of them has the highest thread: what the scan of the bits says.
pub data Highest (n : ℕ) (s : SchedulerRr) (low : ℕ) (r : Option ℕ) : Type 0 where
  idle : r ≡ none → ((p : ℕ) → low ≤ p → p < n → s.qs p ≡ []) → Highest n s low r
  thread : (f : Front n s) → low ≤ f.prio → r ≡ some f.prio → Highest n s low r

pub fls-Highest :
    (n : ℕ) (s : SchedulerRr) (low : ℕ) → IsQueues n s → Highest n s low (fls s.active_qs n low)
fls-Highest n s low q = go (fls s.active_qs n low) (fls-IsHighest s.active_qs n low)
  where
    go : (r : Option ℕ) → IsHighest s.active_qs n low r → Highest n s low r
    go none h = Highest.idle refl (λ p from below. empty_of_bit q p (h p from below))
    go (some i) h =
        let f = first_of_queue (s.qs i) (sym (q.active i) ∙ h.2) in
        Highest.thread
          (record {
            prio = i;
            task = f.head;
            rest = f.tail;
            in_range = h.1;
            front = f.split;
            highest = λ p above below. empty_of_bit q p (h.3 p above below);
          })
          h.0 refl

-- What kSchedTaskPopRr returns: the idle task when no thread is ready; otherwise the front thread of
-- the highest queue, with a full timeslice, and the other threads stay in order.
pub data Popped (cfg : Config) (k : Kernel) : Type 0 where
  idle :
      ((p : ℕ) → (this_rr k).qs p ≡ []) → pop cfg k ≡ ok (k.idle_task k.this_cpu) k → Popped cfg k
  thread :
      (f : Front cfg.num_prio (this_rr k)) (after : Kernel)
      → pop cfg k ≡ ok f.task after
      → (this_rr after).qs ≡ update (this_rr k).qs f.prio f.rest
      → (after.tasks f.task).thread.remaining_timeslice_ticks
        ≡ (k.tasks f.task).thread.param_rr.timeslice_ticks
      → IsQueues cfg.num_prio (this_rr after)
      → Popped cfg k

after_pop : (cfg : Config) (k : Kernel) → Front cfg.num_prio (this_rr k) → Kernel
after_pop cfg k f =
    set_remaining f.task (k.tasks f.task).thread.param_rr.timeslice_ticks
      (set_rr k k.this_cpu (dequeue (this_rr k) f.prio f.rest))

this_rr-after_pop :
    (cfg : Config) (k : Kernel) (f : Front cfg.num_prio (this_rr k))
    → this_rr (after_pop cfg k f) ≡ dequeue (this_rr k) f.prio f.rest
unfolding after_pop
this_rr-after_pop cfg k f = ground arith

pop-thread :
    (cfg : Config) (k : Kernel) (f : Front cfg.num_prio (this_rr k))
    → fls (this_rr k).active_qs cfg.num_prio 0 ≡ some f.prio
    → pop cfg k ≡ ok f.task (after_pop cfg k f)
unfolding pop after_pop
pop-thread cfg k f e = rw (e, pop) (rw (f.front, pop_queue))

-- From queues in step with their bits, kSchedTaskPopRr never fails, picks by fixed priority and in
-- the order of arrival within a priority, and leaves the queues in step with their bits.
pub pop-Popped : (cfg : Config) (k : Kernel) → IsQueues cfg.num_prio (this_rr k) → Popped cfg k
pop-Popped cfg k q = elim (fls-Highest cfg.num_prio (this_rr k) 0 q) [
  | Highest.idle e none_ready ↦
      Popped.idle
        (λ p. elim (Bool-cases (ltb p cfg.num_prio)) [
          | inl below ↦ none_ready p (omega arith) (ground arith)
          | inr above ↦ q.unused p (ground arith)
        ])
        (unfold pop in rw (e, pop))
  | Highest.thread f low e ↦
      let r = this_rr-after_pop cfg k f in
      Popped.thread f (after_pop cfg k f) (pop-thread cfg k f e) (rw r)
        (unfold after_pop in ground arith)
        (rw r (dequeue-IsQueues cfg.num_prio (this_rr k) f.prio f.task f.rest q f.front))
]
