-- ===== src/Sched/Rr/Queues.antt =====
-- The queues of the round robin policy: the bit of a queue is set exactly when it has a thread.
use workhorse_rt.Common.{ℕ, ◌≤◌, ◌<◌, ◌≡◌, refl, Bool, true, false, List, [], ◌∷◌, ◌++◌, arith}
use workhorse_rt.Bitmap.{test_bit}
use workhorse_rt.Bitmap.Bytes.{
  IsBytes, set_bit-IsBytes, unset_bit-IsBytes, test_bit-set_bit, test_bit-unset_bit,
}
use workhorse_rt.Kernel.{SchedulerRr}
use workhorse_rt.Sched.Rr.{enqueue, dequeue}

abbrev pub has_thread : List ℕ → Bool
has_thread [] = false
has_thread (_ ∷ _) = true

-- `n` is the number of priorities.
pub record IsQueues (n : ℕ) (s : SchedulerRr) : Type 0 where
  pub bytes : IsBytes s.active_qs
  pub active : (p : ℕ) → test_bit s.active_qs p ≡ has_thread (s.qs p)
  pub unused : (p : ℕ) → n ≤ p → s.qs p ≡ []

has_thread-append : (xs : List ℕ) (t : ℕ) → has_thread (xs ++ t ∷ []) ≡ true
has_thread-append [] t = refl
has_thread-append (x ∷ xs) t = refl

-- A thread pushed at one of the `n` priorities keeps the bits and the queues in step.
pub enqueue-IsQueues :
    (n : ℕ) (s : SchedulerRr) (prio t : ℕ) → IsQueues n s → prio < n → IsQueues n (enqueue s prio t)
enqueue-IsQueues n s prio t q h = record {
  bytes = set_bit-IsBytes s.active_qs prio q.bytes;
  active = λ p. ground (
    arith,
    test_bit-set_bit s.active_qs prio p q.bytes,
    q.active p,
    has_thread-append (s.qs prio) t,
  );
  unused = λ p above. ground (arith, q.unused p above);
}

-- So does a thread that leaves the front of its queue, the last one included.
pub dequeue-IsQueues :
    (n : ℕ) (s : SchedulerRr) (prio t : ℕ) (rest : List ℕ)
    → IsQueues n s
    → s.qs prio ≡ t ∷ rest
    → IsQueues n (dequeue s prio rest)
dequeue-IsQueues n s prio t [] q e = record {
  bytes = unset_bit-IsBytes s.active_qs prio q.bytes;
  active = λ p. ground (arith, test_bit-unset_bit s.active_qs prio p q.bytes, q.active p);
  unused = λ p above. ground (arith, q.unused p above);
}
dequeue-IsQueues n s prio t (u ∷ rest) q e = record {
  bytes = q.bytes;
  active = λ p. ground (arith, e, q.active p);
  unused = λ p above. ground (arith, e, q.unused p above);
}
