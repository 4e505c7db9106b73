-- ===== src/Sched/Rr/Preempt.antt =====
-- When the round robin policy takes the cpu from the running thread.
use workhorse_rt.Common.{
  ℕ, ◌<◌, ◌≡◌, ◌≢◌, ◌⊎◌, refl, true, false, none, some, [], arith, ◌==◌, ltb, ◌∙◌, if◌then◌else◌,
  Bool-cases, inl, inr, ap,
}
use workhorse_rt.Bitmap.{fls}
use workhorse_rt.Kernel.{SchedulerRr, Kernel, Config}
use workhorse_rt.Kernel.Monad.{ok}
use workhorse_rt.Sched.Rr.{preempted, refill, set_remaining}
use workhorse_rt.Sched.Rr.Queues.{has_thread, IsQueues}
use workhorse_rt.Sched.Rr.Pick.{Highest, fls-Highest, Front}

abbrev pub rr_of : Kernel → ℕ → SchedulerRr
rr_of k t = k.rr (k.tasks t).cpu_id

abbrev pub prio_of : Kernel → ℕ → ℕ
prio_of k t = (k.tasks t).thread.param_rr.prio

abbrev pub left_of : Kernel → ℕ → ℕ
left_of k t = (k.tasks t).thread.remaining_timeslice_ticks

-- The timeslice of a thread that keeps the cpu: what it had, or a new one after the last tick of it.
abbrev pub left_after : Kernel → ℕ → ℕ
left_after k t =
    if left_of k t == 0 then (k.tasks t).thread.param_rr.timeslice_ticks else left_of k t

-- A queue above the priority of the thread has a thread, or its own queue has one and its timeslice
-- is over.
abbrev pub MustYield : Config → Kernel → ℕ → Type 0
MustYield cfg k t =
    ((p : ℕ) × (prio_of k t < p) × (p < cfg.num_prio) × (has_thread ((rr_of k t).qs p) ≡ true))
    ⊎ ((has_thread ((rr_of k t).qs (prio_of k t)) ≡ true) × (left_of k t ≡ 0))

module _ (cfg : Config) (k : Kernel) (t : ℕ) where
  not-MustYield :
      ((p : ℕ) → prio_of k t < p → p < cfg.num_prio → (rr_of k t).qs p ≡ [])
      → (has_thread ((rr_of k t).qs (prio_of k t)) ≡ true → left_of k t ≢ 0)
      → ¬ MustYield cfg k t
  not-MustYield above own (inl (p, over, below, h)) =
      let e : has_thread ((rr_of k t).qs p) ≡ false = rw (above p over below) in cc
  not-MustYield above own (inr (h, over)) = own h over

  preempted-none :
      fls (rr_of k t).active_qs cfg.num_prio (prio_of k t) ≡ none
      → preempted cfg t k ≡ refill cfg t k
  unfolding preempted
  preempted-none e = rw (e, preempted)

  preempted-above :
      (i : ℕ)
      → fls (rr_of k t).active_qs cfg.num_prio (prio_of k t) ≡ some i
      → ltb (prio_of k t) i ≡ true
      → preempted cfg t k ≡ ok true k
  unfolding preempted
  preempted-above i e h = rw (e, preempted) (rw h)

  preempted-level :
      fls (rr_of k t).active_qs cfg.num_prio (prio_of k t) ≡ some (prio_of k t)
      → preempted cfg t k ≡ ok (left_of k t == 0) k
  unfolding preempted
  preempted-level e = rw (e, preempted) (ground arith)

  refilled : Kernel
  refilled =
      if left_of k t == 0 then set_remaining t (k.tasks t).thread.param_rr.timeslice_ticks k else k

  refill-refilled :
      0 < (k.tasks t).thread.param_rr.timeslice_ticks
      → (refill cfg t k ≡ ok false refilled)
        × (left_of refilled t ≡ left_after k t)
        × (refilled.rr ≡ k.rr)
  unfolding refill refilled
  refill-refilled h = ground arith

-- The answer for a running thread, by its queues.
pub preempted-MustYield :
    (cfg : Config) (k : Kernel) (t : ℕ)
    → IsQueues cfg.num_prio (k.rr (k.tasks t).cpu_id)
    → (k.tasks t).thread.param_rr.prio < cfg.num_prio
    → 0 < (k.tasks t).thread.param_rr.timeslice_ticks
    → ((preempted cfg t k ≡ ok true k) × MustYield cfg k t)
      ⊎ ((after : Kernel) × (preempted cfg t k ≡ ok false after)
          × ¬ MustYield cfg k t
          × (left_of after t ≡ left_after k t)
          × (after.rr ≡ k.rr))
preempted-MustYield cfg k t q small slice =
    elim (fls-Highest cfg.num_prio (rr_of k t) (prio_of k t) q) [
      | Highest.idle e none_ready ↦
          let (r, left, same) = refill-refilled cfg k t slice in
          inr (
            refilled cfg k t,
            preempted-none cfg k t e ∙ r,
            not-MustYield cfg k t (λ p over below. none_ready p (omega arith) below)
                (λ h.
                  let e' : has_thread ((rr_of k t).qs (prio_of k t)) ≡ false =
                    rw (none_ready (prio_of k t) (omega arith) small) in
                  cc),
            left,
            same,
          )
      | Highest.thread f low e ↦ elim (Bool-cases (ltb (prio_of k t) f.prio)) [
        | inl above ↦ inl (
          preempted-above cfg k t f.prio e above,
          inl (f.prio, ground arith, f.in_range, rw f.front),
        )
        | inr level ↦ level_case f (ground arith) e
      ]
    ]
  where
    level_case :
        (f : Front cfg.num_prio (rr_of k t))
        → f.prio ≡ prio_of k t
        → fls (rr_of k t).active_qs cfg.num_prio (prio_of k t) ≡ some f.prio
        → ((preempted cfg t k ≡ ok true k) × MustYield cfg k t)
          ⊎ ((after : Kernel) × (preempted cfg t k ≡ ok false after)
              × ¬ MustYield cfg k t
              × (left_of after t ≡ left_after k t)
              × (after.rr ≡ k.rr))
    level_case f same e =
        let r = preempted-level cfg k t (e ∙ ap some same) in
        elim (Bool-cases (left_of k t == 0)) [
          | inl over ↦
              let queued : has_thread ((rr_of k t).qs f.prio) ≡ true = rw f.front in
              inl (rw over at r, inr (rw same at queued, ground arith))
          | inr left ↦ inr (
            k,
            rw left at r,
            not-MustYield cfg k t (λ p over below. f.highest p (ground arith) below)
                (λ h. ground arith),
            ground arith,
            refl,
          )
        ]
