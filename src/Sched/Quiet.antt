-- ===== src/Sched/Quiet.antt =====
-- What the tick machine relies on of a policy: three of its operations never fail, and leave the
-- parts of the kernel alone that are the tick machine's own.
use workhorse_rt.Common.{ℕ, ◌≡◌, refl, arith, update, Bool-cases, inl, inr}
use workhorse_rt.Kernel.{Task, Kernel}
use workhorse_rt.Kernel.Monad.{Act, ok, is_lsr}
use workhorse_rt.Sched.{SchedOps}
use workhorse_rt.Sched.Window.{reset_lsr, leave_window}

-- The policy's own fields may differ.
pub record SameTicks (k after : Kernel) : Type 0 where
  pub this_cpu : after.this_cpu ≡ k.this_cpu
  pub k_tasks : after.k_tasks ≡ k.k_tasks
  pub frame_bmps : after.frame_bmps ≡ k.frame_bmps
  pub machines : after.machines ≡ k.machines
  pub replenish_nodes : after.replenish_nodes ≡ k.replenish_nodes
  pub sleep_nodes : after.sleep_nodes ≡ k.sleep_nodes
  pub trace : after.trace ≡ k.trace
  pub tick : (u : ℕ) → (after.tasks u).thread.tick ≡ (k.tasks u).thread.tick
  pub state : (u : ℕ) → (after.tasks u).state ≡ (k.tasks u).state
  pub type : (u : ℕ) → (after.tasks u).type ≡ (k.tasks u).type
  pub callbacks : (u : ℕ) → (after.tasks u).callbacks ≡ (k.tasks u).callbacks
  pub domain : (u : ℕ) → (after.tasks u).domain ≡ (k.tasks u).domain

abbrev pub Quiet : Act → Type 0
Quiet m = (k : Kernel) → (after : Kernel) × (m k ≡ ok tt after) × SameTicks k after

pub record IsQuiet (ops : SchedOps) : Type 0 where
  pub push : (t : ℕ) → Quiet (ops.push t)
  pub tick_callback : (t : ℕ) → Quiet (ops.tick_callback t)
  pub lsr_out_callback : (t : ℕ) → Quiet (ops.lsr_out_callback t)

pub same : (k : Kernel) → SameTicks k k
same k = record {
  this_cpu = refl;
  k_tasks = refl;
  frame_bmps = refl;
  machines = refl;
  replenish_nodes = refl;
  sleep_nodes = refl;
  trace = refl;
  tick = λ u. refl;
  state = λ u. refl;
  type = λ u. refl;
  callbacks = λ u. refl;
  domain = λ u. refl;
}

-- A task may change where the tick machine does not look.
pub same_but :
    (k : Kernel) (t : ℕ) (v : Task)
    → v.thread.tick ≡ (k.tasks t).thread.tick
    → v.state ≡ (k.tasks t).state
    → v.type ≡ (k.tasks t).type
    → v.callbacks ≡ (k.tasks t).callbacks
    → v.domain ≡ (k.tasks t).domain
    → SameTicks k (record k { tasks = update k.tasks t v })
same_but k t v a b c d e = record {
  this_cpu = refl;
  k_tasks = refl;
  frame_bmps = refl;
  machines = refl;
  replenish_nodes = refl;
  sleep_nodes = refl;
  trace = refl;
  tick = λ u. ground arith;
  state = λ u. ground arith;
  type = λ u. ground arith;
  callbacks = λ u. ground arith;
  domain = λ u. ground arith;
}

-- A task that is `v` from now on.
abbrev pub put : Kernel → ℕ → Task → Kernel
put k t v = record k { tasks = update k.tasks t v }

pub leave_window-Quiet : (t : ℕ) → Quiet (leave_window t)
unfolding leave_window
leave_window-Quiet t k =
    let v = k.tasks t in
    elim (Bool-cases (is_lsr v.type)) [
      | inl e ↦ (put k t (reset_lsr v), rw e, same_but k t (reset_lsr v) refl refl refl refl refl)
      | inr e ↦ (k, rw e, same k)
    ]
