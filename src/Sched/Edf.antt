-- ===== src/Sched/Edf.antt =====
-- src/workhorse/kSched/kSchedPolicy/kSchedEdf.c: the ready threads of a cpu in a delta chain by their
-- deadlines. A node keeps its delta while its thread is out of the chain.
pub mod Renew
pub mod Kept
pub mod Pick
pub mod Queue
pub mod Spend
mod Tests
use workhorse_rt.Common.{
  ℕ, zero, suc, ◌+◌, ◌-◌, Bool, true, false, not, Option, none, some, ◌==◌, ltb, if◌then◌else◌,
  update, length,
}
use workhorse_rt.DeltaChain
use workhorse_rt.DeltaChain.{Nodes, DeltaChain, pop_expired, peek, set_delta}
use workhorse_rt.Kernel.{Task, TaskType, SchedState, Kernel, Config, Algorithm, ds, bcs}
use workhorse_rt.Kernel.Monad.{
  M, Act, ok, out_of_fuel, pure, ◌>>=◌, ◌>>◌, get, modify, assert, set_task, this_machine, task_of,
  not_null, is_running, is_deftick_sleep,
}
use workhorse_rt.Sched.{SchedOps, idle_init, idle_of}
use workhorse_rt.Sched.Window.{reset_idle, tick_lsr, tick_idle, leave_window}
use workhorse_rt.Tick.State.{throttle_time_left}

abbrev pub Timers : Type 0
Timers = Nodes × DeltaChain

-- The loop of kSchedFixupChainEdf on one chain: each thread whose deadline has come gets a new one.
unfoldable pub renew_one :
    (ℕ → ℕ) → (Nodes → DeltaChain → Option Timers) → Nodes → Option ℕ × DeltaChain → Option Timers
renew_one deadline again nodes (none, chain) = some (nodes, chain)
renew_one deadline again nodes (some t, chain) =
    let (nodes', chain') = DeltaChain.insert nodes chain t (deadline t) in again nodes' chain'

unfoldable pub fix_chain : (ℕ → ℕ) → ℕ → Nodes → DeltaChain → Option Timers
unfolding renew_one
fix_chain deadline zero nodes chain = none
fix_chain deadline (suc fuel) nodes chain =
    renew_one deadline (fix_chain deadline fuel) nodes (pop_expired nodes chain)

abbrev pub this_edf : Kernel → DeltaChain
this_edf k = k.edf k.this_cpu

abbrev pub set_edf : ℕ → Timers → Kernel → Kernel
set_edf cpu (nodes, chain) k = record k { edf_nodes = nodes; edf = update k.edf cpu chain }

abbrev pub deadline_of : Kernel → ℕ → ℕ
deadline_of k t = (k.tasks t).thread.virtual_deadline

abbrev pub fixed : Option Timers → Act
fixed none k = out_of_fuel
fixed (some timers) k = ok tt (set_edf k.this_cpu timers k)

-- kSchedFixupChainEdf
unfoldable pub fixup : Act
unfolding fix_chain
fixup k =
    fixed (fix_chain (deadline_of k) (suc (length (this_edf k).dq)) k.edf_nodes (this_edf k)) k

-- kSchedTickTransitionCallbackEdf
unfoldable pub tick_transition_callback : Act
tick_transition_callback k = ok tt (set_edf k.this_cpu (DeltaChain.tick k.edf_nodes (this_edf k)) k)

-- A thread goes back with what its deadline had left, or with a new deadline.
abbrev pub delta_of : ℕ → Kernel → ℕ
delta_of t k = if (k.edf_nodes t).delta == 0 then deadline_of k t else (k.edf_nodes t).delta

-- The switch of kSchedTaskPushEdf.
unfoldable pub push_as : TaskType → ℕ → Act
push_as TaskType.thread t k =
    let cpu = (k.tasks t).cpu_id in
    ok tt (set_edf cpu (DeltaChain.insert k.edf_nodes (k.edf cpu) t (delta_of t k)) k)
push_as TaskType.idle t k = set_task t (reset_idle (k.tasks t)) k
push_as _ t k = ok tt k

-- kSchedTaskPushEdf
unfoldable pub push : ℕ → Act
unfolding push_as
push t k = push_as (k.tasks t).type t k

-- The end of kSchedTaskPopEdf: a thread, or the idle task of an empty chain.
abbrev pub picked : Option ℕ → Timers → M ℕ
picked none timers k = ok (k.idle_task k.this_cpu) (set_edf k.this_cpu timers k)
picked (some t) timers k = ok t (set_edf k.this_cpu timers k)

abbrev pub pop_first : M ℕ
pop_first k =
    let (found, nodes, chain) = DeltaChain.pop k.edf_nodes (this_edf k) in
    picked found (nodes, chain) k

-- kSchedTaskPopEdf
unfoldable pub pop : M ℕ
unfolding fixup
pop = fixup >> pop_first

abbrev pub write_delta : ℕ → ℕ → Act
write_delta t d k = ok tt (record k { edf_nodes = set_delta k.edf_nodes t d })

-- What the period takes off the delta of a thread that has used up its budget.
unfoldable pub period_of : Algorithm → ℕ → Kernel → ℕ
period_of ds t k = if (k.tasks t).thread.tick.period == 0 then 0 else throttle_time_left t k
period_of bcs t k = (k.tasks t).thread.tick.period

-- The first deadline in the chain is before `delta`.
abbrev pub is_before : ℕ → Nodes → Option ℕ → Bool
is_before delta nodes none = false
is_before delta nodes (some next) = ltb (nodes next).delta delta

-- The running thread against the first one in the chain of its cpu.
unfoldable pub preempted : ℕ → M Bool
unfolding fixup
preempted t = do
  k ← get
  fixup
  k' ← get
  pure (is_before (k.edf_nodes t).delta k'.edf_nodes (peek (k'.edf (k.tasks t).cpu_id)))

module _ (cfg : Config) where
  -- The delta of a thread after the tick, from the one it has left.
  abbrev pub next_delta : ℕ → Kernel → ℕ → ℕ
  next_delta t k left =
      if (k.tasks t).thread.tick.current_budget == 0
      then (if ltb left (period_of cfg.algorithm t k)
          then 0
          else left - period_of cfg.algorithm t k)
      else (if left == 0 then deadline_of k t else left)

  unfoldable pub spend : ℕ → Act
  unfolding period_of
  spend t = do
    k ← get
    assert (ltb 0 (k.edf_nodes t).delta)
    write_delta t (next_delta t k ((k.edf_nodes t).delta - 1))

  -- A thread that goes to sleep spends the ticks of its sleep, and all its delta if they are more.
  unfoldable pub spend_sleep : ℕ → Act
  unfolding spend
  spend_sleep t k =
      let sleep : ℕ = (k.tasks t).thread.tick.sleep_ticks in
      if ltb (k.edf_nodes t).delta sleep
      then write_delta t 0 k
      else (write_delta t ((k.edf_nodes t).delta - (sleep - 1)) >> spend t) k

  unfoldable pub tick_thread : ℕ → Act
  unfolding spend spend_sleep
  tick_thread t k =
      if is_deftick_sleep (k.tasks t).state
      then (assert (ltb 0 (k.tasks t).thread.tick.sleep_ticks) >> spend_sleep t) k
      else spend t k

  -- The switch of kSchedTaskTickCallbackEdf.
  unfoldable pub tick_as : TaskType → ℕ → Act
  unfolding tick_thread
  tick_as TaskType.thread t k = tick_thread t k
  tick_as TaskType.lsr t k = set_task t (tick_lsr (k.tasks t)) k
  tick_as TaskType.idle t k = set_task t (tick_idle (k.tasks t)) k
  tick_as TaskType.invalid t k = ok tt k

  -- kSchedTaskTickCallbackEdf
  unfoldable pub tick_callback : ℕ → Act
  unfolding tick_as
  tick_callback t k = tick_as (k.tasks t).type t k

  -- kSchedShouldRescheduleEdf
  unfoldable pub should_reschedule : M Bool
  unfolding preempted
  should_reschedule = do
    k ← get
    t ← not_null (this_machine k).running_task
    v ← task_of t
    assert (is_running v.state)
    elim v.type [
      | TaskType.thread ↦ preempted t
      | TaskType.idle ↦ pure (not (DeltaChain.is_empty (k.edf v.cpu_id)))
      | _ ↦ pure false
    ]

  -- kSchedTaskLsrOutCallbackEdf
  unfoldable pub lsr_out_callback : ℕ → Act
  lsr_out_callback = leave_window

  -- kSchedGetIdleEdf
  unfoldable pub get_idle : ℕ → M (Option ℕ)
  get_idle = idle_of cfg

  -- kSchedInitEdf
  unfoldable pub init : Act
  init k = idle_init cfg (k.idle_task k.this_cpu) k

  -- `ops` of kSchedEdf.c
  unfoldable pub ops : SchedOps
  unfolding tick_transition_callback push pop tick_callback should_reschedule lsr_out_callback
      get_idle init
  ops = record {
    init = init;
    tick_transition_callback = tick_transition_callback;
    push = push;
    pop = pop;
    tick_callback = tick_callback;
    should_reschedule = should_reschedule;
    lsr_out_callback = lsr_out_callback;
    get_idle = get_idle;
  }
