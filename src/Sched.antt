-- ===== src/Sched.antt =====
-- src/workhorse/kSched/kSched.c: the table of tasks, and the scheduling policy as the record of
-- operations that gOps points to. The code of a policy fills that record.
pub mod Quiet
pub mod Window
pub mod Rr
pub mod Cyclic
pub mod Edf
pub mod Policy
use workhorse_rt.Common.{
  ℕ, ◌+◌, Bool, true, false, not, ◌&&◌, ◌||◌, Option, none, some, ltb, leb, if◌then◌else◌, update,
}
use workhorse_rt.Kernel.{Task, SchedState, TaskType, Kernel, Config, Event}
use workhorse_rt.Kernel.Monad.{
  M, Act, ok, pure, is_some, ◌>>=◌, ◌>>◌, get, modify, emit, assert, set_task,
}

-- kSchedOps_t
pub record SchedOps : Type 0 where
  pub init : Act
  pub tick_transition_callback : Act
  pub push : ℕ → Act
  pub pop : M ℕ
  pub tick_callback : ℕ → Act
  pub should_reschedule : M Bool
  pub lsr_out_callback : ℕ → Act
  pub get_idle : ℕ → M (Option ℕ)

-- Of an int result, whether it is 0; every other value is -EINVAL.
module _ (cfg : Config) where
  abbrev pub table_length : ℕ
  table_length = cfg.max_tasks + cfg.max_cpus

  unfoldable pub task_can_add : ℕ → Kernel → Bool
  task_can_add id k = ltb id table_length && not (is_some (k.k_tasks id))

  unfoldable pub task_get : ℕ → Kernel → Option ℕ
  task_get id k = if leb table_length id || not (is_some (k.k_tasks id)) then none else k.k_tasks id

  unfoldable pub task_add : ℕ → ℕ → M Bool
  task_add id t k =
      if leb table_length id || is_some (k.k_tasks id)
      then ok false k
      else ok true (record k {
        k_tasks = update k.k_tasks id (some t);
        tasks = update k.tasks t (record (k.tasks t) { task_id = id });
      })

  -- kSchedTaskIdleInit of include/workhorse/kSched/kSched.h, at the idle task `t` of this cpu.
  unfoldable pub idle_init : ℕ → Act
  unfolding task_add
  idle_init t = do
    k ← get
    set_task t
        (record (k.tasks t) { cpu_id = k.this_cpu; type = TaskType.idle; state = SchedState.ready })
    added ← task_add (cfg.max_tasks + k.this_cpu) t
    assert added
    emit (Event.activation t)

  -- The idle task of a cpu that the port knows: the lookup of every policy.
  unfoldable pub idle_of : ℕ → M (Option ℕ)
  idle_of cpu k =
      if cfg.cpu_id_validate cpu
      then (assert (ltb cpu cfg.max_cpus) >> pure (some (k.idle_task cpu))) k
      else ok none k
