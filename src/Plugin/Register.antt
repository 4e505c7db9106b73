-- ===== src/Plugin/Register.antt =====
-- kPluginInitTaskThread as a whole: a thread is refused without a trace, or runs from then on.
use workhorse_rt.Common.{ℕ, ◌+◌, ◌≤◌, ◌<◌, ◌≡◌, ◌≢◌, ◌⊎◌, true, false, none, some, ◌∷◌, update}
use workhorse_rt.Bitmap.{Bitmap}
use workhorse_rt.Kernel.{Kernel, Config, TaskType, SchedState, Event}
use workhorse_rt.Kernel.Monad.{ok}
use workhorse_rt.Sched.Policy.{Policy}
use workhorse_rt.Plugin.{Port, InitResult, ThreadParam, in_domain, as_thread, init_task_thread}
use workhorse_rt.Plugin.Thread.{Refusal, Admission}

-- The thread is in the table under its number, ready, with a full budget, in its domain.
pub record Registered (t : ℕ) (p : ThreadParam) (d : ℕ) (frames : ℕ → Bitmap) (after : Kernel)
    : Type 0 where
  pub listed : after.k_tasks p.task_id ≡ some t
  pub frame_bmps : after.frame_bmps ≡ frames
  pub ready : (after.tasks t).state ≡ SchedState.ready
  pub thread : (after.tasks t).type ≡ TaskType.thread
  pub full : (after.tasks t).thread.tick.current_budget ≡ p.budget
  pub budget : (after.tasks t).thread.tick.budget ≡ p.budget
  pub period : (after.tasks t).thread.tick.period ≡ p.period
  pub callbacks : (after.tasks t).callbacks ≡ p.callbacks
  pub domain : (after.tasks t).domain ≡ in_domain d

module _ (cfg : Config) (policy : Policy) (port : Port) (t : ℕ) (p : ThreadParam) where
  abbrev filled : ℕ → Kernel → Kernel
  filled d k = record k { tasks = update k.tasks t (as_thread p d (k.tasks t)) }

  abbrev listed_in : ℕ → Kernel → Kernel
  listed_in d k = record (filled d k) {
    k_tasks = update k.k_tasks p.task_id (some t);
    tasks = update (filled d k).tasks t (record ((filled d k).tasks t) { task_id = p.task_id });
    trace = Event.ctx_init t (k.domains d).invocation_info.start ∷ k.trace;
  }

-- Why a task may not start: its cpu, its number or its domain.
pub data Unusable (cfg : Config) (p : ThreadParam) (k : Kernel) : Type 0 where
  no_cpu : cfg.cpu_id_validate p.cpu_id ≡ false → Unusable cfg p k
  no_slot : cfg.max_tasks + cfg.max_cpus ≤ p.task_id → Unusable cfg p k
  task_taken : (u : ℕ) → k.k_tasks p.task_id ≡ some u → Unusable cfg p k
  no_domain_slot : cfg.max_domains ≤ p.dom_id → Unusable cfg p k
  no_domain : k.domain_table p.dom_id ≡ none → Unusable cfg p k

-- The cpu is there, the number of the task is free, and the domain is in the table.
pub record Usable (cfg : Config) (p : ThreadParam) (k : Kernel) (d : ℕ) : Type 0 where
  pub cpu : cfg.cpu_id_validate p.cpu_id ≡ true
  pub number_fits : p.task_id < cfg.max_tasks + cfg.max_cpus
  pub task_free : k.k_tasks p.task_id ≡ none
  pub domain_slot : p.dom_id < cfg.max_domains
  pub domain : k.domain_table p.dom_id ≡ some d

-- What kPluginInitTaskThread does with a thread.
pub data Outcome (cfg : Config) (policy : Policy) (port : Port) (t : ℕ) (p : ThreadParam)
    (k : Kernel) : Type 0 where
  refused :
      Unusable cfg p k ⊎ ((p.budget ≡ 0) ⊎ Refusal cfg p k policy)
      → init_task_thread cfg policy port t p k ≡ ok InitResult.refused k
      → Outcome cfg policy port t p k
  port_error :
      (e : ℕ)
      → port.thread_info_init p.arch_param ≡ some e
      → init_task_thread cfg policy port t p k ≡ ok (InitResult.port_error e) k
      → Outcome cfg policy port t p k
  registered :
      (d : ℕ) (frames : ℕ → Bitmap) (after : Kernel)
      → Usable cfg p k d
      → p.budget ≢ 0
      → Admission cfg p k policy frames
      → init_task_thread cfg policy port t p k ≡ ok InitResult.done after
      → Registered t p d frames after
      → Outcome cfg policy port t p k
