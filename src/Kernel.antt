-- ===== src/Kernel.antt =====
-- The state of the kernel: include/workhorse/kSched/kSchedTask.h, kTick/kTick.h,
-- kDomainUniverse/kDomainUniverse.h and kSched/kSchedPolicy/*Defs.h below include/workhorse.
-- A pointer to an object is a number, NULL is `none`, and the objects behind the pointers are
-- families. A union is the product of its members, of which the code uses the one that the tag
-- names; the members that a configuration leaves out stand there unused. A list node that a task
-- embeds goes by the pointer of that task, so containerOf is the identity.
pub mod Monad
pub mod Sample
use workhorse_rt.Common.{ℕ, Bool, true, false, Option, List}
use workhorse_rt.Bitmap.{Bitmap}
use workhorse_rt.DeltaChain.{Nodes, DeltaChain}

pub data TaskType : Type 0 where
  invalid thread lsr idle : TaskType

pub data SchedState : Type 0 where
  invalid ready running thread_throttled lsr_dormant deftick_yield deftick_throttle : SchedState
  deftick_sleep deftick_pending thread_sleep pending lsr_pending failure : SchedState

-- K_SCHED_TASK_ACTIVATED
unfoldable pub is_activated : SchedState → Bool
is_activated SchedState.invalid = false
is_activated SchedState.thread_throttled = false
is_activated SchedState.lsr_dormant = false
is_activated SchedState.thread_sleep = false
is_activated SchedState.failure = false
is_activated _ = true

-- kSchedTick_t; its two delta nodes are in `replenish_nodes` and `sleep_nodes` of the kernel.
pub record SchedTick : Type 0 where
  pub current_budget : ℕ
  pub budget : ℕ
  pub period : ℕ
  pub sleep_ticks : ℕ
  pub lag : Bool

pub record ParamRr : Type 0 where
  pub timeslice_ticks : ℕ
  pub prio : ℕ

pub record ParamCyclic : Type 0 where
  pub frame_bmp : Bitmap
  pub timeslice_ticks : ℕ

pub record LinkCyclic : Type 0 where
  pub initialized : Bool
  pub remaining_timeslice_ticks : ℕ

-- The link of an LSR or an idle task, the same in the three policies.
pub record Window : Type 0 where
  pub idle_window_epoch : ℕ
  pub largest_window_epoch : ℕ

pub record Thread : Type 0 where
  pub param_rr : ParamRr
  pub param_cyclic : ParamCyclic
  pub virtual_deadline : ℕ
  pub remaining_timeslice_ticks : ℕ
  pub link_cyclic : LinkCyclic
  pub tick : SchedTick

-- A callback is the address of a function of a plugin.
pub record Callbacks : Type 0 where
  pub tick_callback_fn : Option ℕ
  pub in_callback_fn : Option ℕ
  pub out_callback_fn : Option ℕ
  pub activation_callback_fn : Option ℕ
  pub response_callback_fn : Option ℕ

pub data InvocationType : Type 0 where
  invalid ipc vmem_fault illegal_opcode alignment debug arithmetic other : InvocationType

pub record InvocationEntry : Type 0 where
  pub invoking_domain : Option ℕ
  pub type : InvocationType
  pub return_address : ℕ
  pub vmem_fault_address : ℕ
  pub error_code : ℕ

-- The `domain` member of a task.
pub record TaskDomain : Type 0 where
  pub cur_domain : Option ℕ
  pub invocation_stack : ℕ → InvocationEntry
  pub invocation_stack_depth : ℕ

pub record Task : Type 0 where
  pub cpu_id : ℕ
  pub task_id : ℕ
  pub state : SchedState
  pub type : TaskType
  pub thread : Thread
  pub lsr : Window
  pub idle : Window
  pub callbacks : Callbacks
  pub domain : TaskDomain

pub record EntryPoint : Type 0 where
  pub entry : ℕ
  pub valid : Bool

pub record InvocationInfo : Type 0 where
  pub invoke_perm_map : Bitmap
  pub start : ℕ
  pub invocation_ipc : EntryPoint
  pub exception_vmem_fault : EntryPoint
  pub exception_illegal_opcode : EntryPoint
  pub exception_alignment : EntryPoint
  pub exception_debug : EntryPoint
  pub exception_arithmetic : EntryPoint
  pub exception_other : EntryPoint

pub record Domain : Type 0 where
  pub dom_id : ℕ
  pub invocation_info : InvocationInfo

pub record TickMachine : Type 0 where
  pub running_task : Option ℕ
  pub replenishment_chain : DeltaChain
  pub sleep_chain : DeltaChain
  pub deferred_ticks : List ℕ
  pub pending_lsr_chain : List ℕ
  pub pending_task_lsr : Option ℕ

-- kSchedulerRr_t: a queue and a bit for each priority.
pub record SchedulerRr : Type 0 where
  pub qs : ℕ → List ℕ
  pub active_qs : Bitmap

pub record SchedulerCyclic : Type 0 where
  pub frames : ℕ → Option ℕ
  pub clock : ℕ
  pub num_ready_threads : ℕ

-- What a deferred interrupt of the cpu to itself runs (kCpuSelfIpi).
pub data Routine : Type 0 where
  yield throttle lsr_done failure sleep_ms : Routine

-- Calls into the code of a port or of a plugin, which the model records.
pub data Event : Type 0 where
  enter_domain : Option ℕ → Event
  save_ctx restore_ctx lsr_push activation response : (task : ℕ) → Event
  call : (fn task : ℕ) → Event
  set_syscall_return set_exception_return : (pc : ℕ) → Event
  ctx_init : (task pc : ℕ) → Event
  self_ipi : Routine → Event

-- The globals of the kernel and of the plugin interface, with one TickMachine and one scheduler to a cpu.
pub record Kernel : Type 0 where
  pub this_cpu : ℕ
  pub tasks : ℕ → Task
  pub k_tasks : ℕ → Option ℕ
  pub machines : ℕ → TickMachine
  pub rr : ℕ → SchedulerRr
  pub cyclic : ℕ → SchedulerCyclic
  pub edf : ℕ → DeltaChain
  pub idle_task : ℕ → ℕ
  pub replenish_nodes : Nodes
  pub sleep_nodes : Nodes
  pub edf_nodes : Nodes
  pub domains : ℕ → Domain
  pub domain_table : ℕ → Option ℕ
  pub frame_bmps : ℕ → Bitmap
  pub plugins_done : Bool
  pub trace : List Event

-- The throttling algorithm: KSCHED_ALGORITHM_DS or KSCHED_ALGORITHM_BCS.
pub data Algorithm : Type 0 where
  ds bcs : Algorithm

-- The values of Kconfig that the code reads, and the cpu check of the port.
pub record Config : Type 0 where
  pub algorithm : Algorithm
  pub max_cpus : ℕ
  pub max_tasks : ℕ
  pub max_domains : ℕ
  pub max_depth : ℕ
  pub num_prio : ℕ
  pub num_frames : ℕ
  pub tick_ms : ℕ
  pub cpu_id_validate : ℕ → Bool
