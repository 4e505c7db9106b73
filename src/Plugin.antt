-- ===== src/Plugin.antt =====
-- src/plugin/kPlugin.c: what a plugin registers before the kernel starts to tick. The port's own
-- parts of a task or a domain are behind `Port`, whose functions give a negative errno or 0.
pub mod Reserve
pub mod Thread
pub mod Start
pub mod Register
pub mod Domains
pub mod Lsrs
mod Tests
use workhorse_rt.Common.{
  ℕ, zero, suc, ◌+◌, Bool, true, false, not, ◌&&◌, ◌||◌, Option, none, some, ◌==◌, leb,
  if◌then◌else◌, update,
}
use workhorse_rt.Bitmap.{Bitmap, ffs, set_bit, test_bit}
use workhorse_rt.Kernel.{
  Task, TaskDomain, TaskType, SchedState, Callbacks, InvocationEntry, InvocationType,
  InvocationInfo, ParamRr, ParamCyclic, Kernel, Config, Event,
}
use workhorse_rt.Kernel.Monad.{
  M, Act, ok, out_of_fuel, pure, ◌>>=◌, ◌>>◌, get, emit, assert, set_task,
}
use workhorse_rt.Sched.{SchedOps, task_can_add, task_add}
use workhorse_rt.Sched.Policy.{Policy, ops_of}
use workhorse_rt.Domain.{universe_get, universe_can_add, universe_add}
use workhorse_rt.Tick.Switch.{plugin_task_thread_init}

-- kCpuThreadInfoInit, kCpuLsrInfoInit and kCpuDomainInfoInit on the parameters of the port: `none`
-- for 0, and the number of a negative result.
pub record Port : Type 0 where
  pub thread_info_init : ℕ → Option ℕ
  pub lsr_info_init : ℕ → Option ℕ
  pub domain_info_init : ℕ → Option ℕ

-- 0, -EINVAL, or the error of the port.
pub data InitResult : Type 0 where
  done refused : InitResult
  port_error : ℕ → InitResult

-- kPluginTaskThreadParam_t, with the parameters of the three policies.
pub record ThreadParam : Type 0 where
  pub cpu_id : ℕ
  pub dom_id : ℕ
  pub task_id : ℕ
  pub budget : ℕ
  pub period : ℕ
  pub param_rr : ParamRr
  pub param_cyclic : ParamCyclic
  pub virtual_deadline : ℕ
  pub arch_param : ℕ
  pub callbacks : Callbacks

pub record LsrParam : Type 0 where
  pub cpu_id : ℕ
  pub dom_id : ℕ
  pub task_id : ℕ
  pub arch_param : ℕ
  pub callbacks : Callbacks

pub record DomainParam : Type 0 where
  pub dom_id : ℕ
  pub invocation_info : InvocationInfo
  pub arch_param : ℕ

-- The first loop over the frames of a thread: whether one is taken.
unfoldable pub overlaps : ℕ → Bitmap → ℕ → ℕ → Bitmap → Option Bool
overlaps n own zero low bmp = none
overlaps n own (suc fuel) low bmp = elim (ffs own n low) [
  | none ↦ some false
  | some bit ↦
      let others = overlaps n own fuel (bit + 1) bmp in
      if test_bit bmp bit then some true else others
]

-- The second loop: the frames are taken now.
unfoldable pub reserve : ℕ → Bitmap → ℕ → ℕ → Bitmap → Option Bitmap
reserve n own zero low bmp = none
reserve n own (suc fuel) low bmp = elim (ffs own n low) [
  | none ↦ some bmp
  | some bit ↦ reserve n own fuel (bit + 1) (set_bit bmp bit)
]

-- kCpuThreadInfoInit, and an early return when it fails.
abbrev pub after_port : Option ℕ → M InitResult → M InitResult
after_port none m k = m k
after_port (some e) m k = ok (InitResult.port_error e) k

abbrev pub reserved : ℕ → Option Bitmap → M InitResult
reserved cpu none k = out_of_fuel
reserved cpu (some bmp) k =
    ok InitResult.done (record k { frame_bmps = update k.frame_bmps cpu bmp })

abbrev pub unless_overlap : Option Bool → M InitResult → M InitResult
unless_overlap none m k = out_of_fuel
unless_overlap (some true) m k = ok InitResult.refused k
unless_overlap (some false) m k = m k

-- memset of the `domain` member to 0, and the domain that the task starts in.
abbrev pub in_domain : ℕ → TaskDomain
in_domain d = record {
  cur_domain = some d;
  invocation_stack = λ i. record {
    invoking_domain = none;
    type = InvocationType.invalid;
    return_address = 0;
    vmem_fault_address = 0;
    error_code = 0;
  };
  invocation_stack_depth = 0;
}

abbrev pub as_thread : ThreadParam → ℕ → Task → Task
as_thread p d v = record v {
  cpu_id = p.cpu_id;
  state = SchedState.ready;
  type = TaskType.thread;
  thread = record (v.thread) {
    param_rr = p.param_rr;
    param_cyclic = p.param_cyclic;
    virtual_deadline = p.virtual_deadline;
    tick = record (v.thread.tick) {
      budget = p.budget;
      current_budget = p.budget;
      period = p.period;
    };
  };
  callbacks = p.callbacks;
  domain = in_domain d;
}

abbrev pub as_lsr : LsrParam → ℕ → Task → Task
as_lsr p d v = record v {
  cpu_id = p.cpu_id;
  state = SchedState.lsr_dormant;
  type = TaskType.lsr;
  callbacks = p.callbacks;
  domain = record (v.domain) { cur_domain = some d };
}

module _ (cfg : Config) (policy : Policy) (port : Port) where
  abbrev pub own_overlaps : ThreadParam → Kernel → Option Bool
  own_overlaps p k =
      overlaps cfg.num_frames p.param_cyclic.frame_bmp (suc cfg.num_frames) 0
        (k.frame_bmps p.cpu_id)

  abbrev pub own_reserve : ThreadParam → Kernel → Option Bitmap
  own_reserve p k =
      reserve cfg.num_frames p.param_cyclic.frame_bmp (suc cfg.num_frames) 0 (k.frame_bmps p.cpu_id)

  -- The part of kPluginInitTaskThread that the policy decides.
  unfoldable pub admit : Policy → ThreadParam → M InitResult
  unfolding overlaps reserve
  admit Policy.rr p k =
      if leb cfg.num_prio p.param_rr.prio || (p.param_rr.timeslice_ticks == 0)
      then ok InitResult.refused k
      else after_port (port.thread_info_init p.arch_param) (pure InitResult.done) k
  admit Policy.cyclic p k =
      if p.param_cyclic.timeslice_ticks == 0
      then ok InitResult.refused k
      else elim (ffs p.param_cyclic.frame_bmp cfg.num_frames 0) [
        | none ↦ ok InitResult.refused k
        | some _ ↦
            unless_overlap (own_overlaps p k)
              (after_port (port.thread_info_init p.arch_param)
                (reserved p.cpu_id (own_reserve p k)))
              k
      ]
  admit Policy.edf p k =
      if p.virtual_deadline == 0
      then ok InitResult.refused k
      else after_port (port.thread_info_init p.arch_param) (pure InitResult.done) k

  -- The end of kPluginInitTaskThread, for a thread that is admitted.
  unfoldable pub register_thread : ℕ → ThreadParam → ℕ → Act
  register_thread t p d = do
    k ← get
    set_task t (as_thread p d (k.tasks t))
    _ ← task_add cfg p.task_id t
    emit (Event.ctx_init t (k.domains d).invocation_info.start)
    plugin_task_thread_init cfg (ops_of policy cfg) t

  unfoldable pub finish_thread : ℕ → ThreadParam → ℕ → InitResult → M InitResult
  unfolding register_thread
  finish_thread t p d InitResult.done = register_thread t p d >> pure InitResult.done
  finish_thread t p d InitResult.refused = pure InitResult.refused
  finish_thread t p d (InitResult.port_error e) = pure (InitResult.port_error e)

  -- The domain that a task with these numbers may start in.
  unfoldable pub start_domain : ℕ → ℕ → ℕ → Kernel → Option ℕ
  start_domain dom_id cpu_id task_id k =
      if cfg.cpu_id_validate cpu_id && task_can_add cfg task_id k
      then universe_get cfg dom_id k
      else none

  unfoldable pub start_thread : ℕ → ThreadParam → Option ℕ → M InitResult
  unfolding admit finish_thread
  start_thread t p none = pure InitResult.refused
  start_thread t p (some d) =
      if p.budget == 0 then pure InitResult.refused else (admit policy p >>= finish_thread t p d)

  -- kPluginInitTaskThread
  unfoldable pub init_task_thread : ℕ → ThreadParam → M InitResult
  unfolding start_thread start_domain
  init_task_thread t p = do
    k ← get
    assert (not k.plugins_done)
    start_thread t p (start_domain p.dom_id p.cpu_id p.task_id k)

  unfoldable pub register_lsr : ℕ → LsrParam → ℕ → M InitResult
  register_lsr t p d = do
    k ← get
    set_task t (as_lsr p d (k.tasks t))
    _ ← task_add cfg p.task_id t
    emit (Event.ctx_init t (k.domains d).invocation_info.start)
    emit (Event.lsr_push t)
    pure InitResult.done

  unfoldable pub start_lsr : ℕ → LsrParam → Option ℕ → M InitResult
  unfolding register_lsr
  start_lsr t p none = pure InitResult.refused
  start_lsr t p (some d) = after_port (port.lsr_info_init p.arch_param) (register_lsr t p d)

  -- kPluginInitTaskLsr
  unfoldable pub init_task_lsr : ℕ → LsrParam → M InitResult
  unfolding start_lsr start_domain
  init_task_lsr t p = do
    k ← get
    assert (not k.plugins_done)
    start_lsr t p (start_domain p.dom_id p.cpu_id p.task_id k)

  unfoldable pub register_domain : ℕ → DomainParam → M InitResult
  register_domain d p k = (universe_add cfg p.dom_id d >>= λ _. pure InitResult.done) (record k {
    domains = update k.domains d (record (k.domains d) { invocation_info = p.invocation_info });
  })

  -- kPluginInitDomain
  unfoldable pub init_domain : ℕ → DomainParam → M InitResult
  unfolding register_domain
  init_domain d p = do
    k ← get
    assert (not k.plugins_done)
    if universe_can_add cfg p.dom_id k
        then after_port (port.domain_info_init p.arch_param) (register_domain d p)
        else pure InitResult.refused

  -- kPluginInitIdleCallbacks
  unfoldable pub init_idle_callbacks : ℕ → Callbacks → M InitResult
  init_idle_callbacks cpu callbacks = do
    found ← (ops_of policy cfg).get_idle cpu
    elim found [
      | none ↦ pure InitResult.refused
      | some t ↦
          λ k. (set_task t (record (k.tasks t) { callbacks = callbacks }) >> pure InitResult.done) k
    ]
