-- ===== src/Kernel/Sample.antt =====
-- A small system for the tests: cpu 0 runs thread 1 of priority 1 in domain 7, thread 2 of priority 2
-- is ready, LSR 3 is pending, and thread 1 may call domain 8 under the number 1.
use workhorse_rt.Common.{ℕ, true, false, Option, none, some, List, [], ◌∷◌, ◌==◌, if◌then◌else◌}
use workhorse_rt.DeltaChain.{Nodes, DeltaChain}
use workhorse_rt.Bitmap.{Bitmap}
use workhorse_rt.Kernel.{
  TaskType, SchedState, Thread, Window, Callbacks, InvocationType, InvocationEntry, Task,
  EntryPoint, Domain, TickMachine, SchedulerRr, Kernel, Algorithm, Config,
}

abbrev pub no_bits : Bitmap
no_bits i = 0

abbrev pub no_nodes : Nodes
no_nodes p = record { expected_epoch = 0; delta = 0 }

abbrev pub no_chain : DeltaChain
no_chain = record { current_epoch = 0; dq = [] }

abbrev pub no_window : Window
no_window = record { idle_window_epoch = 0; largest_window_epoch = 0 }

-- A thread of a priority with a timeslice and a budget of 2 ticks each, of which `left` are left.
abbrev pub a_thread : ℕ → ℕ → Thread
a_thread prio left = record {
  param_rr = record { timeslice_ticks = 2; prio = prio };
  param_cyclic = record { frame_bmp = no_bits; timeslice_ticks = 2 };
  virtual_deadline = 5;
  remaining_timeslice_ticks = left;
  link_cyclic = record { initialized = false; remaining_timeslice_ticks = 0 };
  tick = record { current_budget = left; budget = 2; period = 5; sleep_ticks = 0; lag = false };
}

abbrev pub no_callbacks : Callbacks
no_callbacks = record {
  tick_callback_fn = none;
  in_callback_fn = none;
  out_callback_fn = none;
  activation_callback_fn = none;
  response_callback_fn = none;
}

abbrev pub no_invocation : InvocationEntry
no_invocation = record {
  invoking_domain = none;
  type = InvocationType.invalid;
  return_address = 0;
  vmem_fault_address = 0;
  error_code = 0;
}

abbrev pub a_task : TaskType → SchedState → ℕ → ℕ → Task
a_task type state prio id = record {
  cpu_id = 0;
  task_id = id;
  state = state;
  type = type;
  thread = a_thread prio 1;
  lsr = no_window;
  idle = no_window;
  callbacks = no_callbacks;
  domain = record {
    cur_domain = some 7;
    invocation_stack = λ i. no_invocation;
    invocation_stack_depth = 0;
  };
}

abbrev point : ℕ → EntryPoint
point entry = record { entry = entry; valid = true }

abbrev pub a_domain : ℕ → Bitmap → Domain
a_domain id may_invoke = record {
  dom_id = id;
  invocation_info = record {
    invoke_perm_map = may_invoke;
    start = 4096;
    invocation_ipc = point 4112;
    exception_vmem_fault = point 4128;
    exception_illegal_opcode = record { entry = 0; valid = false };
    exception_alignment = point 4144;
    exception_debug = point 4160;
    exception_arithmetic = point 4176;
    exception_other = point 4192;
  };
}

abbrev tasks : ℕ → Task
tasks t =
    if t == 0
    then a_task TaskType.idle SchedState.ready 0 8
    else (if t == 1
        then a_task TaskType.thread SchedState.running 1 1
        else (if t == 2
            then a_task TaskType.thread SchedState.ready 2 2
            else (if t == 3
                then a_task TaskType.lsr SchedState.lsr_pending 0 3
                else a_task TaskType.invalid SchedState.invalid 0 0)))

-- Thread 2 waits in the queue of priority 2.
abbrev pub queues : SchedulerRr
queues = record {
  qs = λ p. if p == 2 then 2 ∷ [] else [];
  active_qs = λ i. if i == 0 then 4 else 0;
}

abbrev pub machine_running : Option ℕ → List ℕ → TickMachine
machine_running running lsrs = record {
  running_task = running;
  replenishment_chain = no_chain;
  sleep_chain = no_chain;
  deferred_ticks = [];
  pending_lsr_chain = lsrs;
  pending_task_lsr = none;
}

abbrev table : ℕ → Option ℕ
table id = if id == 0 then some 7 else (if id == 1 then some 8 else none)

abbrev pub system : Kernel
system = record {
  this_cpu = 0;
  tasks = tasks;
  k_tasks = λ i. none;
  machines = λ cpu. machine_running (some 1) (3 ∷ []);
  rr = λ cpu. queues;
  cyclic = λ cpu. record { frames = λ i. none; clock = 0; num_ready_threads = 0 };
  edf = λ cpu. no_chain;
  idle_task = λ cpu. 0;
  replenish_nodes = no_nodes;
  sleep_nodes = no_nodes;
  edf_nodes = no_nodes;
  domains = λ d. if d == 7 then a_domain 0 (λ i. if i == 0 then 2 else 0) else a_domain 1 no_bits;
  domain_table = table;
  frame_bmps = λ cpu. no_bits;
  plugins_done = false;
  trace = [];
}

abbrev pub config : Config
config = record {
  algorithm = Algorithm.ds;
  max_cpus = 1;
  max_tasks = 8;
  max_domains = 4;
  max_depth = 3;
  num_prio = 4;
  num_frames = 4;
  tick_ms = 10;
  cpu_id_validate = λ cpu. cpu == 0;
}
