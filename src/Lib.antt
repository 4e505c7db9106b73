-- ===== src/Lib.antt =====
-- WorkhorseRT, a partitioning real-time kernel in C: the core of the kernel and its proofs.
--
-- The kernel runs tasks on each cpu: threads with a budget of ticks, LSRs (low level service
-- routines, which interrupts wake) and an idle task. A tick machine moves tasks between states on
-- ticks and interrupts, a scheduling policy keeps those that are ready, and tasks run in protection
-- domains, between which they move by invocations. A port provides the cpu and plugins provide the
-- tasks; both are outside, and what the kernel calls of them is recorded in a trace.
--
-- Which file models which part (paths from the root of the repository):
--   Common              shared names, Boolean tests, lists, and the signed results of system calls
--   Dsa                 the other queues of include/lib/dsa, as nodes in memory that point to each
--                       other: Dsa/Dq is dq.h, Dsa/Sq sq.h and Dsa/Stackq stackq.h. Dsa/Ends and
--                       Dsa/Chain have lemmas on lists and links, Dq/Links and Dq/Halves on queues
--                       in two parts; Dsa/Refine is about the operations on the lists of nodes.
--   DeltaChain          include/lib/dsa/deltaChain.h, the queues of timers: deltaChainInsert is
--                       `insert`, deltaChainTick `tick`, deltaChainPopExpired `pop_expired`,
--                       deltaChainPop `pop` and deltaChainTimeUntil `time_until`. The specification
--                       is the list of timers with the ticks that each has left (`remaining`).
--   Bitmap              include/lib/dsa/bitmap.h: BITMAP_SET, BITMAP_UNSET and BITMAP_TEST on bytes,
--                       bitmapFls, bitmapFfs and bitmapIsEmpty
--   Kernel              the data of include/workhorse: kSchedTask_t is `Task`, kTickMachine_t
--                       `TickMachine`, kDomain_t `Domain`; all globals together are `Kernel`.
--                       Kernel/Monad has the runs of kernel functions, Kernel/Sample a small system.
--   Sched               src/workhorse/kSched/kSched.c: the table of tasks, and kSchedOps_t as the
--                       record `SchedOps` of operations, which the tick machine takes as a parameter
--   Sched/Quiet         what the tick machine relies on of a policy
--   Sched/Rr            src/workhorse/kSched/kSchedPolicy/kSchedRr.c, the round robin policy, which
--                       fills that record; its proofs are in Rr/Queues, Rr/Pick, Rr/Preempt, Rr/Ready
--                       and Rr/Laws
--   Sched/Cyclic        src/workhorse/kSched/kSchedPolicy/kSchedCyclic.c, the cyclic policy, another
--                       such record: Cyclic/Frames and Cyclic/Laws are about pushes, Cyclic/Due and
--                       Cyclic/Rotation about pops
--   Sched/Edf           src/workhorse/kSched/kSchedPolicy/kSchedEdf.c, the earliest deadline policy,
--                       over DeltaChain: Edf/Renew and Edf/Kept are about the fix-up loop, Edf/Pick
--                       about pops, Edf/Queue about pushes and preemption, Edf/Spend about ticks
--   Domain              src/workhorse/kDomainUniverse/kDomainUniverse.c: the table of domains and
--                       the invocation stack of the running task
--   Tick                src/workhorse/kTick/kTick.c: Tick/State is kTickTaskLoadNextState and what it
--                       calls, Tick/Periods the parts of kTickTransition, Tick/Switch the functions
--                       that handlers and system calls enter by. Tick/Steps has lemmas on single
--                       state changes, Tick/Keeps on what they leave alone, Tick/Drain on loops,
--                       Tick/Enter, Tick/Rounds, Tick/Deferred and Tick/Served on the loop of
--                       kTickHandleDeferredTicks.
--   Syscall             src/workhorse/kSyscall/kSyscall.c: the control and identity calls, and the
--                       routines that their deferred interrupts run
--   Plugin              src/plugin/kPlugin.c, what plugins register: kPluginInitTaskThread is
--                       `init_task_thread`, with the part that a policy decides in `admit`.
--                       Sched/Policy is the choice of a policy, Plugin/Reserve is about the frames of
--                       the cyclic schedule, Plugin/Thread about `admit`, Plugin/Start about
--                       kTickPluginTaskThreadInit and Plugin/Register about the whole;
--                       Plugin/Domains and Plugin/Lsrs are about domains and LSRs
--   McsLock             include/lib/mcsLock.h, the queue lock of the cpus: one `access` is one atomic
--                       access of one cpu, and `Pc` says where in __mcsAcquire, __mcsRelease or
--                       __mcsTrylock a cpu is. McsLock/Queue has the queue that the links stand
--                       for; Enter, Link, Leave and Moves are about one access, Safety about runs.
--   Word                fls32 of include/stdWorkhorse.h; Word/Fls is about the bit it finds
--   X2apic              the interrupt controllers of virtual cpus, from
--                       arch/x86_64/ia32e/src/ia32eEmulator.c: `inject` is what a guest is entered
--                       with, X2apic/Bus what cpus send to each other (ia32eEmulatorX2apicSendPacket
--                       is `send_packet`). Vectors and Scan are about the registers, Priority and
--                       Nesting about interrupts, Bus/Latched, Bus/Changes, Bus/Packets and Bus/Legal about
--                       the bus; X2apic/Timer is the timer, and Timer/Divide about it.
--   Handlers            src/import: kSyscallHandler, kExceptionHandler and kLsrHandler
--
-- How the state corresponds: a pointer to a task, domain or list node is a number, NULL is `none`,
-- and the objects behind the pointers are families over the numbers, so an object that several
-- queues name is one object. A list node that a task embeds goes by the pointer of the task, and a
-- queue is the list of its nodes in order, a stack one with its top first; Dsa ties the two views
-- together. A union is the product of its members. Numbers of 32 bits wrap where the code lets them wrap (epochs, the timeslice, the delta
-- of deltaChainPop, the domain number of an IPC). A function that reads or writes the globals maps a
-- kernel to a result and a kernel, or ends at a failed K_DYNAMIC_ASSERT, where the code reports the
-- failure and goes on: what a run does after one is not modelled, and a theorem that a function gives
-- a result shows that no assertion on its way fails.
--
-- Options of Kconfig are the record `Config`; DS and BCS are both modelled, as a value that the code
-- tests. The three loops of a transition pop a queue until it is empty or not due; they run on fuel,
-- one more than the length of the queue at the start, and a run that needs more is `out_of_fuel`.
-- The loop of kSchedTaskPushCyclic has one round more than there are frames, and that of
-- kSchedFixupChainEdf one more than the chain has threads.
-- Under DS a replenished node goes back into its queue with a period that is not 0, so that it is not
-- due again in the same tick.
--
-- A register of vectors is its eight words, and a word is its bits. What the guest allows, which the
-- code reads from the VMCS, is an argument (`Guest`).
--
-- Not modelled: the rest of the port to Intel 64 in arch, whose calls by the kernel are events of the
-- trace; of the interrupt controllers the interrupt command register and interrupts between domains;
-- start-up; nanoprintf.h, which is another project's.
pub mod Common
pub mod Bitmap
pub mod DeltaChain
pub mod Kernel
pub mod Sched
pub mod Domain
pub mod Tick
pub mod Syscall
pub mod Handlers
pub mod Plugin
pub mod McsLock
pub mod Dsa
pub mod Word
pub mod X2apic
