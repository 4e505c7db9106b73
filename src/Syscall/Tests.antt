-- ===== src/Syscall/Tests.antt =====
-- Runs of the system calls on the sample system.
use workhorse_rt.Common.{refl, arith}
use workhorse_rt.Bitmap.{test_bit, test_in}
use workhorse_rt.Kernel.Sample.{system, config}
use workhorse_rt.Domain.{authenticate}
use workhorse_rt.Syscall.{sys_sched_ctrl}
use workhorse_rt.Syscall.Sched.{CtrlOutcome, sys_sched_ctrl-CtrlOutcome}
use workhorse_rt.Syscall.Ipc.{RoundTrip, do_return-do_ipc}

-- Thread 1 sleeps for 25 milliseconds.
sys_sched_ctrl-CtrlOutcome_example :
    CtrlOutcome config system 1 4 25 (sys_sched_ctrl config 4 25 system)
sys_sched_ctrl-CtrlOutcome_example =
    sys_sched_ctrl-CtrlOutcome config system refl 4 25 (omega arith)

do_return-do_ipc_example : RoundTrip config system 1 7 8 64 1
unfolding authenticate test_bit test_in
do_return-do_ipc_example = do_return-do_ipc config system 64 1 refl refl refl refl (omega arith)
