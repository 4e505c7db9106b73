-- ===== src/Handlers/Tests.antt =====
-- An exception in the sample system.
use workhorse_rt.Common.{refl, false, arith}
use workhorse_rt.Kernel.{InvocationType}
use workhorse_rt.Kernel.Sample.{system, config}
use workhorse_rt.Sched.Rr.{ops}
use workhorse_rt.Handlers.{exception_handler}
use workhorse_rt.Handlers.Faults.{Handled, exception_handler-Handled}

exception_handler-Handled_example :
    Handled config
      (ops config)
      system
      1
      7
      InvocationType.vmem_fault
      (exception_handler config (ops config) false InvocationType.vmem_fault 64 128 6 system)
exception_handler-Handled_example =
    exception_handler-Handled config (ops config) system InvocationType.vmem_fault 64 128 6 refl
      refl (omega arith)
