-- ===== src/Syscall/Identity.antt =====
-- The system calls of kSyscall.c by which a task learns where it runs.
use workhorse_rt.Common.{false, ℤ, pos}
use workhorse_rt.Kernel.{TaskType}
use workhorse_rt.Kernel.Monad.{
  M, pure, ◌>>=◌, ◌>>◌, get, assert, task_of, not_null, running_task, efault,
}
use workhorse_rt.Domain.{domain_of}
use workhorse_rt.Syscall.{refuse, negative}

-- kSysGetDomId
unfoldable pub sys_get_dom_id : M ℤ
sys_get_dom_id = do
  t ← running_task
  k ← get
  d ← not_null (domain_of k t).cur_domain
  pure (pos (k.domains d).dom_id)

-- kSysGetTaskId
unfoldable pub sys_get_task_id : M ℤ
sys_get_task_id = do t ← running_task; v ← task_of t; pure (pos v.task_id)

abbrev task_type_number : TaskType → M ℤ
task_type_number TaskType.thread = pure (pos 0)
task_type_number TaskType.lsr = pure (pos 1)
task_type_number TaskType.idle = pure (pos 2)
task_type_number TaskType.invalid = assert false >> pure (negative efault)

-- kSysGetTaskType
unfoldable pub sys_get_task_type : M ℤ
sys_get_task_type = do t ← running_task; v ← task_of t; task_type_number v.type

-- kSysGetCpuId in the branch that every build has: the code tests KSYS_GET_CPU_ID, and the generated
-- configuration defines CONFIG_KSYS_GET_CPU_ID.
unfoldable pub sys_get_cpu_id : M ℤ
sys_get_cpu_id = refuse
