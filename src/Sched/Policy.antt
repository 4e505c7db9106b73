-- ===== src/Sched/Policy.antt =====
-- Which of the three policies is built in (the choice of Kconfig), as the record that its
-- kSchedOpsInit function installs.
use workhorse_rt.Kernel.{Config}
use workhorse_rt.Sched.{SchedOps}
use workhorse_rt.Sched.Rr
use workhorse_rt.Sched.Cyclic
use workhorse_rt.Sched.Edf
use workhorse_rt.Sched.Quiet.{Quiet}
use workhorse_rt.Sched.Rr.Laws.{ops-IsQuiet}
use workhorse_rt.Sched.Cyclic.Laws.{cyclic_ops-IsQuiet}
use workhorse_rt.Sched.Edf.Spend.{push-Quiet}
use workhorse_rt.Common.{ℕ}

pub data Policy : Type 0 where
  rr cyclic edf : Policy

unfoldable pub ops_of : Policy → Config → SchedOps
ops_of Policy.rr cfg = Rr.ops cfg
ops_of Policy.cyclic cfg = Cyclic.ops cfg
ops_of Policy.edf cfg = Edf.ops cfg

-- Pushing a task never fails under any policy, and changes nothing that the tick machine keeps.
pub push_of-Quiet : (p : Policy) (cfg : Config) (t : ℕ) → Quiet ((ops_of p cfg).push t)
unfolding ops_of
push_of-Quiet Policy.rr cfg t = (ops-IsQuiet cfg).push t
push_of-Quiet Policy.cyclic cfg t = (cyclic_ops-IsQuiet cfg).push t
push_of-Quiet Policy.edf cfg t = unfold Edf.ops in push-Quiet t
