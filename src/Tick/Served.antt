-- ===== src/Tick/Served.antt =====
-- kTickHandleDeferredTicks as a whole: the tasks that are owed a tick are all served.
use workhorse_rt.Common.{ℕ, ◌≡◌, true, false, List, [], has}
use workhorse_rt.Kernel.{Kernel, Config}
use workhorse_rt.Kernel.Monad.{Act, this_machine}
use workhorse_rt.Sched.{SchedOps}
use workhorse_rt.Sched.Quiet.{IsQuiet}
use workhorse_rt.Tick.Steps.{with_machine}
use workhorse_rt.Tick.Periods.{drain, pop_deferred, deferred_tick}
use workhorse_rt.Tick.Deferred.{Settled}

-- The tasks of `xs` were served, and the others were not touched.
pub record Served (k : Kernel) (xs : List ℕ) (after : Kernel) : Type 0 where
  pub empty : (this_machine after).deferred_ticks ≡ []
  pub served : (u : ℕ) → has u xs ≡ true → Settled (k.tasks u).state (after.tasks u).state
  pub others : (u : ℕ) → has u xs ≡ false → (after.tasks u).state ≡ (k.tasks u).state

module _ (cfg : Config) (ops : SchedOps) (quiet : IsQuiet ops) where
  abbrev rounds : ℕ → Act
  rounds fuel = drain pop_deferred (deferred_tick cfg ops) fuel

  abbrev unlisted : Kernel → List ℕ → Kernel
  unlisted k rest = with_machine k (record (this_machine k) { deferred_ticks = rest })
