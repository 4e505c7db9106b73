-- ===== src/Sched/Window.antt =====
-- How an LSR or an idle task counts the ticks of its window: the same lines in kSchedRr.c,
-- kSchedCyclic.c and kSchedEdf.c under src/workhorse/kSched/kSchedPolicy.
use workhorse_rt.Common.{ℕ, ◌+◌, ◌-◌, ◌^◌, ◌≤◌, ◌<◌, ◌≡◌, arith, ◌==◌, ltb, if◌then◌else◌}
use workhorse_rt.Kernel.{Window, Task}
use workhorse_rt.Kernel.Monad.{Act, ok, is_lsr, set_task}

abbrev pub u32_max : ℕ
u32_max = 2 ^ 32 - 1

unfoldable pub count_tick : Window → Window
count_tick w =
    let epoch : ℕ = if w.idle_window_epoch == u32_max then 0 else w.idle_window_epoch + 1 in
    record {
      idle_window_epoch = epoch;
      largest_window_epoch =
          if ltb w.largest_window_epoch epoch then epoch else w.largest_window_epoch;
    }

abbrev pub reset_idle : Task → Task
reset_idle v = record v { idle = record (v.idle) { idle_window_epoch = 0 } }

abbrev pub reset_lsr : Task → Task
reset_lsr v = record v { lsr = record (v.lsr) { idle_window_epoch = 0 } }

abbrev pub tick_idle : Task → Task
tick_idle v = record v { idle = count_tick v.idle }

abbrev pub tick_lsr : Task → Task
tick_lsr v = record v { lsr = count_tick v.lsr }

-- The window of an LSR that leaves the cpu is over.
unfoldable pub leave_window : ℕ → Act
leave_window t k = if is_lsr (k.tasks t).type then set_task t (reset_lsr (k.tasks t)) k else ok tt k

-- The largest window is at least the current one, and both are 32-bit numbers.
pub record IsWindow (w : Window) : Type 0 where
  pub largest : w.idle_window_epoch ≤ w.largest_window_epoch
  pub fits : w.largest_window_epoch < 2 ^ 32

-- A tick counts one up, from the last 32-bit value to 0, and keeps the largest window the largest.
pub count_tick-IsWindow :
    (w : Window)
    → IsWindow w
    → IsWindow (count_tick w)
      × (w.largest_window_epoch ≤ (count_tick w).largest_window_epoch)
      × ((count_tick w).idle_window_epoch
          ≡ (if w.idle_window_epoch == u32_max then 0 else w.idle_window_epoch + 1))
unfolding count_tick
count_tick-IsWindow w h = ground arith
