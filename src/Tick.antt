-- ===== src/Tick.antt =====
-- src/workhorse/kTick/kTick.c: the tick machine of each cpu. `State` has the state changes of a
-- task, `Periods` the parts of a tick, `Switch` the entry points; the other files prove.
pub mod State
pub mod Periods
pub mod Switch
pub mod Steps
pub mod Preempt
pub mod Budget
pub mod Keeps
pub mod Drain
pub mod Loops
pub mod Enter
pub mod Rounds
pub mod Deferred
pub mod Served
mod Tests
