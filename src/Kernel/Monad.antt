-- ===== src/Kernel/Monad.antt =====
-- A kernel function runs on the state and may fail an assertion. The code reports a failed
-- K_DYNAMIC_ASSERT and goes on, or leaves the test out of the build; a run of the model ends there. A
-- theorem that a run is `ok` holds in every build, and says that no assertion fails on the way.
use workhorse_rt.Common.{
  ℕ, Bool, true, false, Option, none, some, ◌∷◌, ◌==◌, if◌then◌else◌, update, ◌≡◌, refl,
}
use workhorse_rt.Kernel.{TaskType, SchedState, SchedTick, Thread, Task, TickMachine, Event, Kernel}

pub data Run (A : Type 0) : Type 0 where
  ok : A → Kernel → Run A
  assert_failed : Run A
  out_of_fuel : Run A

abbrev pub M : Type 0 → Type 0
M A = Kernel → Run A

abbrev pub Act : Type 0
Act = M (Unit {0})

abbrev pub pure : {A : Type 0} → A → M A
pure a k = ok a k

abbrev pub bind : {A B : Type 0} → Run A → (A → M B) → Run B
bind (ok a k) f = f a k
bind assert_failed f = assert_failed
bind out_of_fuel f = out_of_fuel

infixl 5 ◌>>=◌ ◌>>◌
abbrev pub ◌>>=◌ : {A B : Type 0} → M A → (A → M B) → M B
◌>>=◌ m f k = bind (m k) f

abbrev pub ◌>>◌ : {B : Type 0} → Act → M B → M B
m >> n = m >>= λ _. n

-- K_DYNAMIC_ASSERT
abbrev pub assert : Bool → Act
assert true k = ok tt k
assert false k = assert_failed

abbrev pub get : M Kernel
get k = ok k k

abbrev pub modify : (Kernel → Kernel) → Act
modify f k = ok tt (f k)

abbrev pub skip : Act
skip = pure tt

abbrev pub when : Bool → Act → Act
when b m = if b then m else skip

abbrev pub is_some {ℓ} : {A : Type ℓ} → Option A → Bool
is_some none = false
is_some (some _) = true

abbrev pub emit : Event → Act
emit e = modify λ k. record k { trace = e ∷ k.trace }

-- A call through a function pointer of a plugin, if there is one.
abbrev pub call_if : Option ℕ → ℕ → Act
call_if none t = skip
call_if (some fn) t = emit (Event.call fn t)

abbrev pub task_of : ℕ → M Task
task_of t k = ok (k.tasks t) k

abbrev pub set_task : ℕ → Task → Act
set_task t v = modify λ k. record k { tasks = update k.tasks t v }

abbrev pub set_state : ℕ → SchedState → Act
set_state t s = modify λ k. record k { tasks = update k.tasks t (record (k.tasks t) { state = s }) }

abbrev pub with_thread : Task → Thread → Task
with_thread v h = record v { thread = h }

abbrev pub with_tick : Task → SchedTick → Task
with_tick v c = with_thread v (record (v.thread) { tick = c })

abbrev pub set_budget : ℕ → ℕ → Act
set_budget t b = modify λ k. record k {
  tasks =
      update k.tasks t
        (with_tick (k.tasks t) (record ((k.tasks t).thread.tick) { current_budget = b }));
}

abbrev pub set_lag : ℕ → Bool → Act
set_lag t b = modify λ k. record k {
  tasks = update k.tasks t (with_tick (k.tasks t) (record ((k.tasks t).thread.tick) { lag = b }));
}

abbrev pub this_machine : Kernel → TickMachine
this_machine k = k.machines k.this_cpu

abbrev pub machine : M TickMachine
machine k = ok (this_machine k) k

abbrev pub set_machine : TickMachine → Act
set_machine m = modify λ k. record k { machines = update k.machines k.this_cpu m }

-- The object behind a pointer; NULL fails the assertion that guards it.
abbrev pub not_null : Option ℕ → M ℕ
not_null none k = assert_failed
not_null (some p) k = ok p k

abbrev pub is_thread : TaskType → Bool
is_thread TaskType.thread = true
is_thread _ = false

abbrev pub is_lsr : TaskType → Bool
is_lsr TaskType.lsr = true
is_lsr _ = false

abbrev pub is_idle : TaskType → Bool
is_idle TaskType.idle = true
is_idle _ = false

abbrev pub is_invalid : TaskType → Bool
is_invalid TaskType.invalid = true
is_invalid _ = false

abbrev pub is_ready : SchedState → Bool
is_ready SchedState.ready = true
is_ready _ = false

abbrev pub is_running : SchedState → Bool
is_running SchedState.running = true
is_running _ = false

abbrev pub is_throttled : SchedState → Bool
is_throttled SchedState.thread_throttled = true
is_throttled _ = false

abbrev pub is_deftick_pending : SchedState → Bool
is_deftick_pending SchedState.deftick_pending = true
is_deftick_pending _ = false

abbrev pub is_deftick_sleep : SchedState → Bool
is_deftick_sleep SchedState.deftick_sleep = true
is_deftick_sleep _ = false

-- The numbers of the enumeration.
abbrev pub code : SchedState → ℕ
code SchedState.invalid = 0
code SchedState.ready = 1
code SchedState.running = 2
code SchedState.thread_throttled = 3
code SchedState.lsr_dormant = 4
code SchedState.deftick_yield = 5
code SchedState.deftick_throttle = 6
code SchedState.deftick_sleep = 7
code SchedState.deftick_pending = 8
code SchedState.thread_sleep = 9
code SchedState.pending = 10
code SchedState.lsr_pending = 11
code SchedState.failure = 12

abbrev pub same_state : SchedState → SchedState → Bool
same_state a b = code a == code b

-- The negative numbers of errno.h that the kernel returns.
pub data Errno : Type 0 where
  einval efault : Errno

-- An int result that is 0 or a negative errno, with the values of the out parameters if it is 0.
pub data Outcome (A : Type 0) : Type 0 where
  done : A → Outcome A
  failed : Errno → Outcome A

-- kTickGetRunningTask, whose result the callers dereference.
abbrev pub running_task : M ℕ
running_task k = not_null (this_machine k).running_task k

-- One step of a run, when its test is known.
pub not_null-some :
    {B : Type 0} {p : Option ℕ} {t : ℕ} (f : ℕ → M B)
    → p ≡ some t
    → (k : Kernel) → (not_null p >>= f) k ≡ f t k
not_null-some f e k = rw e refl

pub assert-true :
    {B : Type 0} {b : Bool} (m : M B) → b ≡ true → (k : Kernel) → (assert b >> m) k ≡ m k
assert-true m e k = rw e refl

pub when-true :
    {B : Type 0} {b : Bool} (a : Act) (m : M B)
    → b ≡ true
    → (k : Kernel) → (when b a >> m) k ≡ (a >> m) k
when-true a m e k = rw e refl
