-- ===== src/Tick/Keeps.antt =====
-- What kTickTaskLoadNextState leaves alone: a number read off the kernel that each step keeps.
use workhorse_rt.Common.{
  ℕ, ◌≡◌, refl, Bool, true, false, Option, none, some, List, ◌∷◌, if◌then◌else◌, subst,
}
use workhorse_rt.Kernel.{Task, SchedState, Kernel, Config, Event}
use workhorse_rt.Kernel.Monad.{
  Run, ok, assert_failed, out_of_fuel, M, Act, bind, ◌>>=◌, assert, when, emit, call_if, set_state,
  set_budget, set_lag, get, task_of,
}
use workhorse_rt.Sched.{SchedOps}
use workhorse_rt.Sched.Quiet.{SameTicks, IsQuiet}
use workhorse_rt.Tick.State.{run_callbacks, load_next_state, enter_state, run_state_callbacks}

-- A run that returns has kept the number, and no run is out of fuel.
abbrev pub Kept : {A : Type 0} → (Kernel → ℕ) → ℕ → Run A → Type 0
Kept f n (ok _ after) = f after ≡ n
Kept f n assert_failed = Unit
Kept f n out_of_fuel = ⊥

pub record Keeps {A : Type 0} (f : Kernel → ℕ) (m : M A) : Type 0 where
  pub kept : (k : Kernel) → Kept f (f k) (m k)

bind-Kept :
    {A B : Type 0} (f : Kernel → ℕ) (n : ℕ) (r : Run A) (g : A → M B)
    → Kept f n r
    → ((a : A) → Keeps f (g a))
    → Kept f n (bind r g)
bind-Kept f n (ok a after) g h later = subst (λ i. Kept f i (g a after)) h ((later a).kept after)
bind-Kept f n assert_failed g h later = tt
bind-Kept f n out_of_fuel g h later = h

pub bind-Keeps :
    {A B : Type 0} {f : Kernel → ℕ} {m : M A} {g : A → M B}
    → Keeps f m
    → ((a : A) → Keeps f (g a))
    → Keeps f (m >>= g)
bind-Keeps {f} {m} {g} h later = record { kept = λ k. bind-Kept f (f k) (m k) g (h.kept k) later }

pub assert-Keeps : {f : Kernel → ℕ} (b : Bool) → Keeps f (assert b)
assert-Keeps true = record { kept = λ k. refl }
assert-Keeps false = record { kept = λ k. tt }

pub when-Keeps : {f : Kernel → ℕ} (b : Bool) {m : Act} → Keeps f m → Keeps f (when b m)
when-Keeps true h = h
when-Keeps false h = record { kept = λ k. refl }

pub task_of-Keeps : {f : Kernel → ℕ} {t : ℕ} → Keeps f (task_of t)
task_of-Keeps = record { kept = λ k. refl }

pub get-Keeps : {f : Kernel → ℕ} → Keeps f get
get-Keeps = record { kept = λ k. refl }

pub if-Keeps :
    {A : Type 0} {f : Kernel → ℕ} (b : Bool) {m n : M A}
    → Keeps f m
    → Keeps f n
    → Keeps f (if b then m else n)
if-Keeps true h i = h
if-Keeps false h i = i

pub ruleset steps = (bind-Keeps, assert-Keeps, when-Keeps, if-Keeps, task_of-Keeps, get-Keeps)

-- A number that the tasks, the trace and what a quiet policy may change do not enter.
pub record IsApart (f : Kernel → ℕ) : Type 0 where
  pub trace : (k : Kernel) (l : List Event) → f (record k { trace = l }) ≡ f k
  pub tasks : (k : Kernel) (ts : ℕ → Task) → f (record k { tasks = ts }) ≡ f k
  pub same : (k after : Kernel) → SameTicks k after → f after ≡ f k

module _ (cfg : Config) (ops : SchedOps) (quiet : IsQuiet ops) (f : Kernel → ℕ)
    (apart : IsApart f) where
  pub emit-Keeps : {e : Event} → Keeps f (emit e)
  emit-Keeps {e} = record { kept = λ k. apart.trace k (e ∷ k.trace) }

  pub call_if-Keeps : (fn : Option ℕ) (t : ℕ) → Keeps f (call_if fn t)
  call_if-Keeps none t = record { kept = λ k. refl }
  call_if-Keeps (some fn) t = record { kept = λ k. apart.trace k (Event.call fn t ∷ k.trace) }

  pub push-Keeps : {t : ℕ} → Keeps f (ops.push t)
  push-Keeps {t} = record {
    kept = λ k. let (after, e, same) = quiet.push t k in rw e (apart.same k after same);
  }

  lsr_out_callback-Keeps : {t : ℕ} → Keeps f (ops.lsr_out_callback t)
  lsr_out_callback-Keeps {t} = record {
    kept = λ k. let (after, e, same) = quiet.lsr_out_callback t k in rw e (apart.same k after same);
  }

  tick_callback-Keeps : {t : ℕ} → Keeps f (ops.tick_callback t)
  tick_callback-Keeps {t} = record {
    kept = λ k. let (after, e, same) = quiet.tick_callback t k in rw e (apart.same k after same);
  }

  pub set_state-Keeps : (t : ℕ) (s : SchedState) → Keeps f (set_state t s)
  set_state-Keeps t s = record { kept = λ k. apart.tasks k _ }

  pub set_budget-Keeps : (t b : ℕ) → Keeps f (set_budget t b)
  set_budget-Keeps t b = record { kept = λ k. apart.tasks k _ }

  pub set_lag-Keeps : (t : ℕ) (b : Bool) → Keeps f (set_lag t b)
  set_lag-Keeps t b = record { kept = λ k. apart.tasks k _ }

  ruleset calls =
      (steps, emit-Keeps, call_if-Keeps, push-Keeps, lsr_out_callback-Keeps, tick_callback-Keeps)

  pub run_callbacks-Keeps : (t : ℕ) → Keeps f (run_callbacks cfg ops t)
  unfolding run_callbacks
  run_callbacks-Keeps t = search (calls) depth 20

  run_state_callbacks-Keeps :
      (t : ℕ) (old next : SchedState) → Keeps f (run_state_callbacks cfg ops t old next)
  unfolding run_state_callbacks
  run_state_callbacks-Keeps t old next = search (calls) depth 20

  -- A change of state keeps the number if the entry to the new state does.
  pub load_next_state-Keeps :
      (t : ℕ) (next : SchedState)
      → Keeps f (enter_state cfg ops t next)
      → Keeps f (load_next_state cfg ops t next)
  unfolding load_next_state
  load_next_state-Keeps t next enters =
      search (calls, run_state_callbacks-Keeps, set_state-Keeps) depth 20
