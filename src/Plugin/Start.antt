-- ===== src/Plugin/Start.antt =====
-- kTickPluginTaskThreadInit makes a registered thread ready.
use workhorse_rt.Common.{
  ℕ, ◌≡◌, refl, ap, ◌∙◌, Bool, true, false, ◌&&◌, ltb, Bool-cases, inl, inr, ◌∷◌, update, not,
  if◌then◌else◌,
}
use workhorse_rt.DeltaChain
use workhorse_rt.Kernel.{Task, Kernel, Config, TaskType, SchedState, Event}
use workhorse_rt.Kernel.Monad.{Act, ok, bind, ◌>>◌, assert, when, emit, is_thread, is_ready}
use workhorse_rt.Sched.{SchedOps}
use workhorse_rt.Sched.Quiet.{Quiet}
use workhorse_rt.Tick.State.{is_ds}
use workhorse_rt.Tick.Switch.{plugin_task_thread_init}

-- The table of tasks and the tasks are those of before, but for what the policy keeps of them.
pub record Started (k after : Kernel) : Type 0 where
  pub k_tasks : after.k_tasks ≡ k.k_tasks
  pub frame_bmps : after.frame_bmps ≡ k.frame_bmps
  pub tick : (u : ℕ) → (after.tasks u).thread.tick ≡ (k.tasks u).thread.tick
  pub state : (u : ℕ) → (after.tasks u).state ≡ (k.tasks u).state
  pub type : (u : ℕ) → (after.tasks u).type ≡ (k.tasks u).type
  pub callbacks : (u : ℕ) → (after.tasks u).callbacks ≡ (k.tasks u).callbacks
  pub domain : (u : ℕ) → (after.tasks u).domain ≡ (k.tasks u).domain

-- A run whose assertions hold.
steps :
    (a b c d : Bool) (q m : Act)
    → a ≡ true
    → b ≡ true
    → d ≡ true
    → (k : Kernel)
    → (assert a >> (assert b >> (when c q >> (assert d >> m)))) k
      ≡ (if c then (q >> (assert true >> m)) k else m k)
steps a b true d q m ea eb ed k = rw ea (rw eb (rw ed refl))
steps a b false d q m ea eb ed k = rw ea (rw eb (rw ed refl))

module _ (cfg : Config) (ops : SchedOps) (quiet : (t : ℕ) → Quiet (ops.push t)) where
  -- The replenishment of a thread with a period, under DS.
  abbrev queue_replenish : Task → ℕ → Kernel → Kernel
  queue_replenish v t k =
      let m = k.machines v.cpu_id in
      let (nodes, chain) =
        DeltaChain.insert k.replenish_nodes m.replenishment_chain t v.thread.tick.period in
      record k {
        replenish_nodes = nodes;
        machines = update k.machines v.cpu_id (record m { replenishment_chain = chain });
      }

  pushed_from :
      (k mid : Kernel) (t : ℕ)
      → mid.k_tasks ≡ k.k_tasks
      → mid.frame_bmps ≡ k.frame_bmps
      → mid.tasks ≡ k.tasks
      → (after : Kernel) × (ops.push t mid ≡ ok tt after) × Started k after
  pushed_from k mid t table bmps tasks =
      let (after, run, s) = quiet t mid in
      (
        after,
        run,
        record {
          k_tasks = s.k_tasks ∙ table;
          frame_bmps = s.frame_bmps ∙ bmps;
          tick = λ u. s.tick u ∙ ap (λ f. (f u).thread.tick) tasks;
          state = λ u. s.state u ∙ ap (λ f. (f u).state) tasks;
          type = λ u. s.type u ∙ ap (λ f. (f u).type) tasks;
          callbacks = λ u. s.callbacks u ∙ ap (λ f. (f u).callbacks) tasks;
          domain = λ u. s.domain u ∙ ap (λ f. (f u).domain) tasks;
        },
      )

  pub plugin_task_thread_init-Started :
      (k : Kernel) (t : ℕ)
      → k.plugins_done ≡ false
      → (k.tasks t).type ≡ TaskType.thread
      → (k.tasks t).state ≡ SchedState.ready
      → (after : Kernel) × (plugin_task_thread_init cfg ops t k ≡ ok tt after) × Started k after
  unfolding plugin_task_thread_init
  plugin_task_thread_init-Started k t early thread ready = elim (Bool-cases has_period) [
    | inl queued ↦
        let (after, run, s) = pushed_from k (queue_replenish (k.tasks t) t k) t refl refl refl in
        (
          record after { trace = Event.activation t ∷ after.trace },
          all
              ∙ (ap (λ c. if c then (queue >> (assert true >> last)) k else last k) queued
                  ∙ ap (λ r. bind r (λ _. emit (Event.activation t))) run),
          record {
            k_tasks = s.k_tasks;
            frame_bmps = s.frame_bmps;
            tick = s.tick;
            state = s.state;
            type = s.type;
            callbacks = s.callbacks;
            domain = s.domain;
          },
        )
    | inr none ↦
        let (after, run, s) = pushed_from k k t refl refl refl in
        (
          record after { trace = Event.activation t ∷ after.trace },
          all
              ∙ (ap (λ c. if c then (queue >> (assert true >> last)) k else last k) none
                  ∙ ap (λ r. bind r (λ _. emit (Event.activation t))) run),
          record {
            k_tasks = s.k_tasks;
            frame_bmps = s.frame_bmps;
            tick = s.tick;
            state = s.state;
            type = s.type;
            callbacks = s.callbacks;
            domain = s.domain;
          },
        )
  ]
    where
      has_period : Bool
      has_period = is_ds cfg.algorithm && ltb 0 (k.tasks t).thread.tick.period

      last : Act
      last = ops.push t >> emit (Event.activation t)

      queue : Act
      queue k' = ok tt (queue_replenish (k.tasks t) t k')

      all :
          plugin_task_thread_init cfg ops t k
          ≡ (if has_period then (queue >> (assert true >> last)) k else last k)
      all =
          steps (not k.plugins_done) (is_thread (k.tasks t).type) has_period
            (is_ready (k.tasks t).state) queue last (ap not early) (ap is_thread thread)
            (ap is_ready ready) k
