-- ===== src/Plugin/Lsrs.antt =====
-- kPluginInitTaskLsr: an LSR is refused without a trace, or stands in the table from then on.
use workhorse_rt.Common.{
  ℕ, ◌≡◌, refl, ap, ◌∙◌, false, ◌&&◌, ◌||◌, not, Option, none, some, ◌∷◌, arith, ltb, leb,
  Bool-cases, inl, inr, update,
}
use workhorse_rt.Kernel.{Kernel, Config, TaskType, SchedState, Event}
use workhorse_rt.Kernel.Monad.{ok, is_some, assert-true}
use workhorse_rt.Sched.{task_can_add, task_add, table_length}
use workhorse_rt.Sched.Policy.{Policy}
use workhorse_rt.Plugin.{
  Port, InitResult, LsrParam, init_task_lsr, start_lsr, register_lsr, start_domain, after_port,
  as_lsr,
}

-- What kPluginInitTaskLsr does with an LSR.
pub data LsrOutcome (cfg : Config) (policy : Policy) (port : Port) (t : ℕ) (p : LsrParam)
    (k : Kernel) : Type 0 where
  refused :
      start_domain cfg policy port p.dom_id p.cpu_id p.task_id k ≡ none
      → init_task_lsr cfg policy port t p k ≡ ok InitResult.refused k
      → LsrOutcome cfg policy port t p k
  port_error :
      (e : ℕ)
      → port.lsr_info_init p.arch_param ≡ some e
      → init_task_lsr cfg policy port t p k ≡ ok (InitResult.port_error e) k
      → LsrOutcome cfg policy port t p k
  registered :
      (d : ℕ) (after : Kernel)
      → start_domain cfg policy port p.dom_id p.cpu_id p.task_id k ≡ some d
      → init_task_lsr cfg policy port t p k ≡ ok InitResult.done after
      → after.k_tasks p.task_id ≡ some t
      → (after.tasks t).state ≡ SchedState.lsr_dormant
      → (after.tasks t).type ≡ TaskType.lsr
      → (after.tasks t).domain.cur_domain ≡ some d
      → LsrOutcome cfg policy port t p k

module _ (cfg : Config) (policy : Policy) (port : Port) (t : ℕ) (p : LsrParam) (k : Kernel)
    (early : k.plugins_done ≡ false) where
  abbrev filled : ℕ → Kernel
  filled d = record k { tasks = update k.tasks t (as_lsr p d (k.tasks t)) }

  abbrev listed_in : ℕ → Kernel
  listed_in d = record (filled d) {
    k_tasks = update k.k_tasks p.task_id (some t);
    tasks = update (filled d).tasks t (record ((filled d).tasks t) { task_id = p.task_id });
    trace = Event.lsr_push t ∷ Event.ctx_init t (k.domains d).invocation_info.start ∷ k.trace;
  }

  free_number :
      (d : ℕ)
      → start_domain cfg policy port p.dom_id p.cpu_id p.task_id k ≡ some d
      → (leb (table_length cfg) p.task_id || is_some (k.k_tasks p.task_id)) ≡ false
  unfolding start_domain task_can_add
  free_number d e =
      elim (Bool-cases (
        cfg.cpu_id_validate p.cpu_id
        && (ltb p.task_id (table_length cfg) && not (is_some (k.k_tasks p.task_id))))) [
          | inl good ↦ ground (arith, good)
          | inr bad ↦ cc (rw bad at e)
        ]

  register-listed :
      (d : ℕ)
      → start_domain cfg policy port p.dom_id p.cpu_id p.task_id k ≡ some d
      → register_lsr cfg policy port t p d k ≡ ok InitResult.done (listed_in d)
  unfolding register_lsr task_add
  register-listed d e = rw (free_number d e) refl

  init-start_lsr :
      (o : Option ℕ)
      → start_domain cfg policy port p.dom_id p.cpu_id p.task_id k ≡ o
      → init_task_lsr cfg policy port t p k ≡ start_lsr cfg policy port t p o k
  unfolding init_task_lsr
  init-start_lsr o e =
      assert-true
        (start_lsr cfg policy port t p (start_domain cfg policy port p.dom_id p.cpu_id p.task_id k))
        (ap not early) k
      ∙ ap (λ o. start_lsr cfg policy port t p o k) e

  lsr_port_case :
      (d : ℕ) (o : Option ℕ)
      → port.lsr_info_init p.arch_param ≡ o
      → start_domain cfg policy port p.dom_id p.cpu_id p.task_id k ≡ some d
      → init_task_lsr cfg policy port t p k ≡ after_port o (register_lsr cfg policy port t p d) k
      → LsrOutcome cfg policy port t p k
  lsr_port_case d none e found run =
      LsrOutcome.registered d (listed_in d) found (run ∙ register-listed d found) (ground arith)
        (ground arith) (ground arith) (ground arith)
  lsr_port_case d (some n) e found run = LsrOutcome.port_error n e run

  lsr_case :
      (o : Option ℕ)
      → start_domain cfg policy port p.dom_id p.cpu_id p.task_id k ≡ o
      → LsrOutcome cfg policy port t p k
  unfolding start_lsr
  lsr_case none e = LsrOutcome.refused e (init-start_lsr none e)
  lsr_case (some d) e =
      lsr_port_case d (port.lsr_info_init p.arch_param) refl e (init-start_lsr (some d) e)

-- Before the kernel starts to tick, kPluginInitTaskLsr fails no assertion. It refuses an LSR whose
-- domain, cpu or number it cannot use, and returns the error of the port, and then nothing changes;
-- otherwise the LSR stands in the table under its number, dormant in its domain.
pub init_task_lsr-LsrOutcome :
    (cfg : Config) (policy : Policy) (port : Port) (t : ℕ) (p : LsrParam) (k : Kernel)
    → k.plugins_done ≡ false
    → LsrOutcome cfg policy port t p k
init_task_lsr-LsrOutcome cfg policy port t p k early =
    lsr_case cfg policy port t p k early
      (start_domain cfg policy port p.dom_id p.cpu_id p.task_id k) refl
