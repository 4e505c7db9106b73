-- ===== src/Plugin/Domains.antt =====
-- kPluginInitDomain: a domain is refused without a trace, or found under its number from then on.
use workhorse_rt.Common.{ℕ, ◌≤◌, ◌<◌, ◌≢◌, ◌≡◌, false, none, some, update}
use workhorse_rt.Kernel.{Kernel, Config}
use workhorse_rt.Kernel.Monad.{ok}
use workhorse_rt.Domain.{universe_get}
use workhorse_rt.Sched.Policy.{Policy}
use workhorse_rt.Plugin.{Port, InitResult, DomainParam, init_domain}

-- What kPluginInitDomain does with a domain.
pub data DomainOutcome (cfg : Config) (policy : Policy) (port : Port) (d : ℕ) (p : DomainParam)
    (k : Kernel) : Type 0 where
  no_slot :
      cfg.max_domains ≤ p.dom_id
      → init_domain cfg policy port d p k ≡ ok InitResult.refused k
      → DomainOutcome cfg policy port d p k
  number_taken :
      (other : ℕ)
      → k.domain_table p.dom_id ≡ some other
      → init_domain cfg policy port d p k ≡ ok InitResult.refused k
      → DomainOutcome cfg policy port d p k
  port_error :
      (e : ℕ)
      → port.domain_info_init p.arch_param ≡ some e
      → init_domain cfg policy port d p k ≡ ok (InitResult.port_error e) k
      → DomainOutcome cfg policy port d p k
  registered :
      (after : Kernel)
      → p.dom_id < cfg.max_domains
      → k.domain_table p.dom_id ≡ none
      → init_domain cfg policy port d p k ≡ ok InitResult.done after
      → universe_get cfg p.dom_id after ≡ some d
      → (after.domains d).dom_id ≡ p.dom_id
      → (after.domains d).invocation_info ≡ p.invocation_info
      → ((id : ℕ) → id ≢ p.dom_id → after.domain_table id ≡ k.domain_table id)
      → DomainOutcome cfg policy port d p k

module _ (cfg : Config) (policy : Policy) (port : Port) (d : ℕ) (p : DomainParam) (k : Kernel)
    (early : k.plugins_done ≡ false) where
  abbrev informed : Kernel
  informed = record k {
    domains = update k.domains d (record (k.domains d) { invocation_info = p.invocation_info });
  }

  abbrev added : Kernel
  added = record informed {
    domain_table = update k.domain_table p.dom_id (some d);
    domains = update informed.domains d (record (informed.domains d) { dom_id = p.dom_id });
  }
