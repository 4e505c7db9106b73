-- ===== src/Domain/Table.antt =====
-- The table of domains, and who may invoke whom.
use workhorse_rt.Common.{ℕ, ◌≡◌, ◌≢◌, ◌⊎◌, true, false, some, arith, Bool-cases, inl, inr, update}
use workhorse_rt.Kernel.{Kernel, Config}
use workhorse_rt.Kernel.Monad.{ok}
use workhorse_rt.Domain.{universe_get, universe_add, universe_can_add}

-- kDomainUniverseAdd under a free id below the size of the table adds the domain, which
-- kDomainUniverseGet finds from then on, as it does the others; under any other id it fails and
-- changes nothing. kDomainUniverseCanAdd says which.
pub universe_get-add :
    (cfg : Config) (id d : ℕ) (k : Kernel)
    → ((universe_can_add cfg id k ≡ true)
        × ((after : Kernel) × (universe_add cfg id d k ≡ ok true after)
            × (universe_get cfg id after ≡ some d)
            × ((after.domains d).dom_id ≡ id)
            × ((j : ℕ) → j ≢ id → universe_get cfg j after ≡ universe_get cfg j k)))
      ⊎ ((universe_can_add cfg id k ≡ false) × (universe_add cfg id d k ≡ ok false k))
unfolding universe_get universe_add universe_can_add
universe_get-add cfg id d k = elim (Bool-cases (universe_can_add cfg id k)) [
  | inl free ↦ inl (
    free,
    (
      record k {
        domain_table = update k.domain_table id (some d);
        domains = update k.domains d (record (k.domains d) { dom_id = id });
      },
      ground arith,
      ground arith,
      ground arith,
      λ j other. ground arith,
    ),
  )
  | inr taken ↦ inr (taken, ground arith)
]
