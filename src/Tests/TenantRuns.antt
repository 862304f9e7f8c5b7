-- ===== src/Tests/TenantRuns.antt =====
-- Delegated access to the small organisation.
use codex_nieuw.Prelude.{ℕ, ◌≡◌, ◌⊎◌, refl, String, none, some, [], ◌∷◌, ◌++◌, arith}
use codex_nieuw.Prelude.Outcome.{Outcome, ok}
use codex_nieuw.Rules.StateMachine.{ready}
use codex_nieuw.Store.Rows.{Db, WrittenAuthorisation}
use codex_nieuw.Tenant.Scope.{permits_authorisation_scope, is_authorisation_scope_record}
use codex_nieuw.Tenant.Access.{
  Actor, Delegation, Tenancy, can_activate, delegate, recheck, run, scoped_event, scope_path,
}
use codex_nieuw.Tenant.Access.Delegated.{
  IsAuthorised, can_activate-IsAuthorised, run-IsAuthorised, delegation_by,
}
use codex_nieuw.Tests.World.{world}

abbrev pub provider : Actor
provider = record { subject = "provider"; organisation_id = 2; role = "service_provider" }

abbrev pub delegation : Delegation
delegation = record {
  authorisation_id = 40;
  provider_organisation_id = 2;
  responsible_organisation_id = 1;
  actor_subject = "provider";
  required_scope = "itemRead";
}

abbrev tenancy : Tenancy
tenancy = record { tenant_organisation_id = 1; delegation = some delegation }

activates : can_activate provider (some 1) (some "itemRead") 100 (world ready) ≡ ok tenancy
unfolding can_activate delegate scope_path permits_authorisation_scope is_authorisation_scope_record
activates = refl

can_activate-IsAuthorised_example :
    ((tenancy.tenant_organisation_id ≡ provider.organisation_id) × (tenancy.delegation ≡ none))
    ⊎ ((name : String) × (row : WrittenAuthorisation) × (some "itemRead" ≡ some name)
        × IsAuthorised (world ready) 1 2 name 100 row
        × (tenancy ≡ delegation_by provider 1 name row))
can_activate-IsAuthorised_example =
    can_activate-IsAuthorised provider (some 1) (some "itemRead") 100 (world ready) tenancy
      activates

abbrev count_items : Db → Outcome (ℕ × Db)
count_items db = ok (1, db)

abbrev done : ℕ × Db
done = (1, record (world ready) { audit = scoped_event delegation 1 ∷ [] })

runs : run count_items 1 100 (some delegation) (world ready) ≡ ok done
unfolding run recheck scope_path permits_authorisation_scope is_authorisation_scope_record
runs = refl

run-IsAuthorised_example :
    (row : WrittenAuthorisation) × (s : ℕ × Db) × (row.id ≡ 40)
    × IsAuthorised (world ready) 1 2 "itemRead" 100 row
    × (count_items (world ready) ≡ ok s)
    × ((done.1).audit ≡ (s.1).audit ++ scoped_event delegation 1 ∷ [])
run-IsAuthorised_example =
    run-IsAuthorised count_items 1 100 delegation (world ready) done runs (λ e. ground arith)
