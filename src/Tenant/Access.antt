-- ===== src/Tenant/Access.antt =====
-- apps/api/src/common/tenant/tenant.guard.ts and tenant-db.service.ts: which organisation a request
-- acts for, and the transaction that every handler runs in. Times are readings of the clock, one
-- for each `new Date()`.
pub mod Delegated
use codex_nieuw.Prelude.{
  ℕ, zero, suc, String, ◌≡◌, Bool, true, false, not, ◌&&◌, ◌||◌, Option, none, some, List, [], ◌∷◌,
  ◌++◌, ltb, leb, ◌==◌, if◌then◌else◌, or_else, find?, keep, length, is_some, str_eq,
}
use codex_nieuw.Prelude.Outcome.{
  Outcome, ok, err, ◌>>=◌, ◌>>◌, require, found, delegation_not_allowed, no_written_authorisation,
  delegated_tenant_mismatch,
}
use codex_nieuw.Tenant.Scope.{ScopeJson, not_object, entries, permits_authorisation_scope}
use codex_nieuw.Store.Rows.{Db, WrittenAuthorisation, AuditEvent}

pub record Actor : Type 0 where
  pub subject : String
  pub organisation_id : ℕ
  pub role : String

-- `DelegatedContext`, less the request and handler names, which only audit metadata repeats.
pub record Delegation : Type 0 where
  pub authorisation_id : ℕ
  pub provider_organisation_id : ℕ
  pub responsible_organisation_id : ℕ
  pub actor_subject : String
  pub required_scope : String

-- What the guard leaves on the request.
pub record Tenancy : Type 0 where
  pub tenant_organisation_id : ℕ
  pub delegation : Option Delegation

-- `revokedAt: null, validFrom: { lte: now }, OR: [{ validUntil: null }, { validUntil: { gt: now } }]`
abbrev pub in_force : WrittenAuthorisation → ℕ → Bool
in_force row now =
    not (is_some row.revoked_at)
    && leb row.valid_from now
    && (elim row.valid_until [ none ↦ true | some until ↦ ltb now until ])

abbrev pub between : WrittenAuthorisation → ℕ → ℕ → Bool
between row responsible provider =
    row.responsible_operator_id == responsible && (row.service_provider_id == provider)

-- `scopeJson: { path: [scope], equals: true }`
abbrev pub has_true : List (String × Option Bool) → String → Bool
has_true [] scope = false
has_true ((key, some true) ∷ es) scope = str_eq key scope || has_true es scope
has_true ((key, b) ∷ es) scope = has_true es scope

unfoldable pub scope_path : ScopeJson → String → Bool
scope_path not_object scope = false
scope_path (entries es) scope = has_true es scope

-- The first row of `orderBy: { id: 'asc' }` among the given rows.
abbrev pub least_id : List WrittenAuthorisation → Option WrittenAuthorisation
least_id [] = none
least_id (row ∷ rows) = elim (least_id rows) [
  | none ↦ some row
  | some other ↦ if leb row.id other.id then some row else some other
]

-- A row that the guard's query returns and its `find` accepts.
abbrev pub is_candidate : ℕ → ℕ → String → ℕ → WrittenAuthorisation → Bool
is_candidate responsible provider scope now row =
    between row responsible provider
    && in_force row now
    && scope_path row.scope_json scope
    && permits_authorisation_scope row.scope_json scope

-- The guard for a foreign tenant, once the handler's scope is known.
unfoldable pub delegate : Actor → ℕ → Option String → ℕ → Db → Outcome Tenancy
delegate actor requested none now db = err delegation_not_allowed
delegate actor requested (some scope) now db =
    elim (least_id
      (keep (is_candidate requested actor.organisation_id scope now) db.authorisations)) [
        | none ↦ err no_written_authorisation
        | some row ↦ ok record {
          tenant_organisation_id = requested;
          delegation = some record {
            authorisation_id = row.id;
            provider_organisation_id = actor.organisation_id;
            responsible_organisation_id = requested;
            actor_subject = actor.subject;
            required_scope = scope;
          };
        }
      ]

-- `canActivate` of a route that is not public; `header` is `x-acting-organisation-id`.
unfoldable pub can_activate : Actor → Option ℕ → Option String → ℕ → Db → Outcome Tenancy
can_activate actor header required_scope now db =
    let requested = or_else header actor.organisation_id in
    if requested == actor.organisation_id
    then ok record { tenant_organisation_id = requested; delegation = none }
    else delegate actor requested required_scope now db

abbrev pub is_delegated_row : Delegation → ℕ → WrittenAuthorisation → Bool
is_delegated_row d organisation_id row =
    row.id == d.authorisation_id && between row organisation_id d.provider_organisation_id

-- The recheck inside the transaction.
unfoldable pub recheck : Delegation → ℕ → ℕ → Db → Outcome (Unit {0})
recheck d organisation_id now db = do
  require (length (keep (is_delegated_row d organisation_id) db.authorisations) == 1)
      no_written_authorisation
  require
      (elim (find?
        (λ row.
          is_delegated_row d organisation_id row
          && in_force row now
          && scope_path row.scope_json d.required_scope)
        db.authorisations) [
          | none ↦ false
          | some row ↦ permits_authorisation_scope row.scope_json d.required_scope
        ])
      no_written_authorisation

abbrev pub scoped_event : Delegation → ℕ → AuditEvent
scoped_event d organisation_id = record {
  organisation_id = organisation_id;
  actor_subject = d.actor_subject;
  action = "authorisation.scoped_transaction";
  resource_id = d.authorisation_id;
}

module _ {A : Type 0} (work : Db → Outcome (A × Db)) (organisation_id : ℕ) (now : ℕ) where
  run_delegated : Delegation → Db → Outcome (A × Db)
  run_delegated d db = do
    require
        ((organisation_id == d.provider_organisation_id)
          || (organisation_id == d.responsible_organisation_id))
        delegated_tenant_mismatch
    if organisation_id == d.provider_organisation_id
        then ok tt
        else recheck d organisation_id now db
    r ← work db
    ok (
        if organisation_id == d.responsible_organisation_id
        then (r.0, record r.1 { audit = (r.1).audit ++ scoped_event d organisation_id ∷ [] })
        else r)

  -- `TenantDbService.run`: an exception, of the checks or of the work, undoes the transaction.
  unfoldable pub run : Option Delegation → Db → Outcome (A × Db)
  unfolding run_delegated
  run none db = work db
  run (some d) db = run_delegated d db
