-- ===== src/Authorisations.antt =====
-- apps/api/src/modules/authorisations/authorisations.controller.ts: granting and revoking written
-- authorisations. A request body is what its schema has accepted.
pub mod Granting
use codex_nieuw.Prelude.{
  ℕ, String, Bool, true, false, not, ◌&&◌, Option, none, some, List, [], ◌∷◌, ◌++◌, ltb, leb, ◌==◌,
  if◌then◌else◌, find?, is_some, or_else, update_where,
}
use codex_nieuw.Prelude.Outcome.{
  Outcome, ok, err, ◌>>=◌, ◌>>◌, require, found, not_found, responsible_operator_required,
  invalid_authorisation_interval, self_authorisation, verified_authorisation_evidence_required,
}
use codex_nieuw.Store.Rows.{EvidenceObject, WrittenAuthorisation, Db}
use codex_nieuw.Store.Queries.{is_verified}
use codex_nieuw.Tenant.Scope.{ScopeJson}
use codex_nieuw.Tenant.Access.{Actor}
use codex_nieuw.Passports.Document.{audit_event}

pub record AuthorisationBody : Type 0 where
  pub service_provider_id : ℕ
  pub evidence_id : ℕ
  pub scope : ScopeJson
  pub valid_from : Option ℕ
  pub valid_until : Option ℕ

abbrev pub owns_evidence : ℕ → ℕ → EvidenceObject → Bool
owns_evidence organisation_id id e = e.id == id && (e.organisation_id == organisation_id)

abbrev pub owns_authorisation : ℕ → ℕ → WrittenAuthorisation → Bool
owns_authorisation organisation_id id a =
    a.id == id && (a.responsible_operator_id == organisation_id)

-- `validUntil && validUntil <= validFrom`
abbrev pub ends_early : Option ℕ → ℕ → Bool
ends_early none from = false
ends_early (some until) from = leb until from

-- `evidence.verificationStatus !== 'verified' || !evidence.sha256`, otherwise the hash
abbrev pub document_hash : EvidenceObject → Option ℕ
document_hash e = if is_verified e.verification_status then e.sha256 else none

module _ (time : ℕ → ℕ) (uuid : ℕ → ℕ) (actor : Actor) where
  abbrev pub require_responsible_operator : ℕ → Outcome (Unit {0})
  require_responsible_operator organisation_id =
      require (actor.organisation_id == organisation_id) responsible_operator_required

  abbrev pub new_authorisation : ℕ → AuthorisationBody → ℕ → ℕ → WrittenAuthorisation
  new_authorisation organisation_id b from hash = record {
    id = uuid 0;
    responsible_operator_id = organisation_id;
    service_provider_id = b.service_provider_id;
    scope_json = b.scope;
    document_sha256 = hash;
    valid_from = from;
    valid_until = b.valid_until;
    revoked_at = none;
  }

  -- `POST authorisations`
  unfoldable pub create_authorisation :
      ℕ → AuthorisationBody → Db → Outcome (WrittenAuthorisation × Db)
  create_authorisation organisation_id b db = do
    require_responsible_operator organisation_id
    let from = or_else b.valid_from (time 0)
    require (not (ends_early b.valid_until from)) invalid_authorisation_interval
    require (not (b.service_provider_id == organisation_id)) self_authorisation
    evidence ← found (find? (owns_evidence organisation_id b.evidence_id) db.evidence) not_found
    hash ← found (document_hash evidence) verified_authorisation_evidence_required
    let row = new_authorisation organisation_id b from hash
    ok (
      row,
      record db {
        authorisations = db.authorisations ++ row ∷ [];
        audit = db.audit ++ audit_event organisation_id actor "authorisation.create" row.id ∷ [];
      },
    )

  abbrev pub revoked_row : WrittenAuthorisation → WrittenAuthorisation
  revoked_row a = record a { revoked_at = some (time 0) }

  abbrev pub has_number : ℕ → WrittenAuthorisation → Bool
  has_number id a = a.id == id

  -- `POST authorisations/:id/revoke`
  unfoldable pub revoke_authorisation : ℕ → ℕ → Db → Outcome (WrittenAuthorisation × Db)
  revoke_authorisation organisation_id id db = do
    require_responsible_operator organisation_id
    existing ← found (find? (owns_authorisation organisation_id id) db.authorisations) not_found
    ok (
      revoked_row existing,
      record db {
        authorisations = update_where (has_number id) revoked_row db.authorisations;
        audit = db.audit ++ audit_event organisation_id actor "authorisation.revoke" id ∷ [];
      },
    )
